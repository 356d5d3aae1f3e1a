-- ===== src/Websocket/Masks.antt =====
-- src/mdfeed/wsproto.py: bits of a byte; a mask that is applied twice gives the payload again.
use market_feed_platform.Prelude.{
  sym, inl, inr, Bool-cases, false, ltb, ℕ, zero, suc, ◌+◌, ◌<◌, ◌≡◌, refl, ap, arith, Bool, true,
  not, ◌&&◌, [], ◌∷◌, ◌==◌, ==→eq, length,
}
use mathlib.Core.Path.{subst}
use market_feed_platform.Prelude.Bytes.{Bytes}
use market_feed_platform.Websocket.{key_at, apply_mask}
use Prim.Native.Nat.{bit_and, bit_or, bit_xor}

-- A test of every number before a bound.
holds_before : (ℕ → Bool) → ℕ → Bool
holds_before test zero = true
holds_before test (suc bound) = holds_before test bound && test bound

test_at :
    (test : ℕ → Bool) (bound n : ℕ) → n < bound → holds_before test bound ≡ true → test n ≡ true
unfolding holds_before
test_at test zero n before all = absurd (omega (arith, before))
test_at test (suc bound) n before all = elim (Bool-cases (n == bound)) [
  | inl last ↦
      let same : n ≡ bound = ground (arith, last) in
      subst (λ k. test k ≡ true) (sym same) (ground (arith, all))
  | inr earlier ↦ test_at test bound n (ground (arith, before, earlier)) (ground (arith, all))
]

xor_table : holds_before (λ k. holds_before (λ b. bit_xor (bit_xor b k) k == b) 256) 256 ≡ true
unfolding holds_before
xor_table = refl

xor_twice : (k b : ℕ) → k < 256 → b < 256 → bit_xor (bit_xor b k) k ≡ b
xor_twice k b hk hb =
    let row =
      test_at (λ y. holds_before (λ x. bit_xor (bit_xor x y) y == x) 256) 256 k hk xor_table in
    ==→eq (bit_xor (bit_xor b k) k) b (test_at (λ x. bit_xor (bit_xor x k) k == x) 256 b hb row)

abbrev pub AllByte : Bytes → Type 0
AllByte [] = Unit
AllByte (b ∷ bs) = (b < 256) × AllByte bs

key_bound : (key : Bytes) (i : ℕ) → AllByte key → key_at key i < 256
unfolding key_at
key_bound [] i h = omega arith
key_bound (b ∷ key) zero h = h.0
key_bound (b ∷ key) (suc i) h = key_bound key i h.1

pub apply_mask-apply_mask :
    (key : Bytes) (i : ℕ) (bs : Bytes)
    → AllByte key
    → AllByte bs
    → apply_mask key i (apply_mask key i bs) ≡ bs
unfolding apply_mask
apply_mask-apply_mask key i [] hk hb = refl
apply_mask-apply_mask key i (b ∷ bs) hk hb =
    rw
      (
        xor_twice (key_at key (bit_and i 3)) b (key_bound key (bit_and i 3) hk) hb.0,
        apply_mask-apply_mask key (i + 1) bs hk hb.1,
      )
      refl

pub length-apply_mask :
    (key : Bytes) (i : ℕ) (bs : Bytes) → length (apply_mask key i bs) ≡ length bs
unfolding apply_mask
length-apply_mask key i [] = refl
length-apply_mask key i (b ∷ bs) = ap suc (length-apply_mask key (i + 1) bs)

-- The first two bytes of a frame.
op_table :
    holds_before
      (λ op.
        not (bit_and (bit_or 128 op) 128 == 0)
        && bit_and (bit_or 128 op) 15 == op
        && ltb (bit_or 128 op) 256)
      16
    ≡ true
unfolding holds_before
op_table = refl

len_table :
    holds_before
      (λ x.
        not (bit_and (bit_or 128 x) 128 == 0)
        && bit_and (bit_or 128 x) 127 == x
        && bit_and (bit_or 0 x) 128 == 0
        && bit_and (bit_or 0 x) 127 == x)
      128
    ≡ true
unfolding holds_before
len_table = refl

pub op_bits :
    (op : ℕ)
    → op < 16
    → (not (bit_and (bit_or 128 op) 128 == 0) ≡ true)
      × (bit_and (bit_or 128 op) 15 ≡ op)
      × (bit_or 128 op < 256)
op_bits op h =
    let row = test_at _ 16 op h op_table in
    (ground (arith, row), ground (arith, row), ground (arith, row))

pub masked_bits :
    (x : ℕ)
    → x < 128
    → (not (bit_and (bit_or 128 x) 128 == 0) ≡ true) × (bit_and (bit_or 128 x) 127 ≡ x)
masked_bits x h =
    let row = test_at _ 128 x h len_table in (ground (arith, row), ground (arith, row))

pub plain_bits :
    (x : ℕ)
    → x < 128
    → (not (bit_and (bit_or 0 x) 128 == 0) ≡ false) × (bit_and (bit_or 0 x) 127 ≡ x)
plain_bits x h = let row = test_at _ 128 x h len_table in (ground (arith, row), ground (arith, row))

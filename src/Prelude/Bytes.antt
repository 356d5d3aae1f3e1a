-- ===== src/Prelude/Bytes.antt =====
-- Byte strings are lists of numbers; `struct.pack` and `struct.unpack` of one big-endian field.
use Prim.Native.Nat.{ℕ, zero, suc, ◌+◌, ◌*◌, ◌/◌, ◌%◌, ◌^◌, ◌<◌}
use mathlib.Core.Path.{◌≡◌, refl}
use mathlib.Core.Bool.{Bool, true, false, ◌&&◌}
use mathlib.Core.List.{List, [], ◌∷◌, ◌++◌}
use native.Mathlib.Omega.{arith}
use native.Mathlib.Nat.{pow-suc}
use market_feed_platform.Prelude.Tests.{◌==◌}
use market_feed_platform.Prelude.Lists.{length, length-append}

abbrev pub Bytes : Type 0
Bytes = List ℕ

-- The `w` bytes of `n`, most significant first.
abbrev pub pack_be : ℕ → ℕ → Bytes
pack_be zero n = []
pack_be (suc w) n = pack_be w (n / 256) ++ (n % 256 ∷ [])

abbrev unpack_from : ℕ → Bytes → ℕ
unpack_from acc [] = acc
unpack_from acc (b ∷ bs) = unpack_from (acc * 256 + b) bs

abbrev pub unpack_be : Bytes → ℕ
unpack_be = unpack_from 0

unpack_from-append :
    (acc : ℕ) (xs ys : Bytes) → unpack_from acc (xs ++ ys) ≡ unpack_from (unpack_from acc xs) ys
unpack_from-append acc [] ys = refl
unpack_from-append acc (x ∷ xs) ys = unpack_from-append (acc * 256 + x) xs ys

pub length-pack_be : (w n : ℕ) → length (pack_be w n) ≡ w
length-pack_be zero n = refl
length-pack_be (suc w) n =
    omega (arith, length-append (pack_be w (n / 256)) (n % 256 ∷ []), length-pack_be w (n / 256))

-- A field that fits its width is read back.
pub unpack-pack_be : (w n : ℕ) → n < 256 ^ w → unpack_be (pack_be w n) ≡ n
unpack-pack_be zero n h = omega arith
unpack-pack_be (suc w) n h =
    rw
      (
        unpack_from-append 0 (pack_be w (n / 256)) (n % 256 ∷ []),
        unpack-pack_be w (n / 256) (omega (arith, pow-suc 256 w)),
      )
      (omega arith)

abbrev pub bytes_eq : Bytes → Bytes → Bool
bytes_eq [] [] = true
bytes_eq (x ∷ xs) (y ∷ ys) = x == y && bytes_eq xs ys
bytes_eq _ _ = false

pub bytes_eq_refl : (xs : Bytes) → bytes_eq xs xs ≡ true
bytes_eq_refl [] = refl
bytes_eq_refl (x ∷ xs) = ground (arith, bytes_eq_refl xs)

pub bytes_eq→eq : (xs ys : Bytes) → bytes_eq xs ys ≡ true → xs ≡ ys
bytes_eq→eq [] [] h = refl
bytes_eq→eq [] (y ∷ ys) h = ground arith
bytes_eq→eq (x ∷ xs) [] h = ground arith
bytes_eq→eq (x ∷ xs) (y ∷ ys) h = ground (arith, bytes_eq→eq xs ys)

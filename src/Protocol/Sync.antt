-- ===== src/Protocol/Sync.antt =====
-- Where a damaged stream is taken up again: `sync` drops bytes up to the next MAGIC, or all but
-- the last three.  `_resync` computes it.
use market_feed_platform.Prelude.{
  ℕ, suc, ◌-◌, ◌≤◌, ◌≡◌, refl, sym, ◌∙◌, ap, ◌⊎◌, inl, inr, Bool, true, false, Option, none, some,
  [], ◌∷◌, ◌++◌, arith, ltb, if◌then◌else◌, length, take, drop, take-append, length-append, ltb→le,
  length-drop, Bool-cases, Option-cases,
}
use market_feed_platform.Prelude.Bytes.{Bytes, bytes_eq}
use market_feed_platform.Protocol.{magic, find, find_next, resync, FrameParser, need_more, retry}

abbrev pub has_magic : Bytes → Bool
has_magic buf = bytes_eq (take 4 buf) magic

pub sync : Bytes → Bytes
sync [] = []
sync (b ∷ bs) = if ltb (length bs) 3 then b ∷ bs else if has_magic (b ∷ bs) then b ∷ bs else sync bs

pub length-sync-le : (buf : Bytes) → length (sync buf) ≤ length buf
unfolding sync
length-sync-le [] = omega arith
length-sync-le (b ∷ bs) = ground (arith, length-sync-le bs)

pub sync_short : (buf : Bytes) → length buf ≤ 3 → sync buf ≡ buf
unfolding sync
sync_short [] h = refl
sync_short (b ∷ bs) h = ground arith

pub sync_magic : (buf : Bytes) → has_magic buf ≡ true → sync buf ≡ buf
unfolding sync
sync_magic [] h = refl
sync_magic (b ∷ bs) h = elim (Bool-cases (ltb (length bs) 3)) [ inl e ↦ rw e | inr e ↦ rw (e, h) ]

pub sync_skip :
    (b : ℕ) (bs : Bytes) → 3 ≤ length bs → has_magic (b ∷ bs) ≡ false → sync (b ∷ bs) ≡ sync bs
unfolding sync
sync_skip b bs h m = let e : ltb (length bs) 3 ≡ false = ground arith in rw (e, m)

pub sync_idem : (buf : Bytes) → sync (sync buf) ≡ sync buf
sync_idem [] = unfold sync in refl
sync_idem (b ∷ bs) = elim (Bool-cases (ltb (length bs) 3)) [
  | inl e ↦ ap sync (sync_short (b ∷ bs) (ground arith))
  | inr e ↦ elim (Bool-cases (has_magic (b ∷ bs))) [
    | inl m ↦ ap sync (sync_magic (b ∷ bs) m)
    | inr m ↦ rw (sync_skip b bs (ground arith) m) (sync_idem bs)
  ]
]

-- More bytes behind a synchronised buffer: the same place is found.
pub sync-append : (a b : Bytes) → sync (sync a ++ b) ≡ sync (a ++ b)
sync-append [] b = unfold sync in refl
sync-append (x ∷ a) b = elim (Bool-cases (ltb (length a) 3)) [
  | inl e ↦ ap (λ t. sync (t ++ b)) (sync_short (x ∷ a) (ground arith))
  | inr e ↦ elim (Bool-cases (has_magic (x ∷ a))) [
    | inl m ↦ ap (λ t. sync (t ++ b)) (sync_magic (x ∷ a) m)
    | inr m ↦ rw (sync_skip x a (ground arith) m) (
        sync-append a b
        ∙ sym (
            sync_skip x (a ++ b) (omega (arith, length-append a b, ltb→le (length a) 3 e))
              (ap (λ t. bytes_eq t magic) (take-append 4 (x ∷ a) b (ground arith)) ∙ m)))
  ]
]

find_short : (buf : Bytes) → length buf ≤ 3 → find buf ≡ none
unfolding find
find_short [] h = refl
find_short (a ∷ []) h = ground arith
find_short (a ∷ b ∷ []) h = ground arith
find_short (a ∷ b ∷ c ∷ []) h = ground arith
find_short (a ∷ b ∷ c ∷ d ∷ r) h = absurd (omega arith)

-- Where `_resync` cuts, for what `find` answered.
abbrev pub jump : Option ℕ → Bytes → Bytes
jump none buf = drop (length buf - 3) buf
jump (some i) buf = drop i buf

jump-find_here :
    (b : ℕ) (bs : Bytes) → has_magic (b ∷ bs) ≡ true → jump (find (b ∷ bs)) (b ∷ bs) ≡ b ∷ bs
unfolding find
jump-find_here b bs m = rw m

jump-find_next :
    (b : ℕ) (bs : Bytes)
    → 3 ≤ length bs
    → has_magic (b ∷ bs) ≡ false
    → jump (find (b ∷ bs)) (b ∷ bs) ≡ jump (find bs) bs
unfolding find
jump-find_next b bs h m = elim (Option-cases (find bs)) [
  | inl e ↦ let d : length (b ∷ bs) - 3 ≡ suc (length bs - 3) = omega arith in rw (m, e, d)
  | inr (i, e) ↦ rw (m, e)
]

pub jump-find : (buf : Bytes) → jump (find buf) buf ≡ sync buf
jump-find [] = unfold find sync in refl
jump-find (b ∷ bs) = elim (Bool-cases (ltb (length bs) 3)) [
  | inl e ↦ rw (find_short (b ∷ bs) (ground arith)) (
      let d : length (b ∷ bs) - 3 ≡ 0 = ground arith in
      rw d (sym (sync_short (b ∷ bs) (ground arith))))
  | inr e ↦ elim (Bool-cases (has_magic (b ∷ bs))) [
    | inl m ↦ jump-find_here b bs m ∙ sym (sync_magic (b ∷ bs) m)
    | inr m ↦
        jump-find_next b bs (ltb→le _ _ e) m ∙ jump-find bs ∙ sym (sync_skip b bs (ltb→le _ _ e) m)
  ]
]

buf-resync-jump : (p : FrameParser) → (resync p).1.buf ≡ jump (find_next p.buf) p.buf
unfolding resync
buf-resync-jump p = ground (arith, Option-cases (find_next p.buf))

jump-find_cons :
    (b : ℕ) (bs : Bytes) → 3 ≤ length bs → jump (find_next (b ∷ bs)) (b ∷ bs) ≡ jump (find bs) bs
unfolding find_next
jump-find_cons b bs h = elim (Option-cases (find bs)) [
  | inl f ↦ let d : length (b ∷ bs) - 3 ≡ suc (length bs - 3) = omega arith in rw (f, d)
  | inr (i, f) ↦ rw f
]

uncons : (buf : Bytes) → 4 ≤ length buf → (b : ℕ) × (bs : Bytes) × (buf ≡ b ∷ bs) × (3 ≤ length bs)
uncons [] h = absurd (omega arith)
uncons (b ∷ bs) h = (b, bs, refl, omega arith)

module _ (p : FrameParser) (h : 4 ≤ length p.buf) where
  -- `_resync` moves the buffer to its next place.
  pub buf-resync : (resync p).1.buf ≡ sync (drop 1 p.buf)
  buf-resync =
      let (b, bs, e, l) = uncons p.buf h in
      buf-resync-jump p
      ∙ ap (λ (t : Bytes). jump (find_next t) t) e
      ∙ jump-find_cons b bs l
      ∙ jump-find bs
      ∙ ap (λ (t : Bytes). sync (drop 1 t)) (sym e)

  -- It asks for a retry there, or for more bytes when three at most are left.
  pub status-resync :
      ((resync p).0 ≡ retry) ⊎ (((resync p).0 ≡ need_more) × (length (sync (drop 1 p.buf)) ≤ 3))
  unfolding resync find_next
  status-resync =
      let bs = drop 1 p.buf in
      ground (
        arith,
        jump-find bs,
        length-drop 1 p.buf,
        length-drop (length bs - 3) bs,
        Option-cases (find bs),
      )

pub crc_error_count-resync : (p : FrameParser) → (resync p).1.crc_error_count ≡ p.crc_error_count
unfolding resync
crc_error_count-resync p = ground arith

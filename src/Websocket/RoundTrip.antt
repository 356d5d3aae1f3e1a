-- ===== src/Websocket/RoundTrip.antt =====
-- src/mdfeed/wsproto.py: what `encode_frame` makes is what `FrameDecoder` reads.
use market_feed_platform.Prelude.{
  ℕ, ◌^◌, ◌≤◌, ◌<◌, ◌≡◌, refl, ap, ◌∙◌, arith, inl, inr, Bool-cases, Bool, true, false, ◌&&◌,
  Option, none, some, [], ◌∷◌, ◌++◌, ltb, leb, ◌==◌, if◌then◌else◌, length, length-append, take,
  drop, take-append_length, drop-append_length,
}
use mathlib.Core.Path.{subst}
use mathlib.Core.List.{append_assoc}
use market_feed_platform.Prelude.Bytes.{Bytes, pack_be, length-pack_be, unpack-pack_be}
use Prim.Native.Nat.{bit_or}
use market_feed_platform.Websocket.{
  is_control, max_frame, apply_mask, Encoded, bytes, raised, mask_bit, encode_length,
  encode_payload, encode_frame, item, parse_payload, parse_body, parse_length, parse,
}
use market_feed_platform.Websocket.Masks.{
  AllByte, apply_mask-apply_mask, length-apply_mask, op_bits, masked_bits, plain_bits,
}

abbrev pub is_masked : Option Bytes → Bool
is_masked none = false
is_masked (some key) = true

-- A key has four bytes.
abbrev pub KeyFits : Option Bytes → Type 0
KeyFits none = Unit
KeyFits (some key) = (length key ≡ 4) × AllByte key

-- The first byte of the length, and the others.
len7 : ℕ → ℕ
len7 n = if ltb n 126 then n else if ltb n 65536 then 126 else 127

len_rest : ℕ → Bytes
len_rest n = if ltb n 126 then [] else if ltb n 65536 then pack_be 2 n else pack_be 8 n

length_parts :
    (mask : Option Bytes) (n : ℕ)
    → encode_length mask n ≡ bit_or (mask_bit mask) (len7 n) ∷ len_rest n
unfolding encode_length len7 len_rest
length_parts mask n = ground arith

len7_bound : (n : ℕ) → len7 n < 128
unfolding len7
len7_bound n = ground arith

-- The first two bytes are read back.
parse-head :
    (em : Bool) (op x : ℕ) (mask : Option Bytes) (buf : Bytes)
    → op < 16
    → x < 128
    → parse em (bit_or 128 op ∷ bit_or (mask_bit mask) x ∷ buf)
      ≡ parse_length em true op (is_masked mask) x buf
unfolding parse
parse-head em op x none buf ho hx =
    let (fin, code, fits) = op_bits op ho in
    let (m, len) = plain_bits x hx in rw (fin, code, m, len) refl
parse-head em op x (some key) buf ho hx =
    let (fin, code, fits) = op_bits op ho in
    let (m, len) = masked_bits x hx in rw (fin, code, m, len) refl

take-field : (w n : ℕ) (buf : Bytes) → take w (pack_be w n ++ buf) ≡ pack_be w n
take-field w n buf =
    subst (λ k. take k (pack_be w n ++ buf) ≡ pack_be w n) (length-pack_be w n)
      (take-append_length (pack_be w n) buf)

drop-field : (w n : ℕ) (buf : Bytes) → drop w (pack_be w n ++ buf) ≡ buf
drop-field w n buf =
    subst (λ k. drop k (pack_be w n ++ buf) ≡ buf) (length-pack_be w n)
      (drop-append_length (pack_be w n) buf)

parse_length-len :
    (em : Bool) (op : ℕ) (m : Bool) (n : ℕ) (buf : Bytes)
    → n < 2 ^ 64
    → parse_length em true op m (len7 n) (len_rest n ++ buf) ≡ parse_body em true op m n buf
unfolding parse_length len7 len_rest
parse_length-len em op m n buf h = elim (Bool-cases (ltb n 126)) [
  | inl small ↦
      let e : (n == 126) ≡ false = ground (arith, small) in
      let f : (n == 127) ≡ false = ground (arith, small) in rw (small, e, f) refl
  | inr big ↦ elim (Bool-cases (ltb n 65536)) [
    | inl two ↦
        let there : ltb (length (pack_be 2 n ++ buf)) 2 ≡ false =
          ground (arith, length-append (pack_be 2 n) buf, length-pack_be 2 n) in
        rw (big, two, there)
          (ap (λ z. parse_body em true op m z buf) (unpack-pack_be 2 n (ground (arith, two))))
    | inr more ↦
        let there : ltb (length (pack_be 8 n ++ buf)) 8 ≡ false =
          ground (arith, length-append (pack_be 8 n) buf, length-pack_be 8 n) in
        rw (big, more, there)
          (ap (λ z. parse_body em true op m z buf) (unpack-pack_be 8 n (omega (arith, h))))
  ]
]

-- The payload is read back.
parse_payload-plain :
    (op : ℕ) (payload rest : Bytes)
    → parse_payload true op (length payload) none (payload ++ rest) ≡ item true op payload rest
unfolding parse_payload
parse_payload-plain op payload rest =
    let there : ltb (length (payload ++ rest)) (length payload) ≡ false =
      ground (arith, length-append payload rest) in
    rw (there, take-append_length payload rest, drop-append_length payload rest) refl

parse_payload-masked :
    (op : ℕ) (key payload rest : Bytes)
    → AllByte key
    → AllByte payload
    → parse_payload true op (length payload) (some key) (apply_mask key 0 payload ++ rest)
      ≡ item true op payload rest
unfolding parse_payload
parse_payload-masked op key payload rest hk hp =
    let masked = apply_mask key 0 payload in
    let same_length = length-apply_mask key 0 payload in
    let there : ltb (length (masked ++ rest)) (length payload) ≡ false =
      ground (arith, length-append masked rest, same_length) in
    let taken : take (length payload) (masked ++ rest) ≡ masked =
      subst (λ k. take k (masked ++ rest) ≡ masked) same_length (take-append_length masked rest) in
    let left : drop (length payload) (masked ++ rest) ≡ rest =
      subst (λ k. drop k (masked ++ rest) ≡ rest) same_length (drop-append_length masked rest) in
    rw (there, taken, left, apply_mask-apply_mask key 0 payload hk hp) refl

parse_body-encode_payload :
    (op : ℕ) (mask : Option Bytes) (payload rest : Bytes)
    → KeyFits mask
    → AllByte payload
    → length payload ≤ max_frame
    → parse_body
        (is_masked mask)
        true
        op
        (is_masked mask)
        (length payload)
        (encode_payload mask payload ++ rest)
      ≡ item true op payload rest
unfolding parse_body
parse_body-encode_payload op none payload rest k b le =
    let fits : ltb max_frame (length payload) ≡ false = ground (arith, le) in
    rw fits (parse_payload-plain op payload rest)
parse_body-encode_payload op (some key) payload rest k b le =
    let fits : ltb max_frame (length payload) ≡ false = ground (arith, le) in
    let tail = apply_mask key 0 payload ++ rest in
    let order = append_assoc key (apply_mask key 0 payload) rest in
    let there : ltb (length (key ++ tail)) 4 ≡ false =
      ground (arith, length-append key tail, k.0) in
    let taken : take 4 (key ++ tail) ≡ key =
      subst (λ n. take n (key ++ tail) ≡ key) k.0 (take-append_length key tail) in
    let left : drop 4 (key ++ tail) ≡ tail =
      subst (λ n. drop n (key ++ tail) ≡ tail) k.0 (drop-append_length key tail) in
    rw (order, fits, there, taken, left) (parse_payload-masked op key payload rest k.1 b)

pub encoded_bytes :
    (op : ℕ) (payload : Bytes) (mask : Option Bytes)
    → op < 16
    → (is_control op && ltb 125 (length payload)) ≡ false
    → encode_frame op payload mask
      ≡ bytes (bit_or 128 op ∷ (encode_length mask (length payload) ++ encode_payload mask payload))
unfolding encode_frame
encoded_bytes op payload mask ho c =
    let (fin, code, fits) = op_bits op ho in
    let in_byte : leb 256 (bit_or 128 op) ≡ false = ground (arith, fits) in rw (c, in_byte) refl

-- The bytes of a frame.
unfoldable pub bytes_of : Encoded → Bytes
bytes_of (bytes bs) = bs
bytes_of (raised e) = []

-- A frame whose opcode is below 16 and whose payload is bytes, at most MAX_FRAME of them and at
-- most 125 in a control frame, is encoded without an exception, with a key of four bytes or without
-- one.  A decoder that expects masks exactly if there is a key reads the encoding, whatever follows
-- it, as one final frame with that opcode and payload, and leaves what follows.
pub parse-encode_frame :
    (op : ℕ) (payload rest : Bytes) (mask : Option Bytes)
    → op < 16
    → AllByte payload
    → length payload ≤ max_frame
    → (is_control op && ltb 125 (length payload)) ≡ false
    → KeyFits mask
    → (encode_frame op payload mask ≡ bytes (bytes_of (encode_frame op payload mask)))
      × (parse (is_masked mask) (bytes_of (encode_frame op payload mask) ++ rest)
          ≡ item true op payload rest)
unfolding bytes_of
parse-encode_frame op payload rest mask ho hb le c k =
    let n = length payload in
    let body = encode_payload mask payload in
    let e = encoded_bytes op payload mask ho c in
    let order = append_assoc (len_rest n) body rest in
    rw e (
      refl,
      rw (length_parts mask n) (
          parse-head (is_masked mask) op (len7 n) mask ((len_rest n ++ body) ++ rest) ho
            (len7_bound n)
          ∙ ap (parse_length (is_masked mask) true op (is_masked mask) (len7 n)) order
          ∙ parse_length-len (is_masked mask) op (is_masked mask) n (body ++ rest)
              (omega (arith, le))
          ∙ parse_body-encode_payload op mask payload rest k hb le),
    )

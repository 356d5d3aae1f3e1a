-- ===== src/Websocket/Drained.antt =====
-- src/mdfeed/wsproto.py: the loop of `feed` ends.
use market_feed_platform.Prelude.{
  ℕ, zero, suc, ◌≤◌, ◌<◌, ◌≡◌, refl, sym, ap, arith, inl, inr, Bool-cases, Bool, not, Option, none,
  some, [], ◌∷◌, ◌++◌, ltb, ◌==◌, length, length-drop, take, drop,
}
use mathlib.Core.Path.{subst}
use market_feed_platform.Prelude.Bytes.{Bytes, unpack_be}
use Prim.Native.Nat.{bit_and}
use market_feed_platform.Websocket.{
  is_control, max_frame, Parsed, need_more, failed, item, same, parse_payload, parse_body,
  parse_length, parse, FrameDecoder, Handled, yields, goes_on, breaks, handle, op_cont, Fed,
  after_handle, after_parse, feed_loop, feed,
}

-- A parse leaves at most so many bytes.
abbrev Leaves : ℕ → Parsed → Type 0
Leaves k need_more = Unit
Leaves k (failed e) = Unit
Leaves k (item fin opcode payload rest) = length rest ≤ k

payload-Leaves :
    (fin : Bool) (op n : ℕ) (key : Option Bytes) (buf : Bytes) (k : ℕ)
    → length buf ≤ k
    → Leaves k (parse_payload fin op n key buf)
unfolding parse_payload
payload-Leaves fin op n key buf k h = elim (Bool-cases (ltb (length buf) n)) [
  | inl short ↦ rw short tt
  | inr enough ↦ rw enough (omega (arith, length-drop n buf, h))
]

body-Leaves :
    (em fin : Bool) (op : ℕ) (masked : Bool) (n : ℕ) (buf : Bytes) (k : ℕ)
    → length buf ≤ k
    → Leaves k (parse_body em fin op masked n buf)
unfolding parse_body
body-Leaves em fin op masked n buf k h = elim (Bool-cases (ltb max_frame n)) [
  | inl large ↦ rw large tt
  | inr fits ↦ elim (Bool-cases (not (same masked em))) [
    | inl broken ↦ rw (fits, broken) tt
    | inr kept ↦ elim (Bool-cases masked) [
      | inr plain ↦ rw (fits, kept, plain) (payload-Leaves fin op n none buf k h)
      | inl masks ↦ elim (Bool-cases (ltb (length buf) 4)) [
        | inl short ↦ rw (fits, kept, masks, short) tt
        | inr key ↦
            rw (fits, kept, masks, key)
              (payload-Leaves fin op n (some (take 4 buf)) (drop 4 buf) k
                (omega (arith, length-drop 4 buf, h)))
      ]
    ]
  ]
]

length-Leaves :
    (em fin : Bool) (op : ℕ) (masked : Bool) (n : ℕ) (buf : Bytes) (k : ℕ)
    → length buf ≤ k
    → Leaves k (parse_length em fin op masked n buf)
unfolding parse_length
length-Leaves em fin op masked n buf k h = elim (Bool-cases (n == 126)) [
  | inl two ↦ elim (Bool-cases (ltb (length buf) 2)) [
    | inl short ↦ rw (two, short) tt
    | inr there ↦
        rw (two, there)
          (body-Leaves em fin op masked (unpack_be (take 2 buf)) (drop 2 buf) k
            (omega (arith, length-drop 2 buf, h)))
  ]
  | inr other ↦ elim (Bool-cases (n == 127)) [
    | inl eight ↦ elim (Bool-cases (ltb (length buf) 8)) [
      | inl short ↦ rw (other, eight, short) tt
      | inr there ↦
          rw (other, eight, there)
            (body-Leaves em fin op masked (unpack_be (take 8 buf)) (drop 8 buf) k
              (omega (arith, length-drop 8 buf, h)))
    ]
    | inr small ↦ rw (other, small) (body-Leaves em fin op masked n buf k h)
  ]
]

parse-Leaves : (em : Bool) (buf : Bytes) (k : ℕ) → length buf ≤ suc k → Leaves k (parse em buf)
unfolding parse
parse-Leaves em [] k h = tt
parse-Leaves em (b ∷ []) k h = tt
parse-Leaves em (b0 ∷ b1 ∷ buf) k h =
    length-Leaves em (not (bit_and b0 128 == 0)) (bit_and b0 15) (not (bit_and b1 128 == 0))
      (bit_and b1 127) buf k (omega (arith, h))

-- What a frame comes to keeps the bytes.
abbrev Same : FrameDecoder → Handled → Type 0
Same d (yields op payload d') = (d'.buf ≡ d.buf) × (d'.expect_masked ≡ d.expect_masked)
Same d (goes_on d') = (d'.buf ≡ d.buf) × (d'.expect_masked ≡ d.expect_masked)
Same d (breaks e) = Unit

handle-Same :
    (fin : Bool) (op : ℕ) (payload : Bytes) (d : FrameDecoder) → Same d (handle fin op payload d)
unfolding handle
handle-Same fin op payload d = elim (Bool-cases (is_control op)) [
  | inl control ↦ rw control (refl, refl)
  | inr data_frame ↦ elim (Bool-cases (op == op_cont)) [
    | inl continued ↦ elim (Bool-cases (d.frag_op == 0)) [
      | inl stray ↦ rw (data_frame, continued, stray) tt
      | inr open_message ↦ elim (Bool-cases fin) [
        | inl last ↦ rw (data_frame, continued, open_message, last) (refl, refl)
        | inr middle ↦ rw (data_frame, continued, open_message, middle) (refl, refl)
      ]
    ]
    | inr first ↦ elim (Bool-cases fin) [
      | inl whole ↦ rw (data_frame, first, whole) (refl, refl)
      | inr part ↦ rw (data_frame, first, part) (refl, refl)
    ]
  ]
]

-- The loop has ended by itself.
abbrev Ended : Fed → Type 0
Ended f = f.error ≡ none → parse f.decoder.expect_masked f.decoder.buf ≡ need_more

handled-Ended :
    (n : ℕ) (d : FrameDecoder) (x : Handled)
    → Same d x
    → ((d' : FrameDecoder) → length d'.buf < n → Ended (feed_loop n d'))
    → length d.buf < n
    → Ended (after_handle (feed_loop n) d x)
handled-Ended n d (yields op payload d') s go h = go d' (omega (arith, ap length s.0, h))
handled-Ended n d (goes_on d') s go h = go d' (omega (arith, ap length s.0, h))
handled-Ended n d (breaks e) s go h = λ z. absurd (ground (arith, z))

parsed-Ended :
    (n : ℕ) (d : FrameDecoder) (x : Parsed) (k : ℕ)
    → parse d.expect_masked d.buf ≡ x
    → Leaves k x
    → k < n
    → ((d' : FrameDecoder) → length d'.buf < n → Ended (feed_loop n d'))
    → Ended (after_parse (feed_loop n) d x)
parsed-Ended n d need_more k e l h go = λ z. e
parsed-Ended n d (failed f) k e l h go = λ z. absurd (ground (arith, z))
parsed-Ended n d (item fin op payload rest) k e l h go =
    let d' = record d { buf = rest } in
    handled-Ended n d' (handle fin op payload d') (handle-Same fin op payload d') go
      (omega (arith, l, h))

no_bytes : (em : Bool) (buf : Bytes) → length buf < 1 → parse em buf ≡ need_more
unfolding parse
no_bytes em [] h = refl
no_bytes em (b ∷ buf) h = absurd (omega (arith, h))

feed_loop-Ended : (n : ℕ) (d : FrameDecoder) → length d.buf < n → Ended (feed_loop n d)
unfolding feed_loop
feed_loop-Ended zero d h = absurd (omega (arith, h))
feed_loop-Ended (suc zero) d h =
    let e = no_bytes d.expect_masked d.buf h in
    subst (λ x. Ended (after_parse (feed_loop zero) d x)) (sym e) (λ z. e)
feed_loop-Ended (suc (suc n)) d h =
    parsed-Ended (suc n) d (parse d.expect_masked d.buf) n refl
      (parse-Leaves d.expect_masked d.buf n (omega (arith, h))) (omega arith)
      (λ d' h'. feed_loop-Ended (suc n) d' h')

-- When `feed` ends without an exception no further frame can be read: the decoder's bytes are not
-- a whole frame.
pub parse-feed :
    (chunk : Bytes) (d : FrameDecoder)
    → (feed chunk d).error ≡ none
    → parse (feed chunk d).decoder.expect_masked (feed chunk d).decoder.buf ≡ need_more
unfolding feed
parse-feed chunk d =
    let d' = record d { buf = d.buf ++ chunk } in
    feed_loop-Ended (suc (length d'.buf)) d' (omega arith)

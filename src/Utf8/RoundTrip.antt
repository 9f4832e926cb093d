-- ===== src/Utf8/RoundTrip.antt =====
-- Texts in UTF-8 through `utf8_iter_next` and `decode_string8`.
use mathlib.Core.List.{append_assoc, append-nil}
use cxb.Prelude.{
  ℕ, zero, suc, ◌+◌, ◌-◌, ◌^◌, ◌<◌, ◌≤◌, ◌≡◌, refl, sym, ap, ◌∙◌, false, List, [], ◌∷◌, ◌++◌, ltb,
  arith, none, some, length, length-append, lt→ltb, le→ltb_false, ℕ_discrete,
}
use cxb.Text.{Memory, String8, bytes, view}
use cxb.Text.Bytes.{length-bytes}
use cxb.Utf8.{
  batch_size, add_to_batch, decode_at, write, decode_loop, utf8_iter_next, decode_batches,
  decode_string8, make_utf8_iter,
}
use cxb.Utf8.Encoding.{encode_all, encode_all-nil, encode_all-cons}
use cxb.Utf8.Decoding.{Decoded, decode_encoded}

-- Numbers that `encode` has bytes for.
abbrev pub AreCodePoints : List ℕ → Type 0
AreCodePoints [] = Unit
AreCodePoints (c ∷ cs) = (c < 2 ^ 21) × AreCodePoints cs

module _ (m : Memory) (s : String8) where
  loop_end :
      (n pos : ℕ) (batch : List ℕ) → s.len ≤ pos → decode_loop m s n pos batch ≡ some (pos, batch)
  unfolding decode_loop
  loop_end zero pos batch h = refl
  loop_end (suc n) pos batch h = rw (decode_loop, le→ltb_false pos s.len h) refl

  loop_round :
      (n pos c k : ℕ) (batch : List ℕ)
      → pos < s.len
      → decode_at m s pos ≡ (some c, k)
      → length batch < batch_size
      → decode_loop m s (suc n) pos batch ≡ decode_loop m s n (pos + k) (batch ++ c ∷ [])
  unfolding decode_loop write add_to_batch
  loop_round n pos c k batch l e h =
      rw (decode_loop, lt→ltb pos s.len l, e, lt→ltb (length batch) batch_size h) refl

  loop_full :
      (n pos c k : ℕ) (batch : List ℕ)
      → pos < s.len
      → decode_at m s pos ≡ (some c, k)
      → batch_size ≤ length batch
      → decode_loop m s (suc n) pos batch ≡ none
  unfolding decode_loop write add_to_batch
  loop_full n pos c k batch l e h =
      rw (decode_loop, lt→ltb pos s.len l, e, le→ltb_false (length batch) batch_size h) refl

  -- The first code point of what is left, and what is left behind it.
  next :
      (pos c : ℕ) (cs : List ℕ)
      → AreCodePoints (c ∷ cs)
      → bytes m (s.address + pos) (s.len - pos) ≡ encode_all (c ∷ cs)
      → Decoded m s pos (s.len - pos) c (encode_all cs)
  next pos c cs h e =
      decode_encoded m s pos (s.len - pos) c (encode_all cs) h.0 (e ∙ encode_all-cons c cs)

  loop_decodes :
      (cs : List ℕ) (n pos : ℕ) (batch : List ℕ)
      → AreCodePoints cs
      → pos ≤ s.len
      → bytes m (s.address + pos) (s.len - pos) ≡ encode_all cs
      → s.len - pos ≤ n
      → length batch + length cs ≤ batch_size
      → decode_loop m s n pos batch ≡ some (s.len, batch ++ cs)
  loop_decodes [] n pos batch h l e enough room =
      let len : s.len - pos ≡ 0 =
        sym (length-bytes m (s.address + pos) (s.len - pos)) ∙ ap length (e ∙ encode_all-nil) in
      let stand : pos ≡ s.len = omega (arith, len) in
      loop_end n pos batch (omega arith)
      ∙ ap (λ p. some (p, batch)) stand
      ∙ ap (λ t. some (s.len, t)) (sym (append-nil batch))
  loop_decodes (c ∷ cs) zero pos batch h l e enough room =
      let d = next pos c cs h e in absurd (omega (arith, d.some_bytes, d.fits))
  loop_decodes (c ∷ cs) (suc n) pos batch h l e enough room =
      let d = next pos c cs h e in
      let behind : s.len - pos - d.size ≡ s.len - (pos + d.size) = omega (arith, d.fits) in
      loop_round n pos c d.size batch (omega (arith, d.fits, d.some_bytes)) d.round (omega arith)
      ∙ loop_decodes cs n (pos + d.size) (batch ++ c ∷ []) h.1 (omega (arith, d.fits, l))
          (ap (bytes m (s.address + (pos + d.size))) (sym behind) ∙ d.behind)
          (omega (arith, d.some_bytes)) (omega (arith, length-append batch (c ∷ [])))
      ∙ ap (λ t. some (s.len, t)) (append_assoc batch (c ∷ []) cs)

  loop_overflows :
      (cs : List ℕ) (n pos : ℕ) (batch : List ℕ)
      → AreCodePoints cs
      → pos ≤ s.len
      → bytes m (s.address + pos) (s.len - pos) ≡ encode_all cs
      → s.len - pos ≤ n
      → length batch ≤ batch_size
      → batch_size < length batch + length cs
      → decode_loop m s n pos batch ≡ none
  loop_overflows [] n pos batch h l e enough room over = absurd (omega arith)
  loop_overflows (c ∷ cs) zero pos batch h l e enough room over =
      let d = next pos c cs h e in absurd (omega (arith, d.some_bytes, d.fits))
  loop_overflows (c ∷ cs) (suc n) pos batch h l e enough room over =
      let d = next pos c cs h e in
      let inside : pos < s.len = omega (arith, d.fits, d.some_bytes) in
      let behind : s.len - pos - d.size ≡ s.len - (pos + d.size) = omega (arith, d.fits) in
      elim (ℕ_discrete (length batch) batch_size) [
        | yes full ↦ loop_full n pos c d.size batch inside d.round (omega arith)
        | no space ↦
            loop_round n pos c d.size batch inside d.round (omega arith)
            ∙ loop_overflows cs n (pos + d.size) (batch ++ c ∷ []) h.1 (omega (arith, d.fits, l))
                (ap (bytes m (s.address + (pos + d.size))) (sym behind) ∙ d.behind)
                (omega (arith, d.some_bytes)) (omega (arith, length-append batch (c ∷ [])))
                (omega (arith, length-append batch (c ∷ [])))
      ]

  module _ (cs : List ℕ) (h : AreCodePoints cs) (e : view m s ≡ encode_all cs) where
    text : bytes m (s.address + 0) (s.len - 0) ≡ encode_all cs
    text =
        ap (λ a. bytes m a (s.len - 0)) (let e : s.address + 0 ≡ s.address = omega arith in e)
        ∙ ap (bytes m s.address) (let e : s.len - 0 ≡ s.len = omega arith in e)
        ∙ e

    -- One call decodes a text of at most 512 code points: the batch holds them in order, and the
    -- iterator stands at the end of the text. On a longer text it writes behind the end of the batch.
    pub utf8_iter_next_correct :
        (length cs ≤ batch_size
          → utf8_iter_next m (make_utf8_iter s)
            ≡ some (record { s = s; pos = s.len }, cs, ltb 0 (length cs)))
        × (batch_size < length cs → utf8_iter_next m (make_utf8_iter s) ≡ none)
    unfolding utf8_iter_next make_utf8_iter
    utf8_iter_next_correct = (
      λ room.
          rw (loop_decodes cs (s.len - 0) 0 [] h (omega arith) text (omega arith) (omega arith))
            refl,
      λ over.
          rw
            (loop_overflows cs (s.len - 0) 0 [] h (omega arith) text (omega arith) (omega arith)
              (omega arith))
            refl,
    )

  -- The call at the end of the text.
  last_call :
      utf8_iter_next m (record { s = s; pos = s.len })
      ≡ some (record { s = s; pos = s.len }, [], false)
  unfolding utf8_iter_next
  last_call = rw (loop_end (s.len - s.len) s.len [] (omega arith)) refl

  last_batch :
      (n : ℕ) (cs : List ℕ)
      → 0 < n
      → decode_batches m n (record { s = s; pos = s.len }) cs ≡ some cs
  unfolding decode_batches
  last_batch zero cs h = absurd (omega arith)
  last_batch (suc n) cs h = rw (decode_batches, last_call) refl

  -- `decode_string8` gives back the code points of a text of at most 512 of them.
  pub decode_string8-encode_all :
      (cs : List ℕ)
      → AreCodePoints cs
      → view m s ≡ encode_all cs
      → length cs ≤ batch_size
      → decode_string8 m s ≡ some cs
  unfolding decode_string8
  decode_string8-encode_all [] h e room = rw ((utf8_iter_next_correct [] h e).0 room) refl
  decode_string8-encode_all (c ∷ cs) h e room =
      let d = next 0 c cs h (text (c ∷ cs) h e) in
      rw ((utf8_iter_next_correct (c ∷ cs) h e).0 room) (
        rw (lt→ltb 0 (suc (length cs)) (omega arith))
          (last_batch s.len (c ∷ cs) (omega (arith, d.fits, d.some_bytes))))

-- ===== src/Strings/Fill.antt =====
-- `string8_resize` on text: what it fills.
use cxb.Prelude.{
  ℕ, zero, suc, ◌+◌, ◌-◌, ◌<◌, ◌≡◌, ◌≢◌, refl, ap, ◌∙◌, some, List, [], ◌∷◌, ◌++◌, arith, ==_ne,
  lt→ltb,
}
use mathlib.Core.Path.{ap₂}
use cxb.Text.{Memory, bytes, view}
use cxb.Text.Bytes.{bytes_split}
use cxb.Arena.{memset}
use cxb.Strings.{TextState, first_terminator, string8_resize, string8_grow}
use cxb.Strings.Append.{IsText, Appended, pushed, passes, base, base_lem, longer, longer-Appended}

-- One byte, `n` times.
abbrev pub filled : ℕ → ℕ → List ℕ
filled c zero = []
filled c (suc n) = c ∷ filled c n

bytes-filled :
    (m : Memory) (c a n : ℕ) → ((i : ℕ) → i < n → m (a + i) ≡ c) → bytes m a n ≡ filled c n
bytes-filled m c a zero h = refl
bytes-filled m c a (suc n) h =
    ap₂ ◌∷◌ (ap m (let e : a ≡ a + 0 = omega arith in e) ∙ h 0 (omega arith)) (
      bytes-filled m c (suc a) n
        (λ i l. ap m (let e : suc a + i ≡ a + suc i = omega arith in e) ∙ h (suc i) (omega arith)))

module _ (s : TextState) (v : IsText s) (n fill_char : ℕ) (more : s.str.len < n)
    (fits : s.arena.start + s.arena.pos + (n - s.str.len) + 1 < s.arena.end) where
  -- The memory after the fill, which starts one byte before the pushed bytes.
  abbrev resized : Memory
  resized =
      memset
        (memset s.memory (s.arena.start + s.arena.pos) 0 (n - s.str.len + first_terminator s.str))
        (s.arena.start + s.arena.pos - 1) fill_char (n - s.str.len)

  resize_lem : string8_resize s n fill_char ≡ some (longer s v resized [] (n - s.str.len))
  unfolding string8_resize string8_grow
  resize_lem =
      let (p, q) = passes s v in
      rw
        (
          p,
          q,
          lt→ltb s.str.len n more,
          pushed s.memory s.arena (n - s.str.len + first_terminator s.str) v.low (omega arith)
              (omega (arith, fits, (base_lem s v).3)),
          v.has_term,
        )
        refl

  -- `string8_resize` of text that is not null to a greater length, which fits the arena, returns and
  -- appends the fill character as often as it lengthens the text.
  pub string8_resize_correct :
      s.str.address ≢ 0
      → (s' : TextState) × (string8_resize s n fill_char ≡ some s')
        × Appended s (filled fill_char (n - s.str.len)) s'
  string8_resize_correct ne =
      let (lo, hi, ends, one, same) = base_lem s v in
      let none' : first_terminator s.str ≡ 0 =
        unfold first_terminator in rw (==_ne s.str.address 0 ne) refl in
      let where' : base s + s.str.len ≡ s.arena.start + s.arena.pos - 1 =
        omega (arith, ends, none') in
      (
        longer s v resized [] (n - s.str.len),
        resize_lem,
        longer-Appended s v resized (filled fill_char (n - s.str.len)) (n - s.str.len)
            (omega (arith, none', fits)) (λ i l. unfold memset in ground (arith, where'))
            (bytes-filled resized fill_char (base s + s.str.len) (n - s.str.len)
              (λ i l. unfold memset in ground (arith, where')))
            (unfold memset in ground (arith, where', none', v.not_null)),
      )

  -- On null text it fills from one byte before the text: it overwrites that byte, and the last byte
  -- of the text stays zero.
  pub string8_resize_null :
      s.str.address ≡ 0
      → (s' : TextState) × (string8_resize s n fill_char ≡ some s')
        × (view s'.memory s'.str ≡ filled fill_char (n - 1) ++ (0 ∷ []))
        × (s'.memory (s'.str.address - 1) ≡ fill_char)
  string8_resize_null null =
      let (lo, hi, ends, one, same) = base_lem s v in
      let one' : first_terminator s.str ≡ 1 =
        unfold first_terminator in rw (null, v.has_term) refl in
      let where' : base s ≡ s.arena.start + s.arena.pos = rw null refl in
      let empty' : s.str.len ≡ 0 = omega (arith, ends, one', where') in
      let cut : s.str.len + (n - s.str.len) ≡ n - 1 + 1 = omega arith in
      (
        longer s v resized [] (n - s.str.len),
        resize_lem,
        ap (bytes resized (base s)) cut
            ∙ bytes_split resized (base s) (n - 1) 1
            ∙ ap₂ ◌++◌
                (bytes-filled resized fill_char (base s) (n - 1)
                  (λ i l. unfold memset in ground (arith, where', empty')))
                (ap (λ c. c ∷ [])
                  (let z : resized (base s + (n - 1)) ≡ 0 =
                      unfold memset in ground (arith, where', empty', one', v.not_null) in
                    z)),
        unfold memset in ground (arith, where', empty', v.not_null),
      )

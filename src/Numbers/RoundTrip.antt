-- ===== src/Numbers/RoundTrip.antt =====
-- What `string8_parse` makes of the text that `format_value` writes.
use native.Mathlib.Nat.{mod-eq_of_lt, zero-mul, pow-le-pow_right}
use mathlib.Core.Path.{ap₂}
use mathlib.Core.List.{append_assoc, append-nil}
use cxb.Prelude.{
  ℕ, ◌+◌, ◌-◌, ◌%◌, ◌^◌, ◌<◌, ◌≤◌, ◌≡◌, refl, sym, ap, ◌∙◌, true, false, Bool, Option, none, some,
  ◌⊎◌, List, [], ◌∷◌, ◌++◌, ◌&&◌, ◌==◌, arith, leb, if◌then◌else◌, length, length-append, lt→ltb,
}
use cxb.Bits.{pow-pos}
use cxb.Text.{Memory, String8, bytes, view}
use cxb.Text.Bytes.{length-bytes}
use cxb.Strings.{TextState}
use cxb.Strings.Append.{IsText, Appended, base_lem, string8_push_back_correct}
use cxb.Numbers.{ParseState, parse_char, string8_parse, digits_of, push_reversed, format_value}
use cxb.Numbers.Digits.{
  backwards, AreDigits, number, digits_of_lem, parse_list, parse_from-list, parse_list-backwards,
}

length-backwards : (cs : List ℕ) → length (backwards cs) ≡ length cs
length-backwards [] = refl
length-backwards (c ∷ cs) =
    omega (arith, length-append (backwards cs) (c ∷ []), length-backwards cs)

-- Appending one list and then another.
Appended-trans :
    (s s' s'' : TextState) (xs ys : List ℕ)
    → Appended s xs s'
    → Appended s' ys s''
    → Appended s (xs ++ ys) s''
Appended-trans s s' s'' xs ys a b = record {
  valid = b.valid;
  text = b.text ∙ ap (λ t. t ++ ys) a.text ∙ append_assoc (view s.memory s.str) xs ys;
  start = b.start ∙ a.start;
  end = b.end ∙ a.end;
  pos = omega (arith, a.pos, b.pos, length-append xs ys);
}

Appended-nothing : (s : TextState) → IsText s → Appended s [] s
Appended-nothing s v = record {
  valid = v;
  text = sym (append-nil (view s.memory s.str));
  start = refl;
  end = refl;
  pos = omega arith;
}

push_reversed_lem :
    (cs : List ℕ) (s : TextState)
    → IsText s
    → s.arena.start + s.arena.pos + length cs + 3 < s.arena.end
    → (s' : TextState) × (push_reversed cs s ≡ some s') × Appended s (backwards cs) s'
unfolding push_reversed
push_reversed_lem [] s v fits = (s, refl, Appended-nothing s v)
push_reversed_lem (c ∷ cs) s v fits =
    let (s', run, a) = push_reversed_lem cs s v (omega (arith, fits)) in
    let one = (base_lem s v).3 in
    let (s'', run', b) =
      string8_push_back_correct s' a.valid c
        (omega (arith, fits, a.pos, a.start, a.end, one, length-backwards cs)) in
    (s'', rw (run, run') refl, Appended-trans s s' s'' (backwards cs) (c ∷ []) a b)

-- The text of a number: a sign, if any, and the digits.
abbrev text_of : Bool → ℕ → List ℕ
text_of neg v = (if neg then 45 ∷ [] else []) ++ backwards (digits_of 20 v)

-- The state in which `string8_parse` starts.
abbrev start_state : ParseState
start_state = record { value = 0; n_consumed = 0; num_negs = 0 }

digits-AreDigits : (v : ℕ) → AreDigits (digits_of 20 v)
digits-AreDigits v = (digits_of_lem 20 v).0

some_digits : (v : ℕ) → 0 < length (digits_of 20 v)
unfolding digits_of
some_digits v = omega arith

number-digits : (width v : ℕ) → v < 2 ^ width → width ≤ 64 → number (digits_of 20 v) % 2 ^ width ≡ v
number-digits width v fits small =
    let word : 2 ^ width ≤ 2 ^ 64 =
      pow-le-pow_right {n = 2} (omega arith) {i = width} {j = 64} small in
    let e = (digits_of_lem 20 v).2 (omega (arith, fits, word)) in
    ap (λ t. t % 2 ^ width) e ∙ mod-eq_of_lt fits

-- The sign is read while the value is still 0.
parse_char-minus :
    (width : ℕ)
    → parse_char width 10 45 start_state ≡ some (record { value = 0; n_consumed = 1; num_negs = 1 })
unfolding parse_char
parse_char-minus width =
    ap (λ x. some (record { value = x; n_consumed = 1; num_negs = 1 }))
      (ap (λ t. t % 2 ^ width) (zero-mul (2 ^ width - 1)) ∙ mod-eq_of_lt (pow-pos width))

parse_text :
    (width : ℕ) (neg : Bool) (v : ℕ)
    → v < 2 ^ width
    → width ≤ 64
    → parse_list width 10 (text_of neg v) start_state
      ≡ record { value = v; n_consumed = length (text_of neg v); num_negs = if neg then 1 else 0 }
parse_text width false v fits small =
    parse_list-backwards width (digits_of 20 v) start_state (digits-AreDigits v) refl
    ∙ ap₂ (λ x y. record { value = x; n_consumed = y; num_negs = 0 })
        (number-digits width v fits small)
        (let e = length-backwards (digits_of 20 v) in omega (arith, e))
parse_text width true v fits small =
    ap
      (λ (o : Option ParseState). elim o [
        | none ↦ start_state
        | some st ↦ parse_list width 10 (backwards (digits_of 20 v)) st
      ])
      (parse_char-minus width)
    ∙ parse_list-backwards width (digits_of 20 v)
        (record { value = 0; n_consumed = 1; num_negs = 1 }) (digits-AreDigits v) refl
    ∙ ap₂ (λ x y. record { value = x; n_consumed = y; num_negs = 1 })
        (number-digits width v fits small)
        (let e = length-backwards (digits_of 20 v) in omega (arith, e))

-- What `string8_parse` answers on such a text.
parsed :
    (signed : Bool) (width : ℕ) (m : Memory) (str : String8) (neg : Bool) (v : ℕ)
    → v < 2 ^ width
    → width ≤ 64
    → view m str ≡ text_of neg v
    → string8_parse signed width m str 10
      ≡ some (record { value = v; exists = true; n_consumed = str.len })
unfolding string8_parse
parsed signed width m str neg v fits small e =
    let whole =
      parse_from-list width 10 m str.len str.address start_state
      ∙ ap (λ t. parse_list width 10 t start_state) e
      ∙ parse_text width neg v fits small in
    let size : length (text_of neg v) ≡ str.len =
      ap length (sym e) ∙ length-bytes m str.address str.len in
    let more : 0 < length (text_of neg v) = omega (
      arith,
      some_digits v,
      length-backwards (digits_of 20 v),
      length-append (if neg then 45 ∷ [] else []) (backwards (digits_of 20 v)),
    ) in
    rw (whole, lt→ltb 0 (length (text_of neg v)) more, size) refl

-- What `format_value` leaves: the text, behind what was there.
formatted :
    (signed : Bool) (width : ℕ) (s : TextState) (value v : ℕ) (neg : Bool)
    → (signed && leb 32 width && value == 2 ^ (width - 1)) ≡ false
    → IsText s
    → s.arena.start + s.arena.pos + 25 < s.arena.end
    → (signed && leb (2 ^ (width - 1)) value) ≡ neg
    → (if neg then 2 ^ width - value else value) ≡ v
    → (s' : TextState) × (format_value signed width s value ≡ some s')
      × Appended s (text_of neg v) s'
unfolding format_value
formatted signed width s value v false no_overflow valid fits e e' =
    let (s', run, a) =
      push_reversed_lem (digits_of 20 v) s valid (omega (arith, fits, (digits_of_lem 20 v).1)) in
    (s', rw (no_overflow, e, e') run, a)
formatted signed width s value v true no_overflow valid fits e e' =
    let (s₁, run₁, b) = string8_push_back_correct s valid 45 (omega (arith, fits)) in
    let (s', run, a) =
      push_reversed_lem (digits_of 20 v) s₁ b.valid (
        omega (arith, fits, b.pos, b.start, b.end, (base_lem s valid).3, (digits_of_lem 20 v).1)) in
    (
      s',
      rw (no_overflow, e, e', run₁) run,
      Appended-trans s s₁ s' (45 ∷ []) (backwards (digits_of 20 v)) b a,
    )

module _ (signed : Bool) (width : ℕ) (s : TextState) (value : ℕ) (valid : IsText s)
    (empty' : s.str.len ≡ 0) (fits : s.arena.start + s.arena.pos + 25 < s.arena.end)
    (some_bits : 0 < width) (small : width ≤ 64) (in_type : value < 2 ^ width) where
  parsed_back :
      (neg : Bool) (v : ℕ)
      → v < 2 ^ width
      → (signed && leb 32 width && value == 2 ^ (width - 1)) ≡ false
      → (signed && leb (2 ^ (width - 1)) value) ≡ neg
      → (if neg then 2 ^ width - value else value) ≡ v
      → (s' : TextState) × (format_value signed width s value ≡ some s')
        × IsText s'
        × (string8_parse signed width s'.memory s'.str 10
            ≡ some (record { value = v; exists = true; n_consumed = s'.str.len }))
  parsed_back neg v low no_overflow e e' =
      let (s', run, a) = formatted signed width s value v neg no_overflow valid fits e e' in
      let alone : view s.memory s.str ≡ [] = ap (bytes s.memory s.str.address) empty' in
      (
        s',
        run,
        a.valid,
        parsed signed width s'.memory s'.str neg v low small
            (a.text ∙ ap (λ t. t ++ text_of neg v) alone),
      )

  -- `format_value` of an integer that is not negative, into empty text on an arena with room for it,
  -- returns, and `string8_parse` reads the text back: the same value, and every character consumed.
  pub string8_parse-format_value :
      (signed ≡ false) ⊎ (value < 2 ^ (width - 1))
      → (s' : TextState) × (format_value signed width s value ≡ some s')
        × IsText s'
        × (string8_parse signed width s'.memory s'.str 10
            ≡ some (record { value = value; exists = true; n_consumed = s'.str.len }))
  string8_parse-format_value plain =
      parsed_back false value in_type (ground (arith, plain)) (ground (arith, plain)) refl

  -- `format_value` of a negative integer of a signed type, other than the least of the type, into empty
  -- text on an arena with room for it, returns, and `string8_parse` reads back the absolute value: it
  -- succeeds, consumes the sign as well, and loses it.
  pub string8_parse_sign :
      signed ≡ true
      → 2 ^ (width - 1) < value
      → (s' : TextState) × (format_value signed width s value ≡ some s')
        × IsText s'
        × (string8_parse signed width s'.memory s'.str 10
            ≡ some (record { value = 2 ^ width - value; exists = true; n_consumed = s'.str.len }))
  string8_parse_sign is_signed negative =
      parsed_back true (2 ^ width - value) (omega (arith, pow-pos (width - 1)))
        (ground (arith, negative)) (ground (arith, is_signed, negative)) refl

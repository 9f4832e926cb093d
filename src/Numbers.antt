-- ===== src/Numbers.antt =====
-- Integers as text, in cxb/cxb.h: `string8_parse` and `format_value` at integral types. A type is
-- given by its width and whether it is signed, and a value is its residue modulo `2 ^ width`.
pub mod Digits
pub mod RoundTrip
mod Tests
use cxb.Prelude.{
  check, ◌>>=◌, ◌>>◌, ℕ, zero, suc, ◌+◌, ◌-◌, ◌*◌, ◌/◌, ◌%◌, ◌^◌, Bool, true, false, not, ◌&&◌,
  ◌||◌, Option, none, some, List, [], ◌∷◌, ◌==◌, ltb, leb, if◌then◌else◌,
}
use cxb.Text.{Memory, String8}
use cxb.Strings.{TextState, string8_push_back}

pub record ParseResult : Type 0 where
  pub value : ℕ
  pub exists : Bool
  pub n_consumed : ℕ

-- What the loop of `string8_parse` changes.
pub record ParseState : Type 0 where
  pub value : ℕ
  pub n_consumed : ℕ
  pub num_negs : ℕ

-- One round of the loop on a character, `none` where it breaks. `-1` is `2 ^ width - 1`.
unfoldable pub parse_char : ℕ → ℕ → ℕ → ParseState → Option ParseState
parse_char width base c st =
    if c == 45
    then some (record {
      value = (st.value * (2 ^ width - 1)) % 2 ^ width;
      n_consumed = st.n_consumed + 1;
      num_negs = st.num_negs + 1;
    })
    else if leb 48 c && leb c 57
    then some (record st {
      value = (st.value * base + (c - 48)) % 2 ^ width;
      n_consumed = st.n_consumed + 1;
    })
    else none

-- The loop over the `n` characters from an address on.
unfoldable pub parse_from : ℕ → ℕ → Memory → ℕ → ℕ → ParseState → ParseState
parse_from width base m zero a st = st
parse_from width base m (suc n) a st = elim (parse_char width base (m a) st) [
  | none ↦ st
  | some st' ↦ parse_from width base m n (suc a) st'
]

-- What the check of the signs makes of the field `exists`; `string8_parse` then overwrites it.
unfoldable pub sign_ok : Bool → ParseState → String8 → Bool
sign_ok signed st str = not (ltb (if signed then 1 else 0) st.num_negs) && ltb 0 str.len

unfoldable pub string8_parse : Bool → ℕ → Memory → String8 → ℕ → Option ParseResult
string8_parse signed width m str base =
    let start : ParseState = record { value = 0; n_consumed = 0; num_negs = 0 } in
    let st = parse_from width base m str.len str.address start in
    let checked : ParseResult = record {
      value = st.value;
      exists = sign_ok signed st str;
      n_consumed = st.n_consumed;
    } in
    check (leb base 10) >> some (record checked { exists = ltb 0 st.n_consumed })

-- The first loop of `format_value`, on fuel: the digits of `v` from the last to the first.
unfoldable pub digits_of : ℕ → ℕ → List ℕ
digits_of zero v = []
digits_of (suc f) v =
    let rest = digits_of f (v / 10) in (48 + v % 10) ∷ (if v / 10 == 0 then [] else rest)

-- The second loop pushes them from the back of the buffer.
unfoldable pub push_reversed : List ℕ → TextState → Option TextState
push_reversed [] s = some s
push_reversed (c ∷ cs) s = push_reversed cs s >>= (λ s'. string8_push_back s' c)

-- `format_value` at an integral type. A word has at most 20 digits. The negation of the least value
-- of a signed type that is at least as wide as `int` overflows, which is undefined: `none`.
unfoldable pub format_value : Bool → ℕ → TextState → ℕ → Option TextState
format_value signed width s value =
    let neg = signed && leb (2 ^ (width - 1)) value in
    let v = if neg then 2 ^ width - value else value in
    let overflows = signed && leb 32 width && value == 2 ^ (width - 1) in
    check (not overflows)
    >> ((if neg then string8_push_back s 45 else some s) >>= push_reversed (digits_of 20 v))

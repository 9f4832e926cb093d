-- ===== src/Split.antt =====
-- The splitting of strings of cxb/cxb.h and cxb/cxb.cpp: an iterator over the parts of a string
-- between delimiters.
pub mod Delim
pub mod Range
pub mod Chars
mod Tests
use cxb.Prelude.{
  ◌>>=◌, ℕ, zero, suc, ◌+◌, ◌-◌, Bool, true, false, not, ◌&&◌, Option, none, some, List, [], ◌∷◌,
  ◌==◌, ltb, leb, if◌then◌else◌,
}
use cxb.Text.{Memory, String8, memcmp, is_eq, contains_char}

pub record SplitIterator : Type 0 where
  pub s : String8
  pub delim : String8
  pub pos : ℕ
  pub curr : String8
  pub any : Bool

abbrev pub null_string : String8
null_string = record { address = 0; len = 0; not_null_term = false }

-- `none` where the assertion on the delimiter stops the program.
unfoldable pub string8_split : String8 → String8 → Option SplitIterator
string8_split s delim =
    if delim.len == 0
    then none
    else some (record { s = s; delim = delim; pos = 0; curr = null_string; any = false })

unfoldable pub string8_split_any : String8 → String8 → Option SplitIterator
string8_split_any s chars =
    if chars.len == 0
    then none
    else some (record { s = s; delim = chars; pos = 0; curr = null_string; any = true })

-- The loops of `string8_split_next`: `n` is `s.len - pos`, and each gives the position where it
-- stops.
unfoldable pub seek_any : Memory → String8 → String8 → ℕ → ℕ → ℕ
seek_any m s delim zero pos = pos
seek_any m s delim (suc n) pos =
    let rest = seek_any m s delim n (suc pos) in
    if contains_char m delim (m (s.address + pos)) then pos else rest

unfoldable pub seek_delim : Memory → String8 → String8 → ℕ → ℕ → ℕ
seek_delim m s delim zero pos = pos
seek_delim m s delim (suc n) pos =
    let rest = seek_delim m s delim n (suc pos) in
    if leb (pos + delim.len) s.len && is_eq (memcmp m (s.address + pos) delim.address delim.len)
    then pos
    else rest

-- The end of the part that starts at `pos`.
unfoldable pub seek_end : Memory → SplitIterator → ℕ
seek_end m iter =
    let n = iter.s.len - iter.pos in
    let by_char = seek_any m iter.s iter.delim n iter.pos in
    let by_delim = seek_delim m iter.s iter.delim n iter.pos in
    if iter.any then by_char else by_delim

-- `string8_split_next`: the iterator that it leaves and the part that it writes, or `none` where
-- it returns false and changes nothing.
unfoldable pub string8_split_next : Memory → SplitIterator → Option (SplitIterator × String8)
string8_split_next m iter =
    let end = seek_end m iter in
    let step = if iter.any then 1 else iter.delim.len in
    let part : String8 = record {
      address = iter.s.address + iter.pos;
      len = end - iter.pos;
      not_null_term = if end == iter.s.len then iter.s.not_null_term else true;
    } in
    let pos = if ltb end iter.s.len then end + step else iter.s.len + 1 in
    if ltb iter.s.len iter.pos then none else some (record iter { pos = pos }, part)

-- The loop of `string8_split_collect`, on fuel: the parts in the order in which it appends them.
unfoldable pub collect : ℕ → Memory → SplitIterator → Option (List String8)
collect zero m iter = none
collect (suc n) m iter = elim (string8_split_next m iter) [
  | none ↦ some []
  | some (iter', part) ↦ do rest ← collect n m iter'; some (part ∷ rest)
]

-- `begin`
unfoldable pub begin : Memory → SplitIterator → SplitIterator
begin m iter = elim (string8_split_next m iter) [
  | none ↦ iter
  | some (iter', part) ↦ record iter' { curr = part }
]

-- `operator++`
unfoldable pub increment : Memory → SplitIterator → SplitIterator
increment m iter = elim (string8_split_next m iter) [
  | none ↦ record iter { pos = iter.s.len + 1; curr = null_string }
  | some (iter', part) ↦ record iter' { curr = part }
]

-- `end`
unfoldable pub end : SplitIterator → SplitIterator
end iter = record iter { pos = iter.s.len + 1; curr = null_string }

-- `operator!=`
unfoldable pub differs : SplitIterator → SplitIterator → Bool
differs a b = not (a.curr.address == b.curr.address)

-- What a range loop over an iterator visits, from an iterator on, on fuel.
unfoldable pub visit : ℕ → Memory → SplitIterator → SplitIterator → Option (List String8)
visit zero m last iter = none
visit (suc n) m last iter =
    let go = visit n m last (increment m iter) >>= (λ rest. some (iter.curr ∷ rest)) in
    if differs iter last then go else some []

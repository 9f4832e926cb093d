-- ===== src/Text.antt =====
-- `String8` of cxb/cxb.h and its functions that only read: a view of bytes in memory.
-- Memory maps an address to a byte, and address 0 is the null pointer.
pub mod Bytes
pub mod Find
pub mod Trim
mod Tests
use Prim.Native.Nat.{compare, Ordering}
use cxb.Prelude.{
  ℕ, zero, suc, ◌+◌, ◌-◌, Bool, true, false, not, ◌&&◌, ◌||◌, List, [], ◌∷◌, ◌==◌, ltb, leb,
  if◌then◌else◌, size_max, ℤ, pos, negsuc, pos_part, sub_ℕ, ◌+ℤ◌, ◌-ℤ◌, ltb_ℤ,
}

abbrev pub Memory : Type 0
Memory = ℕ → ℕ

pub record String8 : Type 0 where
  pub address : ℕ
  pub len : ℕ
  pub not_null_term : Bool

-- The bytes of a region of memory.
abbrev pub bytes : Memory → ℕ → ℕ → List ℕ
bytes m a zero = []
bytes m a (suc n) = m a ∷ bytes m (suc a) n

-- The bytes that a string views.
abbrev pub view : Memory → String8 → List ℕ
view m s = bytes m s.address s.len

-- `memcmp`
unfoldable pub memcmp : Memory → ℕ → ℕ → ℕ → Ordering
memcmp m a b zero = Ordering.eq
memcmp m a b (suc n) = elim (compare (m a) (m b)) [
  | Ordering.eq ↦ memcmp m (suc a) (suc b) n
  | Ordering.lt ↦ Ordering.lt
  | Ordering.gt ↦ Ordering.gt
]

abbrev pub is_eq : Ordering → Bool
is_eq Ordering.eq = true
is_eq Ordering.lt = false
is_eq Ordering.gt = false

unfoldable pub n_bytes : String8 → ℕ
n_bytes s = s.len + (if s.not_null_term then 0 else 1)

-- `min`, `max` and `clamp` at the type `i64`.
unfoldable pub min_i64 : ℤ → ℤ → ℤ
min_i64 a b = if ltb_ℤ a b then a else b

unfoldable pub max_i64 : ℤ → ℤ → ℤ
max_i64 a b = if ltb_ℤ b a then a else b

unfoldable pub clamp : ℤ → ℤ → ℤ → ℤ
unfolding min_i64 max_i64
clamp x a b = if ltb_ℤ a b then max_i64 (min_i64 b x) a else min_i64 (max_i64 a x) b

-- The index that `slice` makes of an argument, which counts from the end if it is negative.
unfoldable pub slice_index : ℕ → ℤ → ℤ
unfolding clamp
slice_index len i =
    clamp (if ltb_ℤ i (pos 0) then pos len +ℤ i else i) (pos 0)
      (if len == 0 then pos 0 else pos len -ℤ pos 1)

unfoldable pub slice : String8 → ℤ → ℤ → String8
unfolding slice_index max_i64
slice s i j =
    let ii = slice_index s.len i in
    let jj = slice_index s.len j in
    let len = pos_part (max_i64 (pos 0) (jj -ℤ ii +ℤ pos 1)) in
    if s.address == 0 then record { address = 0; len = 0; not_null_term = false } else record {
      address = s.address + pos_part ii;
      len = len;
      not_null_term = if pos_part ii + len == s.len then s.not_null_term else true;
    }

-- The loop of `string8_find`: `n` rounds from index `i` on.
unfoldable pub find_from : Memory → String8 → String8 → ℕ → ℕ → ℕ
unfolding memcmp
find_from m s needle zero i = size_max
find_from m s needle (suc n) i =
    let rest = find_from m s needle n (suc i) in
    if is_eq (memcmp m (s.address + i) needle.address needle.len) then i else rest

unfoldable pub string8_find : Memory → String8 → String8 → ℕ
unfolding find_from
string8_find m s needle =
    if needle.len == 0 || ltb s.len needle.len
    then size_max
    else find_from m s needle (suc (s.len - needle.len)) 0

unfoldable pub string8_contains : Memory → String8 → String8 → Bool
string8_contains m s needle = not (string8_find m s needle == size_max)

unfoldable pub string8_starts_with : Memory → String8 → String8 → Bool
string8_starts_with m s prefix =
    if ltb s.len prefix.len
    then false
    else if prefix.len == 0
    then true
    else is_eq (memcmp m s.address prefix.address prefix.len)

unfoldable pub string8_ends_with : Memory → String8 → String8 → Bool
string8_ends_with m s suffix =
    if ltb s.len suffix.len
    then false
    else if suffix.len == 0
    then true
    else is_eq (memcmp m (s.address + (s.len - suffix.len)) suffix.address suffix.len)

-- The loop of `_string8_contains_char` over the `n` bytes from an address on.
unfoldable pub contains_char_from : Memory → ℕ → ℕ → ℕ → Bool
contains_char_from m zero a c = false
contains_char_from m (suc n) a c =
    let rest = contains_char_from m n (suc a) c in if m a == c then true else rest

unfoldable pub contains_char : Memory → String8 → ℕ → Bool
unfolding contains_char_from
contains_char m chars c = contains_char_from m chars.len chars.address c

-- The loop of `string8_contains_chars`.
unfoldable pub contains_chars_from : Memory → String8 → ℕ → ℕ → Bool
contains_chars_from m chars zero a = false
contains_chars_from m chars (suc n) a =
    let rest = contains_chars_from m chars n (suc a) in
    if contains_char m chars (m a) then true else rest

unfoldable pub string8_contains_chars : Memory → String8 → String8 → Bool
string8_contains_chars m s chars = contains_chars_from m chars s.len s.address

-- The loops of `string8_trim`: `n` is `end - start`, and each gives the bound that it moves.
unfoldable pub trim_leading : Memory → String8 → String8 → ℕ → ℕ → ℕ
trim_leading m s chars zero start = start
trim_leading m s chars (suc n) start =
    let rest = trim_leading m s chars n (suc start) in
    if contains_char m chars (m (s.address + start)) then rest else start

unfoldable pub trim_trailing : Memory → String8 → String8 → ℕ → ℕ → ℕ
trim_trailing m s chars zero end = end
trim_trailing m s chars (suc n) end =
    let rest = trim_trailing m s chars n (end - 1) in
    if contains_char m chars (m (s.address + (end - 1))) then rest else end

-- What both trimming functions return: the slice between two bounds.
unfoldable pub slice_between : String8 → ℕ → ℕ → String8
unfolding slice
slice_between s start end =
    slice s (pos start) (if ltb start end then sub_ℕ end 1 else sub_ℕ start 1)

unfoldable pub string8_trim : Memory → String8 → String8 → Bool → Bool → String8
string8_trim m s chars leading trailing =
    let start = if leading then trim_leading m s chars s.len 0 else 0 in
    let end = if trailing then trim_trailing m s chars (s.len - start) s.len else s.len in
    slice_between s start end

-- The loops of `string8_trim_all`, on fuel.
unfoldable pub trim_all_leading : Memory → String8 → String8 → ℕ → ℕ → ℕ → ℕ
trim_all_leading m s chars zero end start = start
trim_all_leading m s chars (suc f) end start =
    let rest = trim_all_leading m s chars f end (start + chars.len) in
    if leb chars.len (end - start) && is_eq (memcmp m (s.address + start) chars.address chars.len)
    then rest
    else start

unfoldable pub trim_all_trailing : Memory → String8 → String8 → ℕ → ℕ → ℕ → ℕ
trim_all_trailing m s chars zero start end = end
trim_all_trailing m s chars (suc f) start end =
    let rest = trim_all_trailing m s chars f start (end - chars.len) in
    if leb chars.len (end - start)
      && is_eq (memcmp m (s.address + (end - chars.len)) chars.address chars.len)
    then rest
    else end

-- Each round moves a bound by `chars.len`, which is not 0, so `s.len` rounds and a test are enough.
unfoldable pub string8_trim_all : Memory → String8 → String8 → Bool → Bool → String8
string8_trim_all m s chars leading trailing =
    let start = if leading then trim_all_leading m s chars (suc s.len) s.len 0 else 0 in
    let end = if trailing then trim_all_trailing m s chars (suc s.len) start s.len else s.len in
    if chars.len == 0 then s else slice_between s start end

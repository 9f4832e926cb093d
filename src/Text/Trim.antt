-- ===== src/Text/Trim.antt =====
-- `slice`, and `string8_trim`, which slices between the bounds that its loops find.
use cxb.Prelude.{
  ℕ, zero, suc, ◌+◌, ◌-◌, ◌<◌, ◌≤◌, ◌≡◌, ◌≢◌, inl, inr, refl, ap, true, false, arith, ◌==◌, Bool,
  Bool-cases, ==_ne, lt→ltb, le→ltb_false, dec_lt, ℕ_discrete, if◌then◌else◌, pos, sub_ℕ, negsuc,
}
use cxb.Text.{
  Memory, String8, contains_char, trim_leading, trim_trailing, slice, slice_index, clamp, min_i64,
  max_i64, slice_between, string8_trim,
}

module _ (s : String8) (here : s.address ≢ 0) where
  -- An index inside the string is kept by `slice`; one past its end becomes the last index.
  slice_index_inside : (i : ℕ) → i < s.len → slice_index s.len (pos i) ≡ pos i
  unfolding slice_index clamp min_i64 max_i64
  slice_index_inside i h = ground arith

  slice_index_past : (i : ℕ) → 0 < s.len → s.len ≤ i → slice_index s.len (pos i) ≡ pos (s.len - 1)
  unfolding slice_index clamp min_i64 max_i64
  slice_index_past i p h = ground arith

  slice_index_last : 0 < s.len → slice_index s.len (negsuc 0) ≡ pos (s.len - 1)
  unfolding slice_index clamp min_i64 max_i64
  slice_index_last p = ground arith

  -- Between two bounds of which the first is the smaller, `slice` gives the bytes between them.
  pub slice_between_inside :
      (start end : ℕ)
      → start < end
      → end ≤ s.len
      → slice_between s start end ≡ record {
        address = s.address + start;
        len = end - start;
        not_null_term = if end == s.len then s.not_null_term else true;
      }
  unfolding slice_between slice max_i64
  slice_between_inside start end h l =
      let e : sub_ℕ end 1 ≡ pos (end - 1) = ground arith in
      rw
        (
          lt→ltb _ _ h,
          e,
          slice_index_inside start (omega arith),
          slice_index_inside (end - 1) (omega arith),
          ==_ne s.address 0 here,
        )
        (ground arith)

  -- Where all of a string that is not empty is cut from the front, one byte is left.
  pub slice_between_end : 0 < s.len → (slice_between s s.len s.len).len ≡ 1
  unfolding slice_between slice max_i64
  slice_between_end p =
      let e : sub_ℕ s.len 1 ≡ pos (s.len - 1) = ground arith in
      rw
        (
          le→ltb_false s.len s.len (omega arith),
          e,
          slice_index_past s.len p (omega arith),
          slice_index_inside (s.len - 1) (omega arith),
          ==_ne s.address 0 here,
        )
        (ground arith)

  -- Where all of it is cut from the back, the whole string is left.
  pub slice_between_start : 0 < s.len → slice_between s 0 0 ≡ s
  unfolding slice_between slice max_i64
  slice_between_start p =
      rw (slice_index_inside 0 p, slice_index_last p, ==_ne s.address 0 here) (ground arith)

module _ (m : Memory) (s chars : String8) where
  -- The character at an index is one to trim.
  abbrev pub Trims : ℕ → Type 0
  Trims j = contains_char m chars (m (s.address + j)) ≡ true

  abbrev pub Stays : ℕ → Type 0
  Stays j = contains_char m chars (m (s.address + j)) ≡ false

  trim_leading_lem :
      (n start : ℕ)
      → let r = trim_leading m s chars n start in
        (start ≤ r)
        × (r ≤ start + n)
        × ((j : ℕ) → start ≤ j → j < r → Trims j)
        × (r < start + n → Stays r)
  unfolding trim_leading
  trim_leading_lem zero start =
      (omega arith, omega arith, (λ j a b. absurd (omega arith)), (λ h. absurd (omega arith)))
  trim_leading_lem (suc n) start =
      elim (Bool-cases (contains_char m chars (m (s.address + start)))) [
        | inl t ↦
            let (a, b, c, d) = trim_leading_lem n (suc start) in
            rw t (
              omega arith,
              omega arith,
              (λ j p q. elim (ℕ_discrete j start) [ yes e ↦ rw e t | no ne ↦ c j (omega arith) q ]),
              (λ h. d (omega arith)),
            )
        | inr t ↦ rw t (omega arith, omega arith, (λ j a b. absurd (omega arith)), (λ h. t))
      ]

  trim_trailing_lem :
      (n end : ℕ)
      → n ≤ end
      → let r = trim_trailing m s chars n end in
        (r ≤ end)
        × (end - n ≤ r)
        × ((j : ℕ) → r ≤ j → j < end → Trims j)
        × (end - n < r → Stays (r - 1))
  unfolding trim_trailing
  trim_trailing_lem zero end l =
      (omega arith, omega arith, (λ j a b. absurd (omega arith)), (λ h. absurd (omega arith)))
  trim_trailing_lem (suc n) end l =
      elim (Bool-cases (contains_char m chars (m (s.address + (end - 1))))) [
        | inl t ↦
            let (a, b, c, d) = trim_trailing_lem n (end - 1) (omega arith) in
            rw t (
              omega arith,
              omega arith,
              (λ j p q. elim (ℕ_discrete j (end - 1)) [
                | yes e ↦ rw e t
                | no ne ↦ c j p (omega arith)
              ]),
              (λ h. d (omega arith)),
            )
        | inr t ↦ rw t (omega arith, omega arith, (λ j a b. absurd (omega arith)), (λ h. t))
      ]

  -- What trimming should leave: the bytes between two bounds outside of which all characters are
  -- ones to trim, with a character that stays at each end that is trimmed.
  pub record Trimmed (leading trailing : Bool) (r : String8) : Type 0 where
    pub start : ℕ
    pub end : ℕ
    pub order : start < end
    pub inside : end ≤ s.len
    pub front : (j : ℕ) → j < start → Trims j
    pub back : (j : ℕ) → end ≤ j → j < s.len → Trims j
    pub first : leading ≡ true → Stays start
    pub last : trailing ≡ true → Stays (end - 1)
    pub unled : leading ≡ false → start ≡ 0
    pub untrailed : trailing ≡ false → end ≡ s.len
    pub address : r.address ≡ s.address + start
    pub len : r.len ≡ end - start
    pub not_null_term : r.not_null_term ≡ (if end == s.len then s.not_null_term else true)

  differ : (j : ℕ) → Trims j → Stays j → ⊥
  differ j t u = cc

  -- The bound that the leading loop gives, with a character at `i` that stays.
  start_lem :
      (leading : Bool) (i : ℕ)
      → i < s.len
      → Stays i
      → let st = (if leading then trim_leading m s chars s.len 0 else 0) in
        (st ≤ i)
        × ((j : ℕ) → j < st → Trims j)
        × (leading ≡ true → Stays st)
        × (leading ≡ false → st ≡ 0)
  start_lem false i l u = (omega arith, (λ j h. absurd (omega arith)), (λ h. cc), (λ h. refl))
  start_lem true i l u =
      let (a, b, c, d) = trim_leading_lem s.len 0 in
      let low =
        elim (dec_lt i (trim_leading m s chars s.len 0))
          as (λ x. trim_leading m s chars s.len 0 ≤ i) [
            | yes p ↦ absurd (differ i (c i (omega arith) p) u)
            | no n ↦ omega arith
          ] in
      (low, (λ j h. c j (omega arith) h), (λ h. d (omega arith)), (λ h. cc))

  end_lem :
      (trailing : Bool) (st i : ℕ)
      → st ≤ i
      → i < s.len
      → Stays i
      → let e = (if trailing then trim_trailing m s chars (s.len - st) s.len else s.len) in
        (i < e)
        × (e ≤ s.len)
        × ((j : ℕ) → e ≤ j → j < s.len → Trims j)
        × (trailing ≡ true → Stays (e - 1))
        × (trailing ≡ false → e ≡ s.len)
  end_lem false st i k l u =
      (l, omega arith, (λ j h p. absurd (omega arith)), (λ h. cc), (λ h. refl))
  end_lem true st i k l u =
      let (a, b, c, d) = trim_trailing_lem (s.len - st) s.len (omega arith) in
      let high =
        elim (dec_lt i (trim_trailing m s chars (s.len - st) s.len))
          as (λ x. i < trim_trailing m s chars (s.len - st) s.len) [
            | yes p ↦ p
            | no n ↦ absurd (differ i (c i (omega arith) l) u)
          ] in
      (high, a, c, (λ h. d (omega arith)), (λ h. cc))

  -- On a string with a character that stays, `string8_trim` takes away exactly the characters to trim
  -- at the chosen ends: it returns the slice from the first to the last character that stays.
  pub string8_trim_correct :
      (leading trailing : Bool) (i : ℕ)
      → s.address ≢ 0
      → i < s.len
      → Stays i
      → Trimmed leading trailing (string8_trim m s chars leading trailing)
  unfolding string8_trim
  string8_trim_correct leading trailing i here l u =
      let (a, b, c, d) = start_lem leading i l u in
      let st = (if leading then trim_leading m s chars s.len 0 else 0) in
      let (a', b', c', d', e') = end_lem trailing st i a l u in
      let e = (if trailing then trim_trailing m s chars (s.len - st) s.len else s.len) in
      let q = slice_between_inside s here st e (omega arith) b' in
      record {
        start = st;
        end = e;
        order = omega arith;
        inside = b';
        front = b;
        back = c';
        first = c;
        last = d';
        unled = d;
        untrailed = e';
        address = ap (λ r. r.address) q;
        len = ap (λ r. r.len) q;
        not_null_term = ap (λ r. r.not_null_term) q;
      }

  -- A string that is not empty and holds only characters to trim is not trimmed to the empty string:
  -- trimming its front leaves one byte.
  pub len-string8_trim_blank :
      (trailing : Bool)
      → s.address ≢ 0
      → 0 < s.len
      → ((j : ℕ) → j < s.len → Trims j)
      → (string8_trim m s chars true trailing).len ≡ 1
  unfolding string8_trim trim_trailing
  len-string8_trim_blank trailing here p all =
      let (a, b, c, d) = trim_leading_lem s.len 0 in
      let st : trim_leading m s chars s.len 0 ≡ s.len =
        elim (dec_lt (trim_leading m s chars s.len 0) s.len) [
          | yes l ↦ absurd (differ _ (all _ l) (d (omega arith)))
          | no n ↦ omega arith
        ] in
      let z : s.len - s.len ≡ 0 = omega arith in
      elim (Bool-cases trailing) [
        | inl t ↦ rw (t, st, z) (slice_between_end s here p)
        | inr t ↦ rw (t, st) (slice_between_end s here p)
      ]

  -- Trimming only the back of such a string leaves it as it is.
  pub string8_trim_right_blank :
      s.address ≢ 0
      → 0 < s.len
      → ((j : ℕ) → j < s.len → Trims j)
      → string8_trim m s chars false true ≡ s
  unfolding string8_trim
  string8_trim_right_blank here p all =
      let (a, b, c, d) = trim_trailing_lem s.len s.len (omega arith) in
      let e : trim_trailing m s chars s.len s.len ≡ 0 =
        elim (dec_lt 0 (trim_trailing m s chars s.len s.len)) [
          | yes l ↦ absurd (differ _ (all _ (omega arith)) (d (omega arith)))
          | no n ↦ omega arith
        ] in
      let z : s.len - 0 ≡ s.len = omega arith in rw (z, e) (slice_between_start s here p)

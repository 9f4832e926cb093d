-- ===== src/Owned/MArray/Resize.antt =====
-- `resize` of an `MArray` to a length that is not larger.
use cxb.Prelude.{
  ℕ, ◌+◌, ◌-◌, ◌*◌, ◌%◌, ◌^◌, ◌<◌, ◌≤◌, ◌≡◌, refl, true, false, none, arith, leb, le→ltb_false,
  lt→ltb, lt→leb_false, sub64, dec_lt,
}
use cxb.Owned.{AllocProc}
use cxb.Owned.MArray.{ArrayStore, within_space, marray_resize_with, marray_resize}

module _ {S : Type 0} (alloc : AllocProc S) (align : ℕ) (s : ArrayStore S)
    (has : s.array.has_allocator ≡ true) where
  same_len :
      s.array.len ≤ s.array.capacity
      → s.array.capacity < 2 ^ 64
      → marray_resize alloc 1 align s s.array.len ≡ none
  unfolding marray_resize marray_resize_with
  same_len l small =
      let same : sub64 s.array.len s.array.len ≡ 0 = omega arith in
      rw (marray_resize, marray_resize_with, le→ltb_false s.array.capacity s.array.len l, same, has)
        refl

  shorter :
      (new_len n : ℕ)
      → new_len ≤ s.array.capacity
      → sub64 new_len s.array.len ≡ n
      → 0 < n
      → leb (s.array.address + 1 * s.array.len + (1 * n) % 2 ^ 64) (2 ^ 64) ≡ false
      → marray_resize alloc 1 align s new_len ≡ none
  unfolding marray_resize marray_resize_with within_space
  shorter new_len n fits e more past =
      rw
        (
          marray_resize,
          marray_resize_with,
          le→ltb_false s.array.capacity new_len fits,
          e,
          lt→ltb 0 n more,
          has,
          past,
        )
        refl

  -- For an array of bytes within its capacity and not at the null address, `resize` to the length that
  -- it has or to fewer elements never returns: to the same length it fails an assertion, and to fewer
  -- elements it fills as many bytes behind the array as the negative difference of the lengths is
  -- modulo 2 ^ 64, which run past the last address.
  pub marray_resize_not_longer :
      (new_len : ℕ)
      → s.array.len ≤ s.array.capacity
      → s.array.capacity < 2 ^ 64
      → 0 < s.array.address
      → new_len ≤ s.array.len
      → marray_resize alloc 1 align s new_len ≡ none
  marray_resize_not_longer new_len l small some_address less = elim (dec_lt new_len s.array.len) [
    | yes fewer ↦
        let n = 2 ^ 64 - (s.array.len - new_len) in
        shorter new_len n (omega arith) (omega arith) (omega arith) (lt→leb_false _ _ (omega arith))
    | no same ↦ let e : new_len ≡ s.array.len = omega arith in rw e (same_len l small)
  ]

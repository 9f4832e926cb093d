-- ===== src/Owned/MArray.antt =====
-- `MArray` of cxb/cxb.h, an array that owns its elements, at a type that is given by its size and
-- alignment and whose values are the bytes that stand for them. What the procedures of an allocator
-- do is a parameter. `none` is a failed assertion, also one of the
-- allocator, or a write that does not return.
pub mod Append
pub mod Resize
mod Tests
use cxb.Prelude.{
  check, ◌>>=◌, ◌>>◌, ℕ, ◌+◌, ◌-◌, ◌*◌, ◌/◌, ◌%◌, ◌^◌, Bool, true, false, not, ◌&&◌, ◌||◌, Option,
  none, some, List, [], ◌==◌, ltb, leb, if◌then◌else◌, add64, sub64,
}
use cxb.Text.{Memory, bytes}
use cxb.Arena.{memset, memcpy}
use cxb.Array.{write_bytes, construct_value}
use cxb.Owned.{AllocProc, str_min_cap}

pub record MArray : Type 0 where
  pub address : ℕ
  pub len : ℕ
  pub capacity : ℕ
  pub has_allocator : Bool

-- Memory, what the allocator keeps, and the array.
pub record ArrayStore (S : Type 0) : Type 0 where
  pub memory : Memory
  pub state : S
  pub array : MArray

-- `free_proc`, on memory and the allocator's state.
abbrev pub FreeProc : Type 0 → Type 0
FreeProc S = Memory → S → (head n_bytes : ℕ) → Option (Memory × S)

-- `CXB_SEQ_GROW_FN`
unfoldable pub seq_grow : ℕ → ℕ
seq_grow x = add64 x (x / 2)

module _ {S : Type 0} (alloc : AllocProc S) (size align : ℕ) where
  unfoldable pub marray_reserve : ArrayStore S → (cap : ℕ) → Option (ArrayStore S)
  marray_reserve s cap =
      let old_count = s.array.capacity in
      let new_count = if ltb cap str_min_cap then str_min_cap else cap in
      let grown = (do
        (m, state, p) ←
            alloc s.memory s.state s.array.address ((size * new_count) % 2 ^ 64) align
              ((size * old_count) % 2 ^ 64) false
        some (record {
          memory = m;
          state = state;
          array = record s.array { address = p; capacity = new_count };
        })) in
      check s.array.has_allocator >> (if ltb old_count new_count then grown else some s)

  -- Writes to the given number of bytes, which do not return if they run past the last address.
  unfoldable pub within_space : (p n : ℕ) → Memory → Option Memory
  within_space p n m = check (leb (p + n) (2 ^ 64)) >> some m

  -- `resize` with what constructs a number of elements from an address on.
  unfoldable pub marray_resize_with :
      (ℕ → ℕ → Memory → Option Memory) → ArrayStore S → (new_len : ℕ) → Option (ArrayStore S)
  marray_resize_with construct s new_len =
      let grown = marray_reserve s new_len in
      do
        check s.array.has_allocator
        s' ← (if ltb s.array.capacity new_len then grown else some s)
        let n = sub64 new_len s'.array.len
        check (ltb 0 n)
        m ← construct n (s'.array.address + size * s'.array.len) s'.memory
        some (record s' { memory = m; array = record s'.array { len = new_len } })

  unfoldable pub marray_resize : ArrayStore S → (new_len : ℕ) → Option (ArrayStore S)
  unfolding within_space
  marray_resize =
      marray_resize_with
        (λ n p m. let bytes' = (size * n) % 2 ^ 64 in within_space p bytes' (memset m p 0 bytes'))

  unfoldable pub marray_resize_value : ArrayStore S → (new_len : ℕ) → List ℕ → Option (ArrayStore S)
  unfolding within_space
  marray_resize_value s new_len value =
      marray_resize_with
        (λ n p m. within_space p (size * n) (construct_value size align n value p m)) s new_len

  -- `data[len++] = value`
  unfoldable pub put_back : ArrayStore S → List ℕ → ArrayStore S
  put_back s value = record s {
    memory = write_bytes s.memory (s.array.address + size * s.array.len) value;
    array = record s.array { len = add64 s.array.len 1 };
  }

  unfoldable pub marray_push_back : ArrayStore S → (value : List ℕ) → Option (ArrayStore S)
  marray_push_back s value =
      let grown = marray_reserve s (seq_grow s.array.capacity) in
      do
        check s.array.has_allocator
        s' ← (if leb s.array.capacity (add64 s.array.len 1) then grown else some s)
        some (put_back s' value)

  -- `push`, with the bytes of `T{}`.
  unfoldable pub marray_push : ArrayStore S → (initial : List ℕ) → Option (ArrayStore S)
  marray_push s initial =
      marray_reserve s (add64 s.array.len 1) >>= λ s'. some (put_back s' initial)

  unfoldable pub marray_pop_back : ArrayStore S → Option (ArrayStore S × List ℕ)
  marray_pop_back s =
      check (ltb 0 s.array.len)
      >> some (
        record s { array = record s.array { len = s.array.len - 1 } },
        bytes s.memory (s.array.address + size * (s.array.len - 1)) size,
      )

  -- The bytes of the element too.
  unfoldable pub marray_get_or_add_until : ArrayStore S → (idx : ℕ) → Option (ArrayStore S × List ℕ)
  marray_get_or_add_until s idx =
      let longer = marray_resize s (add64 idx 1) in
      do
        s' ← (if leb s.array.len idx then longer else some s)
        some (s', bytes s'.memory (s'.array.address + size * idx) size)

  -- What is handed over, and what is left.
  unfoldable pub marray_release : ArrayStore S → MArray × ArrayStore S
  marray_release s = (s.array, record s { array = record s.array { has_allocator = false } })

  -- `extend` with the address and the number of the elements that are appended.
  unfoldable pub marray_extend : ArrayStore S → (other other_len : ℕ) → Option (ArrayStore S)
  marray_extend s other other_len =
      let extended = (do
        s' ← marray_reserve s (add64 s.array.len other_len)
        some (record s' {
          memory =
              memcpy s'.memory (s'.array.address + size * s'.array.len) other
                ((size * other_len) % 2 ^ 64);
          array = record s'.array { len = add64 s'.array.len other_len };
        })) in
      if other_len == 0 then some s else extended

  -- The copy of the array on the same allocator.
  unfoldable pub marray_copy : ArrayStore S → Option (ArrayStore S)
  marray_copy s = do
    check s.array.has_allocator
    s' ←
        marray_reserve (record s { array = record s.array { address = 0; len = 0; capacity = 0 } })
          s.array.len
    let copied =
        if not (s.array.address == 0) && ltb 0 s.array.len
        then memcpy s'.memory s'.array.address s.array.address ((size * s.array.len) % 2 ^ 64)
        else s'.memory
    some (record s' { memory = copied; array = record s'.array { len = s.array.len } })

  unfoldable pub marray_destroy : FreeProc S → ArrayStore S → Option (ArrayStore S)
  marray_destroy free s =
      let freed = (do
        (m, state) ← free s.memory s.state s.array.address ((size * s.array.capacity) % 2 ^ 64)
        some (record { memory = m; state = state; array = record s.array { address = 0 } })) in
      if not (s.array.address == 0) && s.array.has_allocator then freed else some s

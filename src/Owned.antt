-- ===== src/Owned.antt =====
-- `MString8` of cxb/cxb.h, a string that owns its bytes, over any allocator: what an allocation
-- procedure does is a parameter. `none` is a failed assertion, also one of the allocator.
pub mod Terminator
pub mod Extend
pub mod MArray
mod Tests
use cxb.Prelude.{
  check, ◌>>=◌, ◌>>◌, ℕ, ◌+◌, ◌-◌, ◌/◌, ◌%◌, ◌^◌, Bool, true, false, not, ◌&&◌, Option, none, some,
  ◌==◌, ltb, leb, if◌then◌else◌, add64,
}
use cxb.Text.{Memory, String8}
use cxb.Arena.{memset, memcpy}

pub record MString8 : Type 0 where
  pub address : ℕ
  pub len : ℕ
  pub not_null_term : Bool
  pub capacity : ℕ
  pub has_allocator : Bool

-- Memory, what the allocator keeps, and the string.
pub record Store (S : Type 0) : Type 0 where
  pub memory : Memory
  pub state : S
  pub str : MString8

abbrev pub str_min_cap : ℕ
str_min_cap = 32

-- `CXB_STR_GROW_FN`
unfoldable pub str_grow : ℕ → ℕ
str_grow x = add64 x (x / 2)

-- `data[i] = ch`
unfoldable pub set_byte : Memory → ℕ → ℕ → Memory
set_byte m a ch i = if i == a then ch else m i

-- `MString8::n_bytes`
unfoldable pub owned_bytes : MString8 → ℕ
owned_bytes str = str.len + (if str.not_null_term then 1 else 0)

-- `alloc_proc`, on memory and the allocator's state, gives the address of the block.
abbrev pub AllocProc : Type 0 → Type 0
AllocProc S =
    Memory
    → S
    → (head n_bytes alignment old_n_bytes : ℕ) → (fill_zeros : Bool) → Option (Memory × S × ℕ)

module _ {S : Type 0} (alloc : AllocProc S) where
  unfoldable pub mstring_reserve : Store S → ℕ → Option (Store S)
  mstring_reserve s cap =
      let new_count = if ltb cap str_min_cap then str_min_cap else cap in
      let grown = (do
        (m, state, p) ← alloc s.memory s.state s.str.address new_count 1 s.str.capacity false
        some (record {
          memory = m;
          state = state;
          str = record s.str { address = p; capacity = new_count };
        })) in
      check s.str.has_allocator >> (if ltb s.str.capacity new_count then grown else some s)

  -- The terminator that every operation writes behind a terminated string.
  unfoldable pub terminate : Store S → Store S
  unfolding set_byte
  terminate s =
      if s.str.not_null_term
      then s
      else record s { memory = set_byte s.memory (s.str.address + s.str.len) 0 }

  unfoldable pub mstring_resize : Store S → (new_len fill_char : ℕ) → Option (Store S)
  unfolding mstring_reserve terminate
  mstring_resize s new_len fill_char =
      let reserve_size = new_len + (if s.str.not_null_term then 0 else 1) in
      let grown = mstring_reserve s reserve_size in
      do
        check s.str.has_allocator
        s' ← (if ltb s.str.capacity reserve_size then grown else some s)
        let filled =
            if not (fill_char == 0) && ltb s.str.len new_len
            then memset s'.memory (s'.str.address + s.str.len) fill_char (new_len - s.str.len)
            else s'.memory
        some (terminate (record s' { memory = filled; str = record s'.str { len = new_len } }))

  unfoldable pub mstring_push_back : Store S → (ch : ℕ) → Option (Store S)
  unfolding mstring_reserve owned_bytes str_grow set_byte terminate
  mstring_push_back s ch =
      let grown = mstring_reserve s (str_grow s.str.capacity) in
      do
        s' ← (if leb s.str.capacity (owned_bytes s.str + 1) then grown else some s)
        some (
            terminate (record s' {
              memory = set_byte s'.memory (s'.str.address + s'.str.len) ch;
              str = record s'.str {
                len = s'.str.len + 1;
                not_null_term = s'.str.not_null_term && not (ch == 0);
              };
            }))

  unfoldable pub mstring_pop_back : Store S → Option (Store S × ℕ)
  unfolding set_byte
  mstring_pop_back s = do
    check (ltb 0 s.str.len)
    let last = s.str.address + (s.str.len - 1)
    some (
      record s {
        memory = set_byte s.memory last 0;
        str = record s.str { len = s.str.len - 1; not_null_term = false };
      },
      s.memory last,
    )

  unfoldable pub mstring_extend : Store S → String8 → Option (Store S)
  unfolding mstring_reserve terminate
  mstring_extend s other =
      let extended = (do
        s' ← mstring_reserve s (s.str.len + other.len)
        some (
            terminate (record s' {
              memory = memcpy s'.memory (s'.str.address + s'.str.len) other.address other.len;
              str = record s'.str { len = s'.str.len + other.len };
            }))) in
      if other.len == 0 then some s else extended

  -- The copy of the string on the same allocator.
  unfoldable pub mstring_copy : Store S → Option (Store S)
  unfolding mstring_reserve terminate
  mstring_copy s =
      let bare = record s { str = record s.str { address = 0; capacity = 0 } } in
      let copied = (do
        s' ← mstring_reserve bare (s.str.len + (if s.str.not_null_term then 1 else 0))
        some (
            terminate
              (record s' { memory = memcpy s'.memory s'.str.address s.str.address s.str.len }))) in
      check s.str.has_allocator >> (if ltb 0 s.str.len then copied else some bare)

  -- Without an allocator to copy to.
  unfoldable pub ensure_not_null_terminated : Store S → Option (Store S)
  unfolding mstring_push_back
  ensure_not_null_terminated s =
      let terminated = mstring_push_back s 0 in
      if s.str.not_null_term then check s.str.has_allocator >> terminated else some s

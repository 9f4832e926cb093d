-- ===== src/Owned/Terminator.antt =====
-- Where `extend` and `copy` of a string write its terminator.
use cxb.Prelude.{
  ℕ, ◌+◌, ◌<◌, ◌≤◌, ◌≡◌, ◌≢◌, refl, true, false, some, ==_ne, ==_refl, lt→ltb, le→ltb_false,
}
use cxb.Text.{Memory, String8}
use cxb.Arena.{memcpy}
use cxb.Owned.{AllocProc, Store, str_min_cap, mstring_reserve, terminate, set_byte, mstring_extend}

module _ {S : Type 0} (alloc : AllocProc S) where
  -- Growing to at least 32 bytes gives exactly the capacity that is asked for.
  reserve_exact :
      (s : Store S) (cap : ℕ) (m : Memory) (state : S) (p : ℕ)
      → s.str.has_allocator ≡ true
      → str_min_cap ≤ cap
      → s.str.capacity < cap
      → alloc s.memory s.state s.str.address cap 1 s.str.capacity false ≡ some (m, state, p)
      → mstring_reserve alloc s cap
        ≡ some (record {
          memory = m;
          state = state;
          str = record s.str { address = p; capacity = cap };
        })
  unfolding mstring_reserve
  reserve_exact s cap m state p has big grows e =
      rw
        (mstring_reserve, has, le→ltb_false cap str_min_cap big, lt→ltb s.str.capacity cap grows, e)
        refl

  -- `extend` of a terminated string that has to grow to at least 32 bytes writes the terminator
  -- behind the block that it got: the capacity is the new length, and the byte at that offset is set.
  pub mstring_extend_past :
      (s : Store S) (other : String8) (m : Memory) (state : S) (p : ℕ)
      → s.str.has_allocator ≡ true
      → s.str.not_null_term ≡ false
      → other.len ≢ 0
      → str_min_cap ≤ s.str.len + other.len
      → s.str.capacity < s.str.len + other.len
      → alloc s.memory s.state s.str.address (s.str.len + other.len) 1 s.str.capacity false
        ≡ some (m, state, p)
      → (s' : Store S) × (mstring_extend alloc s other ≡ some s')
        × (s'.str.address ≡ p)
        × (s'.str.capacity ≡ s'.str.len)
        × (s'.memory (p + s'.str.capacity) ≡ 0)
  unfolding mstring_extend terminate set_byte
  mstring_extend_past s other m state p has term some_bytes big grows e =
      let n = s.str.len + other.len in
      let copied = memcpy m (p + s.str.len) other.address other.len in
      (
        record {
          memory = set_byte copied (p + n) 0;
          state = state;
          str = record s.str { address = p; len = n; capacity = n };
        },
        rw (==_ne other.len 0 some_bytes, reserve_exact s n m state p has big grows e, term) refl,
        refl,
        refl,
        rw (==_refl (p + n)) refl,
      )

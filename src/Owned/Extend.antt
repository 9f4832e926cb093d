-- ===== src/Owned/Extend.antt =====
-- `extend` of a string that owns its bytes, over any allocator and over an arena.
use mathlib.Core.Path.{ap₂}
use cxb.Prelude.{
  ℕ, ◌+◌, ◌<◌, ◌≤◌, ◌≡◌, ◌≢◌, ◌⊎◌, inl, inr, refl, ap, ◌∙◌, true, false, Bool-cases, some, List,
  ◌++◌, arith, ltb, if◌then◌else◌, ==_ne, lt→ltb, le→ltb_false, dec_lt,
}
use cxb.Text.{Memory, String8, bytes, view}
use cxb.Text.Bytes.{bytes_split}
use cxb.Array.Bytes.{shifted}
use cxb.Arena.{Arena, memcpy}
use cxb.Arena.Position.{aligned_pos}
use cxb.Allocator.{arena_alloc_proc}
use cxb.Allocator.Writes.{memcpy_inside, memcpy_outside}
use cxb.Allocator.Resize.{IsBlock, arena_alloc_proc_correct}
use cxb.Owned.{AllocProc, Store, str_min_cap, mstring_reserve, terminate, set_byte, mstring_extend}

-- The bytes of the string.
abbrev pub contents_of : {S : Type 0} → Store S → List ℕ
contents_of s = bytes s.memory s.str.address s.str.len

-- The capacity after `reserve`.
abbrev pub new_count : ℕ → ℕ
new_count cap = if ltb cap str_min_cap then str_min_cap else cap

pub new_count_ge : (cap : ℕ) → cap ≤ new_count cap
new_count_ge cap = ground arith

module _ {S : Type 0} (alloc : AllocProc S) where
  terminate-memory :
      (s : Store S) (x : ℕ)
      → x ≢ s.str.address + s.str.len
      → (terminate alloc s).memory x ≡ s.memory x
  unfolding terminate set_byte
  terminate-memory s x ne = elim (Bool-cases s.str.not_null_term) [
    | inl t ↦ rw t refl
    | inr t ↦ rw (t, ==_ne x (s.str.address + s.str.len) ne) refl
  ]

  terminate-str : (s : Store S) → (terminate alloc s).str ≡ s.str
  unfolding terminate
  terminate-str s = elim (Bool-cases s.str.not_null_term) [ inl t ↦ rw t refl | inr t ↦ rw t refl ]

  -- What a reservation leaves: room, and the bytes of the string and of another text.
  pub record Reserved (s : Store S) (other : String8) (cap : ℕ) (s' : Store S) : Type 0 where
    pub run : mstring_reserve alloc s cap ≡ some s'
    pub len : s'.str.len ≡ s.str.len
    pub capacity : cap ≤ s'.str.capacity
    pub kept :
        (i : ℕ) → i < s.str.len → s'.memory (s'.str.address + i) ≡ s.memory (s.str.address + i)
    pub other_kept :
        (i : ℕ) → i < other.len → s'.memory (other.address + i) ≡ s.memory (other.address + i)
    -- The bytes behind the string are apart from the other text.
    pub apart :
        (s'.str.address + s'.str.len + other.len ≤ other.address)
        ⊎ (other.address + other.len ≤ s'.str.address + s'.str.len)

  -- What `extend` leaves.
  pub record Extended (s : Store S) (other : String8) (s' : Store S) : Type 0 where
    pub len : s'.str.len ≡ s.str.len + other.len
    pub capacity : s'.str.len ≤ s'.str.capacity
    pub contents : contents_of s' ≡ contents_of s ++ view s.memory other

  pub extend-Reserved :
      (s s1 : Store S) (other : String8)
      → other.len ≢ 0
      → Reserved s other (s.str.len + other.len) s1
      → (s' : Store S) × (mstring_extend alloc s other ≡ some s') × Extended s other s'
  unfolding mstring_extend
  extend-Reserved s s1 other some_bytes r = (
    terminate alloc w,
    rw (mstring_extend, ==_ne other.len 0 some_bytes, r.run) refl,
    record {
      len = ap (λ q. q.len) (terminate-str w) ∙ omega (arith, r.len);
      capacity = rw (terminate-str w) (omega (arith, r.capacity, r.len));
      contents =
          ap (λ q. bytes m' q.address q.len) (terminate-str w)
          ∙ ap (bytes m' a)
              (let e : s1.str.len + other.len ≡ s.str.len + other.len = omega (arith, r.len) in e)
          ∙ bytes_split m' a s.str.len other.len
          ∙ ap₂ ◌++◌
              (shifted s.memory m' a s.str.address s.str.len (λ i l.
                terminate-memory w (a + i) (omega (arith, r.len, some_bytes))
                ∙ memcpy_outside s1.memory (a + s1.str.len) other.address other.len (a + i)
                    (inl (omega (arith, r.len)))
                ∙ r.kept i l))
              (shifted s.memory m' (a + s.str.len) other.address other.len (λ i l.
                terminate-memory w (a + s.str.len + i) (omega (arith, r.len))
                ∙ ap (memcpy s1.memory (a + s1.str.len) other.address other.len)
                    (let e : a + s.str.len + i ≡ a + s1.str.len + i = omega (arith, r.len) in e)
                ∙ memcpy_inside s1.memory (a + s1.str.len) other.address other.len i r.apart l
                ∙ r.other_kept i l));
    },
  )
    where
      a : ℕ
      a = s1.str.address

      w : Store S
      w = record s1 {
        memory = memcpy s1.memory (s1.str.address + s1.str.len) other.address other.len;
        str = record s1.str { len = s1.str.len + other.len };
      }

      m' : Memory
      m' = (terminate alloc w).memory

  reserve_enough :
      (s : Store S) (cap : ℕ)
      → s.str.has_allocator ≡ true
      → new_count cap ≤ s.str.capacity
      → mstring_reserve alloc s cap ≡ some s
  unfolding mstring_reserve
  reserve_enough s cap has enough =
      rw (mstring_reserve, has, le→ltb_false s.str.capacity (new_count cap) enough) refl

  reserve_grows :
      (s : Store S) (cap : ℕ) (m : Memory) (state : S) (p : ℕ)
      → s.str.has_allocator ≡ true
      → s.str.capacity < new_count cap
      → alloc s.memory s.state s.str.address (new_count cap) 1 s.str.capacity false
        ≡ some (m, state, p)
      → mstring_reserve alloc s cap
        ≡ some (record {
          memory = m;
          state = state;
          str = record s.str { address = p; capacity = new_count cap };
        })
  unfolding mstring_reserve
  reserve_grows s cap m state p has more e =
      rw (mstring_reserve, has, lt→ltb s.str.capacity (new_count cap) more, e) refl

-- A string on an arena whose block is in use, as are the bytes of another text, which end where the
-- string's bytes end or before or start behind its block, with room in the arena for a block as large
-- as the two together.
pub record OnArena (s : Store Arena) (other : String8) : Type 0 where
  pub has_allocator : s.str.has_allocator ≡ true
  pub block : IsBlock s.state s.str.address s.str.capacity
  pub holds : s.str.len ≤ s.str.capacity
  pub text : other.address + other.len ≤ s.state.start + s.state.pos
  pub apart :
      (other.address + other.len ≤ s.str.address + s.str.len)
      ⊎ (s.str.address + s.str.capacity ≤ other.address)
  pub room :
      s.state.start + aligned_pos s.state.pos 1 + new_count (s.str.len + other.len) < s.state.end

reserve-Reserved :
    (s : Store Arena) (other : String8)
    → OnArena s other
    → (s' : Store Arena) × Reserved arena_alloc_proc s other (s.str.len + other.len) s'
reserve-Reserved s other o =
    let cap = s.str.len + other.len in
    elim (dec_lt s.str.capacity (new_count cap)) [
      | no enough ↦ (
        s,
        record {
          run = reserve_enough arena_alloc_proc s cap o.has_allocator (omega arith);
          len = refl;
          capacity = omega (arith, new_count_ge cap);
          kept = λ i l. refl;
          other_kept = λ i l. refl;
          apart = ground (arith, o.apart, new_count_ge cap);
        },
      )
      | yes more ↦
          let (m, a, p, e, r) =
            arena_alloc_proc_correct s.memory s.state 0 (omega arith) (omega arith) s.str.address
              s.str.capacity (new_count cap) false o.block o.room in
          (
            record {
              memory = m;
              state = a;
              str = record s.str { address = p; capacity = new_count cap };
            },
            record {
              run = reserve_grows arena_alloc_proc s cap m a p o.has_allocator more e;
              len = refl;
              capacity = new_count_ge cap;
              kept = λ i l. r.kept i (omega (arith, o.holds)) (omega (arith, o.holds));
              other_kept = λ i l. r.frame (other.address + i) (omega (arith, o.text));
              apart = ground (arith, o.apart, o.text, o.holds, r.place);
            },
          )
    ]

-- `extend` of a string on an arena that has the room, by text in the part of the arena in use or
-- before the arena that ends where the string's bytes end or before, or starts behind the string's
-- block, returns, wherever the block of the string stands: the string then holds its bytes and those
-- of the other text behind them, within its capacity.
pub mstring_extend_correct :
    (s : Store Arena) (other : String8)
    → other.len ≢ 0
    → OnArena s other
    → (s' : Store Arena) × (mstring_extend arena_alloc_proc s other ≡ some s')
      × Extended arena_alloc_proc s other s'
mstring_extend_correct s other some_bytes o =
    let (s1, r) = reserve-Reserved s other o in
    extend-Reserved arena_alloc_proc s s1 other some_bytes r

-- ===== src/Owned/MArray/Append.antt =====
-- What the functions of `MArray` that add at its end leave in its elements, over any allocator and
-- over an arena.
use native.Mathlib.Nat.{mul-le-mul_left, mod-eq_of_lt}
use mathlib.Core.Path.{ap₂}
use cxb.Prelude.{
  ℕ, ◌+◌, ◌*◌, ◌/◌, ◌%◌, ◌^◌, ◌<◌, ◌≤◌, ◌≡◌, inl, inr, refl, ap, ◌∙◌, true, false, Bool-cases, some,
  List, ◌++◌, arith, leb, add64, lt→ltb, le→ltb_false, dec_lt, length, add64_small,
}
use cxb.Text.{Memory, bytes}
use cxb.Text.Bytes.{bytes_split}
use cxb.Array.{write_bytes}
use cxb.Array.Bytes.{shifted, bytes-write_bytes, bytes-write_bytes_before}
use cxb.Arena.{Arena}
use cxb.Arena.Position.{aligned_pos}
use cxb.Allocator.{arena_alloc_proc}
use cxb.Allocator.Resize.{IsBlock, arena_alloc_proc_correct}
use cxb.Owned.{AllocProc}
use cxb.Owned.Extend.{new_count, new_count_ge}
use cxb.Owned.MArray.{ArrayStore, seq_grow, marray_reserve, put_back, marray_push_back}

module _ (size : ℕ) where
  -- The bytes of the elements.
  abbrev pub elements : {S : Type 0} → ArrayStore S → List ℕ
  elements s = bytes s.memory s.array.address (size * s.array.len)

  -- Elements are added behind the others, within the capacity.
  pub record Appended {S : Type 0} (s : ArrayStore S) (n : ℕ) (xs : List ℕ) (s' : ArrayStore S)
      : Type 0 where
    pub len : s'.array.len ≡ s.array.len + n
    pub capacity : s'.array.len ≤ s'.array.capacity
    pub contents : elements s' ≡ elements s ++ xs

  module _ {S : Type 0} (alloc : AllocProc S) (align : ℕ) where
    -- What a reservation leaves: room, the elements, and another part of memory.
    pub record Reserved (s : ArrayStore S) (other n cap : ℕ) (s' : ArrayStore S) : Type 0 where
      pub run : marray_reserve alloc size align s cap ≡ some s'
      pub len : s'.array.len ≡ s.array.len
      pub capacity : new_count cap ≤ s'.array.capacity
      pub kept : elements s' ≡ elements s
      pub other_kept : bytes s'.memory other n ≡ bytes s.memory other n

    put_back-Appended :
        (s s1 : ArrayStore S) (value : List ℕ)
        → length value ≡ size
        → s1.array.len ≡ s.array.len
        → s.array.len < s1.array.capacity
        → s.array.len < 2 ^ 63
        → elements s1 ≡ elements s
        → Appended s 1 value (put_back alloc size align s1 value)
    unfolding put_back
    put_back-Appended s s1 value e same room small kept =
        let sum : add64 s1.array.len 1 ≡ s1.array.len + 1 =
          add64_small s1.array.len 1 (omega arith) in
        let a = s1.array.address in
        let n = size * s1.array.len in
        let m' = write_bytes s1.memory (a + n) value in
        record {
          len = sum ∙ omega arith;
          capacity = rw sum (omega arith);
          contents =
              ap (λ k. bytes m' a (size * k)) sum
              ∙ ap (bytes m' a)
                  (let w : size * (s1.array.len + 1) ≡ n + length value = omega (arith, e) in w)
              ∙ bytes_split m' a n (length value)
              ∙ ap₂ ◌++◌ (bytes-write_bytes_before s1.memory (a + n) value a n (omega arith) ∙ kept)
                  (bytes-write_bytes s1.memory (a + n) value);
        }

    -- With room for one more, or a reservation that gives it.
    pub push_back-Appended :
        (s : ArrayStore S) (value : List ℕ)
        → length value ≡ size
        → s.array.has_allocator ≡ true
        → s.array.len < 2 ^ 63
        → (leb s.array.capacity (add64 s.array.len 1) ≡ true
            → (s1 : ArrayStore S) × Reserved s 0 0 (seq_grow s.array.capacity) s1
              × (s.array.len < s1.array.capacity))
        → (s' : ArrayStore S) × (marray_push_back alloc size align s value ≡ some s')
          × Appended s 1 value s'
    unfolding marray_push_back
    push_back-Appended s value e has small more =
        elim (Bool-cases (leb s.array.capacity (add64 s.array.len 1))) [
          | inl full ↦
              let (s1, r, room) = more full in
              (
                put_back alloc size align s1 value,
                rw (marray_push_back, full, r.run, has) refl,
                put_back-Appended s s1 value e r.len room small r.kept,
              )
          | inr fits ↦ (
            put_back alloc size align s value,
            rw (marray_push_back, has, fits) refl,
            put_back-Appended s s value e refl
                (let sum = add64_small s.array.len 1 (omega arith) in
                  let below : leb s.array.capacity (s.array.len + 1) ≡ false = rw sum at fits in
                  ground arith)
                small refl,
          )
        ]

    reserve_enough :
        (s : ArrayStore S) (cap : ℕ)
        → s.array.has_allocator ≡ true
        → new_count cap ≤ s.array.capacity
        → marray_reserve alloc size align s cap ≡ some s
    unfolding marray_reserve
    reserve_enough s cap has enough =
        rw (marray_reserve, has, le→ltb_false s.array.capacity (new_count cap) enough) refl

    reserve_grows :
        (s : ArrayStore S) (cap : ℕ) (m : Memory) (state : S) (p : ℕ)
        → s.array.has_allocator ≡ true
        → s.array.capacity < new_count cap
        → size * new_count cap < 2 ^ 64
        → size * s.array.capacity < 2 ^ 64
        → alloc s.memory s.state s.array.address
            (size * new_count cap)
            align
            (size * s.array.capacity)
            false
          ≡ some (m, state, p)
        → marray_reserve alloc size align s cap
          ≡ some (record {
            memory = m;
            state = state;
            array = record s.array { address = p; capacity = new_count cap };
          })
    unfolding marray_reserve
    reserve_grows s cap m state p has more new old e =
        rw
          (
            marray_reserve,
            has,
            lt→ltb s.array.capacity (new_count cap) more,
            mod-eq_of_lt new,
            mod-eq_of_lt old,
            e,
          )
          refl

  -- An array on an arena whose block is in use, with room in the arena for a block of a capacity. The
  -- alignment is `2 ^ k`.
  pub record OnArena (s : ArrayStore Arena) (k cap : ℕ) : Type 0 where
    pub has_allocator : s.array.has_allocator ≡ true
    pub small : k ≤ 63
    pub start : s.state.start % 2 ^ k ≡ 0
    pub block : IsBlock s.state s.array.address (size * s.array.capacity)
    pub holds : s.array.len ≤ s.array.capacity
    pub room : s.state.start + aligned_pos s.state.pos (2 ^ k) + size * new_count cap < s.state.end

  reserve-Reserved :
      (s : ArrayStore Arena) (k other n cap : ℕ)
      → OnArena s k cap
      → other + n ≤ s.state.start + s.state.pos
      → (s' : ArrayStore Arena) × Reserved arena_alloc_proc (2 ^ k) s other n cap s'
  reserve-Reserved s k other n cap o inside = elim (dec_lt s.array.capacity (new_count cap)) [
    | no enough ↦ (
      s,
      record {
        run = reserve_enough arena_alloc_proc (2 ^ k) s cap o.has_allocator (omega arith);
        len = refl;
        capacity = omega arith;
        kept = refl;
        other_kept = refl;
      },
    )
    | yes more ↦
        let (m, a, p, e, r) =
          arena_alloc_proc_correct s.memory s.state k o.small o.start s.array.address
            (size * s.array.capacity) (size * new_count cap) false o.block o.room in
        (
          record {
            memory = m;
            state = a;
            array = record s.array { address = p; capacity = new_count cap };
          },
          record {
            run =
                reserve_grows arena_alloc_proc (2 ^ k) s cap m a p o.has_allocator more
                  (omega (arith, o.room, o.block.below))
                  (ground (arith, o.block.place, o.block.below, o.block.used)) e;
            len = refl;
            capacity = omega arith;
            kept = shifted s.memory m p s.array.address (size * s.array.len) (λ i l.
                r.kept i (within i s.array.capacity l o.holds)
                  (within i (new_count cap) l (omega (arith, o.holds))));
            other_kept =
                shifted s.memory m other other n (λ i l. r.frame (other + i) (omega arith));
          },
        )
  ]
    where
      within : (i c : ℕ) → i < size * s.array.len → s.array.len ≤ c → i < size * c
      within i c l h = let w : size * s.array.len ≤ size * c = mul-le-mul_left size h in omega arith

  new_count_least : (cap : ℕ) → 32 ≤ new_count cap
  new_count_least cap = ground arith

  seq_grow_more : (len c : ℕ) → len ≤ c → c < 2 ^ 63 → len < new_count (seq_grow c)
  unfolding seq_grow
  seq_grow_more len c l small =
      rw (add64_small c (c / 2) (omega arith))
        (omega (arith, new_count_ge (c + c / 2), new_count_least (c + c / 2)))

  -- `push_back` of an array on an arena that has room for it when it grows returns, wherever the block
  -- of the array stands: the array then holds its elements and the new one behind them, within its
  -- capacity.
  pub marray_push_back_correct :
      (s : ArrayStore Arena) (k : ℕ) (value : List ℕ)
      → length value ≡ size
      → s.array.capacity < 2 ^ 63
      → OnArena s k (seq_grow s.array.capacity)
      → (s' : ArrayStore Arena) × (marray_push_back arena_alloc_proc size (2 ^ k) s value ≡ some s')
        × Appended s 1 value s'
  marray_push_back_correct s k value e small o =
      push_back-Appended arena_alloc_proc (2 ^ k) s value e o.has_allocator (omega (arith, o.holds))
        λ full.
          let (s1, r) = reserve-Reserved s k 0 0 (seq_grow s.array.capacity) o (omega arith) in
          (
            s1,
            r,
            omega (arith, r.capacity, seq_grow_more s.array.len s.array.capacity o.holds small),
          )

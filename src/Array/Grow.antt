-- ===== src/Array/Grow.antt =====
-- The array functions that add at the end of an array: what they leave in its elements.
use native.Mathlib.Nat.{mod-eq_of_lt, mul-zero}
use mathlib.Core.Path.{ap₂}
use cxb.Prelude.{
  ℕ, ◌+◌, ◌-◌, ◌*◌, ◌%◌, ◌^◌, ◌<◌, ◌≤◌, ◌≡◌, ◌≢◌, ◌⊎◌, inl, inr, refl, ap, ◌∙◌, true, some, List,
  ◌++◌, ◌||◌, ◌&&◌, ◌==◌, ltb, leb, if◌then◌else◌, add64, add64_small, sub64, arith, ==_refl, ==_ne,
  length,
}
use cxb.Text.{Memory, bytes}
use cxb.Text.Bytes.{bytes_split, length-bytes}
use cxb.Arena.{Arena, arena_push_bytes, arena_pop_to, memcpy}
use cxb.Arena.Position.{no_padding, arena_push_bytes_correct}
use cxb.Array.{
  Array, State, write_bytes, on_arena, ends_arena, array_push_back, array_extend, array_pop_back,
}
use cxb.Array.Bytes.{bytes-write_bytes, bytes-write_bytes_before, bytes-memcpy, bytes-memcpy_before}

module _ (size k : ℕ) where
  -- The bytes of an array's elements.
  abbrev pub contents : State → List ℕ
  contents s = bytes s.memory s.array.address (size * s.array.len)

  -- An array that can grow: it is null, or it is the last thing on its arena, whose start and
  -- position are multiples of the alignment `2 ^ k`.
  pub record IsLast (s : State) : Type 0 where
    pub small : k ≤ 63
    pub some_size : 0 < size
    pub not_null : 0 < s.arena.start
    pub low : s.arena.end ≤ 2 ^ 63
    pub start : s.arena.start % 2 ^ k ≡ 0
    pub pos : s.arena.pos % 2 ^ k ≡ 0
    pub room : s.arena.start + s.arena.pos < s.arena.end
    pub len : s.array.len < 2 ^ 63
    pub place :
        ((s.array.address ≡ 0) × (s.array.len ≡ 0))
        ⊎ ((s.arena.start ≤ s.array.address)
            × (s.array.address < s.arena.end)
            × (s.array.address + size * s.array.len ≡ s.arena.start + s.arena.pos))

  -- Where the array stands once it is not null.
  abbrev pub base : State → ℕ
  base s = if s.array.address == 0 then s.arena.start + s.arena.pos else s.array.address

  module _ (s : State) (v : IsLast s) where
    pub base_lem :
        (s.arena.start ≤ base s)
        × (base s < s.arena.end)
        × (base s + size * s.array.len ≡ s.arena.start + s.arena.pos)
        × (bytes s.memory (base s) (size * s.array.len) ≡ contents s)
    base_lem = go v.place
      where
        go :
            ((s.array.address ≡ 0) × (s.array.len ≡ 0))
              ⊎ ((s.arena.start ≤ s.array.address)
                  × (s.array.address < s.arena.end)
                  × (s.array.address + size * s.array.len ≡ s.arena.start + s.arena.pos))
            → (s.arena.start ≤ base s)
              × (base s < s.arena.end)
              × (base s + size * s.array.len ≡ s.arena.start + s.arena.pos)
              × (bytes s.memory (base s) (size * s.array.len) ≡ contents s)
        go (inl (z, e)) =
            let n : size * s.array.len ≡ 0 = ap (λ t. size * t) e ∙ mul-zero size in
            rw (n, z) (omega arith, v.room, omega arith, refl)
        go (inr (a, b, c)) =
            let ne : s.array.address ≢ 0 = omega (arith, v.not_null) in
            rw (==_ne s.array.address 0 ne) (a, b, c, refl)

    pub passes :
        (on_arena s.arena s.array ≡ true)
        × ((s.array.address == 0 || ends_arena size (2 ^ k) s.arena s.array) ≡ true)
    unfolding on_arena ends_arena
    passes = ground (arith, v.place)

    -- Adding `n` bytes to the arena.
    pub pushed :
        (n : ℕ)
        → s.arena.start + s.arena.pos + n < s.arena.end
        → arena_push_bytes s.arena n (2 ^ k)
          ≡ some (record s.arena { pos = s.arena.pos + n }, s.arena.start + s.arena.pos)
    pushed n fits =
        let p = no_padding s.arena.pos k v.small (omega (arith, v.low)) v.pos in
        let e =
          arena_push_bytes_correct s.arena n k v.small v.start v.low (omega arith) (rw p fits) in
        rw p at (e.0)

  -- Dropping the last element of an array that ends where its arena does.
  popped :
      (align : ℕ) (a : Arena) (b len : ℕ) (m : Memory)
      → a.start ≤ b
      → b < a.end
      → b + size * len ≡ a.start + a.pos
      → len < 2 ^ 63
      → a.end ≤ 2 ^ 63
      → a.start + a.pos + size < a.end
      → array_pop_back size align (record {
        memory = m;
        arena = record a { pos = a.pos + size };
        array = record { address = b; len = add64 len 1 };
      })
        ≡ some (record { memory = m; arena = a; array = record { address = b; len = len } })
  unfolding array_pop_back on_arena ends_arena arena_pop_to
  popped align a b len m lo hi ends small low fits =
      let n : add64 len 1 ≡ len + 1 = add64_small len 1 (omega (arith, small)) in
      let more : b + size * (len + 1) ≡ a.start + (a.pos + size) = omega (arith, ends) in
      let l : sub64 (len + 1) 1 ≡ len = omega (arith, small) in
      let w : sub64 (a.pos + size) size ≡ a.pos = omega (arith, low) in
      let top : (b == 0 || (leb a.start b && ltb b a.end)) ≡ true = ground arith in
      let back : (a.pos == a.pos + size
            || (ltb a.pos (a.pos + size) && leb a.pos (a.end - a.start)))
          ≡ true =
        ground arith in
      rw (n, top, more, ==_refl (a.start + (a.pos + size)), w, back, l)

  -- What adding elements leaves: the arena's position is behind them, and they follow the elements
  -- that were there.
  pub record Extended (s : State) (count : ℕ) (added : List ℕ) (s' : State) : Type 0 where
    pub arena : s'.arena ≡ record s.arena { pos = s.arena.pos + length added }
    pub len : s'.array.len ≡ s.array.len + count
    pub elements : contents s' ≡ contents s ++ added

  module _ (s : State) (v : IsLast s) where
    -- A value that is written behind the elements.
    written_behind :
        (value : List ℕ)
        → length value ≡ size
        → bytes
            (write_bytes s.memory (base s + size * s.array.len) value)
            (base s)
            (size * (s.array.len + 1))
          ≡ contents s ++ value
    written_behind value e =
        let at' = base s + size * s.array.len in
        ap (bytes (write_bytes s.memory at' value) (base s)) (
          let w : size * (s.array.len + 1) ≡ size * s.array.len + length value = omega (arith, e) in
          w)
        ∙ bytes_split (write_bytes s.memory at' value) (base s) (size * s.array.len) (length value)
        ∙ ap₂ ◌++◌
            (bytes-write_bytes_before s.memory at' value (base s) (size * s.array.len) (omega arith)
              ∙ (base_lem s v).3)
            (bytes-write_bytes s.memory at' value)

    -- `array_push_back` on an array that can grow, where the value fits the arena, returns and appends
    -- the value to the elements.
    pub array_push_back_correct :
        (value : List ℕ)
        → length value ≡ size
        → s.arena.start + s.arena.pos + size < s.arena.end
        → (s' : State) × (array_push_back size (2 ^ k) s value ≡ some s') × Extended s 1 value s'
    unfolding array_push_back
    array_push_back_correct value e fits =
        let (p, q) = passes s v in
        (
          record {
            memory = write_bytes s.memory (base s + size * s.array.len) value;
            arena = record s.arena { pos = s.arena.pos + size };
            array = record { address = base s; len = add64 s.array.len 1 };
          },
          rw (p, q, pushed s v size fits),
          record {
            arena = rw e refl;
            len = add64_small s.array.len 1 (omega (arith, v.len));
            elements =
                rw (add64_small s.array.len 1 (omega (arith, v.len))) (written_behind value e);
          },
        )

    copied_behind :
        (address count : ℕ)
        → (address + count * size ≤ s.arena.start + s.arena.pos)
          ⊎ (s.arena.start + s.arena.pos + count * size ≤ address)
        → bytes
            (memcpy s.memory (base s + size * s.array.len) address (count * size))
            (base s)
            (size * (s.array.len + count))
          ≡ contents s ++ bytes s.memory address (count * size)
    copied_behind address count apart =
        let at' = base s + size * s.array.len in
        let n = count * size in
        ap (bytes (memcpy s.memory at' address n) (base s))
          (let w : size * (s.array.len + count) ≡ size * s.array.len + n = omega arith in w)
        ∙ bytes_split (memcpy s.memory at' address n) (base s) (size * s.array.len) n
        ∙ ap₂ ◌++◌
            (bytes-memcpy_before s.memory at' address n (base s) (size * s.array.len) (omega arith)
              ∙ (base_lem s v).3)
            (bytes-memcpy s.memory at' address n
              (let e = (base_lem s v).2 in ground (arith, apart, e)))

    -- `array_extend` on an array that can grow, by elements that end before the arena's position or
    -- start behind all that is pushed, where they fit the arena, returns and appends them in order.
    pub array_extend_correct :
        (other : Array)
        → (other.address + other.len * size ≤ s.arena.start + s.arena.pos)
          ⊎ (s.arena.start + s.arena.pos + other.len * size ≤ other.address)
        → s.array.len + other.len < 2 ^ 64
        → s.arena.start + s.arena.pos + other.len * size < s.arena.end
        → (s' : State) × (array_extend size (2 ^ k) s other ≡ some s')
          × Extended s other.len (bytes s.memory other.address (other.len * size)) s'
    unfolding array_extend
    array_extend_correct other apart sum fits =
        let (p, q) = passes s v in
        let n : (other.len * size) % 2 ^ 64 ≡ other.len * size =
          mod-eq_of_lt (omega (arith, v.low)) in
        (
          record {
            memory = memcpy s.memory (base s + size * s.array.len) other.address (other.len * size);
            arena = record s.arena { pos = s.arena.pos + other.len * size };
            array = record { address = base s; len = add64 s.array.len other.len };
          },
          rw (p, q, n, pushed s v (other.len * size) fits),
          record {
            arena = rw (length-bytes s.memory other.address (other.len * size)) refl;
            len = add64_small s.array.len other.len sum;
            elements =
                rw (add64_small s.array.len other.len sum)
                  (copied_behind other.address other.len apart);
          },
        )

    -- The state that a push leaves, and the one that popping the value again leaves.
    abbrev pushed_state : List ℕ → State
    pushed_state value = record {
      memory = write_bytes s.memory (base s + size * s.array.len) value;
      arena = record s.arena { pos = s.arena.pos + size };
      array = record { address = base s; len = add64 s.array.len 1 };
    }

    abbrev popped_state : List ℕ → State
    popped_state value = record {
      memory = write_bytes s.memory (base s + size * s.array.len) value;
      arena = s.arena;
      array = record { address = base s; len = s.array.len };
    }

    pop_lem :
        (value : List ℕ)
        → s.arena.start + s.arena.pos + size < s.arena.end
        → array_pop_back size (2 ^ k) (pushed_state value) ≡ some (popped_state value)
    pop_lem value fits =
        let (lo, hi, ends, same) = base_lem s v in
        popped (2 ^ k) s.arena (base s) s.array.len (pushed_state value).memory lo hi ends v.len
          v.low fits

    -- `array_pop_back` undoes `array_push_back`: the arena is as before, and so are the elements.
    pub array_pop_back-array_push_back :
        (value : List ℕ)
        → length value ≡ size
        → s.arena.start + s.arena.pos + size < s.arena.end
        → (s' : State) × (s'' : State) × (array_push_back size (2 ^ k) s value ≡ some s')
          × (array_pop_back size (2 ^ k) s' ≡ some s'')
          × (s''.arena ≡ s.arena)
          × (s''.array.len ≡ s.array.len)
          × (contents s'' ≡ contents s)
    unfolding array_push_back
    array_pop_back-array_push_back value e fits =
        let (p, q) = passes s v in
        (
          pushed_state value,
          popped_state value,
          rw (p, q, pushed s v size fits),
          pop_lem value fits,
          refl,
          refl,
          bytes-write_bytes_before s.memory (base s + size * s.array.len) value (base s)
                (size * s.array.len) (omega arith)
              ∙ (base_lem s v).3,
        )

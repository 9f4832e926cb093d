-- ===== src/Array/Resize.antt =====
-- The three `array_resize` functions of cxb/cxb.h on an array that is the last thing on its arena.
use native.Mathlib.Nat.{mod-eq_of_lt, mul-pos}
use mathlib.Core.Path.{ap₂}
use cxb.Prelude.{
  ℕ, zero, suc, ◌+◌, ◌-◌, ◌*◌, ◌%◌, ◌^◌, ◌<◌, ◌≤◌, ◌≡◌, inl, inr, refl, ap, ◌∙◌, true, false, none,
  some, List, [], ◌∷◌, ◌++◌, ◌||◌, ◌&&◌, ◌==◌, ltb, leb, add64, sub64, arith, ==_ne, lt→ltb,
  le→ltb_false, length,
}
use cxb.Text.{Memory, bytes}
use cxb.Text.Bytes.{bytes_agree, bytes_split}
use cxb.Arena.{arena_push_fast, arena_pop_to, memset}
use cxb.Array.{
  State, can_resize, dropped, grow, shrink, array_resize, array_resize_fast, array_resize_value,
}
use cxb.Array.Grow.{IsLast, Extended, contents, base, base_lem, passes, pushed}

-- `n` bytes of value 0.
abbrev pub zeros : ℕ → List ℕ
zeros zero = []
zeros (suc n) = 0 ∷ zeros n

length-zeros : (n : ℕ) → length (zeros n) ≡ n
length-zeros zero = refl
length-zeros (suc n) = ap suc (length-zeros n)

bytes_zero : (m : Memory) (a n : ℕ) → ((i : ℕ) → i < n → m (a + i) ≡ 0) → bytes m a n ≡ zeros n
bytes_zero m a zero h = refl
bytes_zero m a (suc n) h =
    ap₂ ◌∷◌ (ap m (let e : a ≡ a + 0 = omega arith in e) ∙ h 0 (omega arith)) (
      bytes_zero m (suc a) n
        (λ i l. ap m (let e : suc a + i ≡ a + suc i = omega arith in e) ∙ h (suc i) (omega arith)))

bytes-memset : (m : Memory) (a n : ℕ) → bytes (memset m a 0 n) a n ≡ zeros n
bytes-memset m a n = bytes_zero (memset m a 0 n) a n (λ i l. unfold memset in ground arith)

bytes-memset_before :
    (m : Memory) (a c k b n : ℕ) → b + n ≤ a → bytes (memset m a c k) b n ≡ bytes m b n
bytes-memset_before m a c k b n h =
    bytes_agree (memset m a c k) m b n (λ i l. unfold memset in ground arith)

module _ (size k : ℕ) (s : State) (v : IsLast size k s) where
  can_resize_lem : can_resize size (2 ^ k) s ≡ some tt
  unfolding can_resize
  can_resize_lem = let (p, q) = passes size k s v in rw (p, q)

  module _ (new_size : ℕ) (more : s.array.len < new_size) (word : new_size < 2 ^ 64)
      (fits : s.arena.start + s.arena.pos + size * (new_size - s.array.len) < s.arena.end) where
    -- The bytes that are added.
    abbrev added : ℕ
    added = size * (new_size - s.array.len)

    abbrev grown_state : State
    grown_state = record {
      memory = memset s.memory (s.arena.start + s.arena.pos) 0 added;
      arena = record s.arena { pos = s.arena.pos + added };
      array = record { address = base size k s; len = new_size };
    }

    grow_lem : grow size (2 ^ k) s new_size (λ p m. memset m p 0 added) ≡ some grown_state
    unfolding grow arena_push_fast
    grow_lem =
        let n : sub64 new_size s.array.len ≡ new_size - s.array.len = omega arith in
        let w : (size * (new_size - s.array.len)) % 2 ^ 64 ≡ added =
          mod-eq_of_lt (omega (arith, v.low)) in
        rw (n, w, pushed size k s v added fits)

    zeros_behind :
        bytes grown_state.memory (base size k s) (size * new_size)
        ≡ contents size k s ++ zeros added
    zeros_behind =
        let (lo, hi, ends, same) = base_lem size k s v in
        let m' = grown_state.memory in
        let total : size * new_size ≡ size * s.array.len + added =
          ap (λ t. size * t)
            (let e : new_size ≡ s.array.len + (new_size - s.array.len) = omega arith in e)
          ∙ omega arith in
        ap (bytes m' (base size k s)) total
        ∙ bytes_split m' (base size k s) (size * s.array.len) added
        ∙ ap₂ ◌++◌
            (bytes-memset_before s.memory (s.arena.start + s.arena.pos) 0 added (base size k s)
                (size * s.array.len) (omega (arith, ends))
              ∙ same)
            (ap (λ a. bytes m' a added) ends
              ∙ bytes-memset s.memory (s.arena.start + s.arena.pos) added)

    -- `array_resize` to more elements, which fit the arena, returns and appends zero bytes.
    pub array_resize_grow :
        (s' : State) × (array_resize size (2 ^ k) s new_size ≡ some s')
        × Extended size k s (new_size - s.array.len) (zeros (size * (new_size - s.array.len))) s'
    unfolding array_resize
    array_resize_grow =
        let n : sub64 new_size s.array.len ≡ new_size - s.array.len = omega arith in
        let w : (size * (new_size - s.array.len)) % 2 ^ 64 ≡ added =
          mod-eq_of_lt (omega (arith, v.low)) in
        (
          grown_state,
          rw (==_ne new_size s.array.len (omega arith), can_resize_lem, lt→ltb _ _ more, n, w)
              grow_lem,
          record {
            arena = rw (length-zeros added) refl;
            len = omega arith;
            elements = zeros_behind;
          },
        )

  module _ (new_size : ℕ) (fewer : new_size < s.array.len) where
    -- The bytes that go.
    abbrev lost : ℕ
    lost = size * (s.array.len - new_size)

    whole : size * s.array.len ≡ size * new_size + lost
    whole =
        ap (λ t. size * t)
          (let e : s.array.len ≡ new_size + (s.array.len - new_size) = omega arith in e)
        ∙ omega arith

    placed :
        (s.arena.start ≤ s.array.address)
        × (s.array.address < s.arena.end)
        × (s.array.address + size * s.array.len ≡ s.arena.start + s.arena.pos)
    placed = elim v.place [ inl (z, e) ↦ absurd (omega (arith, e)) | inr p ↦ p ]

    dropped_lem :
        (dropped size (2 ^ k) s new_size ≡ lost)
        × (0 < lost)
        × (lost + s.arena.start ≤ s.arena.start + s.arena.pos)
    unfolding dropped
    dropped_lem =
        let w : sub64 s.array.len new_size ≡ s.array.len - new_size = omega (arith, v.len) in
        let total = whole in
        let some' : 0 < lost =
          mul-pos v.some_size (let e : 0 < s.array.len - new_size = omega arith in e) in
        let (lo, hi, ends) = placed in
        rw w (mod-eq_of_lt (omega (arith, v.low, v.room)), some', omega arith)

    abbrev shrunk_state : State
    shrunk_state = record s {
      arena = record s.arena { pos = s.arena.pos - lost };
      array = record { address = s.array.address; len = new_size };
    }

    -- `array_resize` to fewer elements returns, keeps the first ones, and gives the bytes of the
    -- others back to the arena.
    pub array_resize_shrink :
        (s' : State) × (array_resize size (2 ^ k) s new_size ≡ some s')
        × (s'.array.len ≡ new_size)
        × (s'.arena.pos + size * (s.array.len - new_size) ≡ s.arena.pos)
        × ((rest : List ℕ) × (contents size k s ≡ contents size k s' ++ rest))
    unfolding array_resize shrink arena_pop_to
    array_resize_shrink =
        let (d, some', in') = dropped_lem in
        let w : sub64 s.arena.pos lost ≡ s.arena.pos - lost = omega (arith, v.low, v.room) in
        let back : (s.arena.pos - lost == s.arena.pos
              || (ltb (s.arena.pos - lost) s.arena.pos
                  && leb (s.arena.pos - lost) (s.arena.end - s.arena.start)))
            ≡ true =
          ground (arith, v.room) in
        (
          shrunk_state,
          rw (
            ==_ne new_size s.array.len (omega arith),
            can_resize_lem,
            le→ltb_false s.array.len new_size (omega arith),
            d,
            w,
            back,
          ),
          refl,
          omega arith,
          (
            bytes s.memory (s.array.address + size * new_size) lost,
            ap (bytes s.memory s.array.address) whole
                ∙ bytes_split s.memory s.array.address (size * new_size) lost,
          ),
        )

    -- `array_resize_fast` and `array_resize` with a default value, to fewer elements, stop the
    -- program: the position that they go back to is ahead.
    pub array_resize_stops :
        (value : List ℕ)
        → (array_resize_fast size (2 ^ k) s new_size ≡ none)
          × (array_resize_value size (2 ^ k) s new_size value ≡ none)
    unfolding array_resize_fast array_resize_value shrink arena_pop_to
    array_resize_stops value =
        let (d, some', in') = dropped_lem in
        let w : add64 s.arena.pos lost ≡ s.arena.pos + lost = omega (arith, v.low, v.room) in
        let ahead : (s.arena.pos + lost == s.arena.pos
              || (ltb (s.arena.pos + lost) s.arena.pos
                  && leb (s.arena.pos + lost) (s.arena.end - s.arena.start)))
            ≡ false =
          ground arith in
        rw
          (
            ==_ne new_size s.array.len (omega arith),
            can_resize_lem,
            le→ltb_false s.array.len new_size (omega arith),
            d,
            w,
            ahead,
          )
          (refl, refl)

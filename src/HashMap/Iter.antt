-- ===== src/HashMap/Iter.antt =====
-- `MHashMap::Iterator`: `begin`, `++` and `ensure_occupied`. `end()` is the index `cap`.
use native.Mathlib.Nat.{mod-lt}
use cxb.Prelude.{
  ◌>>=◌, ℕ, zero, suc, ◌+◌, ◌<◌, ◌≡◌, ◌≢◌, refl, Option, none, some, ◌==◌, if◌then◌else◌, arith,
  ==_ne,
}
use cxb.HashMap.{Entry, empty, occupied, tombstone, MHashMap, next}
use cxb.HashMap.Probe.{IsCap, cap_pos, next_lem}

module _ {K V : Type 0} (m : MHashMap K V) where
  -- The loop of `ensure_occupied`, on fuel.
  unfoldable pub seek : ℕ → ℕ → Option ℕ
  seek zero idx = none
  seek (suc n) idx =
      let rest = seek n (next m.cap idx) in
      let go = if idx == m.cap then some idx else rest in
      elim (m.slots idx) [ occupied k v ↦ some idx | _ ↦ go ]

  unfoldable pub ensure_occupied : ℕ → ℕ → Option ℕ
  ensure_occupied fuel idx = if m.cap == 0 then some idx else seek fuel idx

  unfoldable pub begin : ℕ → Option ℕ
  begin fuel = ensure_occupied fuel 0

  -- `operator++`
  unfoldable pub increment : ℕ → ℕ → Option ℕ
  increment fuel idx = if m.cap == 0 then some idx else ensure_occupied fuel (next m.cap idx)

  -- The iterator after `n` increments from `begin()`.
  unfoldable pub advance : ℕ → ℕ → Option ℕ
  advance fuel zero = begin fuel
  advance fuel (suc n) = do idx ← advance fuel n; increment fuel idx

>>=-eq-some :
    {A B : Type 0} (o : Option A) (f : A → Option B) {b : B}
    → (o >>= f) ≡ some b
    → (a : A) × (o ≡ some a) × (f a ≡ some b)
>>=-eq-some none f h = cc
>>=-eq-some (some a) f h = (a, refl, h)

module _ {K V : Type 0} (m : MHashMap K V) (c : IsCap m.cap) where
  next-lt : (i : ℕ) → i < m.cap → next m.cap i < m.cap
  next-lt i h = rw (next_lem c i h) (mod-lt (i + 1) (cap_pos c))

  seek-lt : (n idx r : ℕ) → idx < m.cap → seek m n idx ≡ some r → r < m.cap
  unfolding seek
  seek-lt zero idx r h e = cc
  seek-lt (suc n) idx r h e = ground (arith, next-lt idx h, seek-lt n (next m.cap idx) r)

  seek-none :
      ((i : ℕ) → i < m.cap → (k : K) (v : V) → m.slots i ≢ occupied k v)
      → (n idx : ℕ) → idx < m.cap
      → seek m n idx ≡ none
  unfolding seek
  seek-none bare zero idx h = refl
  seek-none bare (suc n) idx h =
      visit (m.slots idx) refl (seek-none bare n (next m.cap idx) (next-lt idx h))
    where
      visit :
          (x : Entry K V)
          → m.slots idx ≡ x
          → seek m n (next m.cap idx) ≡ none
          → seek m (suc n) idx ≡ none
      visit empty q t = rw (q, seek, ==_ne idx m.cap (omega arith)) t
      visit tombstone q t = rw (q, seek, ==_ne idx m.cap (omega arith)) t
      visit (occupied k v) q t = absurd (bare idx h k v q)

  ensure_occupied-lt :
      (fuel idx r : ℕ) → idx < m.cap → ensure_occupied m fuel idx ≡ some r → r < m.cap
  unfolding ensure_occupied
  ensure_occupied-lt fuel idx r h e = ground (arith, seek-lt fuel idx r h)

  increment-lt : (fuel idx r : ℕ) → idx < m.cap → increment m fuel idx ≡ some r → r < m.cap
  unfolding increment
  increment-lt fuel idx r h e =
      ground (arith, next-lt idx h, ensure_occupied-lt fuel (next m.cap idx) r)

  advance-lt : (fuel n idx : ℕ) → advance m fuel n ≡ some idx → idx < m.cap
  unfolding advance begin
  advance-lt fuel zero idx e = ensure_occupied-lt fuel 0 idx (cap_pos c) e
  advance-lt fuel (suc n) idx e =
      let (before, t, u) = >>=-eq-some (advance m fuel n) (λ i. increment m fuel i) e in
      increment-lt fuel before idx (advance-lt fuel n before t) u

  -- On a map with a table, whose capacity is a power of two, every iterator that `begin()` and
  -- increments lead to stands inside the table, so it never equals `end()`, whose index is the length
  -- of the table.
  pub advance-ne-end : (fuel n idx : ℕ) → advance m fuel n ≡ some idx → idx ≢ m.cap
  advance-ne-end fuel n idx e = omega (arith, advance-lt fuel n idx e)

  -- On a table with no occupied entry `begin()` does not return, whatever fuel its loop is given.
  pub begin-none :
      ((i : ℕ) → i < m.cap → (k : K) (v : V) → m.slots i ≢ occupied k v)
      → (fuel : ℕ) → begin m fuel ≡ none
  unfolding begin ensure_occupied
  begin-none bare fuel =
      rw (==_ne m.cap 0 (omega (arith, cap_pos c))) (seek-none bare fuel 0 (cap_pos c))

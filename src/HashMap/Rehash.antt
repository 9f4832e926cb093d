-- ===== src/HashMap/Rehash.antt =====
-- `_reserve` and `maybe_rehash` of the hash map: moving the entries to a new table.
use cxb.Bits.{round_up_pow2, round_up_pow2-pow}
use native.Mathlib.Numerals.{add-one}
use cxb.Prelude.{
  ℕ, zero, suc, ◌+◌, ◌%◌, ◌^◌, ◌<◌, ◌≤◌, ◌≡◌, ◌≢◌, ◌⊎◌, inl, inr, refl, sym, ap, ◌∙◌, Bool, true,
  false, Option, none, some, arith, ℕ_discrete, le→ltb_false, if◌then◌else◌, add64, ltb, not, ◌||◌,
  ◌==◌, ==_refl,
}
use cxb.HashMap.{
  Key, Entry, empty, occupied, tombstone, MHashMap, get, insert_probe, insert_no_dupe_check,
  reinsert, rehash_to, min_cap, fresh_slots,
}
use cxb.HashMap.Probe.{IsCap, cap_pos, at, Located, key_hash_index_lem}
use cxb.HashMap.Valid.{Holds-update, update_self, Holds, IsValid, HasUnique, IsFree}
use cxb.HashMap.Lookup.{get_agree}
use cxb.HashMap.Insert.{Vacant, insert_probe_lem, written, written-IsValid, written-keeps}
use cxb.HashMap.Count.{
  filled, filled-update, filled-full, filled-fresh, occupied_count, occupied_entry,
}

guarded :
    {A : Type 0} (a b : Bool) (x : Option A)
    → a ≡ true
    → b ≡ true
    → (if not a || not b then none else x) ≡ x
guarded a b x p q = rw (p, q)

module _ {K V : Type 0} (key : Key K) where
  -- The state of the loop of `_reserve` at index `i` of the old table: the new table of length `c`
  -- holds what the old one holds below `i`, and `len` has grown from `l` by as much.
  pub record Moved (c l : ℕ) (old : ℕ → Entry K V) (i : ℕ) (m : MHashMap K V) : Type 0 where
    pub cap : IsCap m.cap
    pub same : m.cap ≡ c
    pub valid : IsValid key m
    pub few : filled m.cap m.slots ≤ i
    pub has : (k : K) (v : V) → Holds key i old k v → Holds key m.cap m.slots k v
    pub from : (k : K) (v : V) → Holds key m.cap m.slots k v → Holds key i old k v
    pub len : m.len ≡ (l + occupied_count i old) % 2 ^ 64

  -- The loop of `insert_no_dupe_check` finds an empty entry if there is one.
  vacant_lem :
      (m : MHashMap K V) (k : K)
      → IsCap m.cap
      → filled m.cap m.slots < m.cap
      → (i : ℕ) × (insert_probe key m.cap m.slots
            (at m.cap (key.hash k) 0)
            m.cap
            (at m.cap (key.hash k) 0)
          ≡ some (some i))
        × (m.slots i ≡ empty)
        × (i < m.cap)
        × IsFree key m.cap m.slots k i
  vacant_lem m k c few = go (
      insert_probe_lem key m.cap m.slots c k m.cap 0 (omega arith) (cap_pos c)
        (λ e h. absurd (omega arith)))
    where
      go :
          (r : Option ℕ) × (insert_probe key m.cap m.slots
                (at m.cap (key.hash k) 0)
                m.cap
                (at m.cap (key.hash k) 0)
              ≡ some r)
            × Vacant key m.cap m.slots c k r
          → (i : ℕ) × (insert_probe key m.cap m.slots
                (at m.cap (key.hash k) 0)
                m.cap
                (at m.cap (key.hash k) 0)
              ≡ some (some i))
            × (m.slots i ≡ empty)
            × (i < m.cap)
            × IsFree key m.cap m.slots k i
      go (none, t, full) = absurd (omega (arith, filled-full m.cap m.slots full))
      go (some i, t, (e, l, f)) = (i, t, e, l, f)

  Holds-suc :
      (i : ℕ) (old : ℕ → Entry K V) (k : K) (v : V)
      → Holds key (i + 1) old k v
      → Holds key i old k v ⊎ (old i ≡ occupied k v)
  Holds-suc i old k v (j, l, q) = elim (ℕ_discrete j i) [
    | yes e ↦ inr (ap old (sym e) ∙ q)
    | no n ↦ inl (j, omega arith, q)
  ]

  occupied_count-add_one :
      (i : ℕ) (old : ℕ → Entry K V)
      → occupied_count (i + 1) old ≡ occupied_count i old + occupied_entry (old i)
  unfolding occupied_count
  occupied_count-add_one i old = rw add-one refl

  -- An entry that is not occupied is passed over.
  skip :
      {c l : ℕ} {old : ℕ → Entry K V} {i : ℕ} {m : MHashMap K V}
      → Moved c l old i m
      → ((k : K) (v : V) → old i ≢ occupied k v)
      → occupied_entry (old i) ≡ 0
      → Moved c l old (i + 1) m
  skip {c} {l} {old} {i} {m} s other zero_here = record {
    cap = s.cap;
    same = s.same;
    valid = s.valid;
    few = omega arith;
    has = λ k v h. elim (Holds-suc i old k v h) [
      | inl g ↦ s.has k v g
      | inr q ↦ absurd (other k v q)
    ];
    from = λ k v h. let (j, p, q) = s.from k v h in (j, omega arith, q);
    len = omega (arith, occupied_count-add_one i old);
  }

  module _ {c l : ℕ} {old : ℕ → Entry K V} {i : ℕ} (m : MHashMap K V) (k : K) (v : V)
      (s : Moved c l old i m) (unique : HasUnique key (i + 1) old) (q : old i ≡ occupied k v) where
    -- The key of the next entry has not been moved yet.
    not_moved : Located key m.cap m.slots k none
    not_moved e w p h =
        let (g, b, z) = s.from k w (e, p, h) in
        absurd (omega (arith, unique k w v g i (omega arith) (omega arith) z q))

    -- Writing it at a vacant entry of its path is one round of the loop.
    move_to :
        (j : ℕ) (lt : j < m.cap) (free : IsFree key m.cap m.slots k j)
        → m.slots j ≡ empty
        → Moved c l old
            (i + 1)
            (written key m s.cap k v j (add64 m.len 1) lt free not_moved s.valid)
    move_to j lt free vacant = record {
      cap = s.cap;
      same = s.same;
      valid = written-IsValid key m s.cap k v j (add64 m.len 1) lt free not_moved s.valid;
      few = omega (arith, filled-update m.cap j m.slots k v lt vacant, s.few);
      has = λ k' w h. elim (Holds-suc i old k' w h) [
        | inl g ↦
            written-keeps key m s.cap k v j (add64 m.len 1) lt free not_moved s.valid k' w
              (s.has k' w g)
        | inr q' ↦ (j, lt, update_self m.slots j (occupied k v) ∙ sym q ∙ q')
      ];
      from = λ k' w h. elim (Holds-update key m.cap m.slots s.cap j (occupied k v) k' w lt h) [
        | inl both ↦ (i, omega arith, q ∙ both)
        | inr (e, p, ne, z) ↦ let (g, b, y) = s.from k' w (e, p, z) in (g, omega arith, y)
      ];
      len = omega (arith, occupied_count-add_one i old, ap occupied_entry q, s.len);
    }

    -- An occupied entry is moved, and `len` counts it.
    move_entry :
        i < c
        → (m' : MHashMap K V) × (insert_no_dupe_check key m k v ≡ some (m', true))
          × Moved c l old (i + 1) m'
    unfolding insert_no_dupe_check
    move_entry room =
        let (j, t, vacant, lt, free) = vacant_lem m k s.cap (omega (arith, s.few, s.same)) in
        (
          written key m s.cap k v j (add64 m.len 1) lt free not_moved s.valid,
          rw (key_hash_index_lem key m s.cap k, t),
          move_to j lt free vacant,
        )

  -- The loop moves every occupied entry from index `i` on.
  reinsert_lem :
      (n i e c l : ℕ) (old : ℕ → Entry K V) (m : MHashMap K V)
      → i + n ≡ e
      → e ≤ c
      → HasUnique key e old
      → Moved c l old i m
      → (m' : MHashMap K V) × (reinsert key n i old m ≡ some m') × Moved c l old e m'
  unfolding reinsert
  reinsert_lem zero i e c l old m z room unique s =
      let same : i ≡ e = omega arith in (m, refl, rw (← same) s)
  reinsert_lem (suc n) i e c l old m z room unique s =
      visit (old i) refl (λ m1 s1. reinsert_lem n (i + 1) e c l old m1 (omega arith) room unique s1)
    where
      Goal : Type 0
      Goal = (m' : MHashMap K V) × (reinsert key (suc n) i old m ≡ some m') × Moved c l old e m'

      More : Type 0
      More =
          (m1 : MHashMap K V)
          → Moved c l old (i + 1) m1
          → (m' : MHashMap K V) × (reinsert key n (i + 1) old m1 ≡ some m') × Moved c l old e m'

      visit : (x : Entry K V) → old i ≡ x → More → Goal
      visit empty q more =
          let (m', t, s') = more m (skip s (λ k v h. cc) (ap occupied_entry q)) in
          (m', rw (q, reinsert) t, s')
      visit tombstone q more =
          let (m', t, s') = more m (skip s (λ k v h. cc) (ap occupied_entry q)) in
          (m', rw (q, reinsert) t, s')
      visit (occupied k v) q more =
          let low = λ (k' : K) (v' w : V) (a b : ℕ) (p : a < i + 1) (p' : b < i + 1).
            unique k' v' w a b (omega arith) (omega arith) in
          let (m1, t1, s1) = move_entry m k v s low q (omega arith) in
          let (m', t, s') = more m1 s1 in (m', rw (q, reinsert, t1) t, s')

  -- What `_reserve` leaves: a valid map with a table of length `c` and the same values, not all of
  -- whose entries are in use. `len` has grown by the number of entries that were moved.
  pub record Rehashed (m : MHashMap K V) (c : ℕ) (m' : MHashMap K V) : Type 0 where
    pub valid : IsValid key m'
    pub cap : m'.cap ≡ c
    pub same : (k : K) → get key m' k ≡ get key m k
    pub len : m'.len ≡ (m.len + occupied_count m.cap m.slots) % 2 ^ 64
    pub few : filled m'.cap m'.slots ≤ m.cap

  -- A zeroed table holds nothing.
  start :
      (m : MHashMap K V) (c : ℕ)
      → IsCap c
      → m.len < 2 ^ 64
      → Moved c m.len m.slots 0 (record m { cap = c; slots = fresh_slots })
  unfolding fresh_slots occupied_count
  start m c ic fits = record {
    cap = ic;
    same = refl;
    valid = record { size = inr ic; paths = λ k v d e p q h. cc; unique = λ k v w a b p p' h. cc };
    few = omega (arith, filled-fresh K V c);
    has = λ k v h. absurd (omega (arith, h.1));
    from = λ k v (j, p, q). cc;
    len = omega arith;
  }

  -- `_reserve` of a valid map with an allocator to a power of two that is no smaller than the
  -- table, and at least 64, returns and keeps every key with its value; it adds to `len` the number
  -- of entries that it moves.
  pub rehash_to_correct :
      (m : MHashMap K V) (c : ℕ)
      → IsValid key m
      → m.allocator ≡ true
      → m.len < 2 ^ 64
      → IsCap c
      → min_cap ≤ c
      → m.cap ≤ c
      → (m' : MHashMap K V) × (rehash_to key m c ≡ some m') × Rehashed m c m'
  unfolding rehash_to
  rehash_to_correct m c valid alloc fits ic big grow =
      let (m', t, s) =
        reinsert_lem m.cap 0 m.cap c m.len m.slots (record m { cap = c; slots = fresh_slots })
          (omega arith) grow valid.unique (start m c ic fits) in
      let pow : round_up_pow2 c ≡ c = rw ic.pow (round_up_pow2-pow ic.bits ic.small) in
      let low : ltb c min_cap ≡ false = le→ltb_false c min_cap big in
      (
        m',
        rw low (guarded (round_up_pow2 c == c) m.allocator _ (rw pow (==_refl c)) alloc ∙ t),
        record {
          valid = s.valid;
          cap = s.same;
          same = λ k. get_agree key m m' k valid s.valid (s.has k) (s.from k);
          len = s.len;
          few = s.few;
        },
      )

-- ===== src/HashMap/Put.antt =====
-- `put` of the hash map.
use native.Mathlib.Nat.{mod-eq_of_lt, pow-suc}
use cxb.HashMap.Count.{filled-full}
use cxb.Prelude.{
  ℕ, suc, ◌*◌, ◌^◌, ◌<◌, ◌≤◌, ◌≡◌, ◌≢◌, ◌⊎◌, inl, inr, refl, sym, ap, ◌∙◌, Bool, true, false, none,
  some, arith, add64, ==_ne, lt→ltb, le→ltb_false, Bool-cases, dec_lt, ℕ_discrete,
}
use cxb.HashMap.{
  Key, Entry, empty, occupied, tombstone, MHashMap, update, PutSlot, dup, slot, get, put, put_probe,
  store, grown, needs_rehash, maybe_rehash, min_cap,
}
use cxb.HashMap.Probe.{IsCap, cap_pos, at, Located, key_hash_index_lem}
use cxb.HashMap.Valid.{IsValid, IsFree}
use cxb.HashMap.Lookup.{get_agree, get-of_Holds, get-of_absent}
use cxb.HashMap.Insert.{
  IsFull, Placed, put_probe_lem, written, written-IsValid, written-Holds, written-keeps,
  written-from,
}
use cxb.HashMap.Rehash.{rehash_to_correct}

IsCap-min_cap : IsCap min_cap
IsCap-min_cap = record { bits = 6; pow = refl; small = omega arith }

IsCap-double : {cap : ℕ} → IsCap cap → cap * 2 < 2 ^ 64 → IsCap (cap * 2)
IsCap-double {cap} c fits = record {
  bits = suc c.bits;
  pow = omega (arith, pow-suc 2 c.bits, c.pow);
  small = elim (ℕ_discrete c.bits 63) [
    | yes e ↦ absurd (omega (arith, c.pow ∙ ap (λ t. 2 ^ t) e))
    | no n ↦ omega (arith, c.small)
  ];
}

-- The capacity that `maybe_rehash` asks for is a power of two, at least 64 and above the old one.
pub IsCap-grown :
    (cap : ℕ)
    → (cap ≡ 0) ⊎ IsCap cap
    → cap * 2 < 2 ^ 64
    → IsCap (grown cap) × (min_cap ≤ grown cap) × (cap < grown cap)
unfolding grown
IsCap-grown cap (inl z) fits = rw z (IsCap-min_cap, omega arith, omega arith)
IsCap-grown cap (inr c) fits = elim (dec_lt (cap * 2) min_cap) [
  | yes l ↦
      rw (==_ne cap 0 (omega (arith, cap_pos c)), mod-eq_of_lt fits, lt→ltb _ _ l)
        (IsCap-min_cap, omega arith, omega arith)
  | no n ↦
      rw
        (
          ==_ne cap 0 (omega (arith, cap_pos c)),
          mod-eq_of_lt fits,
          le→ltb_false (cap * 2) min_cap (omega arith),
        )
        (IsCap-double c fits, omega arith, omega (arith, cap_pos c))
]

module _ {K V : Type 0} (key : Key K) where
  -- What `put` leaves: a valid map whose other keys are as before. A key that was absent now has the
  -- value, and a key that was present keeps its own.
  pub record Stored (m : MHashMap K V) (k : K) (v : V) (m' : MHashMap K V) (added : Bool)
      : Type 0 where
    pub valid : IsValid key m'
    pub others : (k' : K) → k' ≢ k → get key m' k' ≡ get key m k'
    pub fresh : added ≡ true → (get key m k ≡ none) × (get key m' k ≡ some v)
    pub kept : added ≡ false → ((w : V) × (get key m k ≡ some w)) × (get key m' k ≡ get key m k)

  -- The table has an empty entry, or the entry that the key hashes to is not occupied: otherwise the
  -- loop of `put` comes round to an occupied entry.
  abbrev pub HasRoom : MHashMap K V → K → Type 0
  HasRoom m k =
      IsFull m.cap m.slots → (k' : K) (w : V) → m.slots (at m.cap (key.hash k) 0) ≢ occupied k' w

  home-IsFree :
      (m : MHashMap K V) (k : K)
      → IsCap m.cap
      → ((k' : K) (w : V) → m.slots (at m.cap (key.hash k) 0) ≢ occupied k' w)
      → IsFree key m.cap m.slots k (at m.cap (key.hash k) 0)
  home-IsFree m k c open_home = record {
    steps = 0;
    before = cap_pos c;
    here = refl;
    way = λ e h. absurd (omega arith);
    unheld = open_home;
  }

  Stored-written :
      (m : MHashMap K V) (k : K) (v : V) (i n : ℕ) (c : IsCap m.cap) (l : i < m.cap)
      (free : IsFree key m.cap m.slots k i) (absent : Located key m.cap m.slots k none)
      (valid : IsValid key m)
      → Stored m k v (written key m c k v i n l free absent valid) true
  Stored-written m k v i n c l free absent valid = record {
    valid = after;
    others = λ k' ne.
        get_agree key m w k' valid after (written-keeps key m c k v i n l free absent valid k')
          (λ u. written-from key m c k v i n l free absent valid k' u ne);
    fresh = λ h. (
      get-of_absent key m k valid absent,
      get-of_Holds key w k v after (written-Holds key m c k v i n l free absent valid),
    );
    kept = λ h. cc;
  }
    where
      w : MHashMap K V
      w = written key m c k v i n l free absent valid

      after : IsValid key w
      after = written-IsValid key m c k v i n l free absent valid

  store-free :
      (m : MHashMap K V) (k : K) (v : V) (i : ℕ)
      → ((k' : K) (w : V) → m.slots i ≢ occupied k' w)
      → store key m k v (slot i)
        ≡ some (record m { slots = update m.slots i (occupied k v); len = add64 m.len 1 }, true)
  unfolding store
  store-free m k v i unheld = visit (m.slots i) refl
    where
      visit :
          (x : Entry K V)
          → m.slots i ≡ x
          → store key m k v (slot i)
            ≡ some (record m { slots = update m.slots i (occupied k v); len = add64 m.len 1 }, true)
      visit empty q = rw (q, store)
      visit tombstone q = rw (q, store)
      visit (occupied k' w) q = absurd (unheld k' w q)

  -- `put` from the point where the table is large enough.
  put-Placed :
      (m : MHashMap K V) (k : K) (v : V) (r : PutSlot) (c : IsCap m.cap)
      → IsValid key m
      → HasRoom m k
      → Placed key m.cap m.slots c k r
      → (m' : MHashMap K V) × (added : Bool) × (store key m k v r ≡ some (m', added))
        × Stored m k v m' added
  put-Placed m k v dup c valid room (w, held) = (
    m,
    false,
    unfold store in refl,
    record {
      valid = valid;
      others = λ k' ne. refl;
      fresh = λ h. cc;
      kept = λ h. ((w, get-of_Holds key m k w valid held), refl);
    },
  )
  put-Placed m k v (slot i) c valid room (absent, l, inl (vacant, free)) = (
    written key m c k v i (add64 m.len 1) l free absent valid,
    true,
    store-free m k v i free.unheld,
    Stored-written m k v i (add64 m.len 1) c l free absent valid,
  )
  put-Placed m k v (slot i) c valid room (absent, l, inr (full, home)) =
      let free : IsFree key m.cap m.slots k i = rw home (home-IsFree m k c (room full)) in
      (
        written key m c k v i (add64 m.len 1) l free absent valid,
        true,
        store-free m k v i free.unheld,
        Stored-written m k v i (add64 m.len 1) c l free absent valid,
      )

  -- Before it looks for an entry, `put` makes the table larger if the map is loaded.
  maybe_rehash_lem :
      (m : MHashMap K V) (k : K)
      → IsValid key m
      → m.allocator ≡ true
      → m.len < 2 ^ 64
      → m.cap * 2 < 2 ^ 64
      → (needs_rehash m ≡ false → HasRoom m k)
      → (m1 : MHashMap K V) × (maybe_rehash key m ≡ some m1)
        × IsValid key m1
        × IsCap m1.cap
        × ((k' : K) → get key m1 k' ≡ get key m k')
        × HasRoom m1 k
  unfolding maybe_rehash needs_rehash
  maybe_rehash_lem m k valid alloc fits half room = elim (Bool-cases (needs_rehash m)) [
    | inl e ↦
        let (ic, big, grow) = IsCap-grown m.cap valid.size half in
        let (m1, t, s) =
          rehash_to_correct key m (grown m.cap) valid alloc fits ic big (omega arith) in
        (
          m1,
          rw e t,
          s.valid,
          rw s.cap ic,
          s.same,
          (λ full. absurd (omega (arith, filled-full m1.cap m1.slots full, s.few, s.cap))),
        )
    | inr e ↦ (m, rw e, valid, table valid.size e, (λ k'. refl), room e)
  ]
    where
      table : (m.cap ≡ 0) ⊎ IsCap m.cap → needs_rehash m ≡ false → IsCap m.cap
      table (inl z) e = absurd (ground (arith, z, e))
      table (inr c) e = c

  Stored-before :
      (m m1 m' : MHashMap K V) (k : K) (v : V) (added : Bool)
      → ((k' : K) → get key m1 k' ≡ get key m k')
      → Stored m1 k v m' added
      → Stored m k v m' added
  Stored-before m m1 m' k v added same s = record {
    valid = s.valid;
    others = λ k' ne. s.others k' ne ∙ same k';
    fresh = λ h. let (a, b) = s.fresh h in (sym (same k) ∙ a, b);
    kept = λ h. let ((w, a), b) = s.kept h in ((w, sym (same k) ∙ a), b ∙ same k);
  }

  pub placed_lem :
      (m : MHashMap K V) (k : K) (c : IsCap m.cap)
      → IsValid key m
      → (r : PutSlot) × (put_probe key m.cap m.slots k
            (at m.cap (key.hash k) 0)
            m.cap
            (at m.cap (key.hash k) 0)
          ≡ some r)
        × Placed key m.cap m.slots c k r
  placed_lem m k c valid =
      put_probe_lem key m.cap m.slots c k valid.paths m.cap 0 (omega arith) (cap_pos c)
        (λ e h. absurd (omega arith))

  -- On a valid map with an allocator whose table can be doubled, `put` returns, the table growing
  -- where the map is loaded. It leaves a valid map in which a key that was absent has the value, a
  -- key that was present keeps its own, and all other keys are as before; the answer says which. Of a
  -- map that is not loaded it asks for an empty entry, or for a home entry that is not occupied.
  pub put_correct :
      (m : MHashMap K V) (k : K) (v : V)
      → IsValid key m
      → m.allocator ≡ true
      → m.len < 2 ^ 64
      → m.cap * 2 < 2 ^ 64
      → (needs_rehash m ≡ false → HasRoom m k)
      → (m' : MHashMap K V) × (added : Bool) × (put key m k v ≡ some (m', added))
        × Stored m k v m' added
  unfolding put
  put_correct m k v valid alloc fits half room =
      let (m1, t, valid1, c, same, room1) = maybe_rehash_lem m k valid alloc fits half room in
      let (r, t1, placed) = placed_lem m1 k c valid1 in
      let (m', added, t2, s) = put-Placed m1 k v r c valid1 room1 placed in
      (
        m',
        added,
        rw (t, key_hash_index_lem key m1 c k, t1) t2,
        Stored-before m m1 m' k v added same s,
      )

  -- A map that is not loaded may have no empty entry, since tombstones are not counted. Then `put` of
  -- an absent key whose home entry is occupied fails the assertion that the entry is free.
  pub put_full :
      (m : MHashMap K V) (k k' : K) (v w : V)
      → IsValid key m
      → IsCap m.cap
      → needs_rehash m ≡ false
      → IsFull m.cap m.slots
      → m.slots (at m.cap (key.hash k) 0) ≡ occupied k' w
      → get key m k ≡ none
      → put key m k v ≡ none
  unfolding put maybe_rehash store
  put_full m k k' v w valid c calm full home absent =
      let (r, t, placed) = placed_lem m k c valid in
      rw (calm, key_hash_index_lem key m c k, t) (go r placed)
    where
      go : (r : PutSlot) → Placed key m.cap m.slots c k r → store key m k v r ≡ none
      go dup (u, held) = let e = get-of_Holds key m k u valid held in cc
      go (slot i) (_, l, inl (e, f)) = absurd (full i l e)
      go (slot i) (_, l, inr (f, e)) =
          let q : m.slots i ≡ occupied k' w = ap m.slots e ∙ home in rw (q, store)

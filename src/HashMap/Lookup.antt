-- ===== src/HashMap/Lookup.antt =====
-- `occupied_entry_for`, `contains` and `operator[]` of the hash map, against the table's
-- contents.
use cxb.Prelude.{
  ℕ, ◌≡◌, ◌↔◌, ◌⊎◌, inl, inr, refl, sym, ap, ◌∙◌, Bool, true, false, Option, none, some, arith,
  ==_ne, Option-cases,
}
use cxb.HashMap.{Key, occupied, MHashMap, occupied_entry_for, contains, get, probe}
use cxb.HashMap.Probe.{IsCap, cap_pos, at, Located, probe_lem, key_hash_index_lem}
use cxb.HashMap.Valid.{Holds, IsValid}

module _ {K V : Type 0} (key : Key K) where
  -- The search loop of a map that has a table.
  pub search_lem :
      (m : MHashMap K V)
      → IsValid key m
      → IsCap m.cap
      → (k : K)
      → (r : Option ℕ) × (probe key m.cap m.slots k
            (at m.cap (key.hash k) 0)
            m.cap
            (at m.cap (key.hash k) 0)
          ≡ some r)
        × Located key m.cap m.slots k r
  search_lem m valid c k =
      probe_lem key m.cap m.slots k c valid.paths m.cap 0 (omega arith) (cap_pos c)
        (λ e h. absurd (omega arith))

  pub occupied_entry_for_lem :
      (m : MHashMap K V)
      → IsValid key m
      → (k : K)
      → (r : Option ℕ) × (occupied_entry_for key m k ≡ some r) × Located key m.cap m.slots k r
  unfolding occupied_entry_for
  occupied_entry_for_lem m valid k = go valid.size
    where
      go :
          (m.cap ≡ 0) ⊎ IsCap m.cap
          → (r : Option ℕ) × (occupied_entry_for key m k ≡ some r) × Located key m.cap m.slots k r
      go (inl z) = (none, rw z, λ i v h. absurd (omega arith))
      go (inr c) =
          rw (==_ne m.cap 0 (omega (arith, cap_pos c)), key_hash_index_lem key m c k)
            (search_lem m valid c k)

  -- What a present key's entry gives.
  pub get-of_Holds :
      (m : MHashMap K V) (k : K) (v : V)
      → IsValid key m
      → Holds key m.cap m.slots k v
      → get key m k ≡ some v
  unfolding get
  get-of_Holds m k v valid (i, l, q) = go (occupied_entry_for_lem m valid k)
    where
      go :
          (r : Option ℕ) × (occupied_entry_for key m k ≡ some r) × Located key m.cap m.slots k r
          → get key m k ≡ some v
      go (none, t, absent) = absurd (absent i v l q)
      go (some j, t, (p, (w, s))) =
          let same : i ≡ j = valid.unique k v w i j l p q s in
          let e : m.slots j ≡ occupied k v = rw (← same) q in rw (t, e)

  pub get-of_absent :
      (m : MHashMap K V) (k : K)
      → IsValid key m
      → Located key m.cap m.slots k none
      → get key m k ≡ none
  unfolding get
  get-of_absent m k valid absent = go (occupied_entry_for_lem m valid k)
    where
      go :
          (r : Option ℕ) × (occupied_entry_for key m k ≡ some r) × Located key m.cap m.slots k r
          → get key m k ≡ none
      go (none, t, _) = rw t
      go (some j, t, (p, (w, s))) = absurd (absent j w p s)

  pub Holds-of_get :
      (m : MHashMap K V) (k : K) (v : V)
      → IsValid key m
      → get key m k ≡ some v
      → Holds key m.cap m.slots k v
  unfolding get
  Holds-of_get m k v valid e = go (occupied_entry_for_lem m valid k)
    where
      go :
          (r : Option ℕ) × (occupied_entry_for key m k ≡ some r) × Located key m.cap m.slots k r
          → Holds key m.cap m.slots k v
      go (none, t, _) = let z : get key m k ≡ none = rw t in cc
      go (some j, t, (p, (w, s))) =
          let z : get key m k ≡ some w = rw (t, s) in
          let same : w ≡ v = cc in (j, p, s ∙ ap (occupied k) same)

  -- Two valid maps that hold the same values under a key give the same for it.
  pub get_agree :
      (m m' : MHashMap K V) (k : K)
      → IsValid key m
      → IsValid key m'
      → ((v : V) → Holds key m.cap m.slots k v → Holds key m'.cap m'.slots k v)
      → ((v : V) → Holds key m'.cap m'.slots k v → Holds key m.cap m.slots k v)
      → get key m' k ≡ get key m k
  get_agree m m' k valid valid' to from =
      go (Option-cases (get key m k)) (Option-cases (get key m' k))
    where
      go :
          (get key m k ≡ none) ⊎ ((v : V) × (get key m k ≡ some v))
          → (get key m' k ≡ none) ⊎ ((v : V) × (get key m' k ≡ some v))
          → get key m' k ≡ get key m k
      go (inr (v, e)) _ = get-of_Holds m' k v valid' (to v (Holds-of_get m k v valid e)) ∙ sym e
      go (inl e) (inl e') = e' ∙ sym e
      go (inl e) (inr (v, e')) =
          e' ∙ sym (get-of_Holds m k v valid (from v (Holds-of_get m' k v valid' e')))

  -- On a valid map `operator[]` returns a value exactly if the table holds it under the key.
  pub get_iff :
      (m : MHashMap K V) (k : K) (v : V)
      → IsValid key m
      → (get key m k ≡ some v) ↔ Holds key m.cap m.slots k v
  get_iff m k v valid = (Holds-of_get m k v valid, get-of_Holds m k v valid)

  -- On a valid map `contains` returns, and it answers `true` exactly if `operator[]` finds a value.
  pub contains-get :
      (m : MHashMap K V) (k : K)
      → IsValid key m
      → (b : Bool) × (contains key m k ≡ some b) × ((b ≡ true) ↔ ((v : V) × (get key m k ≡ some v)))
  unfolding contains get
  contains-get m k valid = go (occupied_entry_for_lem m valid k)
    where
      go :
          (r : Option ℕ) × (occupied_entry_for key m k ≡ some r) × Located key m.cap m.slots k r
          → (b : Bool) × (contains key m k ≡ some b)
            × ((b ≡ true) ↔ ((v : V) × (get key m k ≡ some v)))
      go (none, t, absent) =
          (false, rw t, ((λ h. cc), (λ (v, h). let z : get key m k ≡ none = rw t in cc)))
      go (some j, t, (p, (w, s))) = (true, rw t, ((λ h. (w, rw (t, s))), (λ h. refl)))

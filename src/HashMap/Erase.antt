-- ===== src/HashMap/Erase.antt =====
-- `erase` of the hash map.
use cxb.Prelude.{
  ℕ, ◌<◌, ◌≡◌, ◌≢◌, ◌↔◌, ◌⊎◌, inl, inr, refl, sym, ap, ◌∙◌, Bool, true, false, Option, none, some,
  arith, ==_ne, sub64, if◌then◌else◌, ℕ_discrete,
}
use cxb.HashMap.{Key, occupied, tombstone, MHashMap, update, get, erase, probe}
use cxb.HashMap.Probe.{key_hash_index_lem, IsCap, cap_pos, at, Located}
use cxb.HashMap.Valid.{IsValid, erase-HasPaths, erase-HasUnique, update_self, update_ne}
use cxb.HashMap.Lookup.{search_lem, get_agree, get-of_Holds, get-of_absent}

module _ {K V : Type 0} (key : Key K) where
  -- What `erase` leaves: a valid map without the key, with all other keys as before, and with `len`
  -- one smaller exactly if the key was present.
  pub record Erased (m : MHashMap K V) (k : K) (m' : MHashMap K V) (found : Bool) : Type 0 where
    pub valid : IsValid key m'
    pub gone : get key m' k ≡ none
    pub others : (k' : K) → k' ≢ k → get key m' k' ≡ get key m k'
    pub present : (found ≡ true) ↔ ((v : V) × (get key m k ≡ some v))
    pub len : m'.len ≡ (if found then sub64 m.len 1 else m.len)

  -- The map after the entry of a present key was made a tombstone.
  erase_at : MHashMap K V → ℕ → MHashMap K V
  erase_at m i = record m { slots = update m.slots i tombstone; len = sub64 m.len 1 }

  erase_at-IsValid :
      (m : MHashMap K V) (i : ℕ) → IsValid key m → IsCap m.cap → IsValid key (erase_at m i)
  unfolding erase_at
  erase_at-IsValid m i valid c = record {
    size = valid.size;
    paths = erase-HasPaths key m.cap m.slots c i valid.paths;
    unique = erase-HasUnique key m.cap m.slots c i valid.unique;
  }

  Erased-missing :
      (m : MHashMap K V) (k : K)
      → IsValid key m
      → Located key m.cap m.slots k none
      → Erased m k m false
  Erased-missing m k valid absent = record {
    valid = valid;
    gone = get-of_absent key m k valid absent;
    others = λ k' h. refl;
    present = ((λ h. cc), (λ (v, h). let z = get-of_absent key m k valid absent in cc));
    len = refl;
  }

  Erased-found :
      (m : MHashMap K V) (k : K) (i : ℕ) (v : V)
      → IsValid key m
      → IsCap m.cap
      → i < m.cap
      → m.slots i ≡ occupied k v
      → Erased m k (erase_at m i) true
  unfolding erase_at
  Erased-found m k i v valid c l q = record {
    valid = after;
    gone = get-of_absent key (erase_at m i) k after (λ j w p s. elim (ℕ_discrete i j) [
      | yes e ↦
          let t : tombstone ≡ occupied k w =
            sym (update_self m.slots i tombstone) ∙ ap (update m.slots i tombstone) e ∙ s in
          cc
      | no n ↦ n (valid.unique k v w i j l p q (sym (update_ne m.slots i j tombstone n) ∙ s))
    ]);
    others = λ k' ne.
        get_agree key m (erase_at m i) k' valid after
          (λ w (j, p, s). (
            j,
            p,
            elim (ℕ_discrete i j) [
              | yes e ↦
                  let both : occupied k v ≡ occupied k' w = sym q ∙ ap m.slots e ∙ s in
                  let same : k' ≡ k = cc in absurd (ne same)
              | no n ↦ update_ne m.slots i j tombstone n ∙ s
            ],
          ))
          (λ w (j, p, s). (
            j,
            p,
            elim (ℕ_discrete i j) [
              | yes e ↦
                  let t : tombstone ≡ occupied k' w =
                    sym (update_self m.slots i tombstone) ∙ ap (update m.slots i tombstone) e ∙ s in
                  cc
              | no n ↦ sym (update_ne m.slots i j tombstone n) ∙ s
            ],
          ));
    present = ((λ h. (v, get-of_Holds key m k v valid (i, l, q))), (λ h. refl));
    len = refl;
  }
    where
      after : IsValid key (erase_at m i)
      after = erase_at-IsValid m i valid c

  -- On a valid map `erase` returns; it leaves a valid map without the key, whose other keys are as
  -- before, and says whether the key was present, in which case `len` falls by one.
  pub erase_correct :
      (m : MHashMap K V) (k : K)
      → IsValid key m
      → (m' : MHashMap K V) × (found : Bool) × (erase key m k ≡ some (m', found))
        × Erased m k m' found
  unfolding erase erase_at
  erase_correct m k valid = go valid.size
    where
      Goal : Type 0
      Goal =
          (m' : MHashMap K V) × (found : Bool) × (erase key m k ≡ some (m', found))
          × Erased m k m' found

      found_at :
          m.cap ≢ 0
          → IsCap m.cap
          → (r : Option ℕ) × (probe key m.cap m.slots k
                (at m.cap (key.hash k) 0)
                m.cap
                (at m.cap (key.hash k) 0)
              ≡ some r)
            × Located key m.cap m.slots k r
          → Goal
      found_at ne c (none, t, absent) = (
        m,
        false,
        rw (==_ne m.cap 0 ne, key_hash_index_lem key m c k, t),
        Erased-missing m k valid absent,
      )
      found_at ne c (some i, t, (l, (v, q))) = (
        erase_at m i,
        true,
        rw (==_ne m.cap 0 ne, key_hash_index_lem key m c k, t),
        Erased-found m k i v valid c l q,
      )

      go : (m.cap ≡ 0) ⊎ IsCap m.cap → Goal
      go (inl z) = (m, false, rw z, Erased-missing m k valid (λ i v h. absurd (omega arith)))
      go (inr c) = found_at (omega (arith, cap_pos c)) c (search_lem key m valid c k)

-- ===== src/HashMap/Insert.antt =====
-- The insertion loops of the hash map (`put`, `insert_no_dupe_check`) and what writing an entry does.
use cxb.Prelude.{
  ℕ, zero, suc, ◌+◌, ◌<◌, ◌≤◌, ◌≡◌, ◌≢◌, ◌⊎◌, inl, inr, refl, sym, ap, ◌∙◌, Option, none, some,
  arith, Bool-cases, if◌then◌else◌, ◌==◌, ℕ_discrete,
}
use cxb.HashMap.{
  Key, Entry, empty, occupied, tombstone, MHashMap, update, PutSlot, dup, slot, put_probe,
  insert_probe, next,
}
use cxb.HashMap.Probe.{
  IsCap, at, at-lt, next-at, around, path, Located, HasPaths, Passed, Passed-more, all_passed,
  stopped, other, at-surjective,
}
use cxb.HashMap.Valid.{
  Holds, IsValid, IsFree, write-HasPaths, write-HasUnique, update_self, update_ne,
}

-- No entry is empty, so that a search loop stops only by coming round.
abbrev pub IsFull : {K V : Type 0} → ℕ → (ℕ → Entry K V) → Type 0
IsFull cap slots = (i : ℕ) → i < cap → slots i ≢ empty

module _ {K V : Type 0} (key : Key K) (cap : ℕ) (slots : ℕ → Entry K V) (c : IsCap cap)
    (k : K) where
  -- The first entries of the path are not empty.
  abbrev Crossed : ℕ → Type 0
  Crossed d = (e : ℕ) → e < d → path key cap slots k e ≢ empty

  Crossed-more : (d : ℕ) → Crossed d → path key cap slots k d ≢ empty → Crossed (suc d)
  Crossed-more d before here e h = elim (ℕ_discrete e d) [
    | yes q ↦ rw q here
    | no n ↦ before e (omega arith)
  ]

  Crossed-IsFull : (d : ℕ) → cap ≤ d → Crossed d → IsFull cap slots
  Crossed-IsFull d all before i l q =
      let (e, p, t) = at-surjective c (key.hash k) i l in before e (omega arith) (ap slots t ∙ q)

  empty-IsFree :
      (d : ℕ)
      → d < cap
      → Crossed d
      → path key cap slots k d ≡ empty
      → IsFree key cap slots k (at cap (key.hash k) d)
  empty-IsFree d l before q = record {
    steps = d;
    before = l;
    here = refl;
    way = before;
    unheld = λ k' v t. cc;
  }

  -- What the loop of `insert_no_dupe_check` may say: the first empty entry of the path, or none.
  abbrev pub Vacant : Option ℕ → Type 0
  Vacant none = IsFull cap slots
  Vacant (some i) = (slots i ≡ empty) × (i < cap) × IsFree key cap slots k i

  pub insert_probe_lem :
      (n d : ℕ)
      → d + n ≡ cap
      → 0 < n
      → Crossed d
      → (r : Option ℕ) × (insert_probe key cap slots
            (at cap (key.hash k) 0)
            n
            (at cap (key.hash k) d)
          ≡ some r)
        × Vacant r
  unfolding insert_probe
  insert_probe_lem zero d e pos before = absurd (omega arith)
  insert_probe_lem (suc n) d e pos before =
      visit (path key cap slots k d) refl (insert_probe_lem n (suc d) (omega arith))
    where
      Goal : Type 0
      Goal =
          (r : Option ℕ) × (insert_probe key cap slots (at cap (key.hash k) 0) (suc n)
              (at cap (key.hash k) d)
            ≡ some r)
          × Vacant r

      More : Type 0
      More =
          0 < n
          → Crossed (suc d)
          → (r : Option ℕ) × (insert_probe key cap slots (at cap (key.hash k) 0) n
                (at cap (key.hash k) (suc d))
              ≡ some r)
            × Vacant r

      on :
          Crossed (suc d)
          → More
          → (r : Option ℕ) × ((if next cap (at cap (key.hash k) d) == at cap (key.hash k) 0
                then some none
                else insert_probe key cap slots
                    (at cap (key.hash k) 0)
                    n
                    (next cap (at cap (key.hash k) d)))
              ≡ some r)
            × Vacant r
      on crossed more =
          around Vacant none _ (key.hash k) n d c e
            (λ z. Crossed-IsFull (suc d) (omega arith) crossed)
            (λ p. rw (next-at c (key.hash k) d) (more p crossed))

      visit : (en : Entry K V) → path key cap slots k d ≡ en → More → Goal
      visit empty q more = (
        some (at cap (key.hash k) d),
        rw (q, insert_probe),
        (q, at-lt c _ d, empty-IsFree d (omega arith) before q),
      )
      visit tombstone q more =
          let (r, t, p) = on (Crossed-more d before (cc)) more in (r, rw (q, insert_probe) t, p)
      visit (occupied k' v) q more =
          let (r, t, p) = on (Crossed-more d before (cc)) more in (r, rw (q, insert_probe) t, p)

  -- What the loop of `put` may say: the key is held, or where it may be written, or, on a full table
  -- that has been gone round, its home.
  abbrev pub Placed : PutSlot → Type 0
  Placed dup = (v : V) × Holds key cap slots k v
  Placed (slot i) =
      Located key cap slots k none
      × (i < cap)
      × (((slots i ≡ empty) × IsFree key cap slots k i)
          ⊎ (IsFull cap slots × (i ≡ at cap (key.hash k) 0)))

  Passed-Crossed : (d : ℕ) → Passed key cap slots k d → Crossed d
  Passed-Crossed d before e h = (before e h).0

  pub put_probe_lem :
      HasPaths key cap slots
      → (n d : ℕ) → d + n ≡ cap
      → 0 < n
      → Passed key cap slots k d
      → (r : PutSlot) × (put_probe key cap slots k (at cap (key.hash k) 0) n (at cap (key.hash k) d)
          ≡ some r)
        × Placed r
  unfolding put_probe
  put_probe_lem paths zero d e pos before = absurd (omega arith)
  put_probe_lem paths (suc n) d e pos before =
      visit (path key cap slots k d) refl (put_probe_lem paths n (suc d) (omega arith))
    where
      Goal : Type 0
      Goal =
          (r : PutSlot) × (put_probe key cap slots k (at cap (key.hash k) 0) (suc n)
              (at cap (key.hash k) d)
            ≡ some r)
          × Placed r

      More : Type 0
      More =
          0 < n
          → Passed key cap slots k (suc d)
          → (r : PutSlot) × (put_probe key cap slots k (at cap (key.hash k) 0) n
                (at cap (key.hash k) (suc d))
              ≡ some r)
            × Placed r

      on :
          Passed key cap slots k (suc d)
          → More
          → (r : PutSlot) × ((if next cap (at cap (key.hash k) d) == at cap (key.hash k) 0
                then some (slot (at cap (key.hash k) 0))
                else put_probe key cap slots k
                    (at cap (key.hash k) 0)
                    n
                    (next cap (at cap (key.hash k) d)))
              ≡ some r)
            × Placed r
      on passed more =
          around Placed (slot (at cap (key.hash k) 0)) _ (key.hash k) n d c e
            (λ z. (
              all_passed key cap slots k (suc d) c (omega arith) passed,
              at-lt c _ 0,
              inr (Crossed-IsFull (suc d) (omega arith) (Passed-Crossed (suc d) passed), refl),
            ))
            (λ p. rw (next-at c (key.hash k) d) (more p passed))

      visit : (en : Entry K V) → path key cap slots k d ≡ en → More → Goal
      visit empty q more = (
        slot (at cap (key.hash k) d),
        rw (q, put_probe),
        (
          stopped key cap slots k d c paths before q,
          at-lt c _ d,
          inl (q, empty-IsFree d (omega arith) (Passed-Crossed d before) q),
        ),
      )
      visit tombstone q more =
          let (r, t, p) = on (Passed-more key cap slots k d before (cc) (λ v. cc)) more in
          (r, rw (q, put_probe) t, p)
      visit (occupied k' v) q more = elim (Bool-cases (key.beq k' k)) [
        | inl same ↦
            let s = (key.beq_iff k' k).0 same in
            (
              dup,
              rw (q, put_probe, same),
              (v, (at cap (key.hash k) d, at-lt c _ d, q ∙ ap (λ x. occupied x v) s)),
            )
        | inr differ ↦
            let (r, t, p) =
              on (Passed-more key cap slots k d before (cc) (other key k' v q differ)) more in
            (r, rw (q, put_probe, differ) t, p)
      ]

-- The map after an entry was written: `put` and `insert_no_dupe_check` end with this.
module _ {K V : Type 0} (key : Key K) (m : MHashMap K V) (c : IsCap m.cap) (k : K) (v : V)
    (i l' : ℕ) (l : i < m.cap) (free : IsFree key m.cap m.slots k i)
    (absent : Located key m.cap m.slots k none) (valid : IsValid key m) where
  abbrev pub written : MHashMap K V
  written = record m { slots = update m.slots i (occupied k v); len = l' }

  pub written-IsValid : IsValid key written
  written-IsValid = record {
    size = valid.size;
    paths = write-HasPaths key m.cap m.slots c i k v free valid.paths;
    unique = write-HasUnique key m.cap m.slots c i k v l absent valid.unique;
  }

  pub written-Holds : Holds key m.cap written.slots k v
  written-Holds = (i, l, update_self m.slots i (occupied k v))

  pub written-keeps :
      (k' : K) (w : V) → Holds key m.cap m.slots k' w → Holds key m.cap written.slots k' w
  written-keeps k' w (j, p, q) = (
    j,
    p,
    elim (ℕ_discrete i j) [
      | yes e ↦ absurd (free.unheld k' w (ap m.slots e ∙ q))
      | no n ↦ update_ne m.slots i j (occupied k v) n ∙ q
    ],
  )

  pub written-from :
      (k' : K) (w : V) → k' ≢ k → Holds key m.cap written.slots k' w → Holds key m.cap m.slots k' w
  written-from k' w ne (j, p, q) = (
    j,
    p,
    elim (ℕ_discrete i j) [
      | yes e ↦
          let both : occupied k v ≡ occupied k' w =
            sym (update_self m.slots i (occupied k v)) ∙ ap written.slots e ∙ q in
          let same : k' ≡ k = cc in absurd (ne same)
      | no n ↦ sym (update_ne m.slots i j (occupied k v) n) ∙ q
    ],
  )

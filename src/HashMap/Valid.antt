-- ===== src/HashMap/Valid.antt =====
-- The invariant of the hash map, and how writing one entry keeps it.
use cxb.Prelude.{ℕ, ◌<◌, ◌≡◌, ◌≢◌, ◌⊎◌, inl, inr, sym, ap, ◌∙◌, arith, ==_ne, ==_refl, ℕ_discrete}
use cxb.HashMap.{Key, Entry, empty, occupied, tombstone, MHashMap, update}
use cxb.HashMap.Probe.{IsCap, at, at-eq, path, HasPaths}

module _ {ℓ} {A : Type ℓ} (f : ℕ → A) where
  pub update_self : (i : ℕ) (v : A) → update f i v i ≡ v
  update_self i v = rw (==_refl i)

  pub update_ne : (i j : ℕ) (v : A) → i ≢ j → update f i v j ≡ f j
  update_ne i j v h = rw (==_ne i j h)

module _ {K V : Type 0} (key : Key K) where
  -- The table holds a value under a key.
  abbrev pub Holds : ℕ → (ℕ → Entry K V) → K → V → Type 0
  Holds cap slots k v = (i : ℕ) × (i < cap) × (slots i ≡ occupied k v)

  abbrev pub HasUnique : ℕ → (ℕ → Entry K V) → Type 0
  HasUnique cap slots =
      (k : K) (v w : V) (i j : ℕ)
      → i < cap
      → j < cap
      → slots i ≡ occupied k v
      → slots j ≡ occupied k w
      → i ≡ j

  -- A map has no table yet or one whose length is a power of two; an occupied entry is reached
  -- along its key's path without an empty entry; no key is held twice.
  pub record IsValid (m : MHashMap K V) : Type 0 where
    pub size : (m.cap ≡ 0) ⊎ IsCap m.cap
    pub paths : HasPaths key m.cap m.slots
    pub unique : HasUnique m.cap m.slots

  -- An entry where a key may be written: it lies on the key's path before any empty entry, and no
  -- key is held there.
  pub record IsFree (cap : ℕ) (slots : ℕ → Entry K V) (k : K) (i : ℕ) : Type 0 where
    pub steps : ℕ
    pub before : steps < cap
    pub here : at cap (key.hash k) steps ≡ i
    pub way : (e : ℕ) → e < steps → path key cap slots k e ≢ empty
    pub unheld : (k' : K) (v : V) → slots i ≢ occupied k' v

  module _ (cap : ℕ) (slots : ℕ → Entry K V) (c : IsCap cap) (i : ℕ) where
    -- Overwriting an entry by one that is not empty makes no other entry empty.
    update-ne-empty :
        (x : Entry K V) (j : ℕ) → x ≢ empty → slots j ≢ empty → update slots i x j ≢ empty
    update-ne-empty x j p q = elim (ℕ_discrete i j) [
      | yes e ↦ rw (← e, update_self slots i x) p
      | no n ↦ rw (update_ne slots i j x n) q
    ]

    pub write-HasPaths :
        (k : K) (v : V)
        → IsFree cap slots k i
        → HasPaths key cap slots
        → HasPaths key cap (update slots i (occupied k v))
    write-HasPaths k v f paths k' w d e p q there =
        update-ne-empty (occupied k v) (at cap (key.hash k') e) (λ z. cc)
          (elim (ℕ_discrete i (at cap (key.hash k') d)) [
            | yes s ↦ mine s
            | no n ↦ paths k' w d e p q (sym (update_ne slots i _ (occupied k v) n) ∙ there)
          ])
      where
        -- The entry at distance `d` is the written one, so its key is the written key.
        mine : i ≡ at cap (key.hash k') d → path key cap slots k' e ≢ empty
        mine s =
            let written : occupied k v ≡ occupied k' w =
              sym (update_self slots i (occupied k v))
              ∙ ap (update slots i (occupied k v)) s
              ∙ there in
            let same : k ≡ k' = cc in
            let steps : d ≡ f.steps =
              at-eq c (key.hash k') d f.steps p f.before
                (sym s ∙ sym f.here ∙ ap (λ t. at cap (key.hash t) f.steps) same) in
            rw (← same) (f.way e (omega arith))

    pub erase-HasPaths : HasPaths key cap slots → HasPaths key cap (update slots i tombstone)
    erase-HasPaths paths k' w d e p q there =
        update-ne-empty tombstone (at cap (key.hash k') e) (λ z. cc)
          (elim (ℕ_discrete i (at cap (key.hash k') d)) [
            | yes s ↦
                let gone : tombstone ≡ occupied k' w =
                  sym (update_self slots i tombstone) ∙ ap (update slots i tombstone) s ∙ there in
                cc
            | no n ↦ paths k' w d e p q (sym (update_ne slots i _ tombstone n) ∙ there)
          ])

    pub Holds-update :
        (x : Entry K V) (k : K) (v : V)
        → i < cap
        → Holds cap (update slots i x) k v
        → (x ≡ occupied k v) ⊎ ((j : ℕ) × (j < cap) × (i ≢ j) × (slots j ≡ occupied k v))
    Holds-update x k v h (j, l, q) = elim (ℕ_discrete i j) [
      | yes e ↦ inl (sym (update_self slots i x) ∙ ap (update slots i x) e ∙ q)
      | no n ↦ inr (j, l, n, sym (update_ne slots i j x n) ∙ q)
    ]

    pub write-HasUnique :
        (k : K) (v : V)
        → i < cap
        → ((j : ℕ) (w : V) → j < cap → slots j ≢ occupied k w)
        → HasUnique cap slots
        → HasUnique cap (update slots i (occupied k v))
    write-HasUnique k v l absent unique k' v' w j j' p p' q q' = elim (ℕ_discrete i j) [
      | yes e ↦ elim (ℕ_discrete i j') [
        | yes e' ↦ sym e ∙ e'
        | no n' ↦
            let same : k ≡ k' = held j v' e q in
            absurd (absent j' w p' (moved j' w n' q' ∙ ap (λ t. occupied t w) (sym same)))
      ]
      | no n ↦ elim (ℕ_discrete i j') [
        | yes e' ↦
            let same : k ≡ k' = held j' w e' q' in
            absurd (absent j v' p (moved j v' n q ∙ ap (λ t. occupied t v') (sym same)))
        | no n' ↦ unique k' v' w j j' p p' (moved j v' n q) (moved j' w n' q')
      ]
    ]
      where
        held : (t : ℕ) (u : V) → i ≡ t → update slots i (occupied k v) t ≡ occupied k' u → k ≡ k'
        held t u e z =
            let written : occupied k v ≡ occupied k' u =
              sym (update_self slots i (occupied k v)) ∙ ap (update slots i (occupied k v)) e ∙ z in
            cc

        moved :
            (t : ℕ) (u : V)
            → i ≢ t
            → update slots i (occupied k v) t ≡ occupied k' u
            → slots t ≡ occupied k' u
        moved t u n z = sym (update_ne slots i t (occupied k v) n) ∙ z

    pub erase-HasUnique : HasUnique cap slots → HasUnique cap (update slots i tombstone)
    erase-HasUnique unique k v w j j' p p' q q' = unique k v w j j' p p' (kept j v q) (kept j' w q')
      where
        kept : (t : ℕ) (u : V) → update slots i tombstone t ≡ occupied k u → slots t ≡ occupied k u
        kept t u z = elim (ℕ_discrete i t) [
          | yes e ↦
              let gone : tombstone ≡ occupied k u =
                sym (update_self slots i tombstone) ∙ ap (update slots i tombstone) e ∙ z in
              cc
          | no n ↦ sym (update_ne slots i t tombstone n) ∙ z
        ]

-- ===== src/HashMap/Probe.antt =====
-- Probe sequences of the hash map: positions on a key's path, and what the probe loops return.
use native.Mathlib.Nat.{
  mod-lt, mod-add-mod, mod-eq_of_lt, mod-eq-sub-mod, add-mod_right, add-zero, pow-le-pow_right,
}
use cxb.Bits.{pow2mod-eq-mod, is_pow2-pow, pow-pos, pow2mod, is_pow2}
use cxb.Prelude.{
  ℕ, zero, suc, ◌+◌, ◌-◌, ◌%◌, ◌^◌, ◌<◌, ◌≤◌, ◌≡◌, ◌≢◌, inl, inr, refl, sym, ap, ◌∙◌, true, false,
  Option, none, some, ◌==◌, if◌then◌else◌, ltb, lt→ltb, le→ltb_false, add64, add64_small, arith,
  Bool-cases, ==_ne, ==_refl, dec_lt, ℕ_discrete,
}
use cxb.HashMap.{Key, Entry, empty, occupied, tombstone, next, probe, MHashMap, key_hash_index}

-- The capacity of a table that was allocated: a power of two that fits the word.
pub record IsCap (cap : ℕ) : Type 0 where
  pub bits : ℕ
  pub pow : cap ≡ 2 ^ bits
  pub small : bits < 64

pub cap_pos : {cap : ℕ} → IsCap cap → 0 < cap
cap_pos c = rw c.pow (pow-pos c.bits)

pub cap_fits : {cap : ℕ} → IsCap cap → cap < 2 ^ 64
cap_fits c =
    rw c.pow
      (omega (arith, pow-le-pow_right {n = 2} (omega arith) {i = c.bits} {j = 63} (omega arith)))

-- The loops step to the next entry, round the table.
pub next_lem : {cap : ℕ} → IsCap cap → (i : ℕ) → i < cap → next cap i ≡ (i + 1) % cap
unfolding next
next_lem {cap} c i h =
    let f = cap_fits c in
    let e : pow2mod (add64 i 1) cap ≡ add64 i 1 % cap = rw c.pow (pow2mod-eq-mod _ c.bits) in
    rw (e, add64_small i 1 (omega arith))

pub is_pow2-cap : {cap : ℕ} → IsCap cap → is_pow2 cap ≡ true
is_pow2-cap c = rw c.pow (is_pow2-pow c.bits)

-- The entry `d` steps after the one that `h` hashes to.
unfoldable pub at : ℕ → ℕ → ℕ → ℕ
at cap h d = (h + d) % cap

pub at-lt : {cap : ℕ} → IsCap cap → (h d : ℕ) → at cap h d < cap
unfolding at
at-lt c h d = mod-lt (h + d) (cap_pos c)

pub next-at : {cap : ℕ} → IsCap cap → (h d : ℕ) → next cap (at cap h d) ≡ at cap h (suc d)
unfolding at
next-at {cap} c h d =
    rw (next_lem c ((h + d) % cap) (mod-lt (h + d) (cap_pos c)), mod-add-mod (h + d) cap 1)
      (ap (λ t. t % cap) (omega arith))

pub at-cap : (cap h : ℕ) → at cap h cap ≡ at cap h 0
unfolding at
at-cap cap h = rw (add-mod_right, add-zero)

-- One wrap at most.
wrap :
    (cap r d : ℕ)
    → r < cap
    → d < cap
    → (r + d) % cap ≡ (if ltb (r + d) cap then r + d else r + d - cap)
wrap cap r d p q = elim (dec_lt (r + d) cap) [
  | yes l ↦ rw (lt→ltb _ _ l) (mod-eq_of_lt l)
  | no n ↦
      rw
        (le→ltb_false (r + d) cap (omega arith), mod-eq-sub-mod {n = r + d} {m = cap} (omega arith))
        (mod-eq_of_lt (omega arith))
]

at-wrap :
    (cap h d : ℕ)
    → 0 < cap
    → d < cap
    → at cap h d ≡ (if ltb (h % cap + d) cap then h % cap + d else h % cap + d - cap)
unfolding at
at-wrap cap h d p q = sym (mod-add-mod h cap d) ∙ wrap cap (h % cap) d (mod-lt h p) q

pub at-injective : {cap : ℕ} → IsCap cap → (h d e : ℕ) → d < cap → e < d → at cap h d ≢ at cap h e
at-injective {cap} c h d e p q =
    rw (at-wrap cap h d (cap_pos c) p, at-wrap cap h e (cap_pos c) (omega arith))
      (ground (arith, mod-lt h (cap_pos c)))

pub at-eq :
    {cap : ℕ} → IsCap cap → (h d e : ℕ) → d < cap → e < cap → at cap h d ≡ at cap h e → d ≡ e
at-eq c h d e p q t = elim (dec_lt e d) [
  | yes l ↦ absurd (at-injective c h d e p l t)
  | no n ↦ elim (dec_lt d e) [
    | yes l ↦ absurd (at-injective c h e d q l (sym t))
    | no n' ↦ omega arith
  ]
]

-- Every entry of the table lies on every key's path.
pub at-surjective :
    {cap : ℕ} → IsCap cap → (h i : ℕ) → i < cap → (d : ℕ) × (d < cap) × (at cap h d ≡ i)
at-surjective {cap} c h i p = elim (dec_lt i (h % cap)) [
  | yes l ↦ (
    i + cap - h % cap,
    omega (arith, mod-lt h (cap_pos c)),
    at-wrap cap h (i + cap - h % cap) (cap_pos c) (omega (arith, mod-lt h (cap_pos c)))
        ∙ ground (arith, mod-lt h (cap_pos c)),
  )
  | no n ↦ (
    i - h % cap,
    omega arith,
    at-wrap cap h (i - h % cap) (cap_pos c) (omega arith) ∙ ground arith,
  )
]

-- The step of a probe loop that goes on: it either stops at home, once it is round, with `stop`,
-- or gives what the rest of the loop gives.
pub around {ℓ κ} :
    {A : Type ℓ} (P : A → Type κ) (stop : A) (rest : Option A) {cap : ℕ} (h n d : ℕ)
    → IsCap cap
    → d + suc n ≡ cap
    → (n ≡ 0 → P stop)
    → (0 < n → (r : A) × (rest ≡ some r) × P r)
    → (r : A) × ((if next cap (at cap h d) == at cap h 0 then some stop else rest) ≡ some r) × P r
around P stop rest {cap} h zero d c e last more =
    let q : next cap (at cap h d) ≡ at cap h 0 =
      next-at c h d ∙ ap (at cap h) (omega arith) ∙ at-cap cap h in
    (stop, rw (q, ==_refl (at cap h 0)), last refl)
around P stop rest {cap} h (suc n) d c e last more =
    let q : next cap (at cap h d) ≢ at cap h 0 =
      rw (next-at c h d) (at-injective c h (suc d) 0 (omega arith) (omega arith)) in
    let (r, t, p) = more (omega arith) in (r, rw (==_ne _ _ q) t, p)

module _ {K V : Type 0} (key : Key K) where
  -- A key's path in the table, from the hash on.
  abbrev pub path : ℕ → (ℕ → Entry K V) → K → ℕ → Entry K V
  path cap slots k d = slots (at cap (key.hash k) d)

  pub key_hash_index_lem :
      (m : MHashMap K V)
      → IsCap m.cap
      → (k : K) → key_hash_index key m k ≡ some (at m.cap (key.hash k) 0)
  unfolding key_hash_index at
  key_hash_index_lem m c k =
      let e : pow2mod (key.hash k) m.cap ≡ key.hash k % m.cap =
        rw c.pow (pow2mod-eq-mod _ c.bits) in
      rw (is_pow2-cap c, e, add-zero)

  -- What the search loop may say: an entry that holds the key, or that none does.
  abbrev pub Located : ℕ → (ℕ → Entry K V) → K → Option ℕ → Type 0
  Located cap slots k none = (i : ℕ) (v : V) → i < cap → slots i ≢ occupied k v
  Located cap slots k (some i) = (i < cap) × ((v : V) × (slots i ≡ occupied k v))

  -- No empty entry stands before an occupied one on its key's path.
  abbrev pub HasPaths : ℕ → (ℕ → Entry K V) → Type 0
  HasPaths cap slots =
      (k : K) (v : V) (d e : ℕ)
      → d < cap
      → e < d
      → path cap slots k d ≡ occupied k v
      → path cap slots k e ≢ empty

  -- The first `d` entries of the path neither hold the key nor are empty.
  abbrev pub Passed : ℕ → (ℕ → Entry K V) → K → ℕ → Type 0
  Passed cap slots k d =
      (e : ℕ) → e < d → (path cap slots k e ≢ empty) × ((v : V) → path cap slots k e ≢ occupied k v)

  pub Passed-more :
      (cap : ℕ) (slots : ℕ → Entry K V) (k : K) (d : ℕ)
      → Passed cap slots k d
      → (path cap slots k d ≢ empty)
      → ((v : V) → path cap slots k d ≢ occupied k v)
      → Passed cap slots k (suc d)
  Passed-more cap slots k d before here other e h = elim (ℕ_discrete e d) [
    | yes q ↦ rw q (here, other)
    | no n ↦ before e (omega arith)
  ]

  -- A path passed to its end rules the key out.
  pub all_passed :
      (cap : ℕ) (slots : ℕ → Entry K V) (k : K) (n : ℕ)
      → IsCap cap
      → cap ≤ n
      → Passed cap slots k n
      → Located cap slots k none
  all_passed cap slots k n c all before i v h q =
      let (d, l, t) = at-surjective c (key.hash k) i h in
      (before d (omega arith)).1 v (ap slots t ∙ q)

  -- An empty entry on the path rules the key out.
  pub stopped :
      (cap : ℕ) (slots : ℕ → Entry K V) (k : K) (d : ℕ)
      → IsCap cap
      → HasPaths cap slots
      → Passed cap slots k d
      → path cap slots k d ≡ empty
      → Located cap slots k none
  stopped cap slots k d c paths before here i v h q =
      let (e, l, t) = at-surjective c (key.hash k) i h in
      let there : path cap slots k e ≡ occupied k v = ap slots t ∙ q in
      elim (dec_lt e d) [
        | yes p ↦ (before e p).1 v there
        | no p ↦ elim (ℕ_discrete e d) [
          | yes s ↦ cc (ap (path cap slots k) s)
          | no ne ↦ paths k v e d l (omega arith) there here
        ]
      ]

  pub other :
      {x : Entry K V} {k : K} (k' : K) (v : V)
      → x ≡ occupied k' v
      → key.beq k' k ≡ false
      → (w : V) → x ≢ occupied k w
  other {x} {k} k' v q differ w t = let same : k' ≡ k = cc in cc ((key.beq_iff k' k).1 same)

  pub probe_lem :
      (cap : ℕ) (slots : ℕ → Entry K V) (k : K)
      → IsCap cap
      → HasPaths cap slots
      → (n d : ℕ) → d + n ≡ cap
      → 0 < n
      → Passed cap slots k d
      → (r : Option ℕ) × (probe key cap slots k (at cap (key.hash k) 0) n (at cap (key.hash k) d)
          ≡ some r)
        × Located cap slots k r
  unfolding probe
  probe_lem cap slots k c paths zero d e pos before = absurd (omega arith)
  probe_lem cap slots k c paths (suc n) d e pos before =
      visit (path cap slots k d) refl (probe_lem cap slots k c paths n (suc d) (omega arith))
    where
      Goal : Type 0
      Goal =
          (r : Option ℕ) × (probe key cap slots k (at cap (key.hash k) 0) (suc n)
              (at cap (key.hash k) d)
            ≡ some r)
          × Located cap slots k r

      More : Type 0
      More =
          0 < n
          → Passed cap slots k (suc d)
          → (r : Option ℕ) × (probe key cap slots k (at cap (key.hash k) 0) n
                (at cap (key.hash k) (suc d))
              ≡ some r)
            × Located cap slots k r

      on :
          Passed cap slots k (suc d)
          → More
          → (r : Option ℕ) × ((if next cap (at cap (key.hash k) d) == at cap (key.hash k) 0
                then some none
                else probe key cap slots k
                    (at cap (key.hash k) 0)
                    n
                    (next cap (at cap (key.hash k) d)))
              ≡ some r)
            × Located cap slots k r
      on next_passed more =
          around (Located cap slots k) none _ (key.hash k) n d c e
            (λ z. all_passed cap slots k (suc d) c (omega arith) next_passed)
            (λ p. rw (next-at c (key.hash k) d) (more p next_passed))

      visit : (en : Entry K V) → path cap slots k d ≡ en → More → Goal
      visit empty q more = (none, rw (q, probe), stopped cap slots k d c paths before q)
      visit tombstone q more =
          let (r, t, l) = on (Passed-more cap slots k d before (cc) (λ v. cc)) more in
          (r, rw (q, probe) t, l)
      visit (occupied k' v) q more = elim (Bool-cases (key.beq k' k)) [
        | inl same ↦
            let s = (key.beq_iff k' k).0 same in
            (
              some (at cap (key.hash k) d),
              rw (q, probe, same),
              (at-lt c _ d, (v, q ∙ ap (λ x. occupied x v) s)),
            )
        | inr differ ↦
            let (r, t, l) = on (Passed-more cap slots k d before (cc) (other k' v q differ)) more in
            (r, rw (q, probe, differ) t, l)
      ]

-- ===== src/HashMap/Fields.antt =====
-- The fields of the map beside its table: the allocator, which no operation changes, and `len`,
-- which stays a word.
use cxb.Prelude.{
  ℕ, zero, suc, ◌+◌, ◌^◌, ◌<◌, ◌≡◌, inl, inr, refl, ◌∙◌, Bool, true, false, Bool-cases, Option,
  none, some, ◌>>=◌, if◌then◌else◌, arith, not, ◌||◌, ◌==◌, ltb, add64, sub64,
}
use cxb.Bits.{round_up_pow2}
use cxb.HashMap.{
  Key, Entry, empty, occupied, tombstone, MHashMap, update, PutSlot, slot, dup, fresh_slots,
  min_cap, key_hash_index, insert_probe, insert_no_dupe_check, reinsert, rehash_to, needs_rehash,
  grown, maybe_rehash, put_probe, probe, store, put, erase,
}

-- Where a chain of calls returns, its first call returns.
pub bind-some :
    {A B : Type 0} (o : Option A) (f : A → Option B) (b : B)
    → (o >>= f) ≡ some b
    → (a : A) × (o ≡ some a) × (f a ≡ some b)
bind-some none f b e = cc
bind-some (some a) f b e = (a, refl, e)

module _ {K V : Type 0} (key : Key K) where
  pub record Keeps (m m' : MHashMap K V) : Type 0 where
    pub allocator : m'.allocator ≡ m.allocator
    pub word : m.len < 2 ^ 64 → m'.len < 2 ^ 64

  unchanged : (m : MHashMap K V) → Keeps m m
  unchanged m = record { allocator = refl; word = λ h. h }

  changed_twice : (a b c : MHashMap K V) → Keeps a b → Keeps b c → Keeps a c
  changed_twice a b c x y = record {
    allocator = y.allocator ∙ x.allocator;
    word = λ h. y.word (x.word h);
  }

  insert-Keeps :
      (m m' : MHashMap K V) (k : K) (v : V) (b : Bool)
      → insert_no_dupe_check key m k v ≡ some (m', b)
      → Keeps m m'
  unfolding insert_no_dupe_check
  insert-Keeps m m' k v b e =
      let (ii, e1, f1) = bind-some (key_hash_index key m k) _ (m', b) e in
      let (r, e2, f2) = bind-some (insert_probe key m.cap m.slots ii m.cap ii) _ (m', b) f1 in
      go r f2
    where
      go :
          (r : Option ℕ)
          → elim r as (λ t. Option (MHashMap K V × Bool)) [
            | none ↦ some (m, false)
            | some i ↦
                some
                  (record m { slots = update m.slots i (occupied k v); len = add64 m.len 1 }, true)
          ]
            ≡ some (m', b)
          → Keeps m m'
      go none f = let same : m ≡ m' = cc in rw (← same) (unchanged m)
      go (some i) f =
          let n = record m { slots = update m.slots i (occupied k v); len = add64 m.len 1 } in
          let same : n ≡ m' = cc in
          rw (← same) (record { allocator = refl; word = λ h. omega arith })

  reinsert-Keeps :
      (n i : ℕ) (old : ℕ → Entry K V) (m m' : MHashMap K V)
      → reinsert key n i old m ≡ some m'
      → Keeps m m'
  unfolding reinsert
  reinsert-Keeps zero i old m m' e = let same : m ≡ m' = cc in rw (← same) (unchanged m)
  reinsert-Keeps (suc n) i old m m' e =
      visit (old i) refl (λ m1 e1. reinsert-Keeps n (i + 1) old m1 m' e1)
    where
      visit :
          (x : Entry K V)
          → old i ≡ x
          → ((m1 : MHashMap K V) → reinsert key n (i + 1) old m1 ≡ some m' → Keeps m1 m')
          → Keeps m m'
      visit empty q ih = ih m (rw (q, reinsert) at e)
      visit tombstone q ih = ih m (rw (q, reinsert) at e)
      visit (occupied k v) q ih =
          let ((m1, inserted), e1, f1) =
            bind-some (insert_no_dupe_check key m k v) _ m' (rw (reinsert, q) at e) in
          elim (Bool-cases inserted) [
            | inl t ↦ changed_twice m m1 m' (insert-Keeps m m1 k v inserted e1) (ih m1 (rw t at f1))
            | inr t ↦ let stops = rw t at f1 in cc
          ]

  rehash_to-Keeps : (m m' : MHashMap K V) (c : ℕ) → rehash_to key m c ≡ some m' → Keeps m m'
  unfolding rehash_to
  rehash_to-Keeps m m' c e =
      let capacity = if ltb c min_cap then min_cap else c in
      elim (Bool-cases (not (round_up_pow2 capacity == capacity) || not m.allocator)) [
        | inl t ↦ let stops = rw (rehash_to, t) at e in cc
        | inr t ↦
            let moved =
              reinsert-Keeps m.cap 0 m.slots (record m { cap = capacity; slots = fresh_slots }) m'
                (rw (rehash_to, t) at e) in
            record { allocator = moved.allocator; word = moved.word }
      ]

  maybe_rehash-Keeps : (m m' : MHashMap K V) → maybe_rehash key m ≡ some m' → Keeps m m'
  unfolding maybe_rehash
  maybe_rehash-Keeps m m' e = elim (Bool-cases (needs_rehash m)) [
    | inl t ↦ rehash_to-Keeps m m' (grown m.cap) (rw (maybe_rehash, t) at e)
    | inr t ↦
        let same : m ≡ m' = let q = rw (maybe_rehash, t) at e in cc in rw (← same) (unchanged m)
  ]

  store-Keeps :
      (m m' : MHashMap K V) (k : K) (v : V) (r : PutSlot) (b : Bool)
      → store key m k v r ≡ some (m', b)
      → Keeps m m'
  unfolding store
  store-Keeps m m' k v dup b e = let same : m ≡ m' = cc in rw (← same) (unchanged m)
  store-Keeps m m' k v (slot i) b e = visit (m.slots i) refl
    where
      w : MHashMap K V
      w = record m { slots = update m.slots i (occupied k v); len = add64 m.len 1 }

      kept : ◌≡◌ {A = Option (MHashMap K V × Bool)} (some (w, true)) (some (m', b)) → Keeps m m'
      kept q =
          let same : w ≡ m' = cc in
          rw (← same) (record { allocator = refl; word = λ h. omega arith })

      visit : (x : Entry K V) → m.slots i ≡ x → Keeps m m'
      visit empty q = kept (rw (store, q) at e)
      visit tombstone q = kept (rw (store, q) at e)
      visit (occupied k' w') q = let stops = rw (store, q) at e in cc

  pub put-Keeps :
      (m m' : MHashMap K V) (k : K) (v : V) (b : Bool) → put key m k v ≡ some (m', b) → Keeps m m'
  unfolding put
  put-Keeps m m' k v b e =
      let (m1, e1, f1) = bind-some (maybe_rehash key m) _ (m', b) e in
      let (ii, e2, f2) = bind-some (key_hash_index key m1 k) _ (m', b) f1 in
      let (r, e3, f3) = bind-some (put_probe key m1.cap m1.slots k ii m1.cap ii) _ (m', b) f2 in
      changed_twice m m1 m' (maybe_rehash-Keeps m m1 e1) (store-Keeps m1 m' k v r b f3)

  pub erase-Keeps :
      (m m' : MHashMap K V) (k : K) (b : Bool) → erase key m k ≡ some (m', b) → Keeps m m'
  unfolding erase
  erase-Keeps m m' k b e = elim (Bool-cases (m.cap == 0)) [
    | inl t ↦ let same : m ≡ m' = let q = rw (erase, t) at e in cc in rw (← same) (unchanged m)
    | inr t ↦
        let (ii, e1, f1) = bind-some (key_hash_index key m k) _ (m', b) (rw (erase, t) at e) in
        let (r, e2, f2) = bind-some (probe key m.cap m.slots k ii m.cap ii) _ (m', b) f1 in go r f2
  ]
    where
      go :
          (r : Option ℕ)
          → elim r as (λ t. Option (MHashMap K V × Bool)) [
            | none ↦ some (m, false)
            | some i ↦
                some (record m { slots = update m.slots i tombstone; len = sub64 m.len 1 }, true)
          ]
            ≡ some (m', b)
          → Keeps m m'
      go none f = let same : m ≡ m' = cc in rw (← same) (unchanged m)
      go (some i) f =
          let n = record m { slots = update m.slots i tombstone; len = sub64 m.len 1 } in
          let same : n ≡ m' = cc in
          rw (← same) (record { allocator = refl; word = λ h. omega arith })

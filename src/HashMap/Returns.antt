-- ===== src/HashMap/Returns.antt =====
-- `put` wherever it returns, without a condition on the room in the table.
use cxb.Prelude.{
  ◌*◌, ◌^◌, ◌<◌, ◌≡◌, inl, inr, refl, sym, ◌∙◌, Bool, true, false, Bool-cases, some, Option-cases,
  arith,
}
use cxb.HashMap.{Key, MHashMap, PutSlot, dup, slot, needs_rehash, maybe_rehash, get, put, store}
use cxb.HashMap.Probe.{IsCap, key_hash_index_lem}
use cxb.HashMap.Valid.{IsValid}
use cxb.HashMap.Lookup.{get-of_absent}
use cxb.HashMap.Insert.{Placed}
use cxb.HashMap.Put.{Stored, HasRoom, placed_lem, put_correct, put_full}

module _ {K V : Type 0} (key : Key K) where
  -- A map that is not loaded has a table.
  calm-IsCap : (m : MHashMap K V) → IsValid key m → needs_rehash m ≡ false → IsCap m.cap
  unfolding needs_rehash
  calm-IsCap m valid calm = elim valid.size [ inl z ↦ absurd (ground (arith, z, calm)) | inr c ↦ c ]

  -- A key that is present stops `put`.
  put_present :
      (m : MHashMap K V) (k : K) (v u : V)
      → IsValid key m
      → needs_rehash m ≡ false
      → get key m k ≡ some u
      → put key m k v ≡ some (m, false)
  unfolding put maybe_rehash store
  put_present m k v u valid calm held =
      let c = calm-IsCap m valid calm in
      let (r, t, placed) = placed_lem key m k c valid in
      rw (calm, key_hash_index_lem key m c k, t) (go r placed)
    where
      go :
          (r : PutSlot)
          → Placed key m.cap m.slots (calm-IsCap m valid calm) k r
          → store key m k v r ≡ some (m, false)
      go dup _ = refl
      go (slot i) (absent, l, _) = let e = get-of_absent key m k valid absent in cc

  Stored-present :
      (m : MHashMap K V) (k : K) (v u : V)
      → IsValid key m
      → get key m k ≡ some u
      → Stored key m k v m false
  Stored-present m k v u valid held = record {
    valid = valid;
    others = λ k' ne. refl;
    fresh = λ h. cc;
    kept = λ h. ((u, held), refl);
  }

  Stored-same :
      (m m1 m' : MHashMap K V) (k : K) (v : V) (b b' : Bool)
      → put key m k v ≡ some (m1, b)
      → put key m k v ≡ some (m', b')
      → Stored key m k v m1 b
      → Stored key m k v m' b'
  Stored-same m m1 m' k v b b' e e' s =
      let same : m1 ≡ m' = let q = sym e ∙ e' in cc in
      let same' : b ≡ b' = let q = sym e ∙ e' in cc in rw (← same, ← same') s

  -- Where `put` returns from a valid map whose table can be doubled, it has done its work.
  pub put_returns :
      (m m' : MHashMap K V) (k : K) (v : V) (b : Bool)
      → IsValid key m
      → m.allocator ≡ true
      → m.len < 2 ^ 64
      → m.cap * 2 < 2 ^ 64
      → put key m k v ≡ some (m', b)
      → Stored key m k v m' b
  put_returns m m' k v b valid alloc word half e = elim (Bool-cases (needs_rehash m)) [
    | inl loaded ↦ with_room (λ calm. absurd (let q : true ≡ false = sym loaded ∙ calm in cc))
    | inr calm ↦ elim (Option-cases (get key m k)) [
      | inr (u, held) ↦
          Stored-same m m m' k v false b (put_present m k v u valid calm held) e
            (Stored-present m k v u valid held)
      | inl absent ↦ with_room (λ _ full k' w home.
          let stops =
            put_full key m k k' v w valid (calm-IsCap m valid calm) calm full home absent in
          cc)
    ]
  ]
    where
      with_room : (needs_rehash m ≡ false → HasRoom key m k) → Stored key m k v m' b
      with_room room =
          let (m1, b1, t, s) = put_correct key m k v valid alloc word half room in
          Stored-same m m1 m' k v b1 b t e s

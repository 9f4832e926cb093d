-- ===== src/HashMap.antt =====
-- `MHashMap` of cxb/cxb.h: an open-addressing table with linear probing and tombstones.
-- A result in `Option` is `none` where an assertion of the source stops the program, or where a
-- probe loop would be given too little fuel.
pub mod Probe
pub mod Valid
pub mod Lookup
pub mod Erase
pub mod Insert
pub mod Count
pub mod Rehash
pub mod Put
pub mod Returns
pub mod Fields
pub mod History
pub mod Iter
mod Tests
use cxb.Bits.{is_pow2, pow2mod, round_up_pow2}
use cxb.Prelude.{
  ◌>>=◌, ℕ, zero, suc, ◌+◌, ◌*◌, ◌%◌, ◌^◌, ◌≡◌, ◌↔◌, Bool, true, false, not, ◌||◌, Option, none,
  some, List, [], ◌∷◌, ◌==◌, ltb, leb, if◌then◌else◌, add64, sub64,
}

-- What the map asks of a key type: `==`, which decides equality, and the hasher.
pub record Key (K : Type 0) : Type 0 where
  pub beq : K → K → Bool
  pub beq_iff : (a b : K) → (beq a b ≡ true) ↔ (a ≡ b)
  pub hash : K → ℕ

-- `Entry` with its `HashMapState`. Only an occupied entry has a live key and value: those of a
-- tombstone are destroyed, and those of an empty entry were never constructed.
pub data Entry (K V : Type 0) : Type 0 where
  empty : Entry K V
  occupied : K → V → Entry K V
  tombstone : Entry K V

-- `table.data` is null exactly if `cap`, the field `table.len`, is 0. A null `allocator` is `false`.
pub record MHashMap (K V : Type 0) : Type 0 where
  pub cap : ℕ
  pub slots : ℕ → Entry K V
  pub len : ℕ
  pub allocator : Bool

-- Where the insertion loop of `put` stops.
pub data PutSlot : Type 0 where
  dup : PutSlot
  slot : ℕ → PutSlot

abbrev pub min_cap : ℕ
min_cap = 64

abbrev pub update {ℓ} : {A : Type ℓ} → (ℕ → A) → ℕ → A → ℕ → A
update f i v j = if i == j then v else f j

-- The step `i = pow2mod(i + 1, table.len)` of every probe loop.
unfoldable pub next : ℕ → ℕ → ℕ
next cap i = pow2mod (add64 i 1) cap

-- Over 64-bit words the quotient of `load_factor` is exact at a power of two, so the comparison
-- with 0.75 is one of whole numbers. Lengths below 2 ^ 53 only: above, `len` is rounded to a double.
unfoldable pub needs_rehash : {K V : Type 0} → MHashMap K V → Bool
needs_rehash m = m.cap == 0 || leb (3 * m.cap) (4 * m.len)

-- The capacity that `maybe_rehash` asks for.
unfoldable pub grown : ℕ → ℕ
grown cap =
    let doubled = if cap == 0 then min_cap else (cap * 2) % 2 ^ 64 in
    if ltb doubled min_cap then min_cap else doubled

unfoldable pub fresh_slots : {K V : Type 0} → ℕ → Entry K V
fresh_slots i = empty

module _ {K V : Type 0} (key : Key K) where
  unfoldable pub key_hash_index : MHashMap K V → K → Option ℕ
  key_hash_index m k = if is_pow2 m.cap then some (pow2mod (key.hash k) m.cap) else none

  -- The loop that `occupied_entry_for` and `erase` share, with fuel: the index of the occupied
  -- entry that holds the key, or `none` inside.
  unfoldable pub probe : ℕ → (ℕ → Entry K V) → K → ℕ → ℕ → ℕ → Option (Option ℕ)
  probe cap slots k ii zero i = none
  probe cap slots k ii (suc n) i =
      let rest = probe cap slots k ii n (next cap i) in
      let go = if next cap i == ii then some none else rest in
      elim (slots i) [
        | empty ↦ some none
        | occupied k' v ↦ if key.beq k' k then some (some i) else go
        | tombstone ↦ go
      ]

  unfoldable pub occupied_entry_for : MHashMap K V → K → Option (Option ℕ)
  occupied_entry_for m k =
      if m.cap == 0
      then some none
      else do ii ← key_hash_index m k; probe m.cap m.slots k ii m.cap ii

  unfoldable pub contains : MHashMap K V → K → Option Bool
  contains m k = do r ← occupied_entry_for m k; elim r [ none ↦ some false | some i ↦ some true ]

  -- `operator[]`: the value of an entry that is present.
  unfoldable pub get : MHashMap K V → K → Option V
  get m k = do
    r ← occupied_entry_for m k
    elim r [ none ↦ none | some i ↦ elim (m.slots i) [ occupied k' v ↦ some v | _ ↦ none ] ]

  unfoldable pub erase : MHashMap K V → K → Option (MHashMap K V × Bool)
  erase m k = if m.cap == 0 then some (m, false) else do
    ii ← key_hash_index m k
    r ← probe m.cap m.slots k ii m.cap ii
    elim r [
      | none ↦ some (m, false)
      | some i ↦ some (record m { slots = update m.slots i tombstone; len = sub64 m.len 1 }, true)
    ]

  -- The loop of `insert_no_dupe_check`: the first empty entry, or `none` inside once it is round.
  unfoldable pub insert_probe : ℕ → (ℕ → Entry K V) → ℕ → ℕ → ℕ → Option (Option ℕ)
  insert_probe cap slots ii zero i = none
  insert_probe cap slots ii (suc n) i =
      let rest = insert_probe cap slots ii n (next cap i) in
      let go = if next cap i == ii then some none else rest in
      elim (slots i) [ empty ↦ some (some i) | _ ↦ go ]

  unfoldable pub insert_no_dupe_check : MHashMap K V → K → V → Option (MHashMap K V × Bool)
  insert_no_dupe_check m k v = do
    ii ← key_hash_index m k
    r ← insert_probe m.cap m.slots ii m.cap ii
    elim r [
      | none ↦ some (m, false)
      | some i ↦
          some (record m { slots = update m.slots i (occupied k v); len = add64 m.len 1 }, true)
    ]

  -- The loop of `_reserve` over the old table: `n` rounds from index `i` on.
  unfoldable pub reinsert : ℕ → ℕ → (ℕ → Entry K V) → MHashMap K V → Option (MHashMap K V)
  reinsert zero i old m = some m
  reinsert (suc n) i old m = elim (old i) [
    | occupied k v ↦ do
      (m', inserted) ← insert_no_dupe_check m k v
      if inserted then reinsert n (i + 1) old m' else none
    | _ ↦ reinsert n (i + 1) old m
  ]

  -- `_reserve`. The new table is zeroed, and the field `len` is left as it is. The size of the table in
  -- bytes is below 2 ^ 64, and its allocation succeeds: a failed one is left out.
  unfoldable pub rehash_to : MHashMap K V → ℕ → Option (MHashMap K V)
  rehash_to m c =
      let capacity = if ltb c min_cap then min_cap else c in
      if not (round_up_pow2 capacity == capacity) || not m.allocator
      then none
      else reinsert m.cap 0 m.slots (record m { cap = capacity; slots = fresh_slots })

  unfoldable pub maybe_rehash : MHashMap K V → Option (MHashMap K V)
  maybe_rehash m = if needs_rehash m then rehash_to m (grown m.cap) else some m

  unfoldable pub reserve : MHashMap K V → ℕ → Option (MHashMap K V)
  reserve m bucket_size =
      let rounded = round_up_pow2 bucket_size in
      let c = if ltb rounded min_cap then min_cap else rounded in
      if m.cap == 0 || ltb m.cap c then rehash_to m c else some m

  -- The loop of `put`, which passes tombstones; it stops at home once it is round.
  unfoldable pub put_probe : ℕ → (ℕ → Entry K V) → K → ℕ → ℕ → ℕ → Option PutSlot
  put_probe cap slots k ii zero i = none
  put_probe cap slots k ii (suc n) i =
      let rest = put_probe cap slots k ii n (next cap i) in
      let go = if next cap i == ii then some (slot ii) else rest in
      elim (slots i) [
        | empty ↦ some (slot i)
        | occupied k' v ↦ if key.beq k' k then some dup else go
        | tombstone ↦ go
      ]

  -- What `put` does with the entry where its loop stops; an occupied one fails the assertion.
  unfoldable pub store : MHashMap K V → K → V → PutSlot → Option (MHashMap K V × Bool)
  store m k v dup = some (m, false)
  store m k v (slot i) =
      let written = record m { slots = update m.slots i (occupied k v); len = add64 m.len 1 } in
      elim (m.slots i) [ occupied k' v' ↦ none | _ ↦ some (written, true) ]

  unfoldable pub put : MHashMap K V → K → V → Option (MHashMap K V × Bool)
  put m k v = do
    m' ← maybe_rehash m
    ii ← key_hash_index m' k
    r ← put_probe m'.cap m'.slots k ii m'.cap ii
    store m' k v r

  -- `extend`: the pairs in order, up to the first that is a duplicate.
  unfoldable pub extend : MHashMap K V → List (K × V) → Option (MHashMap K V × Bool)
  extend m [] = some (m, true)
  extend m ((k, v) ∷ xs) = do
    (m', done) ← put m k v
    if done then extend m' xs else some (m', false)

-- `destroy`
unfoldable pub destroy : {K V : Type 0} → MHashMap K V → MHashMap K V
destroy m =
    if m.cap == 0 || not m.allocator then m else record m { cap = 0; slots = fresh_slots; len = 0 }

-- `MHashMap(Allocator*)`
unfoldable pub make : {K V : Type 0} → Bool → MHashMap K V
make allocator = record { cap = 0; slots = fresh_slots; len = 0; allocator = allocator }

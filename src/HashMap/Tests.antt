-- ===== src/HashMap/Tests.antt =====
-- Runs of the hash map, and its theorems at concrete maps with the keys of tests/test_hm.cpp.
use cxb.Bits.{is_pow2, pow2mod, round_up_pow2}
use cxb.Prelude.{
  ◌>>=◌, ℕ, ◌<◌, ◌≡◌, ◌≢◌, ◌↔◌, inr, refl, Bool, true, false, Option, none, some, [], ◌∷◌, ◌==◌,
  ==_iff, arith,
}
use cxb.HashMap.{
  Key, Entry, empty, occupied, tombstone, MHashMap, update, next, needs_rehash, grown, fresh_slots,
  key_hash_index, probe, occupied_entry_for, contains, get, erase, insert_probe,
  insert_no_dupe_check, reinsert, rehash_to, maybe_rehash, put_probe, store, put, extend, make,
}
use cxb.HashMap.Probe.{IsCap, at, at-lt}
use cxb.HashMap.Valid.{Holds, IsValid, IsFree}
use cxb.HashMap.Lookup.{get_iff, contains-get}
use cxb.HashMap.Erase.{Erased, erase_correct}
use cxb.HashMap.Insert.{IsFull, written-IsValid}
use cxb.HashMap.Rehash.{Rehashed, rehash_to_correct}
use cxb.HashMap.Put.{HasRoom, Stored, put_correct, put_full}
use cxb.HashMap.History.{
  stored, erased, apply, History, made, called, contents, Represents, History-Represents,
}
use cxb.HashMap.Iter.{advance, begin, seek, ensure_occupied, advance-ne-end}

-- `size_t hash(const int& x)` of the tests is the identity.
abbrev ints : Key ℕ
ints = record { beq = ◌==◌; beq_iff = ==_iff; hash = λ x. x }

abbrev table : (ℕ → Entry ℕ ℕ) → ℕ → MHashMap ℕ ℕ
table slots len = record { cap = 64; slots = slots; len = len; allocator = true }

IsCap-64 : IsCap 64
IsCap-64 = record { bits = 6; pow = refl; small = omega arith }

abbrev bare_slots : ℕ → Entry ℕ ℕ
bare_slots i = empty

-- One entry, at its home.
abbrev one_slots : ℕ → Entry ℕ ℕ
one_slots = update bare_slots 1 (occupied 1 2)

-- One entry at its home, and tombstones everywhere else.
abbrev worn_slots : ℕ → Entry ℕ ℕ
worn_slots = update (λ i. tombstone) 0 (occupied 0 7)

-- What `{1, 2}`, three more pairs, an erasure and a second `put` leave, as in the test "basic".
abbrev basic : Option (Option ℕ × Option Bool × ℕ)
basic = do
  (m, _) ← put ints (make true) 1 2
  (m, _) ← extend ints m ((7, 9) ∷ (3, 5) ∷ (11, 9) ∷ [])
  (m, _) ← erase ints m 1
  (m, _) ← put ints m 1 3
  some (get ints m 1, contains ints m 2, m.len)

basic_run : basic ≡ some (some 3, some false, 4)
unfolding extend put store put_probe maybe_rehash rehash_to reinsert insert_no_dupe_check
    insert_probe erase contains get occupied_entry_for probe key_hash_index next needs_rehash grown
    fresh_slots make is_pow2 pow2mod round_up_pow2
basic_run = refl

bare-IsValid : IsValid ints (table bare_slots 0)
bare-IsValid = record {
  size = inr IsCap-64;
  paths = λ k v d e p q h. cc;
  unique = λ k v w i j p p' h. cc;
}

home_of_one : IsFree ints 64 bare_slots 1 1
unfolding at
home_of_one = record {
  steps = 0;
  before = omega arith;
  here = refl;
  way = λ e h. absurd (omega arith);
  unheld = λ k v. cc;
}

one-IsValid : IsValid ints (table one_slots 1)
one-IsValid =
    written-IsValid ints (table bare_slots 0) IsCap-64 1 2 1 1 (omega arith) home_of_one
      (λ i v h. cc) bare-IsValid

worn-IsFull : IsFull 64 worn_slots
worn-IsFull i h = ground arith

worn_at : (i k v : ℕ) → worn_slots i ≡ occupied k v → i ≡ 0
worn_at i k v h = ground arith

worn-IsValid : IsValid ints (table worn_slots 1)
worn-IsValid = record {
  size = inr IsCap-64;
  paths = λ k v d e p q h. worn-IsFull (at 64 k e) (at-lt IsCap-64 k e);
  unique = λ k v w i j p p' h h'. omega (arith, worn_at i k v h, worn_at j k w h');
}

at_home : (k : ℕ) → k < 64 → at 64 k 0 ≡ k
unfolding at
at_home k h = omega arith

get_iff_example : (get ints (table one_slots 1) 1 ≡ some 2) ↔ Holds ints 64 one_slots 1 2
get_iff_example = get_iff ints (table one_slots 1) 1 2 one-IsValid

contains-get_example :
    (b : Bool) × (contains ints (table one_slots 1) 5 ≡ some b)
    × ((b ≡ true) ↔ ((v : ℕ) × (get ints (table one_slots 1) 5 ≡ some v)))
contains-get_example = contains-get ints (table one_slots 1) 5 one-IsValid

erase_correct_example :
    (m' : MHashMap ℕ ℕ) × (found : Bool) × (erase ints (table one_slots 1) 1 ≡ some (m', found))
    × Erased ints (table one_slots 1) 1 m' found
erase_correct_example = erase_correct ints (table one_slots 1) 1 one-IsValid

IsCap-128 : IsCap 128
IsCap-128 = record { bits = 7; pow = refl; small = omega arith }

rehash_to_correct_example :
    (m' : MHashMap ℕ ℕ) × (rehash_to ints (table one_slots 1) 128 ≡ some m')
    × Rehashed ints (table one_slots 1) 128 m'
rehash_to_correct_example =
    rehash_to_correct ints (table one_slots 1) 128 one-IsValid refl (omega arith) IsCap-128
      (omega arith) (omega arith)

one-HasRoom : HasRoom ints (table one_slots 1) 5
one-HasRoom full k w h = full 2 (omega arith) refl

put_correct_example :
    (m' : MHashMap ℕ ℕ) × (added : Bool) × (put ints (table one_slots 1) 5 6 ≡ some (m', added))
    × Stored ints (table one_slots 1) 5 6 m' added
put_correct_example =
    put_correct ints (table one_slots 1) 5 6 one-IsValid refl (omega arith) (omega arith)
      (λ h. one-HasRoom)

worn_calm : needs_rehash (table worn_slots 1) ≡ false
unfolding needs_rehash
worn_calm = refl

worn_home : worn_slots (at 64 64 0) ≡ occupied 0 7
unfolding at
worn_home = refl

worn_lacks : get ints (table worn_slots 1) 64 ≡ none
unfolding get occupied_entry_for key_hash_index probe next is_pow2 pow2mod
worn_lacks = refl

-- Key 64 hashes to the entry of key 0.
put_full_example : put ints (table worn_slots 1) 64 1 ≡ none
put_full_example =
    put_full ints (table worn_slots 1) 64 0 1 7 worn-IsValid IsCap-64 worn_calm worn-IsFull
      worn_home worn_lacks

begin_one : advance (table one_slots 1) 64 0 ≡ some 1
unfolding advance begin ensure_occupied seek next pow2mod
begin_one = refl

advance-ne-end_example : ◌≢◌ {A = ℕ} 1 64
advance-ne-end_example = advance-ne-end (table one_slots 1) IsCap-64 64 0 1 begin_one

-- A map after a `put`, and after an `erase` of the same key.
abbrev once_put : MHashMap ℕ ℕ
once_put = table (update fresh_slots 1 (occupied 1 2)) 1

abbrev once_erased : MHashMap ℕ ℕ
once_erased = table (update (update fresh_slots 1 (occupied 1 2)) 1 tombstone) 0

History-once_put : History ints (stored 1 2 ∷ []) once_put
unfolding apply make put maybe_rehash needs_rehash rehash_to reinsert key_hash_index put_probe store
    grown is_pow2 pow2mod round_up_pow2 fresh_slots next
History-once_put = called made (omega arith) refl

History-once_erased : History ints (erased 1 ∷ stored 1 2 ∷ []) once_erased
unfolding apply erase key_hash_index probe is_pow2 pow2mod fresh_slots next
History-once_erased = called History-once_put (omega arith) refl

History-Represents_example :
    Represents ints once_erased (contents ints (erased 1 ∷ stored 1 2 ∷ []))
History-Represents_example =
    History-Represents ints (erased 1 ∷ stored 1 2 ∷ []) once_erased History-once_erased

-- ===== src/HashMap/History.antt =====
-- A map through a history of operations, against the finite map that it stands for.
use cxb.Prelude.{
  ◌*◌, ◌^◌, ◌<◌, ◌≡◌, ◌≢◌, inl, inr, refl, sym, ap, ◌∙◌, Bool, true, false, Bool-cases, Option,
  none, some, ◌>>=◌, List, [], ◌∷◌, if◌then◌else◌, arith, ◌==◌, ==_iff,
}
use cxb.HashMap.{Key, MHashMap, get, put, erase, destroy, make, occupied_entry_for, fresh_slots}
use cxb.HashMap.Valid.{IsValid}
use cxb.HashMap.Erase.{Erased, erase_correct}
use cxb.HashMap.Put.{Stored}
use cxb.HashMap.Returns.{put_returns}
use cxb.HashMap.Fields.{bind-some, put-Keeps, erase-Keeps}

-- The operations of a history.
pub data Operation (K V : Type 0) : Type 0 where
  stored : K → V → Operation K V
  erased : K → Operation K V
  destroyed : Operation K V

module _ {K V : Type 0} (key : Key K) where
  -- A call of an operation, without its answer.
  unfoldable pub apply : MHashMap K V → Operation K V → Option (MHashMap K V)
  apply m (stored k v) = put key m k v >>= λ r. some r.0
  apply m (erased k) = erase key m k >>= λ r. some r.0
  apply m destroyed = some (destroy m)

  -- A value that is there, or else a new one.
  abbrev pub keep_or : V → Option V → Option V
  keep_or v none = some v
  keep_or v (some w) = some w

  -- A change of a function at a key.
  abbrev pub at_key : K → (Option V → Option V) → (K → Option V) → K → Option V
  at_key k change f x = if key.beq k x then change (f x) else f x

  -- The finite map that a history makes, the last operation first: `put` keeps a value that is there.
  unfoldable pub contents : List (Operation K V) → K → Option V
  contents [] = λ x. none
  contents (stored k v ∷ ops) = at_key k (keep_or v) (contents ops)
  contents (erased k ∷ ops) = at_key k (λ o. none) (contents ops)
  contents (destroyed ∷ ops) = λ x. none

  -- The maps that a history of operations leads to from an empty one. No assertion stops any of its
  -- calls, and none finds a table whose length cannot be doubled.
  pub data History : List (Operation K V) → MHashMap K V → Type 0 where
    made : History [] (make true)
    called :
        {ops : List (Operation K V)} {m m' : MHashMap K V} {op : Operation K V}
        → History ops m
        → m.cap * 2 < 2 ^ 64
        → apply m op ≡ some m'
        → History (op ∷ ops) m'

  -- A map that stands for a finite map.
  pub record Represents (m : MHashMap K V) (f : K → Option V) : Type 0 where
    pub valid : IsValid key m
    pub allocator : m.allocator ≡ true
    pub word : m.len < 2 ^ 64
    pub values : (k : K) → get key m k ≡ f k

  Represents-bare :
      (m : MHashMap K V)
      → m.cap ≡ 0
      → m.allocator ≡ true
      → m.len < 2 ^ 64
      → Represents m (λ x. none)
  unfolding get occupied_entry_for
  Represents-bare m z alloc word = record {
    valid = record {
      size = inl z;
      paths = λ k v d e p q h. absurd (omega (arith, z, p));
      unique = λ k v w a b p p' h. absurd (omega (arith, z, p));
    };
    allocator = alloc;
    word = word;
    values = λ k. rw z refl;
  }

  at_key_same :
      (k x : K) (change : Option V → Option V) (f : K → Option V)
      → key.beq k x ≡ true
      → at_key k change f x ≡ change (f k)
  at_key_same k x change f t = rw (t, (key.beq_iff k x).0 t) refl

  at_key_other :
      (k x : K) (change : Option V → Option V) (f : K → Option V)
      → key.beq k x ≡ false
      → at_key k change f x ≡ f x
  at_key_other k x change f t = rw t refl

  -- What `put` gives for its own key.
  value_after_put :
      (m m' : MHashMap K V) (k : K) (v : V) (b : Bool)
      → Stored key m k v m' b
      → get key m' k ≡ keep_or v (get key m k)
  value_after_put m m' k v b s = elim (Bool-cases b) [
    | inl t ↦ let (absent, held) = s.fresh t in rw absent held
    | inr t ↦ let ((w, held), same) = s.kept t in rw held (same ∙ held)
  ]

  -- The values after a change at one key.
  values_change :
      (m m' : MHashMap K V) (k : K) (change : Option V → Option V) (f : K → Option V)
      → ((x : K) → get key m x ≡ f x)
      → get key m' k ≡ change (get key m k)
      → ((x : K) → x ≢ k → get key m' x ≡ get key m x)
      → (x : K) → get key m' x ≡ at_key k change f x
  values_change m m' k change f before here others x = elim (Bool-cases (key.beq k x)) [
    | inl t ↦
        ap (get key m') (sym ((key.beq_iff k x).0 t))
        ∙ here
        ∙ ap change (before k)
        ∙ sym (at_key_same k x change f t)
    | inr t ↦
        others x (λ e. let q = (key.beq_iff k x).1 (sym e) in cc)
        ∙ before x
        ∙ sym (at_key_other k x change f t)
  ]

  Represents-put :
      (m m' : MHashMap K V) (f : K → Option V) (k : K) (v : V) (b : Bool)
      → Represents m f
      → m.cap * 2 < 2 ^ 64
      → put key m k v ≡ some (m', b)
      → Represents m' (at_key k (keep_or v) f)
  Represents-put m m' f k v b r half e =
      let s = put_returns key m m' k v b r.valid r.allocator r.word half e in
      let kept = put-Keeps key m m' k v b e in
      record {
        valid = s.valid;
        allocator = kept.allocator ∙ r.allocator;
        word = kept.word r.word;
        values =
            values_change m m' k (keep_or v) f r.values (value_after_put m m' k v b s) s.others;
      }

  Represents-erase :
      (m m' : MHashMap K V) (f : K → Option V) (k : K) (b : Bool)
      → Represents m f
      → erase key m k ≡ some (m', b)
      → Represents m' (at_key k (λ o. none) f)
  Represents-erase m m' f k b r e =
      let (m1, found, t, s) = erase_correct key m k r.valid in
      let same : m1 ≡ m' = let q = sym t ∙ e in cc in
      let kept = erase-Keeps key m m' k b e in
      let done : Erased key m k m' found = rw (← same) s in
      record {
        valid = done.valid;
        allocator = kept.allocator ∙ r.allocator;
        word = kept.word r.word;
        values = values_change m m' k (λ o. none) f r.values done.gone done.others;
      }

  Represents-destroy :
      (m : MHashMap K V) (f : K → Option V) → Represents m f → Represents (destroy m) (λ x. none)
  unfolding destroy
  Represents-destroy m f r = elim (Bool-cases (m.cap == 0)) [
    | inl t ↦ rw (destroy, t) (Represents-bare m ((==_iff m.cap 0).0 t) r.allocator r.word)
    | inr t ↦
        rw (destroy, t, r.allocator)
          (Represents-bare (record m { cap = 0; slots = fresh_slots; len = 0; allocator = true })
            refl refl (omega arith))
  ]

  Represents-apply :
      (ops : List (Operation K V)) (op : Operation K V) (m m' : MHashMap K V)
      → Represents m (contents ops)
      → m.cap * 2 < 2 ^ 64
      → apply m op ≡ some m'
      → Represents m' (contents (op ∷ ops))
  unfolding apply contents
  Represents-apply ops (stored k v) m m' r half e =
      let ((m1, b), e1, f1) = bind-some (put key m k v) _ m' e in
      let same : m1 ≡ m' = cc in rw (← same) (Represents-put m m1 (contents ops) k v b r half e1)
  Represents-apply ops (erased k) m m' r half e =
      let ((m1, b), e1, f1) = bind-some (erase key m k) _ m' e in
      let same : m1 ≡ m' = cc in rw (← same) (Represents-erase m m1 (contents ops) k b r e1)
  Represents-apply ops destroyed m m' r half e =
      let same : destroy m ≡ m' = cc in rw (← same) (Represents-destroy m (contents ops) r)

  Represents-made : Represents (make true) (contents [])
  unfolding make contents
  Represents-made = Represents-bare (make true) refl refl (omega arith)

  -- Through every history of `put`, `erase` and `destroy`, as long as no assertion stops it and the
  -- table can be doubled, the map stays valid and gives for each key what the finite map gives.
  pub History-Represents :
      (ops : List (Operation K V)) (m : MHashMap K V) → History ops m → Represents m (contents ops)
  History-Represents [] m made = Represents-made
  History-Represents (op ∷ ops) m' (called {m = m} h half e) =
      Represents-apply ops op m m' (History-Represents ops m h) half e

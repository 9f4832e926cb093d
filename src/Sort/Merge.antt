-- ===== src/Sort/Merge.antt =====
-- Merging two sorted lists, the description that the loops of `merge_sort_impl` are compared with.
use mathlib.Core.Bool.{Bool-set}
use mathlib.Core.List.{
  Mem, Pairwise, Pairwise-cons, Perm, perm_middle, append_assoc, Pairwise-singleton, append-nil,
  mem-append, mem-cons_self, mem-cons_of_mem, forall_mem-cons,
}
use mathlib.Core.List.Perm
use mathlib.Core.Logic.Or
use mathlib.Core.Path.{ap₂}
use cxb.Prelude.{
  ◌≡◌, refl, sym, ap, ◌∙◌, inl, inr, Bool, true, false, Bool-cases, List, [], ◌∷◌, ◌++◌,
  if◌then◌else◌,
}

-- A strict weak order, what `cmp` has to be.
pub record IsWeakOrder {ℓ} {A : Type ℓ} (cmp : A → A → Bool) : Type ℓ where
  pub asymmetric : (x y : A) → cmp x y ≡ true → cmp y x ≡ false
  pub transitive : (x y z : A) → cmp y x ≡ false → cmp z y ≡ false → cmp z x ≡ false

module _ {ℓ} {A : Type ℓ} where
  abbrev pub filter : (A → Bool) → List A → List A
  filter p [] = []
  filter p (x ∷ xs) = if p x then x ∷ filter p xs else filter p xs

  pub filter-append :
      (p : A → Bool) (xs ys : List A) → filter p (xs ++ ys) ≡ filter p xs ++ filter p ys
  filter-append p [] ys = refl
  filter-append p (x ∷ xs) ys = elim (Bool-cases (p x)) [
    | inl t ↦ rw (t, filter-append p xs ys) refl
    | inr t ↦ rw (t, filter-append p xs ys) refl
  ]

module _ {ℓ} {A : Type ℓ} (cmp : A → A → Bool) where
  -- No element is less than one before it.
  abbrev pub IsSorted : List A → Type ℓ
  IsSorted = Pairwise (λ x y. cmp y x ≡ false)

  abbrev pub IsBelow : A → List A → Type ℓ
  IsBelow x ys = (y : A) → Mem y ys → cmp y x ≡ false

  -- Elements of which none is less than another.
  abbrev pub IsTied : (A → Bool) → Type ℓ
  IsTied p = (x y : A) → p x ≡ true → p y ≡ true → cmp y x ≡ false

  -- The same elements in ascending order, those that are tied in the order in which they were.
  pub record IsStableSort (xs ys : List A) : Type ℓ where
    pub sorted : IsSorted ys
    pub perm : Perm ys xs
    pub stable : (p : A → Bool) → IsTied p → filter p ys ≡ filter p xs

  pub interleave : List A → List A → List A
  interleave [] ys = ys
  interleave (x ∷ xs) [] = x ∷ xs
  interleave (x ∷ xs) (y ∷ ys) =
      if cmp y x then y ∷ interleave (x ∷ xs) ys else x ∷ interleave xs (y ∷ ys)

  pub interleave-nil : (xs : List A) → interleave xs [] ≡ xs
  unfolding interleave
  interleave-nil [] = refl
  interleave-nil (x ∷ xs) = refl

  pub interleave_nil_left : (ys : List A) → interleave [] ys ≡ ys
  unfolding interleave
  interleave_nil_left ys = refl

  pub interleave_right :
      (x y : A) (xs ys : List A)
      → cmp y x ≡ true
      → interleave (x ∷ xs) (y ∷ ys) ≡ y ∷ interleave (x ∷ xs) ys
  unfolding interleave
  interleave_right x y xs ys e = rw e refl

  pub interleave_left :
      (x y : A) (xs ys : List A)
      → cmp y x ≡ false
      → interleave (x ∷ xs) (y ∷ ys) ≡ x ∷ interleave xs (y ∷ ys)
  unfolding interleave
  interleave_left x y xs ys e = rw e refl

  pub interleave-perm : (xs ys : List A) → Perm (interleave xs ys) (xs ++ ys)
  unfolding interleave
  interleave-perm [] ys = Perm.rfl
  interleave-perm (x ∷ xs) [] = rw (append-nil xs) Perm.rfl
  interleave-perm (x ∷ xs) (y ∷ ys) = elim (Bool-cases (cmp y x)) [
    | inl t ↦ rw (interleave_right x y xs ys t) (
        Perm.trans (Perm.cons y (interleave-perm (x ∷ xs) ys))
          (Perm.symm (perm_middle (x ∷ xs) ys)))
    | inr t ↦ rw (interleave_left x y xs ys t) (Perm.cons x (interleave-perm xs (y ∷ ys)))
  ]

  module _ (order : IsWeakOrder cmp) where
    irreflexive : (x : A) → cmp x x ≡ false
    irreflexive x = elim (Bool-cases (cmp x x)) [ inl t ↦ order.asymmetric x x t | inr t ↦ t ]

    IsBelow-head :
        (a b : A) (xs : List A) → cmp b a ≡ false → IsSorted (b ∷ xs) → IsBelow a (b ∷ xs)
    IsBelow-head a b xs h s =
        (forall_mem-cons (λ y. Bool-set (cmp y a) false)).1
          (h, λ y m. order.transitive a b y h ((Pairwise-cons.0 s).0 y m))

    IsBelow-interleave :
        (a : A) (xs ys : List A) → IsBelow a xs → IsBelow a ys → IsBelow a (interleave xs ys)
    IsBelow-interleave a xs ys hx hy x m =
        Or.elim (Bool-set (cmp x a) false)
          (mem-append.0 ((Perm.mem_iff (interleave-perm xs ys)).0 m)) (hx x) (hy x)

    interleave-IsSorted : (xs ys : List A) → IsSorted xs → IsSorted ys → IsSorted (interleave xs ys)
    unfolding interleave
    interleave-IsSorted [] ys sx sy = sy
    interleave-IsSorted (x ∷ xs) [] sx sy = sx
    interleave-IsSorted (x ∷ xs) (y ∷ ys) sx sy =
        let (below_x, rest_x) = Pairwise-cons.0 sx in
        let (below_y, rest_y) = Pairwise-cons.0 sy in
        elim (Bool-cases (cmp y x)) [
          | inl t ↦ rw (interleave_right x y xs ys t) (
              Pairwise.cons
                (IsBelow-interleave y (x ∷ xs) ys (IsBelow-head y x xs (order.asymmetric y x t) sx)
                  below_y)
                (interleave-IsSorted (x ∷ xs) ys sx rest_y))
          | inr t ↦ rw (interleave_left x y xs ys t) (
              Pairwise.cons (IsBelow-interleave x xs (y ∷ ys) below_x (IsBelow-head x y ys t sy))
                (interleave-IsSorted xs (y ∷ ys) rest_x sy))
        ]

    -- An element less than the head of a sorted list is tied with none of it.
    filter_none :
        (p : A → Bool) (y : A) (xs : List A)
        → IsTied p
        → p y ≡ true
        → ((x : A) → Mem x xs → cmp y x ≡ true)
        → filter p xs ≡ []
    filter_none p y [] tied py h = refl
    filter_none p y (x ∷ xs) tied py h = elim (Bool-cases (p x)) [
      | inl t ↦ let less = h x mem-cons_self in let tie = tied x y t py in cc
      | inr t ↦ rw t (filter_none p y xs tied py (λ z m. h z (mem-cons_of_mem x m)))
    ]

    all_greater :
        (x y : A) (xs : List A)
        → cmp y x ≡ true
        → IsSorted (x ∷ xs)
        → (z : A) → Mem z (x ∷ xs)
        → cmp y z ≡ true
    all_greater x y xs e s z m =
        let above = IsBelow-head x x xs (irreflexive x) s z m in
        elim (Bool-cases (cmp y z)) [
          | inl t ↦ t
          | inr t ↦ let wrong = order.transitive x z y above t in cc
        ]

    filter-swap :
        (p : A → Bool) (x y : A) (xs ys : List A)
        → IsTied p
        → cmp y x ≡ true
        → IsSorted (x ∷ xs)
        → filter p (y ∷ []) ++ filter p (x ∷ xs) ≡ filter p (x ∷ xs) ++ filter p (y ∷ [])
    filter-swap p x y xs ys tied e s = elim (Bool-cases (p y)) [
      | inl t ↦ rw (t, filter_none p y (x ∷ xs) tied t (all_greater x y xs e s)) refl
      | inr t ↦ rw t (sym (append-nil (filter p (x ∷ xs))))
    ]

    filter-cons :
        (p : A → Bool) (x : A) (xs : List A) → filter p (x ∷ xs) ≡ filter p (x ∷ []) ++ filter p xs
    filter-cons p x xs = filter-append p (x ∷ []) xs

    interleave-stable :
        (p : A → Bool)
        → IsTied p
        → (xs ys : List A) → IsSorted xs
        → filter p (interleave xs ys) ≡ filter p xs ++ filter p ys
    unfolding interleave
    interleave-stable p tied [] ys sx = refl
    interleave-stable p tied (x ∷ xs) [] sx = sym (append-nil (filter p (x ∷ xs)))
    interleave-stable p tied (x ∷ xs) (y ∷ ys) sx = elim (Bool-cases (cmp y x)) [
      | inl t ↦
          ap (filter p) (interleave_right x y xs ys t)
          ∙ filter-cons p y (interleave (x ∷ xs) ys)
          ∙ ap (λ l. filter p (y ∷ []) ++ l) (interleave-stable p tied (x ∷ xs) ys sx)
          ∙ sym (append_assoc (filter p (y ∷ [])) (filter p (x ∷ xs)) (filter p ys))
          ∙ ap (λ l. l ++ filter p ys) (filter-swap p x y xs ys tied t sx)
          ∙ append_assoc (filter p (x ∷ xs)) (filter p (y ∷ [])) (filter p ys)
          ∙ ap (λ l. filter p (x ∷ xs) ++ l) (sym (filter-cons p y ys))
      | inr t ↦
          ap (filter p) (interleave_left x y xs ys t)
          ∙ filter-cons p x (interleave xs (y ∷ ys))
          ∙ ap (λ l. filter p (x ∷ []) ++ l)
              (interleave-stable p tied xs (y ∷ ys) (Pairwise-cons.0 sx).1)
          ∙ sym (append_assoc (filter p (x ∷ [])) (filter p xs) (filter p (y ∷ ys)))
          ∙ ap (λ l. l ++ filter p (y ∷ ys)) (sym (filter-cons p x xs))
    ]

    -- Sorting two parts and merging them sorts the whole.
    pub interleave-IsStableSort :
        (xs ys us vs : List A)
        → IsStableSort xs us
        → IsStableSort ys vs
        → IsStableSort (xs ++ ys) (interleave us vs)
    interleave-IsStableSort xs ys us vs l r = record {
      sorted = interleave-IsSorted us vs l.sorted r.sorted;
      perm = Perm.trans (interleave-perm us vs) (Perm.append l.perm r.perm);
      stable = λ p tied.
          interleave-stable p tied us vs l.sorted
          ∙ ap₂ ◌++◌ (l.stable p tied) (r.stable p tied)
          ∙ sym (filter-append p xs ys);
    }

    pub short-IsStableSort : (x : A) → IsStableSort (x ∷ []) (x ∷ [])
    short-IsStableSort x = record {
      sorted = Pairwise-singleton _ x;
      perm = Perm.rfl;
      stable = λ p tied. refl;
    }

    pub nil-IsStableSort : IsStableSort [] []
    nil-IsStableSort = record { sorted = Pairwise.nil; perm = Perm.rfl; stable = λ p tied. refl }

-- ===== src/Base/Order.antt =====
-- `Array.prototype.sort`: a stable sort, here by insertion. `le a b` stands for a comparator whose
-- answer on `a` and `b` is at most 0.
use mathlib.Core.Path.{◌≡◌}
use mathlib.Core.Logic.{inl, inr}
use mathlib.Core.Bool.{Bool, true, false}
use mathlib.Core.List.{List, [], ◌∷◌}
use genchat.Base.Tests.{if◌then◌else◌, Bool-cases}
use genchat.Base.Lists.{All, In}

module _ {ℓ} {A : Type ℓ} (le : A → A → Bool) where
  insert_by : A → List A → List A
  insert_by x [] = x ∷ []
  insert_by x (y ∷ ys) = if le x y then x ∷ y ∷ ys else y ∷ insert_by x ys

  unfoldable pub sort_by : List A → List A
  unfolding insert_by
  sort_by [] = []
  sort_by (x ∷ xs) = insert_by x (sort_by xs)

  abbrev pub IsSorted : List A → Type ℓ
  IsSorted [] = Unit
  IsSorted (x ∷ xs) = All (λ y. le x y ≡ true) xs × IsSorted xs

module _ {A : Type 0} (le : A → A → Bool) where
  In-insert_by_of : (a x : A) (ys : List A) → In a (x ∷ ys) → In a (insert_by le x ys)
  unfolding insert_by
  In-insert_by_of a x [] h = h
  In-insert_by_of a x (y ∷ ys) h = elim (Bool-cases (le x y)) [
    | inl e ↦ rw e h
    | inr e ↦ rw e (later h (In-insert_by_of a x ys))
  ]
    where
      later :
          In a (x ∷ y ∷ ys)
          → (In a (x ∷ ys) → In a (insert_by le x ys))
          → In a (y ∷ insert_by le x ys)
      later (inl q) ih = inr (ih (inl q))
      later (inr (inl q)) ih = inl q
      later (inr (inr q)) ih = inr (ih (inr q))

  of_In-insert_by : (a x : A) (ys : List A) → In a (insert_by le x ys) → In a (x ∷ ys)
  unfolding insert_by
  of_In-insert_by a x [] h = h
  of_In-insert_by a x (y ∷ ys) h = elim (Bool-cases (le x y)) [
    | inl e ↦ rw e at h
    | inr e ↦ later (rw e at h) (of_In-insert_by a x ys)
  ]
    where
      later :
          In a (y ∷ insert_by le x ys)
          → (In a (insert_by le x ys) → In a (x ∷ ys))
          → In a (x ∷ y ∷ ys)
      later (inl q) ih = inr (inl q)
      later (inr q) ih = elim (ih q) [ inl r ↦ inl r | inr r ↦ inr (inr r) ]

  -- Sorting keeps the members.
  pub In-sort_by_of : (a : A) (xs : List A) → In a xs → In a (sort_by le xs)
  unfolding sort_by
  In-sort_by_of a [] h = h
  In-sort_by_of a (x ∷ xs) (inl e) = In-insert_by_of a x (sort_by le xs) (inl e)
  In-sort_by_of a (x ∷ xs) (inr h) =
      In-insert_by_of a x (sort_by le xs) (inr (In-sort_by_of a xs h))

  pub of_In-sort_by : (a : A) (xs : List A) → In a (sort_by le xs) → In a xs
  unfolding sort_by
  of_In-sort_by a [] h = h
  of_In-sort_by a (x ∷ xs) h = elim (of_In-insert_by a x (sort_by le xs) h) [
    | inl e ↦ inl e
    | inr q ↦ inr (of_In-sort_by a xs q)
  ]

  module _ (total : (a b : A) → le a b ≡ false → le b a ≡ true)
      (trans : (a b c : A) → le a b ≡ true → le b c ≡ true → le a c ≡ true) where
    All-le_trans :
        (x y : A) (ys : List A)
        → le x y ≡ true
        → All (λ z. le y z ≡ true) ys
        → All (λ z. le x z ≡ true) ys
    All-le_trans x y [] h a = tt
    All-le_trans x y (z ∷ ys) h (q, a) = (trans x y z h q, All-le_trans x y ys h a)

    All-insert_by :
        (y x : A) (ys : List A)
        → le y x ≡ true
        → All (λ z. le y z ≡ true) ys
        → All (λ z. le y z ≡ true) (insert_by le x ys)
    unfolding insert_by
    All-insert_by y x [] h a = (h, tt)
    All-insert_by y x (z ∷ ys) h (q, a) = elim (Bool-cases (le x z)) [
      | inl e ↦ rw e (h, (q, a))
      | inr e ↦ rw e (q, All-insert_by y x ys h a)
    ]

    insert_by-IsSorted : (x : A) (ys : List A) → IsSorted le ys → IsSorted le (insert_by le x ys)
    unfolding insert_by
    insert_by-IsSorted x [] s = (tt, tt)
    insert_by-IsSorted x (y ∷ ys) (a, s) = elim (Bool-cases (le x y)) [
      | inl e ↦ rw e ((e, All-le_trans x y ys e a), (a, s))
      | inr e ↦ rw e (All-insert_by y x ys (total x y e) a, insert_by-IsSorted x ys s)
    ]

    pub sort_by-IsSorted : (xs : List A) → IsSorted le (sort_by le xs)
    unfolding sort_by
    sort_by-IsSorted [] = tt
    sort_by-IsSorted (x ∷ xs) = insert_by-IsSorted x (sort_by le xs) (sort_by-IsSorted xs)

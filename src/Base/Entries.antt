-- ===== src/Base/Entries.antt =====
-- JavaScript maps whose keys are distinct, as those made by `set` and `delete` are, and what is kept in
-- them.
use Prim.Native.Nat.{ℕ}
use Prim.Native.String.{String}
use mathlib.Core.Path.{◌≡◌, refl, sym, ap, ◌∙◌, subst}
use mathlib.Core.Logic.{◌⊎◌, inl, inr}
use mathlib.Core.Option.{none, some, some-injective, none-ne-some}
use mathlib.Core.List.{List, [], ◌∷◌, ◌++◌, map}
use native.Mathlib.Omega.{arith}
use text.Mathlib.Text.{◌==◌}
use text.Mathlib.TextEquality.{eq_iff}
use genchat.Base.Tests.{Bool-cases}
use genchat.Base.Lists.{In}
use genchat.Base.Dict.{lookup, insert, remove, lookup-insert, lookup-remove}

module _ {V : Type 0} where
  abbrev pub Distinct : List (String × V) → Type 0
  Distinct [] = Unit
  Distinct ((key, v) ∷ entries) = (lookup key entries ≡ none) × Distinct entries

  pub insert-Distinct :
      (key : String) (v : V) (entries : List (String × V))
      → Distinct entries
      → Distinct (insert key v entries)
  unfolding insert lookup
  insert-Distinct key v [] h = (refl, tt)
  insert-Distinct key v ((other, old) ∷ entries) (h, hs) = elim (Bool-cases (other == key)) [
    | inl e ↦ rw e (subst (λ k. lookup k entries ≡ none) ((eq_iff other key).0 e) h, hs)
    | inr e ↦ rw e (
      ground (arith, h, lookup-insert key other v entries, eq_iff other key, eq_iff key other, e),
      insert-Distinct key v entries hs,
    )
  ]

  pub remove-Distinct :
      (key : String) (entries : List (String × V))
      → Distinct entries
      → Distinct (remove key entries)
  unfolding remove lookup
  remove-Distinct key [] h = tt
  remove-Distinct key ((other, old) ∷ entries) (h, hs) = elim (Bool-cases (other == key)) [
    | inl e ↦ rw e (remove-Distinct key entries hs)
    | inr e ↦
        rw e (ground (arith, h, lookup-remove key other entries, e), remove-Distinct key entries hs)
  ]

  pub remove-none :
      (key : String) (entries : List (String × V))
      → lookup key entries ≡ none
      → remove key entries ≡ entries
  unfolding remove lookup
  remove-none key [] h = refl
  remove-none key ((other, old) ∷ entries) h = elim (Bool-cases (other == key)) [
    | inl e ↦ absurd (none-ne-some old (sym (rw e at h)))
    | inr e ↦ rw e (ap (λ l. (other, old) ∷ l) (remove-none key entries (rw e at h)))
  ]

  module _ (f : V → ℕ) where
    -- What is kept, seen through `f`.
    abbrev pub kept : List (String × V) → List ℕ
    kept entries = map (λ e. f e.1) entries

    pub kept-insert_new :
        (key : String) (v : V) (entries : List (String × V))
        → lookup key entries ≡ none
        → kept (insert key v entries) ≡ kept entries ++ (f v ∷ [])
    unfolding insert lookup
    kept-insert_new key v [] h = refl
    kept-insert_new key v ((other, old) ∷ entries) h = elim (Bool-cases (other == key)) [
      | inl e ↦ absurd (none-ne-some old (sym (rw e at h)))
      | inr e ↦ rw e (ap (λ l. f old ∷ l) (kept-insert_new key v entries (rw e at h)))
    ]

    pub kept-insert_same :
        (key : String) (v w : V) (entries : List (String × V))
        → lookup key entries ≡ some w
        → f v ≡ f w
        → kept (insert key v entries) ≡ kept entries
    unfolding insert lookup
    kept-insert_same key v w [] h s = absurd (none-ne-some w h)
    kept-insert_same key v w ((other, old) ∷ entries) h s = elim (Bool-cases (other == key)) [
      | inl e ↦
          rw e (ap (λ n. n ∷ kept entries) (s ∙ ap f (sym (some-injective old w (rw e at h)))))
      | inr e ↦ rw e (ap (λ l. f old ∷ l) (kept-insert_same key v w entries (rw e at h) s))
    ]

    pub In-kept-remove :
        (key : String) (v : V) (n : ℕ) (entries : List (String × V))
        → Distinct entries
        → lookup key entries ≡ some v
        → In n (kept entries)
        → (n ≡ f v) ⊎ In n (kept (remove key entries))
    unfolding remove lookup
    In-kept-remove key v n [] d h i = absurd i
    In-kept-remove key v n ((other, old) ∷ entries) (d, ds) h i = elim (Bool-cases (other == key)) [
      | inl e ↦
          rw
            (
              e,
              remove-none key entries
                  (subst (λ k. lookup k entries ≡ none) ((eq_iff other key).0 e) d),
            )
            (first (some-injective old v (rw e at h)) i)
      | inr e ↦ rw e (later (In-kept-remove key v n entries ds (rw e at h)) i)
    ]
      where
        first : old ≡ v → (n ≡ f old) ⊎ In n (kept entries) → (n ≡ f v) ⊎ In n (kept entries)
        first q (inl r) = inl (r ∙ ap f q)
        first q (inr m) = inr m

        later :
            (In n (kept entries) → (n ≡ f v) ⊎ In n (kept (remove key entries)))
            → (n ≡ f old) ⊎ In n (kept entries)
            → (n ≡ f v) ⊎ In n (f old ∷ kept (remove key entries))
        later ih (inl r) = inr (inl r)
        later ih (inr m) = elim (ih m) [ inl r ↦ inl r | inr k ↦ inr (inr k) ]

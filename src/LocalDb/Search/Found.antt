-- ===== src/LocalDb/Search/Found.antt =====
-- What the search over the stored messages finds.
use mathlib.Core.Option.{some-injective, none-ne-some}
use genchat.Base.{
  ℕ, zero, suc, ◌≤◌, String, ◌==◌, ◌≡◌, refl, sym, ap, ◌∙◌, subst, Bool, true, false, Option, none,
  some, List, [], ◌∷◌, arith, filter, take, length, sort_by, IsSorted, sort_by-IsSorted,
  of_In-sort_by, of_In-filter, In, All, All-of, Bool-cases, Option-cases, inl, inr,
}
use genchat.LocalDb.Message.{StoredMessage}
use genchat.LocalDb.Store.{LocalDb, Tx}
use genchat.LocalDb.Search.{
  TextOps, Hit, clean_term, match_terms, hit_of, collect_hits, ranked, shown, pool, terms_of,
  search_terms, search,
}

In-take : {A : Type 0} (n : ℕ) (a : A) (xs : List A) → In a (take n xs) → In a xs
In-take zero a xs i = absurd i
In-take (suc n) a [] i = absurd i
In-take (suc n) a (x ∷ xs) (inl e) = inl e
In-take (suc n) a (x ∷ xs) (inr i) = inr (In-take n a xs i)

length-take : {A : Type 0} (n : ℕ) (xs : List A) → length (take n xs) ≤ n
length-take zero xs = omega arith
length-take (suc n) [] = omega arith
length-take (suc n) (x ∷ xs) = omega (arith, length-take n xs)

All-take : {A : Type 0} (P : A → Type 0) (n : ℕ) (xs : List A) → All P xs → All P (take n xs)
All-take P zero xs h = tt
All-take P (suc n) [] h = tt
All-take P (suc n) (x ∷ xs) (h, hs) = (h, All-take P n xs hs)

IsSorted-take :
    {A : Type 0} (le : A → A → Bool) (n : ℕ) (xs : List A)
    → IsSorted le xs
    → IsSorted le (take n xs)
IsSorted-take le zero xs h = tt
IsSorted-take le (suc n) [] h = tt
IsSorted-take le (suc n) (x ∷ xs) (h, hs) =
    (All-take (λ y. le x y ≡ true) n xs h, IsSorted-take le n xs hs)

module _ (ops : TextOps) where
  ranked_total : (a b : Hit) → ranked ops a b ≡ false → ranked ops b a ≡ true
  ranked_total a b h = ground arith

  ranked_trans :
      (a b c : Hit) → ranked ops a b ≡ true → ranked ops b c ≡ true → ranked ops a c ≡ true
  ranked_trans a b c h k = ground arith

  -- Each term, without a star at its end, stands somewhere in the text.
  abbrev pub HasTerms : String → List String → Type 0
  HasTerms text terms =
      All (λ term. (i : ℕ) × (ops.index_of (ops.to_lower text) (clean_term ops term) ≡ some i))
        terms

  -- A message with a text that has each term.
  abbrev pub Contains : List String → StoredMessage → Type 0
  Contains terms m = (text : String) × (m.text ≡ some text) × HasTerms text terms

  match_terms-HasTerms :
      (text : String) (terms : List String) (r : ℕ × List String)
      → match_terms ops text (ops.to_lower text) terms ≡ some r
      → HasTerms text terms
  unfolding match_terms
  match_terms-HasTerms text [] r h = tt
  match_terms-HasTerms text (term ∷ terms) r h =
      going (ops.index_of (ops.to_lower text) (clean_term ops term)) refl
        (match_terms-HasTerms text terms)
    where
      going :
          (o : Option ℕ)
          → ops.index_of (ops.to_lower text) (clean_term ops term) ≡ o
          → ((s : ℕ × List String)
              → match_terms ops text (ops.to_lower text) terms ≡ some s
              → HasTerms text terms)
          → HasTerms text (term ∷ terms)
      going none e ih = absurd (none-ne-some r (rw (e, match_terms) at h))
      going (some i) e ih = elim (Option-cases (match_terms ops text (ops.to_lower text) terms)) [
        | inl q ↦ absurd (none-ne-some r (rw (e, match_terms, q) at h))
        | inr (s, q) ↦ ((i, e), ih s q)
      ]

  hit_of-Contains :
      (terms : List String) (m : StoredMessage) (h : Hit)
      → hit_of ops terms m ≡ some h
      → (h.message ≡ m) × Contains terms m
  unfolding hit_of
  hit_of-Contains terms m h e = going m.text refl
    where
      matched :
          (text : String)
          → m.text ≡ some text
          → (text == "") ≡ false
          → (o : Option (ℕ × List String)) → match_terms ops text (ops.to_lower text) terms ≡ o
          → (h.message ≡ m) × Contains terms m
      matched text q f none r = absurd (none-ne-some h (rw (q, hit_of, f, r) at e))
      matched text q f (some (n, l)) r = (
        ap (λ x. x.message)
            (sym (
              some-injective (record { message = m; score = n; snippets = l }) h
                (rw (q, hit_of, f, r) at e))),
        (text, q, match_terms-HasTerms text terms (n, l) r),
      )

      going : (o : Option String) → m.text ≡ o → (h.message ≡ m) × Contains terms m
      going none q = absurd (none-ne-some h (rw (q, hit_of) at e))
      going (some text) q = elim (Bool-cases (text == "")) [
        | inl f ↦ absurd (none-ne-some h (rw (q, hit_of, f) at e))
        | inr f ↦ matched text q f (match_terms ops text (ops.to_lower text) terms) refl
      ]

  collect_hits-found :
      (terms : List String) (h : Hit) (ms : List StoredMessage)
      → In h (collect_hits ops terms ms)
      → In h.message ms × Contains terms h.message
  collect_hits-found terms h [] i = absurd i
  collect_hits-found terms h (m ∷ ms) i =
      going (hit_of ops terms m) refl (collect_hits-found terms h ms)
    where
      later :
          In h.message ms × Contains terms h.message
          → In h.message (m ∷ ms) × Contains terms h.message
      later (j, c) = (inr j, c)

      first :
          (x : Hit)
          → hit_of ops terms m ≡ some x
          → (In h (collect_hits ops terms ms) → In h.message ms × Contains terms h.message)
          → In h (x ∷ collect_hits ops terms ms)
          → In h.message (m ∷ ms) × Contains terms h.message
      first x e ih (inl q) =
          let (same, c) = hit_of-Contains terms m x e in
          let is_m : h.message ≡ m = ap (λ y. y.message) q ∙ same in
          (inl is_m, subst (Contains terms) (sym is_m) c)
      first x e ih (inr j) = later (ih j)

      going :
          (o : Option Hit)
          → hit_of ops terms m ≡ o
          → (In h (collect_hits ops terms ms) → In h.message ms × Contains terms h.message)
          → In h.message (m ∷ ms) × Contains terms h.message
      going none e ih = later (ih (rw (collect_hits, e) at i))
      going (some x) e ih = first x e ih (rw (collect_hits, e) at i)

  -- What a search shows of a hit: its message is one of those searched that are neither deleted nor
  -- expired, and has each term.
  abbrev pub IsFound : ℕ → List String → List StoredMessage → Hit → Type 0
  IsFound now terms ms h =
      In h.message ms × (shown ops now h.message ≡ true) × Contains terms h.message

  -- Every hit of a search is a message of the channel searched, or of all where none is given, that is
  -- neither deleted nor expired and has each term of the query; the hits are ranked by their score and
  -- then by their time, the latest first; and there are at most thirty.
  pub search_correct :
      (now : ℕ) (query channel : String) (tx : Tx) (d : LocalDb)
      → let hits = search ops now query channel tx d in
        All (IsFound now (terms_of ops query) (pool ops now channel tx d)) hits
        × IsSorted (ranked ops) hits
        × (length hits ≤ 30)
  unfolding search search_terms
  search_correct now query channel tx d = going (terms_of ops query) refl
    where
      found :
          (terms : List String) (h : Hit)
          → In h (
              sort_by
                (ranked ops)
                (collect_hits ops terms (filter (shown ops now) (pool ops now channel tx d))))
          → IsFound now terms (pool ops now channel tx d) h
      found terms h i =
          let ms = pool ops now channel tx d in
          let (j, c) =
            collect_hits-found terms h (filter (shown ops now) ms)
              (of_In-sort_by (ranked ops) h _ i) in
          let (k, s) = of_In-filter (shown ops now) h.message ms j in (k, s, c)

      going :
          (terms : List String)
          → terms_of ops query ≡ terms
          → let hits = search_terms ops now terms channel tx d in
            All (IsFound now terms (pool ops now channel tx d)) hits
            × IsSorted (ranked ops) hits
            × (length hits ≤ 30)
      going [] e = (tt, tt, omega arith)
      going (term ∷ terms) e =
          let ms = filter (shown ops now) (pool ops now channel tx d) in
          let hits = collect_hits ops (term ∷ terms) ms in
          (
            All-of (IsFound now (term ∷ terms) (pool ops now channel tx d))
                (take 30 (sort_by (ranked ops) hits))
                (λ h i. found (term ∷ terms) h (In-take 30 h (sort_by (ranked ops) hits) i)),
            IsSorted-take (ranked ops) 30 (sort_by (ranked ops) hits)
                (sort_by-IsSorted (ranked ops) ranked_total ranked_trans hits),
            length-take 30 (sort_by (ranked ops) hits),
          )

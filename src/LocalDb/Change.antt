-- ===== src/LocalDb/Change.antt =====
-- What the changes of a table and of a stored list leave.
use mathlib.Core.Option.{none-ne-some, some-injective}
use genchat.Base.{
  String, ◌≡◌, refl, sym, ap, ◌∙◌, ◌⊎◌, inl, inr, Bool, true, false, not, Option, none, some, List,
  [], ◌∷◌, arith, ◌==◌, eq_iff, eq_refl, if◌then◌else◌, filter, find?, map, any, insert, In,
  of_In-filter, Option-cases,
}
use genchat.WebStorage.{Read, threw, absent, found, read, write, read-write}
use genchat.LocalDb.Message.{StoredMessage, named}
use genchat.LocalDb.Table.{get, put, update, In-put_iff}
use genchat.LocalDb.Storage.{Storage, change_key, change_keys, without_named, change_named}

find?-none :
    (p : StoredMessage → Bool) (a : StoredMessage) (t : List StoredMessage)
    → find? p t ≡ none
    → In a t
    → p a ≡ false
find?-none p a [] e h = absurd h
find?-none p a (x ∷ t) e (inl q) = rw q (ground arith)
find?-none p a (x ∷ t) e (inr h) = find?-none p a t (ground arith) h

find?-some :
    (p : StoredMessage → Bool) (a : StoredMessage) (t : List StoredMessage)
    → find? p t ≡ some a
    → p a ≡ true
find?-some p a [] e = absurd (none-ne-some a e)
find?-some p a (x ∷ t) e = pick (p x) refl e (find?-some p a t)
  where
    pick :
        (b : Bool)
        → p x ≡ b
        → (if b then some x else find? p t) ≡ some a
        → (find? p t ≡ some a → p a ≡ true)
        → p a ≡ true
    pick true q r later = ap p (sym (some-injective x a r)) ∙ q
    pick false q r later = later r

-- A record of a changed table is the changed one, or is an old one under another key.
pub of_In-update :
    (id : String) (f : StoredMessage → StoredMessage) (a : StoredMessage) (t : List StoredMessage)
    → ((m : StoredMessage) → (f m).id ≡ m.id)
    → In a (update id f t)
    → ((m : StoredMessage) × (a ≡ f m)) ⊎ (In a t × ((a.id == id) ≡ false))
unfolding update get
of_In-update id f a t keeps h = elim (Option-cases (find? (λ m. m.id == id) t)) [
  | inl e ↦
      let q : In a t = rw (e, update, get) at h in inr (q, find?-none (λ m. m.id == id) a t e q)
  | inr (m, e) ↦
      let q : In a (put (f m) t) = rw (e, update, get) at h in
      place m (find?-some (λ x. x.id == id) m t e) ((In-put_iff (f m) a t).0 q)
]
  where
    place :
        (m : StoredMessage)
        → (m.id == id) ≡ true
        → (a ≡ f m) ⊎ (In a t × ((a.id == (f m).id) ≡ false))
        → ((m : StoredMessage) × (a ≡ f m)) ⊎ (In a t × ((a.id == id) ≡ false))
    place m e (inl r) = inl (m, r)
    place m e (inr (r, o)) =
        inr (r, ap (λ k. a.id == k) (sym ((eq_iff _ _).0 e) ∙ sym (keeps m)) ∙ o)

pub find?-missed :
    (p : StoredMessage → Bool) (t : List StoredMessage) → any p t ≡ false → find? p t ≡ none
find?-missed p [] e = refl
find?-missed p (x ∷ t) e = ground (arith, find?-missed p t)

any-false :
    (p : StoredMessage → Bool) (a : StoredMessage) (ms : List StoredMessage)
    → any p ms ≡ false
    → In a ms
    → p a ≡ false
any-false p a [] e h = absurd h
any-false p a (x ∷ ms) e (inl q) = rw q (ground arith)
any-false p a (x ∷ ms) e (inr h) = any-false p a ms (ground arith) h

-- The list that a change leaves, where it may say that there is nothing to change.
abbrev after :
    (List StoredMessage → Option (List StoredMessage)) → List StoredMessage → List StoredMessage
after f ms = elim (f ms) [ none ↦ ms | some ms' ↦ ms' ]

abbrev pub AcceptsAll : Storage → Type 0
AcceptsAll s = (k : String) (ms : List StoredMessage) → s.accepts s.items k ms ≡ true

read-available :
    (key : String) (s : Storage) (ms : List StoredMessage)
    → read key s ≡ found ms
    → s.available ≡ true
unfolding read
read-available key s ms e = ground arith

write-AcceptsAll :
    (key : String) (s : Storage) (x : List StoredMessage)
    → AcceptsAll s
    → s.available ≡ true
    → write key x s ≡ some (record s { items = insert key (some x) s.items })
unfolding write
write-AcceptsAll key s x accepts a = rw (a, accepts key x) refl

pub of_change_keys :
    (f : List StoredMessage → Option (List StoredMessage)) (key : String) (s : Storage)
    (ms' : List StoredMessage)
    → AcceptsAll s
    → read key (change_keys f (key ∷ []) s) ≡ found ms'
    → (ms : List StoredMessage) × (ms' ≡ after f ms)
unfolding change_keys change_key
of_change_keys f key s ms' accepts h = start (read key s) refl
  where
    written :
        (ms x : List StoredMessage)
        → read key s ≡ found ms
        → write key x s ≡ some (record s { items = insert key (some x) s.items })
    written ms x e = write-AcceptsAll key s x accepts (read-available key s ms e)

    start :
        (r : Read (List StoredMessage))
        → read key s ≡ r
        → (ms : List StoredMessage) × (ms' ≡ after f ms)
    start threw e =
        let q : read key s ≡ found ms' = rw (e, change_keys, change_key) at h in ground arith
    start absent e =
        let q : read key s ≡ found ms' = rw (e, change_keys, change_key) at h in ground arith
    start (found ms) e = (ms, changed (f ms) refl)
      where
        changed : (o : Option (List StoredMessage)) → f ms ≡ o → ms' ≡ after f ms
        changed none g =
            let q : read key s ≡ found ms' = rw (e, g, change_keys, change_key) at h in
            rw (g, after) (ground arith)
        changed (some x) g =
            let q : read key (record s { items = insert key (some x) s.items }) ≡ found ms' =
              rw (e, g, written ms x e, change_keys, change_key) at h in
            let w = read-write key key x s _ (written ms x e) in
            rw (g, after) (ground (arith, eq_refl key))

In-map_of :
    (id : String) (f : StoredMessage → StoredMessage) (P : StoredMessage → Type 0)
    (a : StoredMessage) (ms : List StoredMessage)
    → ((m : StoredMessage) → P (f m))
    → In a (map (λ m. if named id m then f m else m) ms)
    → named id a ≡ true
    → P a
In-map_of id f P a [] h i n = absurd i
In-map_of id f P a (x ∷ ms) h (inr i) n = In-map_of id f P a ms h i n
In-map_of id f P a (x ∷ ms) h (inl e) n = pick (named id x) refl e
  where
    pick : (b : Bool) → named id x ≡ b → a ≡ (if b then f x else x) → P a
    pick true q r = rw r (h x)
    pick false q r = absurd (ground (arith, ap (named id) r))

-- What the change of named messages leaves under the id has the property that the change gives.
pub after-change_named :
    (id : String) (f : StoredMessage → StoredMessage) (P : StoredMessage → Type 0)
    (a : StoredMessage) (ms : List StoredMessage)
    → ((m : StoredMessage) → P (f m))
    → In a (after (change_named id f) ms)
    → named id a ≡ true
    → P a
unfolding change_named
after-change_named id f P a ms h = pick (any (named id) ms) refl
  where
    pick :
        (b : Bool)
        → any (named id) ms ≡ b
        → In a (
            after (λ ms. if b then some (map (λ m. if named id m then f m else m) ms) else none) ms)
        → named id a ≡ true
        → P a
    pick true q i n = In-map_of id f P a ms h i n
    pick false q i n = absurd (ground (arith, any-false (named id) a ms q i))

pub after-without_named :
    (id : String) (a : StoredMessage) (ms : List StoredMessage)
    → In a (after (without_named id) ms)
    → named id a ≡ false
unfolding without_named
after-without_named id a ms = pick (any (named id) ms) refl
  where
    pick :
        (b : Bool)
        → any (named id) ms ≡ b
        → In a (after (λ ms. if b then some (filter (λ m. not (named id m)) ms) else none) ms)
        → named id a ≡ false
    pick true q i = let e = (of_In-filter (λ m. not (named id m)) a ms i).1 in ground (arith, e)
    pick false q i = any-false (named id) a ms q i

-- ===== src/LocalDb/Purge.antt =====
-- What `purgeExpiredMessages` leaves and reports.
use genchat.Base.{
  ℕ, String, ◌≡◌, refl, ap, ◌↔◌, Bool, true, false, not, ◌&&◌, Option, none, some, List, [], ◌∷◌,
  ◌++◌, arith, ◌==◌, eq_refl, if◌then◌else◌, filter, map, any, In, inl, inr, All, All-of,
  In-filter_of, of_In-filter,
}
use genchat.WebStorage.{Read, threw, absent, found, read, write}
use genchat.LocalDb.Message.{StoredMessage, expired, id_of}
use genchat.LocalDb.Storage.{Storage, is_message_key}
use genchat.LocalDb.Store.{
  LocalDb, completes, collect, purge_keys, purged_ids, purge_expired_messages,
}

abbrev pub listed : String → List String → Bool
listed id ids = any (λ i. i == id) ids

listed-append : (id : String) (k l : List String) → listed id k ≡ true → listed id (k ++ l) ≡ true
listed-append id [] l h = absurd (ground (arith, h))
listed-append id (x ∷ k) l h = ground (arith, listed-append id k l)

listed-collect :
    (now : ℕ) (id : String) (ms : List StoredMessage) (ids : List String)
    → listed id ids ≡ true
    → listed id (collect now ms ids) ≡ true
listed-collect now id [] ids h = h
listed-collect now id (m ∷ ms) ids h =
    listed-collect now id ms _ (pick (expired now m && not (listed (id_of m) ids)))
  where
    pick : (b : Bool) → listed id (if b then ids ++ (id_of m ∷ []) else ids) ≡ true
    pick true = listed-append id ids (id_of m ∷ []) h
    pick false = h

listed-purge_keys :
    (now : ℕ) (id : String) (ks : List String) (ids : List String) (s : Storage)
    → listed id ids ≡ true
    → listed id (purge_keys now ks ids s).0 ≡ true
unfolding purge_keys
listed-purge_keys now id [] ids s h = h
listed-purge_keys now id (k ∷ ks) ids s h =
    reading (read k s) refl (λ ids' s'. listed-purge_keys now id ks ids' s')
  where
    Kept : Type 0
    Kept =
        (ids' : List String) (s' : Storage)
        → listed id ids' ≡ true
        → listed id (purge_keys now ks ids' s').0 ≡ true

    writing :
        (ms : List StoredMessage) (o : Option Storage)
        → read k s ≡ found ms
        → any (expired now) ms ≡ true
        → write k (filter (λ m. not (expired now m)) ms) s ≡ o
        → Kept
        → listed id (purge_keys now (k ∷ ks) ids s).0 ≡ true
    writing ms none e q f ih = rw (e, q, f, purge_keys) (listed-collect now id ms ids h)
    writing ms (some s') e q f ih =
        rw (e, q, f, purge_keys) (ih (collect now ms ids) s' (listed-collect now id ms ids h))

    holding :
        (ms : List StoredMessage) (b : Bool)
        → read k s ≡ found ms
        → any (expired now) ms ≡ b
        → Kept
        → listed id (purge_keys now (k ∷ ks) ids s).0 ≡ true
    holding ms true e q ih = writing ms _ e q refl ih
    holding ms false e q ih = rw (e, q, purge_keys) (ih ids s h)

    reading :
        (r : Read (List StoredMessage))
        → read k s ≡ r
        → Kept
        → listed id (purge_keys now (k ∷ ks) ids s).0 ≡ true
    reading threw e ih = rw (e, purge_keys) h
    reading absent e ih = rw (e, purge_keys) (ih ids s h)
    reading (found ms) e ih = holding ms _ e refl ih

In-listed :
    (f : StoredMessage → String) (a : StoredMessage) (ms : List StoredMessage)
    → In a ms
    → listed (f a) (map f ms) ≡ true
In-listed f a [] h = absurd h
In-listed f a (x ∷ ms) (inl e) = rw (← e) (ground (arith, eq_refl (f a)))
In-listed f a (x ∷ ms) (inr h) = ground (arith, In-listed f a ms h)

-- With IndexedDB and a transaction that completes, `purgeExpiredMessages` leaves the records that have not
-- expired, these and no others, and reports the id of each record that has, whatever happens in
-- `localStorage`.
pub purge_expired_messages_correct :
    (now : ℕ) (d : LocalDb) (t : List StoredMessage)
    → d.db ≡ some t
    → let (d', ids) = purge_expired_messages now completes d in
      (t' : List StoredMessage) × (d'.db ≡ some t')
      × ((a : StoredMessage) → In a t' ↔ (In a t × (expired now a ≡ false)))
      × All (λ a. listed (id_of a) ids ≡ true) (filter (expired now) t)
unfolding purge_expired_messages
purge_expired_messages_correct now d t there = (
  filter (λ m. not (expired now m)) t,
  rw there refl,
  λ a. (
    λ h. let (i, e) = of_In-filter (λ m. not (expired now m)) a t h in (i, ground (arith, e)),
    λ (i, e). In-filter_of (λ m. not (expired now m)) a t i (ap not e),
  ),
  All-of (λ a. listed (id_of a) (purge_expired_messages now completes d).1 ≡ true)
      (filter (expired now) t)
      (λ a i.
        listed-purge_keys now (id_of a) (filter is_message_key (map (λ e. e.0) d.storage.items))
          (purged_ids now completes d.db) d.storage
          (rw there (In-listed id_of a (filter (expired now) t) i))),
)

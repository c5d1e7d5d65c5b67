-- ===== src/LocalDb/Table.antt =====
-- The object store `messages` of IndexedDB: records under their `id`, in key order.
use Prim.Native.String.{compare}
use Prim.Native.Nat.{Ordering}
use genchat.Base.{
  String, ◌≡◌, refl, Bool, true, false, not, Option, none, some, List, ◌∷◌, arith, ◌==◌, filter,
  find?, In, In-filter_of, of_In-filter, inl, inr, ◌⊎◌, ◌↔◌, sort_by, In-sort_by_of, of_In-sort_by,
}
use genchat.LocalDb.Message.{StoredMessage}

abbrev key_le : StoredMessage → StoredMessage → Bool
key_le a b = elim (compare a.id b.id) [ Ordering.gt ↦ false | _ ↦ true ]

unfoldable pub get : String → List StoredMessage → Option StoredMessage
get id t = find? (λ m. m.id == id) t

unfoldable pub delete : String → List StoredMessage → List StoredMessage
delete id t = filter (λ m. not (m.id == id)) t

unfoldable pub put : StoredMessage → List StoredMessage → List StoredMessage
unfolding delete
put m t = sort_by key_le (m ∷ delete m.id t)

-- The record under a key, changed and put back; nothing where there is none.
unfoldable pub update :
    String → (StoredMessage → StoredMessage) → List StoredMessage → List StoredMessage
unfolding get put
update id f t = elim (get id t) [ none ↦ t | some m ↦ put (f m) t ]

pub of_In-delete :
    (id : String) (a : StoredMessage) (t : List StoredMessage)
    → In a (delete id t)
    → In a t × ((a.id == id) ≡ false)
unfolding delete
of_In-delete id a t h =
    let r = of_In-filter (λ m. not (m.id == id)) a t h in (r.0, ground (arith, r.1))

pub In-delete_of :
    (id : String) (a : StoredMessage) (t : List StoredMessage)
    → In a t
    → (a.id == id) ≡ false
    → In a (delete id t)
unfolding delete
In-delete_of id a t h e = In-filter_of (λ m. not (m.id == id)) a t h (rw e refl)

-- The members of a table after a put: the record, and those under other keys.
pub In-put_iff :
    (m a : StoredMessage) (t : List StoredMessage)
    → In a (put m t) ↔ ((a ≡ m) ⊎ (In a t × ((a.id == m.id) ≡ false)))
unfolding put
In-put_iff m a t = (
  λ h. elim (of_In-sort_by key_le a (m ∷ delete m.id t) h) [
    | inl e ↦ inl e
    | inr q ↦ inr (of_In-delete m.id a t q)
  ],
  λ h.
      In-sort_by_of key_le a (m ∷ delete m.id t)
        (elim h [ inl e ↦ inl e | inr (q, e) ↦ inr (In-delete_of m.id a t q e) ]),
)

-- ===== src/LocalDb/Conversations.antt =====
-- packages/client-web/src/lib/local-storage-db.ts: the conversations, in their object store and under one key
-- of localStorage.
use Prim.Native.String.{compare}
use Prim.Native.Nat.{Ordering}
use genchat.Base.{
  ℕ, String, ◌==◌, ◌≡◌, ap, ◌∙◌, ◌⊎◌, ◌↔◌, refl, inl, inr, Bool, true, false, not, Option, none,
  some, List, [], ◌∷◌, filter, sort_by, In, In-filter_of, of_In-filter, In-sort_by_of,
  of_In-sort_by, arith,
}
use genchat.WebStorage.{WebStorage, found, read, write, read-write}
use genchat.LocalDb.Store.{Tx, completes, fails, throws, Settled, resolved, rejected}

pub record StoredConversation : Type 0 where
  pub id : String
  pub name : String
  pub is_direct : Bool
  pub last_message : Option String
  pub unread_count : Option ℕ

pub record Conversations : Type 0 where
  pub db : Option (List StoredConversation)
  pub storage : WebStorage (List StoredConversation)

abbrev cached_key : String
cached_key = "genchat_cached_conversations"

abbrev conversation_le : StoredConversation → StoredConversation → Bool
conversation_le a b = elim (compare a.id b.id) [ Ordering.gt ↦ false | _ ↦ true ]

unfoldable pub put_conversation :
    StoredConversation → List StoredConversation → List StoredConversation
put_conversation c t = sort_by conversation_le (c ∷ filter (λ x. not (x.id == c.id)) t)

unfoldable pub put_conversations :
    List StoredConversation → List StoredConversation → List StoredConversation
put_conversations [] t = t
put_conversations (c ∷ cs) t = put_conversations cs (put_conversation c t)

-- The end of the transaction is not awaited, so an error event is not reported.
unfoldable pub save_conversations :
    List StoredConversation → Tx → Conversations → Conversations × Settled
save_conversations cs tx d = elim d.db [
  | some t ↦ elim tx [
    | completes ↦ (record d { db = some (put_conversations cs t) }, resolved)
    | fails ↦ (d, resolved)
    | throws ↦ (d, rejected)
  ]
  | none ↦ elim (write cached_key cs d.storage) [
    | some s ↦ (record d { storage = s }, resolved)
    | none ↦ (d, rejected)
  ]
]

unfoldable pub get_local_storage_conversations : Conversations → List StoredConversation
get_local_storage_conversations d = elim (read cached_key d.storage) [ found cs ↦ cs | _ ↦ [] ]

unfoldable pub get_conversations : Tx → Conversations → List StoredConversation
get_conversations tx d = elim d.db [
  | some t ↦ elim tx [ completes ↦ t | _ ↦ get_local_storage_conversations d ]
  | none ↦ get_local_storage_conversations d
]

In-put_conversation :
    (c a : StoredConversation) (t : List StoredConversation)
    → In a (put_conversation c t) ↔ ((a ≡ c) ⊎ (In a t × ((a.id == c.id) ≡ false)))
unfolding put_conversation
In-put_conversation c a t =
    (λ h. to (of_In-sort_by conversation_le a _ h), λ h. In-sort_by_of conversation_le a _ (from h))
  where
    to :
        In a (c ∷ filter (λ x. not (x.id == c.id)) t)
        → (a ≡ c) ⊎ (In a t × ((a.id == c.id) ≡ false))
    to (inl e) = inl e
    to (inr i) =
        let (j, k) = of_In-filter (λ x. not (x.id == c.id)) a t i in inr (j, ground (arith, k))

    from :
        (a ≡ c) ⊎ (In a t × ((a.id == c.id) ≡ false))
        → In a (c ∷ filter (λ x. not (x.id == c.id)) t)
    from (inl e) = inl e
    from (inr (i, d)) = inr (In-filter_of (λ x. not (x.id == c.id)) a t i (ground (arith, d)))

-- What is saved without IndexedDB, and accepted by localStorage, is what is then given.
get-save_conversations :
    (cs : List StoredConversation) (tx : Tx) (d : Conversations)
    → d.db ≡ none
    → ((save_conversations cs tx d).1 ≡ rejected)
      ⊎ (get_conversations tx (save_conversations cs tx d).0 ≡ cs)
unfolding save_conversations get_conversations get_local_storage_conversations
get-save_conversations cs tx d e = going (write cached_key cs d.storage) refl
  where
    going :
        (o : Option (WebStorage (List StoredConversation)))
        → write cached_key cs d.storage ≡ o
        → ((save_conversations cs tx d).1 ≡ rejected)
          ⊎ (get_conversations tx (save_conversations cs tx d).0 ≡ cs)
    going none q = inl (rw (save_conversations, e, q) refl)
    going (some s) q =
        let saved : save_conversations cs tx d ≡ (record d { storage = s }, resolved) =
          simp (save_conversations, e, q) in
        let there : read cached_key s ≡ found cs =
          read-write cached_key cached_key cs d.storage s q in
        let given : get_conversations tx (record d { storage = s }) ≡ cs =
          rw (get_conversations, e, get_local_storage_conversations, there) refl in
        inr (ap (λ r. get_conversations tx r.0) saved ∙ given)

-- ===== src/LocalDb/Search.antt =====
-- packages/client-web/src/lib/local-storage-db.ts: the full-text search over the stored
-- messages. What the code asks of texts is a parameter.
pub mod Found
use genchat.Base.{
  ℕ, zero, suc, ◌+◌, ◌-◌, min, String, ◌==◌, Bool, true, false, not, ◌&&◌, ◌||◌, Option, none, some,
  List, [], ◌∷◌, if◌then◌else◌, nat_eq, leb, filter, take, sort_by,
}
use genchat.WebStorage.{WebStorage, found, read, write}
use genchat.LocalDb.Message.{StoredMessage, fresh}
use genchat.LocalDb.Storage.{get_local_storage_messages, given}
use genchat.LocalDb.Store.{LocalDb, Tx, completes, Settled, resolved, rejected}

-- Methods of texts.
pub record TextOps : Type 0 where
  -- `query.trim().toLowerCase().split(/\s+/)`
  pub words : String → List String
  pub to_lower : String → String
  pub index_of : String → String → Option ℕ
  pub ends_with_star : String → Bool
  pub without_last : String → String
  -- Whether `/\s|[.,!?;:]/` matches the character at a place.
  pub separator_at : String → ℕ → Bool
  pub slice : String → ℕ → ℕ → String
  pub size : String → ℕ
  pub joined : String → String → String

pub record Hit : Type 0 where
  pub message : StoredMessage
  pub score : ℕ
  pub snippets : List String

module _ (ops : TextOps) where
  abbrev pub clean_term : String → String
  clean_term term = if ops.ends_with_star term then ops.without_last term else term

  abbrev is_word_boundary : String → ℕ → Bool
  is_word_boundary lower zero = true
  is_word_boundary lower (suc i) = ops.separator_at lower i

  abbrev snippet : String → String → ℕ → String
  snippet text term idx = ops.joined "..." (
      ops.joined (ops.slice text (idx - 25) (min (ops.size text) (idx + ops.size term + 25))) "...")

  -- The loop over the terms: the score and the snippets, if every term is found.
  unfoldable pub match_terms : String → String → List String → Option (ℕ × List String)
  match_terms text lower [] = some (0, [])
  match_terms text lower (term ∷ terms) = elim (ops.index_of lower (clean_term term)) [
    | none ↦ none
    | some idx ↦ elim (match_terms text lower terms) [
      | none ↦ none
      | some (score, snippets) ↦ some (
        (if is_word_boundary lower idx then 10 else 5) + score,
        snippet text (clean_term term) idx ∷ snippets,
      )
    ]
  ]

  -- A message without a text is passed over.
  unfoldable pub hit_of : List String → StoredMessage → Option Hit
  hit_of terms m = elim m.text [
    | none ↦ none
    | some text ↦ if text == "" then none else elim (match_terms text (ops.to_lower text) terms) [
      | none ↦ none
      | some (score, snippets) ↦ some record { message = m; score = score; snippets = snippets }
    ]
  ]

  abbrev pub collect_hits : List String → List StoredMessage → List Hit
  collect_hits terms [] = []
  collect_hits terms (m ∷ ms) = elim (hit_of terms m) [
    | none ↦ collect_hits terms ms
    | some h ↦ h ∷ collect_hits terms ms
  ]

  -- The higher score first, and of equal ones the later message.
  abbrev pub ranked : Hit → Hit → Bool
  ranked a b =
      if nat_eq a.score b.score
      then leb b.message.created_at a.message.created_at
      else leb b.score a.score

  unfoldable pub shown : ℕ → StoredMessage → Bool
  shown now m = not m.is_deleted && fresh now m

  unfoldable pub pool : ℕ → String → Tx → LocalDb → List StoredMessage
  pool now channel tx d = elim d.db [
    | none ↦ get_local_storage_messages now channel d.storage
    | some t ↦ elim tx [
      | completes ↦ if given channel then filter (λ m. m.channel_id == channel) t else t
      | _ ↦ []
    ]
  ]

  abbrev pub terms_of : String → List String
  terms_of query = filter given (ops.words query)

  unfoldable pub search_terms : ℕ → List String → String → Tx → LocalDb → List Hit
  search_terms now [] channel tx d = []
  search_terms now (term ∷ terms) channel tx d =
      take 30
        (sort_by ranked (collect_hits (term ∷ terms) (filter (shown now) (pool now channel tx d))))

  unfoldable pub search : ℕ → String → String → Tx → LocalDb → List Hit
  unfolding search_terms
  search now query channel tx d = search_terms now (terms_of query) channel tx d

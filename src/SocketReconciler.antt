-- ===== src/SocketReconciler.antt =====
-- packages/client-web/src/lib/ws-reconciler.ts: `WsReconciler`, which writes pushed messages and read receipts
-- to the database. The crypto provider, `TextDecoder` and the place that `create` gives a record among those
-- that `query().fetch()` gives are parameters.
use genchat.Base.{
  ℕ, String, ◌==◌, ◌≡◌, refl, ap, Bool, true, false, inl, inr, Bool-cases, Option, none, some, List,
  [], ◌∷◌, if◌then◌else◌,
}

pub data Status : Type 0 where
  pending sent delivered read : Status

-- `_raw`, which repeats the channel, is left out.
pub record MessageRecord : Type 0 where
  pub server_id : Option String
  pub channel_id : String
  pub sender_id : String
  pub body : String
  pub status : Status

pub record InboundFrame : Type 0 where
  pub type : String
  pub channel_id : Option String
  pub sender_id : Option String
  pub ciphertext : Option String
  pub message_type : Option ℕ
  pub server_id : Option String

-- An exception is `none`.
pub record CryptoProvider (S : Type 0) : Type 0 where
  pub get_session : String → S → Option String
  pub decrypt_message : String → Option ℕ → String → Option (List ℕ × String)
  pub save_session : String → String → S → Option S
  pub decode : List ℕ → String

pub record WsReconciler (S : Type 0) : Type 0 where
  pub started : Bool
  pub sessions : S
  pub messages : List MessageRecord

abbrev given : Option String → Option String
given none = none
given (some s) = if s == "" then none else some s

abbrev has_server_id : String → MessageRecord → Bool
has_server_id id m = elim m.server_id [ none ↦ false | some other ↦ other == id ]

abbrev as_read : MessageRecord → MessageRecord
as_read m = record m { status = read }

-- The record that `find` gives is updated.
unfoldable pub mark_read : String → List MessageRecord → List MessageRecord
mark_read id [] = []
mark_read id (m ∷ ms) = if has_server_id id m then as_read m ∷ ms else m ∷ mark_read id ms

unfoldable pub handle_read_receipt :
    {S : Type 0} → Bool → InboundFrame → WsReconciler S → WsReconciler S
handle_read_receipt writes frame r = elim (given frame.server_id) [
  | none ↦ r
  | some id ↦ if writes then record r { messages = mark_read id r.messages } else r
]

pub data ReconcilerEvent : Type 0 where
  starts stops : ReconcilerEvent
  receives : Bool → InboundFrame → ReconcilerEvent

module _ {S : Type 0} (crypto : CryptoProvider S)
    (placed : MessageRecord → List MessageRecord → List MessageRecord) where
  -- The text of a push, with the sessions. Any exception leaves the ciphertext.
  unfoldable pub body_text : String → Option ℕ → String → S → S × String
  body_text channel message_type ciphertext s = elim (crypto.get_session channel s) [
    | none ↦ (s, ciphertext)
    | some session ↦ elim (crypto.decrypt_message session message_type ciphertext) [
      | none ↦ (s, ciphertext)
      | some (plaintext, updated) ↦ elim (crypto.save_session channel updated s) [
        | none ↦ (s, ciphertext)
        | some s' ↦ (s', crypto.decode plaintext)
      ]
    ]
  ]

  unfoldable pub push_from :
      Bool → InboundFrame → String → String → String → WsReconciler S → WsReconciler S
  push_from writes frame channel sender ciphertext r =
      let (s, text) = body_text channel frame.message_type ciphertext r.sessions in
      let m : MessageRecord = record {
        server_id = frame.server_id;
        channel_id = channel;
        sender_id = sender;
        body = text;
        status = delivered;
      } in
      record r { sessions = s; messages = if writes then placed m r.messages else r.messages }

  -- `writes` is whether the write to the database succeeds; a rejection is logged.
  unfoldable pub handle_push : Bool → InboundFrame → WsReconciler S → WsReconciler S
  handle_push writes frame r = elim (given frame.channel_id) [
    | none ↦ r
    | some channel ↦ elim (given frame.sender_id) [
      | none ↦ r
      | some sender ↦ elim (given frame.ciphertext) [
        | none ↦ r
        | some ciphertext ↦ push_from writes frame channel sender ciphertext r
      ]
    ]
  ]

  unfoldable pub handle_frame : Bool → InboundFrame → WsReconciler S → WsReconciler S
  handle_frame writes frame r =
      if frame.type == "push"
      then handle_push writes frame r
      else if frame.type == "read_receipt"
      then handle_read_receipt writes frame r
      else r

  -- The transport gives a frame to the handler while it is registered.
  unfoldable pub reconciler_step : ReconcilerEvent → WsReconciler S → WsReconciler S
  reconciler_step starts r = record r { started = true }
  reconciler_step stops r = record r { started = false }
  reconciler_step (receives writes frame) r = if r.started then handle_frame writes frame r else r

-- A receipt that comes again changes nothing.
mark_read-twice :
    (id : String) (ms : List MessageRecord) → mark_read id (mark_read id ms) ≡ mark_read id ms
unfolding mark_read
mark_read-twice id [] = refl
mark_read-twice id (m ∷ ms) = elim (Bool-cases (has_server_id id m)) [
  | inl e ↦ rw (e, e) refl
  | inr e ↦ rw (e, e) (ap (λ rest. m ∷ rest) (mark_read-twice id ms))
]

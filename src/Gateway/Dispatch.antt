-- ===== src/Gateway/Dispatch.antt =====
-- packages/client-web/src/lib/gateway-client.ts: which handlers a frame goes to (`onmessage`).
use genchat.Base.{
  false, ℕ, String, ◌≡◌, refl, ◌||◌, none, some, List, [], ◌∷◌, ◌++◌, if◌then◌else◌, map, reverse,
  All, All-reverse, Bool-cases, inl, inr, ◌==◌, insert, remove, lookup-insert, lookup-remove,
}
use genchat.Gateway.Frame.{
  Value, Field, Fields, field, is_text, Raw, Given, message, typing_event, receipt_event,
  call_event, ephemeral_event, reaction_event, delete_event, edit_event, pin_event, commit_envelope,
  history_envelope, push_envelope, other_envelope, or, truthy, text,
}

or-none : (c s : Field) → or (or c none) s ≡ or c s
or-none c s = elim (Bool-cases (truthy c)) [ inl e ↦ rw (e, e) refl | inr e ↦ rw (e) refl ]

module _ (number_of : Value → Value) (safe_base64_decode : Field → String) (now : ℕ) where
  -- The messages of a history come latest first and are given oldest first.
  unfoldable pub dispatch_history : Fields → List Fields → List Given
  dispatch_history r ms =
      map (λ m. message (history_envelope number_of safe_base64_decode now r m)) (reverse ms)

  unfoldable pub dispatch_message : Fields → List Given
  dispatch_message r =
      (if is_text "push" (field "type" r)
        then message (push_envelope number_of safe_base64_decode now r)
        else message (other_envelope number_of safe_base64_decode now r))
      ∷ []

  unfoldable pub dispatch : Raw → List Given
  dispatch raw =
      let r = raw.fields in
      let type = field "type" r in
      if is_text "typing" type
      then typing_event number_of safe_base64_decode now r ∷ []
      else if is_text "read_receipt" type || is_text "receipt" type
      then receipt_event number_of safe_base64_decode now r ∷ []
      else if is_text "reconnect" type || is_text "error" type
      then []
      else if is_text "call_signal" type
      then call_event number_of safe_base64_decode now r ∷ []
      else if is_text "ephemeral_setting" type
      then ephemeral_event number_of safe_base64_decode now r ∷ []
      else if is_text "reaction" type
      then reaction_event number_of safe_base64_decode now r ∷ []
      else if is_text "message_deleted" type
      then delete_event number_of safe_base64_decode now r ∷ []
      else if is_text "message_edited" type
      then edit_event number_of safe_base64_decode now r ∷ []
      else if is_text "message_pinned" type
      then pin_event number_of safe_base64_decode now r ∷ []
      else if is_text "group_commit" type
      then message (commit_envelope number_of safe_base64_decode now r) ∷ []
      else if is_text "history" type
      then elim raw.messages [ none ↦ dispatch_message r | some ms ↦ dispatch_history r ms ]
      else dispatch_message r

  -- What a message is apart from the number and the type that its frame gives it.
  abbrev pub unnumbered : Given → Given
  unnumbered (message e) = message (record e { sequence_num = none; message_type = none })
  unnumbered g = g

  abbrev pub pushed : List Fields → List Given
  pushed [] = []
  pushed (m ∷ ms) = dispatch (record { fields = m; messages = none }) ++ pushed ms

  -- The frame that pushes a message of a history of the channel.
  abbrev pub as_push : Field → Fields → Fields
  as_push channel m =
      insert "type" (text "push")
        (elim channel [ none ↦ remove "channel_id" m | some c ↦ insert "channel_id" c m ])

  -- The name that a stored message does not have.
  abbrev pub IsStored : Fields → Type 0
  IsStored m = field "clientMsgId" m ≡ none

  dispatch-push :
      (m : Fields)
      → field "type" m ≡ some (text "push")
      → dispatch (record { fields = m; messages = none })
        ≡ message (push_envelope number_of safe_base64_decode now m) ∷ []
  unfolding dispatch dispatch_message
  dispatch-push m e = rw (e, dispatch, dispatch_message) refl

  dispatch-history :
      (r : Fields) (ms : List Fields)
      → field "type" r ≡ some (text "history")
      → dispatch (record { fields = r; messages = some ms }) ≡ dispatch_history r ms
  unfolding dispatch
  dispatch-history r ms e = rw (e, dispatch) refl

  as_push-type :
      (channel : Field) (m : Fields) → field "type" (as_push channel m) ≡ some (text "push")
  as_push-type channel m = rw (lookup-insert) refl

  as_push-channel :
      (channel : Field) (m : Fields) → field "channel_id" (as_push channel m) ≡ channel
  as_push-channel none m = rw (lookup-insert, lookup-remove) refl
  as_push-channel (some c) m = rw (lookup-insert, lookup-insert) refl

  -- The other fields are those of the message.
  as_push-field :
      (name : String) (channel : Field) (m : Fields)
      → ("type" == name) ≡ false
      → ("channel_id" == name) ≡ false
      → field name (as_push channel m) ≡ field name m
  as_push-field name none m h k = rw (lookup-insert, h, lookup-remove, k) refl
  as_push-field name (some c) m h k = rw (lookup-insert, h, lookup-insert, k) refl

  unnumbered-push :
      (r m : Fields)
      → IsStored m
      → unnumbered (message (history_envelope number_of safe_base64_decode now r m))
        ≡ unnumbered (
            message
              (push_envelope number_of safe_base64_decode now (as_push (field "channel_id" r) m)))
  unfolding history_envelope push_envelope
  unnumbered-push r m u =
      let c = field "channel_id" r in
      rw
        (
          as_push-channel c m,
          as_push-field "sender_id" c m refl refl,
          as_push-field "client_msg_id" c m refl refl,
          as_push-field "clientMsgId" c m refl refl,
          as_push-field "server_id" c m refl refl,
          as_push-field "ciphertext_base64" c m refl refl,
          as_push-field "ephemeral_ttl_sec" c m refl refl,
          as_push-field "reply_to_message_id" c m refl refl,
          as_push-field "replyToMessageId" c m refl refl,
          u,
          or-none (field "client_msg_id" m) (field "server_id" m),
        )
        refl

  history-pushed :
      (r : Fields) (ns : List Fields)
      → All IsStored ns
      → map unnumbered
          (map (λ m. message (history_envelope number_of safe_base64_decode now r m)) ns)
        ≡ map unnumbered (pushed (map (as_push (field "channel_id" r)) ns))
  history-pushed r [] h = refl
  history-pushed r (m ∷ ns) (p, h) =
      let c = field "channel_id" r in
      rw
        (
          dispatch-push (as_push c m) (as_push-type c m),
          unnumbered-push r m p,
          history-pushed r ns h,
        )
        refl

  -- A frame with the history of a channel gives the handlers what each of its messages would have given them
  -- in a frame of type push with the id of that channel, the last message of the frame first, but for the
  -- sequence number and the type of each. The messages do not have the field clientMsgId.
  pub history-push :
      (r : Fields) (ms : List Fields)
      → field "type" r ≡ some (text "history")
      → All IsStored ms
      → map unnumbered (dispatch (record { fields = r; messages = some ms }))
        ≡ map unnumbered (pushed (map (as_push (field "channel_id" r)) (reverse ms)))
  unfolding dispatch_history
  history-push r ms e h =
      rw (dispatch-history r ms e) (history-pushed r (reverse ms) (All-reverse IsStored ms h))

-- ===== src/Chat/Kept.antt =====
-- What stays of the messages that are shown.
use genchat.Base.{
  ℕ, String, ◌≡◌, refl, Bool, true, false, not, List, [], ◌∷◌, ◌++◌, ◌==◌, ◌&&◌, arith, map,
  Bool-cases, inl, inr, any, if◌then◌else◌,
}
use genchat.LocalDb.Message.{Status, everyone, me, read, sent}
use genchat.LocalDb.Store.{Tx}
use genchat.Chat.Messages.{
  MessageItem, named, key_of, keyed, changed, received, Op, add_it, remove_it, reacted, revoked,
  edited, pinned, merged, same_message, has_reacted, is_expired, time_of,
}
use genchat.Chat.Handlers.{
  Chat, on_read_receipt, on_reaction, toggle_reaction, on_delete_message, confirm_delete,
  on_edit_message, edit_message, on_pin_message, toggle_pin, receive, send_message, message_sent,
  purge, receipt_status, targeted,
}
use genchat.Chat.Events.{
  ChatEvent, receipt, reaction, reacts, deletion, deletes, edit, edits, pin, pins, message, sends,
  was_sent, purges, chat_step, chat_run,
}

abbrev pub Kept : MessageItem → MessageItem → Type 0
Kept m m' = (m.status ≡ read → m'.status ≡ read) × (m.is_deleted ≡ true → m'.is_deleted ≡ true)

-- The messages of the one list stand at the same places of the other.
abbrev pub AllKept : List MessageItem → List MessageItem → Type 0
AllKept [] ms' = Unit
AllKept (m ∷ ms) [] = ⊥
AllKept (m ∷ ms) (m' ∷ ms') = Kept m m' × AllKept ms ms'

AllKept-refl : (ms : List MessageItem) → AllKept ms ms
AllKept-refl [] = tt
AllKept-refl (m ∷ ms) = ((λ h. h, λ h. h), AllKept-refl ms)

AllKept-trans :
    (ms ms' ms'' : List MessageItem) → AllKept ms ms' → AllKept ms' ms'' → AllKept ms ms''
AllKept-trans [] ms' ms'' h k = tt
AllKept-trans (m ∷ ms) [] ms'' h k = absurd h
AllKept-trans (m ∷ ms) (m' ∷ ms') [] h k = absurd k
AllKept-trans (m ∷ ms) (m' ∷ ms') (m'' ∷ ms'') ((s, d), h) ((s', d'), k) =
    ((λ r. s' (s r), λ r. d' (d r)), AllKept-trans ms ms' ms'' h k)

AllKept-append : (ms new : List MessageItem) → AllKept ms (ms ++ new)
AllKept-append [] new = tt
AllKept-append (m ∷ ms) new = ((λ h. h, λ h. h), AllKept-append ms new)

AllKept-map :
    (test : MessageItem → Bool) (f : MessageItem → MessageItem) (ms : List MessageItem)
    → ((m : MessageItem) → Kept m (f m))
    → AllKept ms (map (changed test f) ms)
AllKept-map test f [] h = tt
AllKept-map test f (m ∷ ms) h = (
  elim (Bool-cases (test m)) [ inl e ↦ rw e (h m) | inr e ↦ rw e (λ r. r, λ r. r) ],
  AllKept-map test f ms h,
)

received-Kept : (s : Status) (m : MessageItem) → Kept m (received s m)
unfolding received
received-Kept s m = (λ e. rw e refl, λ e. e)

merged-Kept : (new m : MessageItem) → Kept m (merged new m)
unfolding merged
merged-Kept new m = (λ e. rw e refl, λ e. e)

reacted-Kept : (emoji user : String) (op : Op) (m : MessageItem) → Kept m (reacted emoji user op m)
unfolding reacted
reacted-Kept emoji user op m = (λ e. e, λ e. e)

revoked-Kept : (at : ℕ) (by : String) (m : MessageItem) → Kept m (revoked at by m)
unfolding revoked
revoked-Kept at by m = (λ e. e, λ e. refl)

edited-Kept : (text : String) (at : ℕ) (m : MessageItem) → Kept m (edited text at m)
unfolding edited
edited-Kept text at m = (λ e. e, λ e. e)

pinned-Kept : (on : Bool) (at : ℕ) (by : String) (m : MessageItem) → Kept m (pinned on at by m)
unfolding pinned
pinned-Kept on at by m = (λ e. e, λ e. e)

abbrev is_read : MessageItem → Bool
is_read m = elim m.status [ read ↦ true | _ ↦ false ]

-- The events that the page survives as it is shown: the user deletes nothing for themselves, nothing that is
-- shown has expired when a purge comes, and no sending ends of a message that was read before.
abbrev Keeps : ℕ → ChatEvent → Chat → Type 0
Keeps now (deletes channel target me) c = ⊥
Keeps now purges c = any (is_expired now) c.messages ≡ false
Keeps now (was_sent id) c = any (λ m. (m.client_msg_id == id) && is_read m) c.messages ≡ false
Keeps now _ c = Unit

abbrev pub KeepsAll : String → List (ℕ × Tx × ChatEvent) → Chat → Type 0
KeepsAll user [] c = Unit
KeepsAll user ((now, tx, e) ∷ es) c = Keeps now e c × KeepsAll user es (chat_step user now tx e c)

-- Where no message with the client id was read, none is no longer read when it counts as sent.
AllKept-sent :
    (id : String) (ms : List MessageItem)
    → any (λ m. (m.client_msg_id == id) && is_read m) ms ≡ false
    → AllKept ms (map (changed (λ m. m.client_msg_id == id) (λ m. record m { status = sent })) ms)
AllKept-sent id [] h = tt
AllKept-sent id (m ∷ ms) h = (
  elim (Bool-cases (m.client_msg_id == id)) [
    | inl e ↦ rw e (λ r. absurd (unread e r), λ d. d)
    | inr e ↦ rw e (λ r. r, λ d. d)
  ],
  AllKept-sent id ms (ground arith),
)
  where
    unread : (m.client_msg_id == id) ≡ true → m.status ≡ read → ⊥
    unread e r = ground arith

chat_step-AllKept :
    (user : String) (now : ℕ) (tx : Tx) (e : ChatEvent) (c : Chat)
    → Keeps now e c
    → AllKept c.messages (chat_step user now tx e c).messages
unfolding chat_step on_read_receipt on_reaction toggle_reaction on_delete_message confirm_delete
    on_edit_message edit_message on_pin_message toggle_pin receive send_message message_sent purge
chat_step-AllKept user now tx (receipt id kind) c k =
    AllKept-map (named id) (received (receipt_status kind)) c.messages
      (received-Kept (receipt_status kind))
chat_step-AllKept user now tx (reaction id emoji sender op) c k =
    AllKept-map (named id) (reacted emoji sender op) c.messages (reacted-Kept emoji sender op)
chat_step-AllKept user now tx (reacts target emoji) c k =
    let op = if has_reacted emoji user target then remove_it else add_it in
    AllKept-map (named (if target.id == "" then target.client_msg_id else target.id))
      (reacted emoji user op) c.messages (reacted-Kept emoji user op)
chat_step-AllKept user now tx (deletion id channel sender time me) c k = AllKept-refl c.messages
chat_step-AllKept user now tx (deletion id channel sender time everyone) c k =
    AllKept-map (keyed id) (revoked (time_of time now) sender) c.messages
      (revoked-Kept (time_of time now) sender)
chat_step-AllKept user now tx (deletes channel target me) c k = absurd k
chat_step-AllKept user now tx (deletes channel target everyone) c k =
    AllKept-map (targeted (key_of target)) (revoked now user) c.messages (revoked-Kept now user)
chat_step-AllKept user now tx (edit id channel plaintext time) c k =
    AllKept-map (keyed id) (edited plaintext (time_of time now)) c.messages
      (edited-Kept plaintext (time_of time now))
chat_step-AllKept user now tx (edits channel target text) c k = elim (Bool-cases (text == "")) [
  | inl e ↦ rw e (AllKept-refl c.messages)
  | inr e ↦ rw e (
      AllKept-map (λ m. key_of m == key_of target) (edited text now) c.messages
        (edited-Kept text now))
]
chat_step-AllKept user now tx (pin id channel sender op time) c k =
    AllKept-map (keyed id) (pinned (op == "pin") (time_of time now) sender) c.messages
      (pinned-Kept (op == "pin") (time_of time now) sender)
chat_step-AllKept user now tx (pins channel target) c k =
    AllKept-map (λ m. key_of m == key_of target) (pinned (not target.is_pinned) now user) c.messages
      (pinned-Kept (not target.is_pinned) now user)
chat_step-AllKept user now tx (message new) c k =
    elim (Bool-cases (any (same_message new) c.messages)) [
      | inl e ↦ rw e (AllKept-map (same_message new) (merged new) c.messages (merged-Kept new))
      | inr e ↦ rw e (AllKept-append c.messages (new ∷ []))
    ]
chat_step-AllKept user now tx (sends m) c k = AllKept-append c.messages (m ∷ [])
chat_step-AllKept user now tx (was_sent id) c k = AllKept-sent id c.messages k
chat_step-AllKept user now tx purges c k = rw k (AllKept-refl c.messages)

-- Through receipts, reactions, revocations, edits, pins, messages that are sent and messages that come for the first
-- time or again, in any order, each message that is shown stays at its place; one that was read stays
-- read, and one that was revoked stays marked as revoked. In the run the user deletes nothing for
-- themselves, nothing that is shown has expired when a purge comes, and no sending ends of a message
-- that was read before.
pub chat_run-AllKept :
    (user : String) (es : List (ℕ × Tx × ChatEvent)) (c : Chat)
    → KeepsAll user es c
    → AllKept c.messages (chat_run user es c).messages
unfolding chat_run
chat_run-AllKept user [] c k = AllKept-refl c.messages
chat_run-AllKept user ((now, tx, e) ∷ es) c (k, ks) =
    AllKept-trans c.messages (chat_step user now tx e c).messages
      (chat_run user es (chat_step user now tx e c)).messages (chat_step-AllKept user now tx e c k)
      (chat_run-AllKept user es (chat_step user now tx e c) ks)

-- ===== src/Tests/Chat.antt =====
-- The theorems on the page of the messages, at concrete inputs.
use genchat.Base.{
  ℕ, ◌+◌, ◌==◌, ◌≡◌, refl, true, false, none, some, List, [], ◌∷◌, map, amount, lookup,
}
use genchat.LocalDb.Message.{delivered, everyone, pending}
use genchat.LocalDb.Store.{Tx, completes}
use genchat.Chat.Messages.{
  MessageItem, add_it, remove_it, has_reacted, users_of, given_reactions, received, named, keyed,
  key_of, revoked, merged, same_message, is_expired,
}
use genchat.Chat.Handlers.{
  Chat, on_read_receipt, on_delete_message, receive, send_message, message_sent, purge,
}
use genchat.Tests.Store.{store}
use genchat.Chat.Events.{
  ChatEvent, receipt, reaction, reacts, deletion, message, sends, was_sent, purges, chat_run,
  chat_step,
}
use genchat.Chat.Reactions.{decided_all, has_reacted-chat_run}
use genchat.Chat.Kept.{AllKept, chat_run-AllKept}
use genchat.Chat.Call.{
  PageCallEvent, no_call, idle, starts, connection, rejects, handle_start_call, made, on_connection,
  on_offer, handle_reject_call, page_call_step, offer_comes, accepts, servers_come, drains,
  candidate_comes, hangup_comes, page_call_run,
}
use genchat.Chat.Call.Candidates.{
  text_of, candidates, has_offer, holds_open, page_call_run-candidates,
}

abbrev hello : MessageItem
hello = record {
  id = "m1";
  client_msg_id = "c1";
  channel_id = "ana";
  sender_id = "ana";
  text = some "hello";
  raw_ciphertext = none;
  attachment = none;
  status = delivered;
  timestamp = "10:00";
  is_encrypted = true;
  is_insecure_fallback = false;
  security_warning = none;
  sender_fingerprint = none;
  ephemeral_ttl_sec = none;
  expires_at = none;
  reply_to = none;
  reactions = some [];
  is_deleted = false;
  deleted_at = none;
  deleted_by = none;
  delete_scope = none;
  is_edited = false;
  edited_at = none;
  is_pinned = false;
  pinned_at = none;
  pinned_by = none;
}

abbrev page : Chat
page = record { messages = hello ∷ []; local_db = store }

abbrev reacting : List (ℕ × Tx × ChatEvent)
reacting =
    (10, completes, reaction "c1" "+1" "bob" add_it)
    ∷ (11, completes, reacts hello "+1")
    ∷ (12, completes, reaction "m1" "+1" "bob" remove_it)
    ∷ []

decided_test :
    (decided_all "me" "+1" "me" hello reacting (has_reacted "+1" "me" hello) ≡ true)
    × (decided_all "me" "+1" "bob" hello reacting (has_reacted "+1" "bob" hello) ≡ false)
unfolding has_reacted users_of given_reactions lookup named
decided_test = (refl, refl)

has_reacted-chat_run_example :
    map (has_reacted "+1" "me") (chat_run "me" reacting page).messages
    ≡ map (λ m. decided_all "me" "+1" "me" m reacting (has_reacted "+1" "me" m)) page.messages
has_reacted-chat_run_example =
    has_reacted-chat_run "me" "+1" "me" reacting page (tt, (tt, (tt, tt)))

abbrev answer : MessageItem
answer = record hello { id = "c2"; client_msg_id = "c2"; sender_id = "me"; status = pending }

-- The message is read, revoked and comes again; an answer is sent, and a purge comes.
abbrev again : List (ℕ × Tx × ChatEvent)
again =
    (10, completes, receipt "m1" "read")
    ∷ (11, completes, deletion "m1" "ana" "ana" none everyone)
    ∷ (12, completes, message hello)
    ∷ (13, completes, sends answer)
    ∷ (14, completes, was_sent "c2")
    ∷ (15, completes, purges)
    ∷ []

chat_run-AllKept_example : AllKept page.messages (chat_run "me" again page).messages
unfolding chat_step on_read_receipt on_delete_message receive send_message message_sent received
    revoked merged keyed key_of named same_message is_expired
chat_run-AllKept_example =
    chat_run-AllKept "me" again page (tt, (tt, (tt, (tt, (refl, (refl, tt))))))

-- The revoked text is shown again, under the mark of the revocation.
again_test :
    let ms = (chat_run "me" again page).messages in
    (map (λ m. m.is_deleted) ms ≡ true ∷ false ∷ [])
    × (map (λ m. m.text) ms ≡ some "hello" ∷ some "hello" ∷ [])
unfolding chat_run chat_step on_read_receipt on_delete_message receive send_message message_sent
    purge received revoked merged keyed key_of named same_message is_expired
again_test = (refl, refl)

abbrev taken : List PageCallEvent
taken =
    offer_comes "k1" "ana" "audio" "v=0"
    ∷ candidate_comes "c"
    ∷ accepts
    ∷ servers_come
    ∷ candidate_comes "d"
    ∷ drains 0
    ∷ hangup_comes
    ∷ []

page_call_run-candidates_example :
    let c = page_call_run taken no_call in
    (amount (λ d. d == "c") (map text_of c.given)
        + amount (λ d. d == "c") c.pending_ice_candidates
        + amount (λ d. d == "c") c.dropped
      ≡ amount (λ d. d == "c") (candidates taken))
    × (has_offer c ≡ true)
    × (holds_open c ≡ true)
page_call_run-candidates_example = page_call_run-candidates (λ d. d == "c") taken

-- An offer during a call that is then rejected: the page is idle and goes on holding the manager.
second_offer_test :
    let c =
      page_call_run
        (starts true "k1" "ana" "audio"
          ∷ servers_come
          ∷ connection true
          ∷ offer_comes "k2" "eve" "video" "v=0"
          ∷ rejects
          ∷ [])
        no_call in
    (c.call_state ≡ idle) × (c.webrtc ≡ some 0) × (c.hung_up ≡ [])
unfolding page_call_run page_call_step handle_start_call made on_connection on_offer
    handle_reject_call
second_offer_test = (refl, refl, refl)

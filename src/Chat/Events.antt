-- ===== src/Chat/Events.antt =====
-- What happens to the messages of the page, one handler after the other. The loading of the cache of a channel,
-- decrypting again what could not be decrypted, and the notices of the system are not among the events.
use genchat.Base.{ℕ, String, Option, List, [], ◌∷◌}
use genchat.LocalDb.Message.{Scope}
use genchat.LocalDb.Store.{Tx}
use genchat.Chat.Messages.{MessageItem, Op}
use genchat.Chat.Handlers.{
  Chat, on_read_receipt, on_reaction, toggle_reaction, on_delete_message, confirm_delete,
  on_edit_message, edit_message, on_pin_message, toggle_pin, receive, send_message, message_sent,
  purge,
}

pub data ChatEvent : Type 0 where
  receipt : (server_id receipt_type : String) → ChatEvent
  reaction : (target_id emoji sender : String) (op : Op) → ChatEvent
  reacts : (target : MessageItem) (emoji : String) → ChatEvent
  deletion :
      (message_id channel sender : String) (server_time : Option ℕ) (scope : Scope) → ChatEvent
  deletes : (channel : String) (target : MessageItem) (scope : Scope) → ChatEvent
  edit : (message_id channel plaintext : String) (server_time : Option ℕ) → ChatEvent
  edits : (channel : String) (target : MessageItem) (new_text : String) → ChatEvent
  pin : (message_id channel sender op : String) (server_time : Option ℕ) → ChatEvent
  pins : (channel : String) (target : MessageItem) → ChatEvent
  message : (new : MessageItem) → ChatEvent
  sends : (m : MessageItem) → ChatEvent
  was_sent : (client_msg_id : String) → ChatEvent
  purges : ChatEvent

-- An event of the user, at a time and with the end of the transaction that it opens.
unfoldable pub chat_step : String → ℕ → Tx → ChatEvent → Chat → Chat
chat_step user now tx (receipt id kind) c = on_read_receipt id kind tx c
chat_step user now tx (reaction id emoji sender op) c = on_reaction now tx id emoji sender op c
chat_step user now tx (reacts target emoji) c = (toggle_reaction now tx user target emoji c).0
chat_step user now tx (deletion id channel sender time scope) c =
    on_delete_message now tx id channel sender time scope c
chat_step user now tx (deletes channel target scope) c =
    confirm_delete now tx user channel target scope c
chat_step user now tx (edit id channel plaintext time) c =
    on_edit_message now tx id channel plaintext time c
chat_step user now tx (edits channel target text) c = edit_message now tx channel target text c
chat_step user now tx (pin id channel sender op time) c =
    on_pin_message now tx id channel sender op time c
chat_step user now tx (pins channel target) c = toggle_pin now tx user channel target c
chat_step user now tx (message new) c = receive new c
chat_step user now tx (sends m) c = send_message now tx m c
chat_step user now tx (was_sent id) c = message_sent id tx c
chat_step user now tx purges c = purge now tx c

unfoldable pub chat_run : String → List (ℕ × Tx × ChatEvent) → Chat → Chat
unfolding chat_step
chat_run user [] c = c
chat_run user ((now, tx, e) ∷ es) c = chat_run user es (chat_step user now tx e c)

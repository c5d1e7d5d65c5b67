-- ===== src/Chat/Reactions.antt =====
-- Who has reacted to a message, after any reactions of the peers and of the user.
use genchat.Base.{
  ℕ, String, ◌==◌, ◌≡◌, refl, subst, ◌∙◌, Bool, true, false, not, ◌&&◌, ◌||◌, List, [], ◌∷◌, ◌++◌,
  any, map, lookup-insert, lookup-remove, if◌then◌else◌, All, Bool-cases, inl, inr, arith, eq_iff,
}
use genchat.LocalDb.Store.{Tx}
use genchat.Chat.Messages.{
  MessageItem, named, changed, Op, add_it, remove_it, set_add, set_delete, set_of, set_op,
  given_reactions, users_of, put_users, has_reacted, reacted,
}
use genchat.Chat.Handlers.{Chat, on_reaction, toggle_reaction}
use genchat.Chat.Events.{
  ChatEvent, receipt, reaction, reacts, deletion, deletes, edit, edits, pin, pins, message, sends,
  was_sent, purges, chat_step, chat_run,
}

abbrev has : String → List String → Bool
has user users = any (λ u. u == user) users

has-append :
    (user : String) (xs ys : List String) → has user (xs ++ ys) ≡ (has user xs || has user ys)
has-append user [] ys = refl
has-append user (x ∷ xs) ys = ground (arith, has-append user xs ys)

has-set_add :
    (user sender : String) (users : List String)
    → has user (set_add sender users) ≡ ((sender == user) || has user users)
unfolding set_add
has-set_add user sender users =
    ground (arith, has-append user users (sender ∷ []), eq_iff sender user)

has-set_delete :
    (user sender : String) (users : List String)
    → has user (set_delete sender users) ≡ (not (sender == user) && has user users)
unfolding set_delete
has-set_delete user sender [] = ground arith
has-set_delete user sender (x ∷ xs) =
    ground
      (arith, has-set_delete user sender xs, eq_iff x sender, eq_iff x user, eq_iff sender user)

has-set_of :
    (user : String) (users more : List String)
    → has user (set_of users more) ≡ (has user users || has user more)
unfolding set_of
has-set_of user users [] = ground arith
has-set_of user users (x ∷ xs) =
    ground (arith, has-set_of user (set_add x users) xs, has-set_add user x users)

-- What an operation makes of a mark.
abbrev pub after : Op → Bool
after add_it = true
after remove_it = false

after_toggle : (b : Bool) → after (if b then remove_it else add_it) ≡ not b
after_toggle true = refl
after_toggle false = refl

has-set_op :
    (op : Op) (user sender : String) (users : List String)
    → has user (set_op op sender users) ≡ (if sender == user then after op else has user users)
has-set_op add_it user sender users = ground (arith, has-set_add user sender users)
has-set_op remove_it user sender users = ground (arith, has-set_delete user sender users)

users_of-put_users :
    (emoji other : String) (users : List String) (reactions : List (String × List String))
    → users_of other (put_users emoji users reactions)
      ≡ (if emoji == other then users else users_of other reactions)
unfolding users_of put_users
users_of-put_users emoji other [] reactions = elim (Bool-cases (emoji == other)) [
  | inl e ↦ rw (users_of, lookup-remove emoji other reactions, e) refl
  | inr e ↦ rw (users_of, lookup-remove emoji other reactions, e) refl
]
users_of-put_users emoji other (u ∷ us) reactions = elim (Bool-cases (emoji == other)) [
  | inl e ↦ rw (users_of, lookup-insert emoji other (u ∷ us) reactions, e) refl
  | inr e ↦ rw (users_of, lookup-insert emoji other (u ∷ us) reactions, e) refl
]

has_reacted-reacted :
    (emoji other sender user : String) (op : Op) (m : MessageItem)
    → has_reacted other user (reacted emoji sender op m)
      ≡ (if (emoji == other) && (sender == user) then after op else has_reacted other user m)
unfolding has_reacted reacted given_reactions
has_reacted-reacted emoji other sender user op m =
    let r = given_reactions m in
    elim (Bool-cases (emoji == other)) [
      | inl e ↦
          rw
            (
              users_of-put_users emoji other (set_op op sender (set_of [] (users_of emoji r))) r,
              e,
              has-set_op op user sender (set_of [] (users_of emoji r)),
              has-set_of user [] (users_of emoji r),
              (eq_iff emoji other).0 e,
            )
            refl
      | inr e ↦
          rw (users_of-put_users emoji other (set_op op sender (set_of [] (users_of emoji r))) r, e)
            refl
    ]

-- What an event makes of the mark that says whether `who` has reacted to a message with an emoji: it is
-- changed only by an event that names the message, the emoji and the user.
abbrev pub decided : String → String → String → MessageItem → ChatEvent → Bool → Bool
decided user emoji who m (reaction id e sender op) b =
    if named id m && ((e == emoji) && (sender == who)) then after op else b
decided user emoji who m (reacts target e) b =
    if named (if target.id == "" then target.client_msg_id else target.id) m
      && ((e == emoji) && (user == who))
    then not (has_reacted e user target)
    else b
decided user emoji who m _ b = b

abbrev pub decided_all :
    String → String → String → MessageItem → List (ℕ × Tx × ChatEvent) → Bool → Bool
decided_all user emoji who m [] b = b
decided_all user emoji who m ((now, tx, e) ∷ es) b =
    decided_all user emoji who m es (decided user emoji who m e b)

abbrev pub IsReaction : ChatEvent → Type 0
IsReaction (reaction id emoji sender op) = Unit
IsReaction (reacts target emoji) = Unit
IsReaction _ = ⊥

module _ (user emoji who : String) where
  decided-changed :
      (test : MessageItem → Bool) (e sender : String) (op : Op) (m : MessageItem)
      (event : ChatEvent) (b : Bool)
      → decided user emoji who (changed test (reacted e sender op) m) event b
        ≡ decided user emoji who m event b
  unfolding reacted named
  decided-changed test e sender op m event b = elim (Bool-cases (test m)) [
    | inl q ↦ rw q (same event)
    | inr q ↦ rw q refl
  ]
    where
      same :
          (event : ChatEvent)
          → decided user emoji who (reacted e sender op m) event b
            ≡ decided user emoji who m event b
      same (receipt i k) = refl
      same (reaction i x y o) = refl
      same (reacts t x) = refl
      same (deletion i x y t z) = refl
      same (deletes x t z) = refl
      same (edit i x y t) = refl
      same (edits x t y) = refl
      same (pin i x y o t) = refl
      same (pins x t) = refl
      same (message n) = refl
      same (sends n) = refl
      same (was_sent i) = refl
      same purges = refl

  decided_all-changed :
      (test : MessageItem → Bool) (e sender : String) (op : Op) (m : MessageItem)
      (es : List (ℕ × Tx × ChatEvent)) (b : Bool)
      → decided_all user emoji who (changed test (reacted e sender op) m) es b
        ≡ decided_all user emoji who m es b
  decided_all-changed test e sender op m [] b = refl
  decided_all-changed test e sender op m ((now, tx, event) ∷ es) b =
      rw
        (
          decided-changed test e sender op m event b,
          decided_all-changed test e sender op m es (decided user emoji who m event b),
        )
        refl

  has_reacted-changed :
      (test : MessageItem → Bool) (e sender : String) (op : Op) (m : MessageItem)
      → has_reacted emoji who (changed test (reacted e sender op) m) ≡ (
          if test m && ((e == emoji) && (sender == who)) then after op else has_reacted emoji who m)
  has_reacted-changed test e sender op m = elim (Bool-cases (test m)) [
    | inl q ↦ rw q (has_reacted-reacted e emoji sender who op m)
    | inr q ↦ rw q refl
  ]

  -- The marks of a list of messages once events have happened.
  abbrev marks : List (ℕ × Tx × ChatEvent) → List MessageItem → List Bool
  marks es ms = map (λ m. decided_all user emoji who m es (has_reacted emoji who m)) ms

  marks-changed :
      (test : MessageItem → Bool) (e sender : String) (op : Op) (es : List (ℕ × Tx × ChatEvent))
      (ms : List MessageItem)
      → marks es (map (changed test (reacted e sender op)) ms)
        ≡ map
            (λ m. decided_all user emoji who m es (
              if test m && ((e == emoji) && (sender == who))
              then after op
              else has_reacted emoji who m))
            ms
  marks-changed test e sender op es [] = refl
  marks-changed test e sender op es (m ∷ ms) =
      rw
        (
          decided_all-changed test e sender op m es
              (has_reacted emoji who (changed test (reacted e sender op) m)),
          has_reacted-changed test e sender op m,
          marks-changed test e sender op es ms,
        )
        refl

-- After any reactions of the peers and of the user, however they are interleaved and whatever becomes of their
-- transactions, a message is marked with an emoji by someone exactly where the last of them that names
-- the message, the emoji and that one says so, or where it was so before and none of them does; the
-- user's own reaction is the opposite of what the message that it was made on showed.
pub has_reacted-chat_run :
    (user emoji who : String) (es : List (ℕ × Tx × ChatEvent)) (c : Chat)
    → All (λ e. IsReaction e.2) es
    → map (has_reacted emoji who) (chat_run user es c).messages
      ≡ map (λ m. decided_all user emoji who m es (has_reacted emoji who m)) c.messages
unfolding chat_run chat_step on_reaction toggle_reaction
has_reacted-chat_run user emoji who [] c h = refl
has_reacted-chat_run user emoji who ((now, tx, reaction id e sender op) ∷ es) c (h, hs) =
    has_reacted-chat_run user emoji who es (on_reaction now tx id e sender op c) hs
    ∙ marks-changed user emoji who (named id) e sender op es c.messages
has_reacted-chat_run user emoji who ((now, tx, reacts target e) ∷ es) c (h, hs) =
    let id = if target.id == "" then target.client_msg_id else target.id in
    let op = if has_reacted e user target then remove_it else add_it in
    let d = on_reaction now tx id e user op c in
    subst
      (λ b.
        map (has_reacted emoji who) (chat_run user es d).messages
        ≡ map
            (λ m. decided_all user emoji who m es (
              if named id m && ((e == emoji) && (user == who)) then b else has_reacted emoji who m))
            c.messages)
      (after_toggle (has_reacted e user target))
      (has_reacted-chat_run user emoji who es d hs
        ∙ marks-changed user emoji who (named id) e user op es c.messages)
has_reacted-chat_run user emoji who ((now, tx, receipt a b) ∷ es) c (h, hs) = absurd h
has_reacted-chat_run user emoji who ((now, tx, deletion a b d t s) ∷ es) c (h, hs) = absurd h
has_reacted-chat_run user emoji who ((now, tx, deletes a t s) ∷ es) c (h, hs) = absurd h
has_reacted-chat_run user emoji who ((now, tx, edit a b d t) ∷ es) c (h, hs) = absurd h
has_reacted-chat_run user emoji who ((now, tx, edits a t b) ∷ es) c (h, hs) = absurd h
has_reacted-chat_run user emoji who ((now, tx, pin a b d o t) ∷ es) c (h, hs) = absurd h
has_reacted-chat_run user emoji who ((now, tx, pins a t) ∷ es) c (h, hs) = absurd h
has_reacted-chat_run user emoji who ((now, tx, message n) ∷ es) c (h, hs) = absurd h
has_reacted-chat_run user emoji who ((now, tx, sends n) ∷ es) c (h, hs) = absurd h
has_reacted-chat_run user emoji who ((now, tx, was_sent i) ∷ es) c (h, hs) = absurd h
has_reacted-chat_run user emoji who ((now, tx, purges) ∷ es) c (h, hs) = absurd h

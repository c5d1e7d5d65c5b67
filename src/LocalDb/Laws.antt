-- ===== src/LocalDb/Laws.antt =====
-- What a reader of the store sees: the order and the completeness of a channel's messages, and what an
-- edit, a revocation, a deletion and a purge leave.
use genchat.Base.{
  ℕ, String, ◌≡◌, refl, ◌↔◌, ◌⊎◌, true, false, some, List, arith, ◌==◌, eq_iff, In, In-filter_of,
  of_In-filter, IsSorted, In-sort_by_of, of_In-sort_by, sort_by-IsSorted,
}
use genchat.LocalDb.Message.{StoredMessage, fresh}
use genchat.LocalDb.Table.{put, In-put_iff}
use genchat.LocalDb.Store.{
  LocalDb, Tx, completes, resolved, older, valid_messages, get_messages_by_channel, save_message,
  get_pinned_messages, pinned_later, shows_pin,
}

older_total : (a b : StoredMessage) → older a b ≡ false → older b a ≡ true
older_total a b h = ground arith

older_trans : (a b c : StoredMessage) → older a b ≡ true → older b c ≡ true → older a c ≡ true
older_trans a b c h k = ground arith

pinned_later_total : (a b : StoredMessage) → pinned_later a b ≡ false → pinned_later b a ≡ true
pinned_later_total a b h = ground arith

pinned_later_trans :
    (a b c : StoredMessage)
    → pinned_later a b ≡ true
    → pinned_later b c ≡ true
    → pinned_later a c ≡ true
pinned_later_trans a b c h k = ground arith

In-valid_messages :
    (now : ℕ) (channel : String) (t : List StoredMessage) (a : StoredMessage)
    → In a (valid_messages now channel t)
      ↔ (In a t × ((a.channel_id ≡ channel) × (fresh now a ≡ true)))
In-valid_messages now channel t a = (
  λ h.
      let (q, f) = of_In-filter (fresh now) a _ (of_In-sort_by older a _ h) in
      let (r, e) = of_In-filter (λ m. m.channel_id == channel) a t q in (r, ((eq_iff _ _).0 e, f)),
  λ (q, (e, f)). In-sort_by_of older a _ (
      In-filter_of (fresh now) a _
        (In-filter_of (λ m. m.channel_id == channel) a t q ((eq_iff _ _).1 e)) f),
)

-- With IndexedDB and a transaction that completes, `getMessagesByChannel` gives the records of the
-- channel that have not expired, these and no others, the oldest first.
pub get_messages_by_channel_correct :
    (now : ℕ) (channel : String) (d : LocalDb) (t : List StoredMessage)
    → d.db ≡ some t
    → IsSorted older (get_messages_by_channel now channel completes d)
      × ((a : StoredMessage)
          → In a (get_messages_by_channel now channel completes d)
            ↔ (In a t × ((a.channel_id ≡ channel) × (fresh now a ≡ true))))
unfolding get_messages_by_channel
get_messages_by_channel_correct now channel d t e =
    rw e (sort_by-IsSorted older older_total older_trans _, In-valid_messages now channel t)

-- With IndexedDB and transactions that complete, a message that `saveMessage` has stored is among
-- those of its channel as long as it has not expired, and of the others there are those that were
-- there before, except for one with the same id.
pub save-get :
    (m a : StoredMessage) (now later : ℕ) (channel : String) (d : LocalDb) (t : List StoredMessage)
    → d.db ≡ some t
    → ((save_message now m completes d).1 ≡ resolved)
      × (In a (get_messages_by_channel later channel completes (save_message now m completes d).0)
          ↔ (((a ≡ m) ⊎ (In a t × ((a.id == m.id) ≡ false)))
              × ((a.channel_id ≡ channel) × (fresh later a ≡ true))))
unfolding save_message
save-get m a now later channel d t e =
    let got =
      (get_messages_by_channel_correct later channel (record d { db = some (put m t) }) (put m t)
          refl).1
        a in
    rw e (
      refl,
      (
        λ h. let (q, r) = got.0 h in ((In-put_iff m a t).0 q, r),
        λ (q, r). got.1 ((In-put_iff m a t).1 q, r),
      ),
    )

-- `getPinnedMessages` gives, of the messages that `getMessagesByChannel` gives, those that are pinned and
-- not deleted, the latest pin first.
get_pinned_messages_correct :
    (now : ℕ) (channel : String) (tx : Tx) (d : LocalDb)
    → IsSorted pinned_later (get_pinned_messages now channel tx d)
      × ((a : StoredMessage)
          → In a (get_pinned_messages now channel tx d) ↔ (
              In a (get_messages_by_channel now channel tx d)
              × ((a.is_pinned ≡ true) × (a.is_deleted ≡ false))))
unfolding get_pinned_messages
get_pinned_messages_correct now channel tx d = (
  sort_by-IsSorted pinned_later pinned_later_total pinned_later_trans _,
  λ a. (
    λ h.
        let (q, e) = of_In-filter shows_pin a _ (of_In-sort_by pinned_later a _ h) in
        (q, (ground (arith, e), ground (arith, e))),
    λ (q, (e, f)). In-sort_by_of pinned_later a _ (In-filter_of shows_pin a _ q (rw (e, f) refl)),
  ),
)

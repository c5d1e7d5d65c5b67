-- ===== src/ClientDb/Outbox/Pending.antt =====
-- No message stays pending when its delivery has ended.
use mathlib.Core.Option.{some-injective, none-ne-some}
use genchat.Base.{
  ℕ, zero, suc, String, ◌==◌, ◌≡◌, refl, ap, ◌⊎◌, inl, inr, Bool, true, false, not, Option, none,
  some, List, [], ◌∷◌, ◌++◌, nat_eq, length, In, In-append_left, In-append_right, In-filter_of,
  arith, Bool-cases,
}
use genchat.ClientDb.Database.{Message, Status, object, modify, query, create_message, final_id}
use genchat.ClientDb.Outbox.{
  Outbox, Ack, mark, mark_sent, change, dispatch, send, optimistic, awaited, without, delivered,
  refused, reconcile_ack, OutboxEvent, sends, delivers, refuses, reconciles, outbox_step,
  outbox_run,
}

abbrev is_pending : Status → Bool
is_pending Status.pending = true
is_pending _ = false

object-append :
    (n : ℕ) (m x : Message) (os : List Message)
    → object n (os ++ (x ∷ [])) ≡ some m
    → (object n os ≡ some m) ⊎ (n ≡ length os)
object-append zero m x [] e = inr refl
object-append (suc n) m x [] e = absurd (none-ne-some m e)
object-append zero m x (o ∷ os) e = inl e
object-append (suc n) m x (o ∷ os) e = elim (object-append n m x os e) [
  | inl q ↦ inl q
  | inr q ↦ inr (ap suc q)
]

-- A changed object is another one than before only in its place.
object-modify :
    (n k : ℕ) (f : Message → Message) (m : Message) (os : List Message)
    → object n (modify k f os) ≡ some m
    → ((o : Message) × (f o ≡ m)) ⊎ ((object n os ≡ some m) × (nat_eq n k ≡ false))
object-modify n k f m [] e = absurd (none-ne-some m e)
object-modify zero zero f m (o ∷ os) e = inl (o, some-injective (f o) m e)
object-modify zero (suc k) f m (o ∷ os) e = inr (e, ground arith)
object-modify (suc n) zero f m (o ∷ os) e = inr (e, ground arith)
object-modify (suc n) (suc k) f m (o ∷ os) e = elim (object-modify n k f m os e) [
  | inl q ↦ inl q
  | inr (q, d) ↦ inr (q, ground (arith, d))
]

-- Every pending record but one is under way.
record Except (k : ℕ) (o : Outbox) : Type 0 where
  covered :
      (n : ℕ) (m : Message)
      → object n o.messages.objects ≡ some m
      → is_pending m.status ≡ true
      → (n ≡ k) ⊎ In n o.under_way

record Covered (o : Outbox) : Type 0 where
  covers :
      (n : ℕ) (m : Message)
      → object n o.messages.objects ≡ some m
      → is_pending m.status ≡ true
      → In n o.under_way

change-Covered :
    (k : ℕ) (f : Message → Message) (o : Outbox) (u : List ℕ)
    → Except k o
    → ((m : Message) → is_pending (f m).status ≡ false)
    → ((n : ℕ) → In n o.under_way → nat_eq n k ≡ false → In n u)
    → Covered (record (change k f o) { under_way = u })
change-Covered k f o u h never keep = record { covers = going }
  where
    placed : (n : ℕ) → nat_eq n k ≡ false → (n ≡ k) ⊎ In n o.under_way → In n u
    placed n d (inl e) = absurd (ground arith)
    placed n d (inr i) = keep n i d

    going :
        (n : ℕ) (m : Message)
        → object n (modify k f o.messages.objects) ≡ some m
        → is_pending m.status ≡ true
        → In n u
    going n m e q = elim (object-modify n k f m o.messages.objects e) [
      | inl (x, r) ↦ absurd (ground (arith, never x, ap (λ y. is_pending y.status) r, q))
      | inr (r, d) ↦ placed n d (h.covered n m r q)
    ]

weaker : (k : ℕ) (o : Outbox) → Covered o → Except k o
weaker k o h = record { covered = λ n m e q. inr (h.covers n m e q) }

without-keeps : (n k : ℕ) (l : List ℕ) → In n l → nat_eq n k ≡ false → In n (without k l)
without-keeps n k l i d = In-filter_of (λ x. not (nat_eq x k)) n l i (ap not d)

delivered-Covered : (n : ℕ) (ack : Ack) (o : Outbox) → Covered o → Covered (delivered n ack o)
unfolding delivered
delivered-Covered n ack o h = elim (Bool-cases (awaited n o)) [
  | inl e ↦
      rw (delivered, e)
        (change-Covered n (mark_sent ack.sequence_num) o (without n o.under_way) (weaker n o h)
          (λ m. refl) (λ x i d. without-keeps x n o.under_way i d))
  | inr e ↦ rw (delivered, e) h
]

refused-Covered : (n : ℕ) (o : Outbox) → Covered o → Covered (refused n o)
unfolding refused
refused-Covered n o h = elim (Bool-cases (awaited n o)) [
  | inl e ↦
      rw (refused, e)
        (change-Covered n (mark Status.failed) o (without n o.under_way) (weaker n o h) (λ m. refl)
          (λ x i d. without-keeps x n o.under_way i d))
  | inr e ↦ rw (refused, e) h
]

reconcile_ack-Covered : (ack : Ack) (o : Outbox) → Covered o → Covered (reconcile_ack ack o)
unfolding reconcile_ack
reconcile_ack-Covered ack o h =
    going (query (λ m. m.client_msg_id == ack.client_msg_id) o.messages) refl
  where
    going :
        (ns : List ℕ)
        → query (λ m. m.client_msg_id == ack.client_msg_id) o.messages ≡ ns
        → Covered (reconcile_ack ack o)
    going [] e = rw (reconcile_ack, e) h
    going (n ∷ ns) e =
        rw (reconcile_ack, e)
          (change-Covered n (mark_sent ack.sequence_num) o o.under_way (weaker n o h) (λ m. refl)
            (λ x i d. i))

-- A message is made: it alone may be pending without being under way.
create_message-Except :
    (default : String) (x : Message) (o : Outbox)
    → Covered o
    → Except
        (create_message default x o.messages).1
        (record o { messages = (create_message default x o.messages).0 })
unfolding create_message
create_message-Except default x o h = record {
  covered = λ n m e q.
      elim (object-append n m (record x { id = final_id x.id default }) o.messages.objects e) [
        | inl r ↦ inr (h.covers n m r q)
        | inr r ↦ inl r
      ];
}

dispatch-Covered :
    (k : ℕ) (channel id : String) (encrypted : Option (ℕ × String)) (o : Outbox)
    → Except k o
    → Covered (dispatch k channel id encrypted o)
unfolding dispatch
dispatch-Covered k channel id none o h =
    change-Covered k (mark Status.failed) o o.under_way h (λ m. refl) (λ n i d. i)
dispatch-Covered k channel id (some (kind, c)) o h = record {
  covers = λ n m e q. elim (h.covered n m e q) [
    | inl r ↦ In-append_right n o.under_way (k ∷ []) (inl r)
    | inr i ↦ In-append_left n o.under_way (k ∷ []) i
  ];
}

outbox_step-Covered : (e : OutboxEvent) (o : Outbox) → Covered o → Covered (outbox_step e o)
unfolding outbox_step send
outbox_step-Covered (sends client_id default channel sender text encrypted now) o h =
    let x = optimistic client_id channel sender text now in
    dispatch-Covered (create_message default x o.messages).1 channel client_id encrypted
      (record o { messages = (create_message default x o.messages).0 })
      (create_message-Except default x o h)
outbox_step-Covered (delivers n ack) o h = delivered-Covered n ack o h
outbox_step-Covered (refuses n) o h = refused-Covered n o h
outbox_step-Covered (reconciles ack) o h = reconcile_ack-Covered ack o h

outbox_run-Covered : (es : List OutboxEvent) (o : Outbox) → Covered o → Covered (outbox_run es o)
unfolding outbox_run
outbox_run-Covered [] o h = h
outbox_run-Covered (e ∷ es) o h =
    outbox_run-Covered es (outbox_step e o) (outbox_step-Covered e o h)

-- In every run of an outbox that starts without messages, through sends whose encryption throws or not,
-- acknowledgements and rejections of the transport and acknowledgements that arrive by themselves, a
-- message that is pending is one whose delivery is under way: none stays pending when it has ended.
pub outbox_run-pending :
    (es : List OutboxEvent) (o : Outbox) (n : ℕ) (m : Message)
    → o.messages.objects ≡ []
    → object n (outbox_run es o).messages.objects ≡ some m
    → m.status ≡ Status.pending
    → In n (outbox_run es o).under_way
outbox_run-pending es o n m empty e s =
    let start : Covered o = record {
      covers = λ k x q r. absurd (none-ne-some x (rw empty at q));
    } in
    (outbox_run-Covered es o start).covers n m e (ap is_pending s)

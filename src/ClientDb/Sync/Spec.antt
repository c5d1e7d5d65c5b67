-- ===== src/ClientDb/Sync/Spec.antt =====
-- What the reconciler promises: the payloads it is given are applied to the database one after the other.
use mathlib.Core.List.{append_assoc, append-nil}
use genchat.Base.{
  inl, inr, Bool-cases, ℕ, String, ◌≡◌, refl, Option, List, [], ◌∷◌, ◌++◌, map, false, arith,
}
use genchat.ClientDb.Database.{Database}
use genchat.ClientDb.Sync.{
  Payload, Work, idle, creating, counting, Reconciler, Event, enqueues, fires, flushes, proceeds,
  update_rejects, store, count, schedule_batch, enqueue, flush_queue, timer_fires, finish,
}

-- A payload that is applied, with the default id drawn and the clock at its two writes.
pub record Delivery : Type 0 where
  pub payload : Payload
  pub random : String
  pub stored_at : ℕ
  pub counted_at : ℕ

-- The payloads of a run, in the order of their calls.
abbrev pub enqueued : List Event → List Payload
enqueued [] = []
enqueued (enqueues p ∷ es) = p ∷ enqueued es
enqueued (_ ∷ es) = enqueued es

abbrev pub payloads : List Delivery → List Payload
payloads vs = map (λ v. v.payload) vs

-- A run in which no update of a record rejects.
abbrev pub Succeeds : List Event → Type 0
Succeeds [] = Unit
Succeeds (update_rejects ∷ es) = ⊥
Succeeds (_ ∷ es) = Succeeds es

abbrev pub unfinished : Work → List Payload
unfinished idle = []
unfinished (creating n ps) = ps
unfinished (counting n p ps) = p ∷ ps

abbrev pub outstanding : Reconciler → List Payload
outstanding s = unfinished s.work ++ s.queue

pub of_Succeeds :
    (e : Event) (es : List Event) → Succeeds (e ∷ es) → Succeeds (e ∷ []) × Succeeds es
of_Succeeds (enqueues p) es h = (tt, h)
of_Succeeds fires es h = (tt, h)
of_Succeeds flushes es h = (tt, h)
of_Succeeds (proceeds r n) es h = (tt, h)
of_Succeeds update_rejects es h = absurd h

pub enqueued-cons :
    (e : Event) (es : List Event) → enqueued (e ∷ es) ≡ enqueued (e ∷ []) ++ enqueued es
enqueued-cons (enqueues p) es = refl
enqueued-cons fires es = refl
enqueued-cons flushes es = refl
enqueued-cons (proceeds r n) es = refl
enqueued-cons update_rejects es = refl

-- What the calls and the timer do with the payloads outstanding.
module _ (s : Reconciler) where
  schedule_batch-outstanding : outstanding (schedule_batch s) ≡ outstanding s
  schedule_batch-outstanding = ground arith

  pub enqueue-outstanding : (p : Payload) → outstanding (enqueue p s) ≡ outstanding s ++ (p ∷ [])
  unfolding enqueue
  enqueue-outstanding p = ground (arith, append_assoc (unfinished s.work) s.queue (p ∷ []))

  pub enqueue-work : (p : Payload) → ((enqueue p s).work ≡ s.work) × ((enqueue p s).db ≡ s.db)
  unfolding enqueue
  enqueue-work p = ground arith

  pub flush_queue-outstanding : outstanding (flush_queue s) ≡ outstanding s
  unfolding flush_queue
  flush_queue-outstanding = ground (arith, append-nil s.queue)

  pub flush_queue-db : (flush_queue s).db ≡ s.db
  unfolding flush_queue
  flush_queue-db = ground arith

  pub finish-outstanding : (r : Option ℕ) → outstanding (finish r s) ≡ s.queue
  unfolding finish
  finish-outstanding r = ground arith

  pub finish-work : (r : Option ℕ) → ((finish r s).work ≡ idle) × ((finish r s).db ≡ s.db)
  unfolding finish
  finish-work r = ground arith

pub timer_fires-outstanding : (s : Reconciler) → outstanding (timer_fires s) ≡ outstanding s
unfolding timer_fires
timer_fires-outstanding s = elim (Bool-cases s.batch_timer) [
  | inl e ↦ rw (e, timer_fires) (flush_queue-outstanding (record s { batch_timer = false }))
  | inr e ↦ rw (e, timer_fires) refl
]

module _ (decrypt_message : String → String → ℕ → String → Option (List ℕ))
    (decode : List ℕ → String) where
  abbrev pub stored : String → ℕ → Payload → Database → Database
  stored = store decrypt_message decode

  -- A payload is applied at once: its message is created, then its channel is counted up.
  abbrev pub deliver : Delivery → Database → Database
  deliver v d = count v.counted_at v.payload (stored v.random v.stored_at v.payload d)

  abbrev pub deliver_all : List Delivery → Database → Database
  deliver_all [] d = d
  deliver_all (v ∷ vs) d = deliver_all vs (deliver v d)

  -- The database after the deliveries, and, in the middle of a payload, after the first of its writes.
  abbrev pub Reaches : Database → Work → Database → Type 0
  Reaches before idle after = after ≡ before
  Reaches before (creating n ps) after = after ≡ before
  Reaches before (counting n p ps) after =
      (random : String) × (now : ℕ) × (after ≡ stored random now p before)

  pub deliver_all-append :
      (vs : List Delivery) (v : Delivery) (d : Database)
      → deliver_all (vs ++ (v ∷ [])) d ≡ deliver v (deliver_all vs d)
  deliver_all-append [] v d = refl
  deliver_all-append (w ∷ vs) v d = deliver_all-append vs v (deliver w d)

-- ===== src/ClientDb/Sync/Refine.antt =====
-- The reconciler against a database that takes the payloads one after the other.
use mathlib.Core.List.{append_assoc, append-nil, map-append}
use genchat.Base.{
  inl, inr, Bool-cases, ℕ, String, ◌≡◌, refl, sym, ap, ◌∙◌, subst, Option, some, List, [], ◌∷◌,
  ◌++◌, false,
}
use genchat.ClientDb.Database.{Database}
use genchat.ClientDb.Sync.{
  Payload, Work, idle, creating, counting, Reconciler, Event, enqueues, fires, flushes, proceeds,
  update_rejects, count, enqueue, flush_queue, timer_fires, finish, proceed, step, run,
}
use genchat.ClientDb.Sync.Spec.{
  Delivery, enqueued, payloads, Succeeds, outstanding, of_Succeeds, enqueued-cons,
  enqueue-outstanding, enqueue-work, flush_queue-outstanding, finish-outstanding, finish-work,
  timer_fires-outstanding, stored, deliver_all, Reaches, deliver_all-append,
}

module _ (decrypt_message : String → String → ℕ → String → Option (List ℕ))
    (decode : List ℕ → String) where
  abbrev delivered : List Delivery → Database → Database
  delivered = deliver_all decrypt_message decode

  abbrev Reached : Database → Work → Database → Type 0
  Reached = Reaches decrypt_message decode

  abbrev creates : String → ℕ → Payload → Database → Database
  creates = stored decrypt_message decode

  module _ (first : Database) where
    abbrev After : List Delivery → Reconciler → Type 0
    After vs s = Reached (delivered vs first) s.work s.db

    -- What a step is: some deliveries, of what was outstanding or has arrived.
    abbrev Advances : List Delivery → Reconciler → Reconciler → List Payload → Type 0
    Advances vs s t arrived =
        (ws : List Delivery) × After ws t
        × (payloads ws ++ outstanding t ≡ (payloads vs ++ outstanding s) ++ arrived)

    stays :
        (vs : List Delivery) (s t u : Reconciler) (arrived : List Payload)
        → u ≡ t
        → After vs t
        → outstanding t ≡ outstanding s ++ arrived
        → Advances vs s u arrived
    stays vs s t u arrived same h e =
        subst (λ r. Advances vs s r arrived) (sym same)
          (
            vs,
            h,
            ap (λ l. payloads vs ++ l) e ∙ sym (append_assoc (payloads vs) (outstanding s) arrived),
          )

    flush_queue-After :
        (vs : List Delivery) (s : Reconciler) → After vs s → After vs (flush_queue s)
    unfolding flush_queue
    flush_queue-After vs s h = flushing s.work s.queue refl refl h
      where
        flushing :
            (w : Work) (q : List Payload)
            → s.work ≡ w
            → s.queue ≡ q
            → Reached (delivered vs first) w s.db
            → After vs (flush_queue s)
        flushing idle [] e f h = rw (e, f, flush_queue) (rw e h)
        flushing idle (p ∷ ps) e f h = rw (e, f, flush_queue) h
        flushing (creating n ps) q e f h = rw (e, flush_queue) (rw e h)
        flushing (counting n p ps) q e f h = rw (e, flush_queue) (rw e h)

    timer_fires-After :
        (vs : List Delivery) (s : Reconciler) → After vs s → After vs (timer_fires s)
    unfolding timer_fires
    timer_fires-After vs s h = elim (Bool-cases s.batch_timer) [
      | inl e ↦ rw (e, timer_fires) (flush_queue-After vs (record s { batch_timer = false }) h)
      | inr e ↦ rw (e, timer_fires) h
    ]

    proceed-Advances :
        (vs : List Delivery) (s : Reconciler) (random : String) (now : ℕ)
        → After vs s
        → Advances vs s (proceed decrypt_message decode random now s) []
    unfolding proceed
    proceed-Advances vs s random now h = going s.work refl h
      where
        going :
            (w : Work)
            → s.work ≡ w
            → Reached (delivered vs first) w s.db
            → Advances vs s (proceed decrypt_message decode random now s) []
        going idle e h =
            stays vs s s (proceed decrypt_message decode random now s) [] (simp (e, proceed))
              (rw e h) (sym (append-nil _))
        going (creating n []) e h =
            stays vs s (finish (some n) s) (proceed decrypt_message decode random now s) []
              (simp (e, proceed)) (rw ((finish-work s (some n)).0, (finish-work s (some n)).1) h)
              (finish-outstanding s (some n) ∙ rw e (sym (append-nil _)))
        going (creating n (p ∷ ps)) e h =
            stays vs s (record s { work = counting n p ps; db = creates random now p s.db })
              (proceed decrypt_message decode random now s) [] (simp (e, proceed))
              (random, now, ap (creates random now p) h) (rw e (sym (append-nil _)))
        going (counting n p ps) e (random, stored_at, h) =
            let v : Delivery = record {
              payload = p;
              random = random;
              stored_at = stored_at;
              counted_at = now;
            } in
            (
              vs ++ (v ∷ []),
              rw (e, proceed)
                  (ap (count now p) h ∙ sym (deliver_all-append decrypt_message decode vs v first)),
              rw
                  (
                    e,
                    proceed,
                    map-append (λ w. w.payload) vs (v ∷ []),
                    append_assoc (payloads vs) (p ∷ []) (ps ++ s.queue),
                    append-nil (payloads vs ++ (p ∷ (ps ++ s.queue))),
                  )
                  refl,
            )

    step-Advances :
        (vs : List Delivery) (e : Event) (s : Reconciler)
        → Succeeds (e ∷ [])
        → After vs s
        → Advances vs s (step decrypt_message decode e s) (enqueued (e ∷ []))
    unfolding step
    step-Advances vs (enqueues p) s ok h =
        stays vs s (enqueue p s) (enqueue p s) (p ∷ []) refl
          (rw ((enqueue-work s p).0, (enqueue-work s p).1) h) (enqueue-outstanding s p)
    step-Advances vs fires s ok h =
        stays vs s (timer_fires s) (timer_fires s) [] refl (timer_fires-After vs s h)
          (timer_fires-outstanding s ∙ sym (append-nil (outstanding s)))
    step-Advances vs flushes s ok h =
        stays vs s (flush_queue s) (flush_queue s) [] refl (flush_queue-After vs s h)
          (flush_queue-outstanding s ∙ sym (append-nil (outstanding s)))
    step-Advances vs (proceeds random now) s ok h = proceed-Advances vs s random now h
    step-Advances vs update_rejects s ok h = absurd ok

    run-Advances :
        (es : List Event) (vs : List Delivery) (s : Reconciler)
        → Succeeds es
        → After vs s
        → Advances vs s (run decrypt_message decode es s) (enqueued es)
    unfolding run
    run-Advances [] vs s ok h = stays vs s s s [] refl h (sym (append-nil (outstanding s)))
    run-Advances (e ∷ es) vs s ok h =
        let (now, rest) = of_Succeeds e es ok in
        let (ws, k, p) = step-Advances vs e s now h in
        let (us, l, q) = run-Advances es ws (step decrypt_message decode e s) rest k in
        (
          us,
          l,
          q
              ∙ ap (λ x. x ++ enqueued es) p
              ∙ append_assoc (payloads vs ++ outstanding s) (enqueued (e ∷ [])) (enqueued es)
              ∙ ap (λ x. (payloads vs ++ outstanding s) ++ x) (sym (enqueued-cons e es)),
        )

    -- A run without a rejected update, from a reconciler that has nothing to do: there are deliveries, with the
    -- default ids and the clock of the run, whose payloads are the first of those enqueued, in the order of
    -- the calls and each once, and the database is what they make of the first one, one after the other
    -- (with, in the middle of a payload, its message already created); the other payloads are those of
    -- the batch that is left and of the queue.
    pub run-refines :
        (es : List Event) (s : Reconciler)
        → Succeeds es
        → s.work ≡ idle
        → s.queue ≡ []
        → s.db ≡ first
        → let t = run decrypt_message decode es s in
          (vs : List Delivery) × Reached (delivered vs first) t.work t.db
          × (payloads vs ++ outstanding t ≡ enqueued es)
    run-refines es s ok w q d =
        let (vs, h, e) = run-Advances es [] s ok (rw w d) in
        let none_left : outstanding s ≡ [] = rw (w, q) refl in
        (vs, h, e ∙ ap (λ x. x ++ enqueued es) none_left)

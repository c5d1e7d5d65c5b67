-- ===== src/ClientDb/Sync/Live.antt =====
-- Nothing that is enqueued stays in the queue of the reconciler.
use genchat.Base.{
  Bool-cases, inl, inr, ℕ, suc, ◌-◌, ◌*◌, ◌≤◌, String, ◌≡◌, refl, ap, ◌∙◌, Bool, true, false, ◌||◌,
  Option, List, [], ◌∷◌, ◌++◌, length, arith,
}
use genchat.ClientDb.Sync.{
  Payload, Work, idle, creating, counting, Reconciler, Event, enqueues, fires, flushes, proceeds,
  update_rejects, enqueue, flush_queue, timer_fires, finish, proceed, reject_update, step, run,
}

abbrev pub is_empty : List Payload → Bool
is_empty [] = true
is_empty (p ∷ ps) = false

abbrev pub armed : Reconciler → Bool
armed s = elim s.work [ idle ↦ is_empty s.queue || s.batch_timer | _ ↦ true ]

-- Where payloads wait and no flush is going on, a timer is set.
abbrev pub IsArmed : Reconciler → Type 0
IsArmed s = armed s ≡ true

-- How many steps a flush still takes.
abbrev pub remaining : Work → ℕ
remaining idle = 0
remaining (creating n ps) = suc (2 * length ps)
remaining (counting n p ps) = suc (suc (2 * length ps))

-- The flush goes on as far as these draws and clocks last.
abbrev pub goes_on : List (String × ℕ) → List Event
goes_on [] = []
goes_on ((random, now) ∷ rs) = proceeds random now ∷ goes_on rs

-- The end of a flush, the timer, and the flush that it starts.
abbrev pub settling : List (String × ℕ) → List (String × ℕ) → List Event
settling xs ys = goes_on xs ++ (fires ∷ goes_on ys)

module _ (s : Reconciler) where
  enqueue-IsArmed : (p : Payload) → IsArmed s → IsArmed (enqueue p s)
  unfolding enqueue
  enqueue-IsArmed p h = ground arith

  flush_queue-IsArmed : IsArmed (flush_queue s)
  unfolding flush_queue
  flush_queue-IsArmed = ground arith

  finish-IsArmed : (r : Option ℕ) → IsArmed (finish r s)
  unfolding finish
  finish-IsArmed r = ground arith

  finish-queue : (r : Option ℕ) → ((finish r s).work ≡ idle) × ((finish r s).queue ≡ s.queue)
  unfolding finish
  finish-queue r = ground arith

  -- A flush is under way over what is queued when the timer fires.
  timer_fires-remaining :
      IsArmed s
      → s.work ≡ idle
      → ((timer_fires s).queue ≡ []) × (remaining (timer_fires s).work ≤ suc (2 * length s.queue))
  unfolding timer_fires flush_queue
  timer_fires-remaining h e = ground arith

timer_fires-IsArmed : (s : Reconciler) → IsArmed s → IsArmed (timer_fires s)
unfolding timer_fires
timer_fires-IsArmed s h = elim (Bool-cases s.batch_timer) [
  | inl e ↦ rw (e, timer_fires) (flush_queue-IsArmed (record s { batch_timer = false }))
  | inr e ↦ rw (e, timer_fires) h
]

module _ (decrypt_message : String → String → ℕ → String → Option (List ℕ))
    (decode : List ℕ → String) where
  proceed-remaining :
      (s : Reconciler) (random : String) (now : ℕ)
      → (remaining (proceed decrypt_message decode random now s).work ≡ remaining s.work - 1)
        × ((proceed decrypt_message decode random now s).queue ≡ s.queue)
  unfolding proceed
  proceed-remaining s random now = grind (arith, finish-queue)

  step-IsArmed :
      (e : Event) (s : Reconciler) → IsArmed s → IsArmed (step decrypt_message decode e s)
  unfolding step proceed reject_update
  step-IsArmed (enqueues p) s h = enqueue-IsArmed s p h
  step-IsArmed fires s h = timer_fires-IsArmed s h
  step-IsArmed flushes s h = flush_queue-IsArmed s
  step-IsArmed (proceeds random now) s h = grind (arith, finish-IsArmed)
  step-IsArmed update_rejects s h = grind (arith, finish-IsArmed)

  -- In every run, through enqueued payloads, timers, flushes and rejected updates: where payloads wait and
  -- no flush is going on, a timer is set.
  pub run-IsArmed :
      (es : List Event) (s : Reconciler) → IsArmed s → IsArmed (run decrypt_message decode es s)
  unfolding run
  run-IsArmed [] s h = h
  run-IsArmed (e ∷ es) s h = run-IsArmed es (step decrypt_message decode e s) (step-IsArmed e s h)

  goes_on-ends :
      (rs : List (String × ℕ)) (s : Reconciler)
      → remaining s.work ≤ length rs
      → let t = run decrypt_message decode (goes_on rs) s in (t.work ≡ idle) × (t.queue ≡ s.queue)
  unfolding run step
  goes_on-ends [] s h = (idle_of_zero s.work h, refl)
    where
      idle_of_zero : (w : Work) → remaining w ≤ 0 → w ≡ idle
      idle_of_zero idle h = refl
      idle_of_zero (creating n ps) h = absurd (omega arith)
      idle_of_zero (counting n p ps) h = absurd (omega arith)
  goes_on-ends ((random, now) ∷ rs) s h =
      let (less, same) = proceed-remaining s random now in
      let (e, q) =
        goes_on-ends rs (proceed decrypt_message decode random now s) (rw less (omega arith)) in
      (e, q ∙ same)

  pub run-append :
      (es fs : List Event) (s : Reconciler)
      → run decrypt_message decode (es ++ fs) s
        ≡ run decrypt_message decode fs (run decrypt_message decode es s)
  unfolding run
  run-append [] fs s = refl
  run-append (e ∷ es) fs s = run-append es fs (step decrypt_message decode e s)

  pub run-settling :
      (xs ys : List (String × ℕ)) (s : Reconciler)
      → IsArmed s
      → remaining s.work ≤ length xs
      → suc (2 * length s.queue) ≤ length ys
      → let t = run decrypt_message decode (settling xs ys) s in (t.work ≡ idle) × (t.queue ≡ [])
  unfolding run step
  run-settling xs ys s a h k =
      let t = run decrypt_message decode (goes_on xs) s in
      let (e, q) = goes_on-ends xs s h in
      let (none_left, little) = timer_fires-remaining t (run-IsArmed (goes_on xs) s a) e in
      let (f, r) = goes_on-ends ys (timer_fires t) (omega (arith, little, ap length q, k)) in
      rw (run-append (goes_on xs) (fires ∷ goes_on ys) s) (f, r ∙ none_left)

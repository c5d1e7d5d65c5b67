-- ===== src/ClientDb/Sync/Deliver.antt =====
-- Everything that is enqueued is applied in the end.
use mathlib.Core.List.{append-nil}
use genchat.Base.{
  subst, ℕ, suc, ◌*◌, ◌≤◌, String, ◌≡◌, refl, sym, ap, ◌∙◌, Option, List, [], ◌∷◌, ◌++◌, length,
}
use genchat.ClientDb.Sync.{
  idle, Reconciler, Event, enqueues, fires, flushes, proceeds, update_rejects, run,
}
use genchat.ClientDb.Sync.Spec.{
  Delivery, payloads, enqueued, Succeeds, outstanding, deliver_all, Reaches,
}
use genchat.ClientDb.Sync.Refine.{run-refines}
use genchat.ClientDb.Sync.Live.{IsArmed, remaining, run-append, settling, run-settling, run-IsArmed}

module _ (decrypt_message : String → String → ℕ → String → Option (List ℕ))
    (decode : List ℕ → String) where
  enqueued-append : (es fs : List Event) → enqueued (es ++ fs) ≡ enqueued es ++ enqueued fs
  enqueued-append [] fs = refl
  enqueued-append (enqueues p ∷ es) fs = ap (λ l. p ∷ l) (enqueued-append es fs)
  enqueued-append (fires ∷ es) fs = enqueued-append es fs
  enqueued-append (flushes ∷ es) fs = enqueued-append es fs
  enqueued-append (proceeds r n ∷ es) fs = enqueued-append es fs
  enqueued-append (update_rejects ∷ es) fs = enqueued-append es fs

  Succeeds-append : (es fs : List Event) → Succeeds es → Succeeds fs → Succeeds (es ++ fs)
  Succeeds-append [] fs h k = k
  Succeeds-append (enqueues p ∷ es) fs h k = Succeeds-append es fs h k
  Succeeds-append (fires ∷ es) fs h k = Succeeds-append es fs h k
  Succeeds-append (flushes ∷ es) fs h k = Succeeds-append es fs h k
  Succeeds-append (proceeds r n ∷ es) fs h k = Succeeds-append es fs h k
  Succeeds-append (update_rejects ∷ es) fs h k = absurd h

  settling-enqueued :
      (xs ys : List (String × ℕ)) → (enqueued (settling xs ys) ≡ []) × Succeeds (settling xs ys)
  settling-enqueued [] [] = (refl, tt)
  settling-enqueued [] (y ∷ ys) = settling-enqueued [] ys
  settling-enqueued (x ∷ xs) ys = settling-enqueued xs ys

  -- After any run without a rejected update, from a reconciler that has nothing to do: once the flush that
  -- is under way has taken its steps, the timer has fired and the flush that it starts has taken its
  -- steps, nothing waits, and the database is what all payloads that were enqueued make of it, applied
  -- one after the other in the order of the calls, each once. The steps of a flush are at most two for
  -- each payload and one more.
  pub run-delivers :
      (es : List Event) (xs ys : List (String × ℕ)) (s : Reconciler)
      → Succeeds es
      → s.work ≡ idle
      → s.queue ≡ []
      → remaining (run decrypt_message decode es s).work ≤ length xs
      → suc (2 * length (run decrypt_message decode es s).queue) ≤ length ys
      → let t = run decrypt_message decode (es ++ settling xs ys) s in
        (vs : List Delivery) × (t.work ≡ idle)
        × (t.queue ≡ [])
        × (t.db ≡ deliver_all decrypt_message decode vs s.db)
        × (payloads vs ≡ enqueued es)
  run-delivers es xs ys s ok w q h k =
      let (none_new, fine) = settling-enqueued xs ys in
      let t = run decrypt_message decode es s in
      let u = run decrypt_message decode (es ++ settling xs ys) s in
      let same = run-append decrypt_message decode es (settling xs ys) s in
      let armed_first : IsArmed s = rw (w, q) refl in
      let (e, f) =
        run-settling decrypt_message decode xs ys t
          (run-IsArmed decrypt_message decode es s armed_first) h k in
      let (vs, at, all) =
        run-refines decrypt_message decode s.db (es ++ settling xs ys) s
          (Succeeds-append es (settling xs ys) ok fine) w q refl in
      let done : u.work ≡ idle = ap (λ r. r.work) same ∙ e in
      let empty : u.queue ≡ [] = ap (λ r. r.queue) same ∙ f in
      let emptied : outstanding u ≡ [] = rw (done, empty) refl in
      (
        vs,
        done,
        empty,
        subst
            (λ v.
              Reaches decrypt_message decode (deliver_all decrypt_message decode vs s.db) v u.db)
            done at,
        sym (append-nil (payloads vs))
            ∙ ap (λ l. payloads vs ++ l) (sym emptied)
            ∙ all
            ∙ enqueued-append es (settling xs ys)
            ∙ ap (λ l. enqueued es ++ l) none_new
            ∙ append-nil (enqueued es),
      )

-- ===== src/Dispatcher/System/Sequential.antt =====
-- abortAll as one call, against its steps among those of the goroutines.
use mathlib.Core.Path.{subst}
use automationfleet.Base.{
  ℕ, ◌≤◌, length, total, ◌≡◌, refl, sym, ap, ◌∙◌, inl, inr, false, some, List, [], ◌∷◌, ◌++◌,
  String, arith, Option-cases,
}
use automationfleet.Job.{QueuedJob}
use automationfleet.Dispatcher.System.Ownership.{job_weight}
use automationfleet.Dispatcher.System.Invariant.{one, done-some}
use automationfleet.Dispatcher.System.Outcomes.{initial, initial-Inv, Reach-Inv}
use automationfleet.Heap.Laws.{Yields}
use automationfleet.Queue
use automationfleet.Dispatcher.{
  Dispatcher, abort_begin, cancel_one, cancel_pending, close_cdp, abort_all, wait_group_done,
}
use automationfleet.Dispatcher.System.{
  System, settle, ◌⟶◌, abort_begins, abort_cancels, abort_closes, Reach, here, next,
}

module _ (s : System) (alive : s.crashed ≡ false) (reason : String) where
  -- While abortAll runs, with the jobs that it has not cancelled yet.
  abbrev amid : Dispatcher → List QueuedJob → System
  amid d pending = record s { d = d; aborting = pending }

  cancel_step :
      (d d' : Dispatcher) (qj : QueuedJob) (rest : List QueuedJob)
      → cancel_one d reason qj ≡ some d'
      → amid d (qj ∷ rest) ⟶ amid d' rest
  cancel_step d d' qj rest e =
      subst (λ o. amid d (qj ∷ rest) ⟶ settle (amid d rest) o) e (abort_cancels qj rest reason refl)

  cancel_one-stopped :
      (d d' : Dispatcher) (qj : QueuedJob)
      → cancel_one d reason qj ≡ some d'
      → d'.stopped ≡ d.stopped
  unfolding cancel_one
  cancel_one-stopped d d' qj e = elim (Option-cases (wait_group_done d.inflight)) [
    | inl panics ↦ absurd (ground (arith, e))
    | inr (n, fine) ↦ ground (arith, e)
  ]

  cancel_pending-Reach :
      (pending : List QueuedJob) (d d' : Dispatcher)
      → Reach s (amid d pending)
      → cancel_pending d reason pending ≡ some d'
      → Reach s (amid d' []) × (d'.stopped ≡ d.stopped)
  unfolding cancel_pending
  cancel_pending-Reach [] d d' r e =
      let same : d ≡ d' = ground (arith, e) in
      (subst (λ x. Reach s (amid x [])) same r, ap (λ (x : Dispatcher). x.stopped) (sym same))
  cancel_pending-Reach (qj ∷ rest) d d' r e = elim (Option-cases (cancel_one d reason qj)) [
    | inl panics ↦ absurd (ground (arith, e))
    | inr (d2, fine) ↦
        let go_on : cancel_pending d2 reason rest ≡ some d' = ground (arith, e) in
        let (reached, kept) =
          cancel_pending-Reach rest d2 d' (next r alive (cancel_step d d2 qj rest fine)) go_on in
        (reached, kept ∙ cancel_one-stopped d d2 qj fine)
  ]

jobs_weight : (xs : List QueuedJob) → total (job_weight one) xs ≡ length xs
jobs_weight [] = refl
jobs_weight (x ∷ xs) = omega (arith, jobs_weight xs)

-- The wait group counts enough for all of them.
cancel_pending-some :
    (pending : List QueuedJob) (d : Dispatcher) (reason : String)
    → length pending ≤ d.inflight
    → (d' : Dispatcher) × (cancel_pending d reason pending ≡ some d')
unfolding cancel_pending cancel_one
cancel_pending-some [] d reason h = (d, refl)
cancel_pending-some (qj ∷ rest) d reason h =
    let fine = done-some d.inflight (omega arith) in
    rw (fine, cancel_pending) (cancel_pending-some rest _ reason (omega arith))

abort_all-run :
    (s : System) (reason : String) (d : Dispatcher)
    → s.crashed ≡ false
    → s.d.stopped ≡ false
    → s.aborting ≡ []
    → abort_all s.d reason ≡ some d
    → Reach s (record s { d = d })
unfolding abort_all abort_begin
abort_all-run s reason d alive running quiet e =
    let (pending, d1) = abort_begin s.d in
    let began : s ⟶ amid s alive reason d1 pending =
      subst (λ a. s ⟶ amid s alive reason d1 (a ++ pending)) quiet (abort_begins running) in
    elim (Option-cases (cancel_pending d1 reason pending)) [
      | inl panics ↦ absurd (ground (arith, e))
      | inr (d2, fine) ↦
          let (reached, kept) =
            cancel_pending-Reach s alive reason pending d1 d2 (next here alive began) fine in
          let closed : Reach s (amid s alive reason (close_cdp d2) []) =
            next reached alive (abort_closes kept refl) in
          let same : close_cdp d2 ≡ d = ground (arith, e) in
          subst (λ a. Reach s (amid s alive reason d a)) (sym quiet)
            (subst (λ x. Reach s (amid s alive reason x [])) same closed)
    ]

-- The call of abortAll as a whole is a run of the steps that it makes among those of the goroutines:
-- in every state that they reach, without a panic and before abortAll, the call does not panic, and
-- the steps reach the state that it returns.
pub abort_all-Reach :
    (job_seq : ℕ) {s : System} (reason : String)
    → Reach (initial job_seq) s
    → s.crashed ≡ false
    → s.d.stopped ≡ false
    → s.aborting ≡ []
    → Yields (λ d. Reach s (record s { d = d })) (abort_all s.d reason)
unfolding abort_all abort_begin Queue.drain
abort_all-Reach job_seq {s} reason r alive running quiet =
    let v = Reach-Inv (initial-Inv job_seq) r in
    let (d2, fine) =
      cancel_pending-some (abort_begin s.d).0 (abort_begin s.d).1 reason
        (omega (arith, v.counted, jobs_weight s.d.queue.items)) in
    let done : abort_all s.d reason ≡ some (close_cdp d2) = rw fine refl in
    (close_cdp d2, done, abort_all-run s reason (close_cdp d2) alive running quiet done)

-- ===== src/Dispatcher/System/Crash.antt =====
-- What abortAll may do to a native worker that waits to hand a job to the pool.
use automationfleet.Base.{
  ℕ, zero, suc, ◌≡◌, refl, ap, ◌∙◌, inl, inr, true, false, List, ◌∷◌, arith, length, total,
  List-cases,
}
use automationfleet.Job.{QueuedJob}
use automationfleet.Dispatcher.{abort_begin, cancel_one, close_cdp}
use automationfleet.Dispatcher.System.{
  sending, System, settle, ◌⟶◌, sends_on_closed, abort_begins, abort_cancels, abort_closes, Reach,
  here, next,
}
use automationfleet.Dispatcher.System.Ownership.{job_weight}
use automationfleet.Dispatcher.System.Invariant.{Inv, one, cancel-Survives, done-some}
use automationfleet.Dispatcher.System.Outcomes.{initial, initial-Inv, Reach-Inv}

module _ (t : System) (v : Inv t) (b : QueuedJob) (rest : List QueuedJob)
    (e : t.aborting ≡ b ∷ rest) where
  -- The state after one more of the jobs that abortAll took is cancelled.
  abbrev cancelled_one : System
  cancelled_one = settle (record t { aborting = rest }) (cancel_one t.d "" b)

  cancelled_one-frame :
      (cancelled_one.aborting ≡ rest)
      × (cancelled_one.d.stopped ≡ t.d.stopped)
      × (cancelled_one.d.cdp_open ≡ t.d.cdp_open)
      × (cancelled_one.native ≡ t.native)
  unfolding cancel_one
  cancelled_one-frame =
      rw (done-some t.d.inflight (omega (arith, v.counted, ap (total (job_weight one)) e)))
        (refl, refl, refl, refl)

finish_abort :
    (k : ℕ) {s t : System} (qj : QueuedJob)
    → Inv s
    → Reach s t
    → t.crashed ≡ false
    → length t.aborting ≡ k
    → t.d.stopped ≡ true
    → t.d.cdp_open ≡ true
    → t.native ≡ sending qj true
    → (u : System) × Reach s u × (u.crashed ≡ true)
unfolding close_cdp
finish_abort zero {s} {t} qj v r alive size stopped held e =
    let closing = next r alive (abort_closes stopped (grind arith)) in
    (_, next closing alive (sends_on_closed qj e (ground arith)), refl)
finish_abort (suc k) {s} {t} qj v r alive size stopped held e = elim (List-cases t.aborting) [
  | inl none_left ↦ absurd (omega (arith, ap length none_left))
  | inr (b, rest, some_left) ↦
      let w = Reach-Inv v r in
      let frame = cancelled_one-frame t w b rest some_left in
      let step : t ⟶ cancelled_one t w b rest some_left = abort_cancels b rest "" some_left in
      let survives =
        cancel-Survives t w alive t.native t.cdp rest b w.fresh
          (λ g. omega (arith, ap (total (job_weight g)) some_left)) "" in
      finish_abort k qj v (next r alive step) survives.1
        (rw frame.0 (omega (arith, ap length some_left))) (frame.1 ∙ stopped) (frame.2 ∙ held)
        (frame.3 ∙ e)
]

-- A fault of the code: if abortAll begins while the native worker waits in its `select` to hand a
-- job to the pool, which it does as long as the channel is full, then some order of the steps lets
-- the worker send on the closed channel, and the process panics.
pub abort_can_crash :
    (job_seq : ℕ) {s : System} (qj : QueuedJob)
    → Reach (initial job_seq) s
    → s.crashed ≡ false
    → s.d.stopped ≡ false
    → s.d.cdp_open ≡ true
    → s.native ≡ sending qj true
    → (u : System) × Reach s u × (u.crashed ≡ true)
unfolding abort_begin
abort_can_crash job_seq {s} qj reached alive unstopped held e =
    finish_abort _ qj (Reach-Inv (initial-Inv job_seq) reached)
      (next here alive (abort_begins unstopped)) alive refl refl held e

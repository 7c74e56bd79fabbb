-- ===== src/Dispatcher/System/Work/Measure.antt =====
-- How much work is left in a state of the goroutines.
use automationfleet.Base.{
  ℕ, ◌+◌, ◌*◌, ◌≤◌, ◌≡◌, ap, Bool, not, Option, List, ◌∷◌, ◌++◌, ℤ, arith, length, total,
  total-append, Option-cases, inl, inr, if◌then◌else◌, String,
}
use automationfleet.Job.{JobResult, QueuedJob}
use automationfleet.Driver.{BrowserHandle}
use automationfleet.Dispatcher.{complete_job, cancel_one, wait_group_done}
use automationfleet.Dispatcher.System.{
  NativeWorker, absent, waiting, exited, popped, running, sending, CdpWorker, idle, gone, busy,
  System, route, settle,
}

unfoldable pub native_rank : NativeWorker → ℕ
native_rank absent = 0
native_rank exited = 0
native_rank waiting = 1
native_rank (popped qj) = 6
native_rank (running qj) = 5
native_rank (sending qj b) = 5

unfoldable pub cdp_rank : CdpWorker → ℕ
cdp_rank gone = 0
cdp_rank idle = 1
cdp_rank (busy qj) = 3

abbrev pub flag : Bool → ℕ
flag b = if b then 1 else 0

-- The work that is left.
unfoldable pub measure : System → ℕ
unfolding native_rank cdp_rank
measure s =
    6 * length s.d.queue.items
    + native_rank s.native
    + total cdp_rank s.cdp
    + 3 * length s.d.cdp_buffer
    + length s.aborting
    + length s.d.rejections
    + flag s.d.cdp_open
    + flag (not s.cancelled)
    + flag (not s.crashed)

-- The end of a job touches neither the queue nor the channel of the pool.
pub measure_complete :
    (s : System) (qj : QueuedJob) (r : JobResult) (now : ℤ)
    → measure (settle s (complete_job s.d qj r now)) ≤ measure s
unfolding measure complete_job
measure_complete s qj r now = elim (Option-cases (wait_group_done s.d.inflight)) [
  | inl n ↦ ground arith
  | inr (n, e) ↦ ground arith
]

pub measure_cancel :
    (s : System) (qj : QueuedJob) (reason : String)
    → measure (settle s (cancel_one s.d reason qj)) ≤ measure s
unfolding measure cancel_one
measure_cancel s qj reason = elim (Option-cases (wait_group_done s.d.inflight)) [
  | inl n ↦ ground arith
  | inr (n, e) ↦ ground arith
]

pub cdp-rank :
    (s : System) (before after : List CdpWorker) (x y : CdpWorker)
    → s.cdp ≡ before ++ x ∷ after
    → total cdp_rank (before ++ y ∷ after) + cdp_rank x ≡ total cdp_rank s.cdp + cdp_rank y
cdp-rank s before after x y e = omega (
  arith,
  ap (total cdp_rank) e,
  total-append cdp_rank before (x ∷ after),
  total-append cdp_rank before (y ∷ after),
)

pub route-rank :
    (handle : Option BrowserHandle) (b : Bool) (qj : QueuedJob)
    → native_rank (route handle b qj) ≡ 5
unfolding route native_rank
route-rank handle b qj = ground arith

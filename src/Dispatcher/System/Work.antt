-- ===== src/Dispatcher/System/Work.antt =====
-- The steps that the goroutines make on their own, and the work that is left.
mod Measure
unfoldable pub use Measure.*
use automationfleet.Base.{
  ℕ, zero, suc, ◌+◌, ◌*◌, ◌≤◌, ◌<◌, ◌≡◌, refl, ap, Bool, true, false, not, ◌&&◌, ◌||◌, Option, some,
  List, [], ◌∷◌, ◌++◌, ℤ, arith, ◌==◌, length, length-append, length-map, total, total-append,
  Bool-cases, Option-cases, inl, inr, if◌then◌else◌, String,
}
use automationfleet.Heap.Array.{length-perm}
use automationfleet.Heap.Laws.{Yields}
use automationfleet.Job.{JobResult, QueuedJob}
use automationfleet.Driver.{BrowserHandle}
use automationfleet.Queue.{PriorityQueue}
use automationfleet.Queue.Lawful.{unplaced}
use automationfleet.Queue.Order.{IsValid, pop_first}
use automationfleet.Dispatcher.{
  Dispatcher, is_paused, complete_job, cancel_one, close_cdp, wait_group_done,
}
use automationfleet.Dispatcher.System.{
  NativeWorker, absent, waiting, exited, popped, running, sending, CdpWorker, idle, gone, busy,
  System, native_take, route, settle, settle_take, ◌⟶◌, calls, starts, rejects, takes, routes,
  native_completes, sends, sends_on_closed, gives_up, receives, cdp_completes, leaves, abort_begins,
  abort_cancels, abort_closes, cancels, Reach, next, here,
}
use automationfleet.Dispatcher.System.Ownership.{native_take-pop}
use automationfleet.Dispatcher.System.Invariant.{Inv}
use automationfleet.Dispatcher.System.Outcomes.{initial, initial-Inv, Reach-Inv}

-- The native worker waits on the condition variable.
abbrev pub is_asleep : Dispatcher → Bool
is_asleep d = not d.stopped && ((length d.queue.items == 0) || is_paused d)

-- Whether a step is work: not a call from outside, not a wait, and not a repetition. The steps
-- that end a job count as work, so an operation on a browser is taken to return.
unfoldable pub is_work : {s t : System} → s ⟶ t → Bool
is_work (calls e) = false
is_work (starts n new) = false
is_work (rejects before after ch r e) = true
is_work {s} (takes w) = not (is_asleep s.d)
is_work (routes qj handle e) = true
is_work (native_completes qj handle err took now e) = true
is_work (sends qj e closed fits) = true
is_work (sends_on_closed qj e closed) = true
is_work (gives_up qj b took now e c) = true
is_work (receives before after qj rest e b) = true
is_work (cdp_completes before after qj handle err took now e) = true
is_work (leaves before after e b c) = true
is_work (abort_begins r) = false
is_work (abort_cancels qj rest reason e) = true
is_work {s} (abort_closes st e) = s.d.cdp_open
is_work {s} (cancels st c) = not s.cancelled

-- A look at the queue that is no wait takes a job, or ends the worker.
abbrev Works : Dispatcher → NativeWorker × Dispatcher → Type 0
Works d (n, d') =
    (pq : PriorityQueue) × (d' ≡ record d { queue = pq })
    × (6 * length pq.items + native_rank n ≤ 6 * length d.queue.items)

native_take-Works :
    (d : Dispatcher) → IsValid d.queue → is_asleep d ≡ false → Yields (Works d) (native_take d)
unfolding native_take native_rank
native_take-Works d v awake = elim (Bool-cases (length d.queue.items == 0)) [
  | inl empty ↦
      let left : native_take d ≡ some (exited, d) = ground arith in
      ((exited, d), left, (d.queue, refl, omega arith))
  | inr more ↦
      let ((o, pq), e, (qj, taken, v', perm, first)) = pop_first d.queue v (ground arith) in
      (
        (popped qj, record d { queue = pq }),
        native_take-pop d o qj pq awake more e taken,
        (
          pq,
          refl,
          omega (
            arith,
            length-perm perm,
            length-map unplaced pq.items,
            length-map unplaced d.queue.items,
          ),
        ),
      )
]

takes-decreases :
    (s : System)
    → IsValid s.d.queue
    → s.native ≡ waiting
    → is_asleep s.d ≡ false
    → measure (settle_take s (native_take s.d)) < measure s
unfolding measure native_rank
takes-decreases s v w awake =
    let ((n, d'), e, (pq, same, less)) = native_take-Works s.d v awake in
    rw (e, same) (omega (arith, less, ap native_rank w))

closes-decreases :
    (s : System) → s.d.cdp_open ≡ true → measure (record s { d = close_cdp s.d }) < measure s
unfolding measure close_cdp
closes-decreases s e = ground arith

pub step-decreases :
    {s t : System} (st : s ⟶ t)
    → is_work st ≡ true
    → s.crashed ≡ false
    → Inv s
    → measure t < measure s
unfolding is_work measure native_rank cdp_rank
step-decreases (calls e) w alive v = absurd (ground arith)
step-decreases (starts n new) w alive v = absurd (ground arith)
step-decreases {s} (rejects before after ch r e) w alive v =
    omega (arith, ap length e, length-append before ((ch, r) ∷ after), length-append before after)
step-decreases {s} (takes w') w alive v = takes-decreases s v.valid w' (ground arith)
step-decreases {s} (routes qj handle e) w alive v =
    omega (arith, route-rank handle s.d.cdp_open qj, ap native_rank e)
step-decreases {s} (native_completes qj handle err took now e) w alive v =
    omega (arith, measure_complete (record s { native = waiting }) qj _ now, ap native_rank e)
step-decreases {s} (sends qj e closed fits) w alive v =
    omega (arith, length-append s.d.cdp_buffer (qj ∷ []), ap native_rank e)
step-decreases {s} (sends_on_closed qj e closed) w alive v = ground arith
step-decreases {s} (gives_up qj b took now e c) w alive v =
    omega (arith, measure_complete (record s { native = waiting }) qj _ now, ap native_rank e)
step-decreases {s} (receives before after qj rest e b) w alive v =
    omega (arith, cdp-rank s before after idle (busy qj) e, ap length b)
step-decreases {s} (cdp_completes before after qj handle err took now e) w alive v = omega (
  arith,
  measure_complete (record s { cdp = before ++ idle ∷ after }) qj _ now,
  cdp-rank s before after (busy qj) idle e,
)
step-decreases {s} (leaves before after e b c) w alive v =
    omega (arith, cdp-rank s before after idle gone e)
step-decreases (abort_begins r) w alive v = absurd (ground arith)
step-decreases {s} (abort_cancels qj rest reason e) w alive v =
    omega (arith, measure_cancel (record s { aborting = rest }) qj reason, ap length e)
step-decreases {s} (abort_closes st e) w alive v = closes-decreases s (ground arith)
step-decreases {s} (cancels st c) w alive v = ground arith

-- A run of work, with its number of steps. A crash ends it.
pub data WorkRun (s : System) : ℕ → System → Type 0 where
  begun : WorkRun s zero s
  worked :
      {k : ℕ} {t u : System}
      → WorkRun s k t
      → t.crashed ≡ false
      → (st : t ⟶ u) → is_work st ≡ true
      → WorkRun s (suc k) u

pub WorkRun-Reach : {r s t : System} {k : ℕ} → Reach r s → WorkRun s k t → Reach r t
WorkRun-Reach r begun = r
WorkRun-Reach r (worked run alive st w) = next (WorkRun-Reach r run) alive st

measure-run : {s t : System} {k : ℕ} → Inv s → WorkRun s k t → k + measure t ≤ measure s
measure-run v begun = omega arith
measure-run v (worked run alive st w) =
    omega
      (arith, measure-run v run, step-decreases st w alive (Reach-Inv v (WorkRun-Reach here run)))

-- From every state that the goroutines reach, they make at most `measure` steps of work, in any
-- order, until somebody calls them from outside.
pub work_terminates :
    (job_seq k : ℕ) {s t : System} → Reach (initial job_seq) s → WorkRun s k t → k ≤ measure s
work_terminates job_seq k r run = omega (arith, measure-run (Reach-Inv (initial-Inv job_seq) r) run)

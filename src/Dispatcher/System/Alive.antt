-- ===== src/Dispatcher/System/Alive.antt =====
-- What the workers that have ended, or that wait on a nil channel, tell of the state.
use automationfleet.Base.{
  ℕ, zero, suc, ◌+◌, ◌<◌, ◌≡◌, refl, ap, true, false, not, ◌&&◌, ◌||◌, none, some, List, [], ◌∷◌,
  ◌++◌, ℤ, arith, ◌==◌, length, total, total-append, Bool-cases, Option-cases, List-cases, inl, inr,
  String,
}
use automationfleet.Job.{Job, JobResult, QueuedJob}
use automationfleet.Queue
use automationfleet.Queue.{PriorityQueue}
use automationfleet.Dispatcher.{
  new_dispatcher, start, is_paused, enqueue, complete_job, cancel_one, close_cdp, wait_group_done,
  abort_begin,
}
use automationfleet.Dispatcher.Pause.{pause-frame, resume-frame}
use automationfleet.Dispatcher.System.{
  NativeWorker, absent, waiting, exited, sending, CdpWorker, idle, gone, busy, System, External,
  submits, pauses, resumes, external, native_take, route, settle, settle_take, settle_enqueue,
  idle_workers, ◌⟶◌, calls, starts, rejects, takes, routes, native_completes, sends,
  sends_on_closed, gives_up, receives, cdp_completes, leaves, abort_begins, abort_cancels,
  abort_closes, cancels, Reach, next, here,
}
use automationfleet.Dispatcher.System.Outcomes.{initial}

-- 1 for a worker of the pool that has left.
unfoldable pub left : CdpWorker → ℕ
left gone = 1
left _ = 0

-- 1 for a native worker that has ended, and for one that waits on a nil channel.
unfoldable pub ended : NativeWorker → ℕ
ended exited = 1
ended _ = 0

unfoldable pub starved : NativeWorker → ℕ
starved (sending qj false) = 1
starved _ = 0

unfoldable pub unborn : NativeWorker → ℕ
unborn absent = 1
unborn _ = 0

pub record Alive (s : System) : Type 0 where
  pub born : s.d.started ≡ true → unborn s.native ≡ 0
  pub opened : s.d.started ≡ true → s.d.cdp_open ≡ false → s.d.stopped ≡ true
  pub unopened : unborn s.native ≡ 0 → s.d.started ≡ true
  pub unmade : s.d.started ≡ false → (s.d.cdp_closed ≡ false) × (s.d.cdp_open ≡ false)
  pub over : 0 < ended s.native → (s.d.stopped ≡ true) × (s.d.queue.items ≡ [])
  pub nil_chan : 0 < starved s.native → (s.d.stopped ≡ true) × (s.d.cdp_open ≡ false)
  pub shut : s.d.cdp_closed ≡ true → (s.d.stopped ≡ true) × (s.d.cdp_open ≡ false)
  pub none_left : 0 < total left s.cdp → (s.d.cdp_closed ≡ true) × (s.d.cdp_buffer ≡ [])

pub initial-Alive : (job_seq : ℕ) → Alive (initial job_seq)
unfolding new_dispatcher unborn ended starved left
initial-Alive job_seq = ground arith

-- The end of a job changes nothing of this.
complete-Alive :
    (s : System) (qj : QueuedJob) (r : JobResult) (now : ℤ)
    → Alive s
    → Alive (settle s (complete_job s.d qj r now))
unfolding complete_job
complete-Alive s qj r now a = elim (Option-cases (wait_group_done s.d.inflight)) [
  | inl n ↦ ground arith
  | inr (n, e) ↦ ground arith
]

cancel-Alive :
    (s : System) (qj : QueuedJob) (reason : String)
    → Alive s
    → Alive (settle s (cancel_one s.d reason qj))
unfolding cancel_one
cancel-Alive s qj reason a = elim (Option-cases (wait_group_done s.d.inflight)) [
  | inl n ↦ ground arith
  | inr (n, e) ↦ ground arith
]

-- A change of the native worker to one that is neither new, ended nor starved.
working-Alive :
    (s : System) (n : NativeWorker)
    → unborn s.native ≡ 0
    → unborn n ≡ 0
    → ended n ≡ 0
    → starved n ≡ 0
    → Alive s
    → Alive (record s { native = n })
working-Alive s n b u e z a = ground arith

left-total :
    (s : System) (before after : List CdpWorker) (x y : CdpWorker)
    → s.cdp ≡ before ++ x ∷ after
    → total left (before ++ y ∷ after) + left x ≡ total left s.cdp + left y
left-total s before after x y e = omega (
  arith,
  ap (total left) e,
  total-append left before (x ∷ after),
  total-append left before (y ∷ after),
)

idle-left : (n : ℕ) → total left (idle_workers n) ≡ 0
unfolding left
idle-left zero = refl
idle-left (suc n) = omega (arith, idle-left n)

enqueue-Alive :
    (s : System) (j : Job) (now : ℤ) → Alive s → Alive (settle_enqueue s (enqueue s.d j now))
unfolding enqueue
enqueue-Alive s j now a = ground arith

external-Alive : (s : System) (e : External) → Alive s → Alive (external s e)
unfolding external
external-Alive s (submits j now) a = enqueue-Alive s j now a
external-Alive s (pauses reason) a = rw (pause-frame s.d reason) (ground arith)
external-Alive s (resumes reason) a = rw (resume-frame s.d reason) (ground arith)

takes-Alive : (s : System) → s.native ≡ waiting → Alive s → Alive (settle_take s (native_take s.d))
unfolding native_take unborn ended starved
takes-Alive s w a =
    let born : unborn s.native ≡ 0 = rw w refl in
    elim (Bool-cases (not s.d.stopped && ((length s.d.queue.items == 0) || is_paused s.d))) [
      | inl asleep ↦ rw (asleep, native_take) (working-Alive s waiting born refl refl refl a)
      | inr awake ↦ elim (Bool-cases (length s.d.queue.items == 0)) [
        | inl empty ↦ ground (arith, List-cases s.d.queue.items)
        | inr more ↦ elim (Option-cases (Queue.pop s.d.queue)) [
          | inl n ↦ rw (awake, more, n, native_take) (ground arith)
          | inr ((none, pq), e) ↦ rw (awake, more, e, native_take) (ground arith)
          | inr ((some qj, pq), e) ↦ rw (awake, more, e, native_take) (ground arith)
        ]
      ]
    ]

step-Alive : {s t : System} → s ⟶ t → Alive s → Alive t
unfolding start close_cdp abort_begin Queue.drain left ended starved unborn route
step-Alive (calls e) a = external-Alive _ e a
step-Alive (starts n new) a = ground (arith, idle-left n)
step-Alive (rejects before after ch r e) a = ground arith
step-Alive {s} (takes w) a = takes-Alive s w a
step-Alive {s} (routes qj handle e) a = ground (arith, ap unborn e)
step-Alive {s} (native_completes qj handle err took now e) a =
    complete-Alive (record s { native = waiting }) qj _ now
      (working-Alive s waiting (rw e refl) refl refl refl a)
step-Alive {s} (sends qj e closed fits) a = ground (arith, ap unborn e)
step-Alive {s} (sends_on_closed qj e closed) a = ground arith
step-Alive {s} (gives_up qj b took now e c) a =
    complete-Alive (record s { native = waiting }) qj _ now
      (working-Alive s waiting (rw e refl) refl refl refl a)
step-Alive {s} (receives before after qj rest e b) a =
    ground (arith, left-total s before after idle (busy qj) e)
step-Alive {s} (cdp_completes before after qj handle err took now e) a =
    complete-Alive (record s { cdp = before ++ idle ∷ after }) qj _ now
      (ground (arith, left-total s before after (busy qj) idle e))
step-Alive {s} (leaves before after e b c) a = ground arith
step-Alive {s} (abort_begins r) a = ground arith
step-Alive {s} (abort_cancels qj rest reason e) a =
    cancel-Alive (record s { aborting = rest }) qj reason (ground arith)
step-Alive {s} (abort_closes st e) a = ground arith
step-Alive {s} (cancels st c) a = ground arith

pub Reach-Alive : {s t : System} → Alive s → Reach s t → Alive t
Reach-Alive a here = a
Reach-Alive a (next r alive step) = step-Alive step (Reach-Alive a r)

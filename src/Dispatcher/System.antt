-- ===== src/Dispatcher/System.antt =====
-- dispatcher.go: the goroutines around the dispatcher, as one state and its atomic steps. Between
-- two steps every other goroutine may move; the registry of the browsers may change too, so each
-- lookup of a handle takes the answer that its step is given.
pub mod Ownership
pub mod Invariant
pub mod Results
pub mod Steps
pub mod Outcomes
pub mod Final
pub mod Crash
pub mod Work
pub mod Alive
pub mod Progress
pub mod Sequential
pub mod Served
pub mod Finish
pub mod Waiting
use automationfleet.Base.{
  ℕ, zero, suc, ◌<◌, ◌≡◌, String, Bool, true, false, not, ◌&&◌, ◌||◌, Option, none, some, ◌>>=◌,
  List, [], ◌∷◌, ◌++◌, ℤ, ◌==◌, if◌then◌else◌, length,
}
use automationfleet.Action.{Duration, needs_native_critical_section}
use automationfleet.Errors.{GoError, Sentinel, sentinel}
use automationfleet.Job.{Job, JobStatus, JobResult, QueuedJob}
use automationfleet.Driver.{BrowserHandle}
use automationfleet.Queue
use automationfleet.Dispatcher.{
  Dispatcher, is_paused, pause, resume, start, deliver_to, enqueue, complete_job, abort_begin,
  cancel_one, close_cdp, job_status,
}

-- The native worker: before its start, at the head of its loop, with a job popped, running one in
-- the critical section, or sending one to the pool. `sending qj b` waits in the `select`; `b` says
-- whether the field cdpJobs held the channel when the `select` read it.
pub data NativeWorker : Type 0 where
  absent waiting exited : NativeWorker
  popped running : QueuedJob → NativeWorker
  sending : QueuedJob → Bool → NativeWorker

pub data CdpWorker : Type 0 where
  idle gone : CdpWorker
  busy : QueuedJob → CdpWorker

-- `aborting` holds the jobs that abortAll took and has not cancelled yet; `cancelled` is the fleet's
-- context; `crashed` is a panic that nobody recovers.
pub record System : Type 0 where
  pub d : Dispatcher
  pub native : NativeWorker
  pub cdp : List CdpWorker
  pub aborting : List QueuedJob
  pub cancelled : Bool
  pub crashed : Bool

-- The capacity of the channel of the parallel pool.
abbrev pub cdp_capacity : ℕ
cdp_capacity = 64

abbrev pub idle_workers : ℕ → List CdpWorker
idle_workers zero = []
idle_workers (suc n) = idle ∷ idle_workers n

-- The head of the loop of nativeWorker, under the lock: wait, leave, or pop a job.
unfoldable pub native_take : Dispatcher → Option (NativeWorker × Dispatcher)
unfolding Queue.len is_paused
native_take d =
    let empty : Bool = Queue.len d.queue == 0 in
    let take : Option (NativeWorker × Dispatcher) = Queue.pop d.queue >>= λ (o, queue).
    some (elim o [
      | none ↦ (waiting, record d { queue = queue })
      | some qj ↦ (popped qj, record d { queue = queue })
    ]) in
    if not d.stopped && (empty || is_paused d)
    then some (waiting, d)
    else if d.stopped && empty
    then some (exited, d)
    else take

abbrev pub is_native : Option BrowserHandle → Bool
is_native none = false
is_native (some h) = h.native

-- The routing of a popped job, by its action and its browser's handle.
unfoldable pub route : Option BrowserHandle → Bool → QueuedJob → NativeWorker
route handle cdp_open qj =
    if needs_native_critical_section qj.job.action && is_native handle
    then running qj
    else sending qj cdp_open

-- The result of runJob, before completeJob fills in the rest.
unfoldable pub run_result : Option BrowserHandle → Option GoError → Duration → JobResult
unfolding job_status
run_result none err took = record {
  id = 0;
  browser_id = "";
  status = JobStatus.status_failed;
  err = some (sentinel Sentinel.err_unknown_browser);
  took = took;
}
run_result (some h) err took = record {
  id = 0;
  browser_id = "";
  status = job_status err;
  err = err;
  took = took;
}

-- What the native worker reports when the context ends while it waits to send.
unfoldable pub given_up : Duration → JobResult
given_up took = record {
  id = 0;
  browser_id = "";
  status = JobStatus.status_cancelled;
  err = some (sentinel Sentinel.canceled);
  took = took;
}

-- A call on the dispatcher that may panic.
abbrev pub settle : System → Option Dispatcher → System
settle s none = record s { crashed = true }
settle s (some d) = record s { d = d }

abbrev pub settle_take : System → Option (NativeWorker × Dispatcher) → System
settle_take s none = record s { crashed = true }
settle_take s (some (w, d)) = record s { d = d; native = w }

abbrev pub settle_enqueue : System → Option (ℕ × Dispatcher) → System
settle_enqueue s none = record s { crashed = true }
settle_enqueue s (some (ch, d)) = record s { d = d }

-- A call from outside.
pub data External : Type 0 where
  submits : Job → ℤ → External
  pauses resumes : String → External

unfoldable pub external : System → External → System
unfolding enqueue pause resume
external s (submits j now) = settle_enqueue s (enqueue s.d j now)
external s (pauses reason) = record s { d = (pause s.d reason).1 }
external s (resumes reason) = record s { d = (resume s.d reason).1 }

infix 40 ◌⟶◌
pub data ◌⟶◌ (s : System) : System → Type 0 where
  calls : (e : External) → s ⟶ external s e
  starts :
      (n : ℕ)
      → s.d.started ≡ false
      → s ⟶ record s { d = start s.d; native = waiting; cdp = idle_workers n }
  -- the goroutine of a rejected Submit
  rejects :
      (before after : List (ℕ × JobResult)) (ch : ℕ) (r : JobResult)
      → s.d.rejections ≡ before ++ (ch, r) ∷ after
      → s ⟶ record s {
        d = record (s.d) { results = deliver_to s.d.results ch r; rejections = before ++ after };
      }
  takes : s.native ≡ waiting → s ⟶ settle_take s (native_take s.d)
  routes :
      (qj : QueuedJob) (handle : Option BrowserHandle)
      → s.native ≡ popped qj
      → s ⟶ record s { native = route handle s.d.cdp_open qj }
  native_completes :
      (qj : QueuedJob) (handle : Option BrowserHandle) (err : Option GoError) (took now : ℤ)
      → s.native ≡ running qj
      → s
        ⟶ settle
            (record s { native = waiting })
            (complete_job s.d qj (run_result handle err took) now)
  sends :
      (qj : QueuedJob)
      → s.native ≡ sending qj true
      → s.d.cdp_closed ≡ false
      → length s.d.cdp_buffer < cdp_capacity
      → s
        ⟶ record s { d = record (s.d) { cdp_buffer = s.d.cdp_buffer ++ qj ∷ [] }; native = waiting }
  sends_on_closed :
      (qj : QueuedJob)
      → s.native ≡ sending qj true
      → s.d.cdp_closed ≡ true
      → s ⟶ record s { crashed = true }
  gives_up :
      (qj : QueuedJob) (b : Bool) (took now : ℤ)
      → s.native ≡ sending qj b
      → s.cancelled ≡ true
      → s ⟶ settle (record s { native = waiting }) (complete_job s.d qj (given_up took) now)
  receives :
      (before after : List CdpWorker) (qj : QueuedJob) (rest : List QueuedJob)
      → s.cdp ≡ before ++ idle ∷ after
      → s.d.cdp_buffer ≡ qj ∷ rest
      → s ⟶ record s { d = record (s.d) { cdp_buffer = rest }; cdp = before ++ busy qj ∷ after }
  cdp_completes :
      (before after : List CdpWorker) (qj : QueuedJob) (handle : Option BrowserHandle)
      (err : Option GoError) (took now : ℤ)
      → s.cdp ≡ before ++ busy qj ∷ after
      → s
        ⟶ settle
            (record s { cdp = before ++ idle ∷ after })
            (complete_job s.d qj (run_result handle err took) now)
  leaves :
      (before after : List CdpWorker)
      → s.cdp ≡ before ++ idle ∷ after
      → s.d.cdp_buffer ≡ []
      → s.d.cdp_closed ≡ true
      → s ⟶ record s { cdp = before ++ gone ∷ after }
  -- abortAll, which requestStop calls once
  abort_begins :
      s.d.stopped ≡ false
      → s ⟶ record s { d = (abort_begin s.d).1; aborting = s.aborting ++ (abort_begin s.d).0 }
  abort_cancels :
      (qj : QueuedJob) (rest : List QueuedJob) (reason : String)
      → s.aborting ≡ qj ∷ rest
      → s ⟶ settle (record s { aborting = rest }) (cancel_one s.d reason qj)
  abort_closes : s.d.stopped ≡ true → s.aborting ≡ [] → s ⟶ record s { d = close_cdp s.d }
  -- the end of requestStop
  cancels : s.d.stopped ≡ true → s.d.cdp_open ≡ false → s ⟶ record s { cancelled = true }

-- A crash ends the process.
pub data Reach (s : System) : System → Type 0 where
  here : Reach s s
  next : {t u : System} → Reach s t → t.crashed ≡ false → t ⟶ u → Reach s u

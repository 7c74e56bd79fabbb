-- ===== src/Dispatcher.antt =====
-- dispatcher.go: the state that the dispatcher's lock guards, and the calls that change it.
-- `none` is a panic. The channels of the jobs are kept in `results`, and `job.result` is an index
-- there; `rejections` are the deliveries that `enqueue` hands to goroutines of their own. The
-- channel of the parallel pool is made at most once: `cdp_open` says whether the field `cdpJobs`
-- still holds it, `cdp_closed` whether it is closed.
pub mod Pause
pub mod System
use automationfleet.Base.{
  ℕ, zero, suc, ◌+◌, String, Bool, true, false, not, ◌&&◌, ◌||◌, Option, none, some, ◌>>=◌, List,
  [], ◌∷◌, ◌++◌, ℤ, pos, ◌-ℤ◌, eqb_ℤ, str_eq, ltb, ◌==◌, if◌then◌else◌, length, get_elem?, set,
}
use automationfleet.Errors.{GoError, Sentinel, sentinel, errorf, str, error_is}
use automationfleet.Job.{Job, JobStatus, JobResult, QueuedJob, u64, next_job_id}
use automationfleet.Queue.{PriorityQueue}
use automationfleet.Queue

-- A channel for one result.
pub record ResultChan : Type 0 where
  pub buffer : Option JobResult
  pub closed : Bool

pub record Dispatcher : Type 0 where
  pub queue : PriorityQueue
  pub insert_seq : ℕ
  pub started : Bool
  pub stopped : Bool
  pub pause_reasons : List String
  pub inflight : ℕ
  pub cdp_open : Bool
  pub cdp_closed : Bool
  pub cdp_buffer : List QueuedJob
  pub results : List ResultChan
  pub rejections : List (ℕ × JobResult)
  pub job_seq : ℕ

unfoldable pub new_dispatcher : ℕ → Dispatcher
new_dispatcher job_seq = record {
  queue = record { items = [] };
  insert_seq = 0;
  started = false;
  stopped = false;
  pause_reasons = [];
  inflight = 0;
  cdp_open = false;
  cdp_closed = false;
  cdp_buffer = [];
  results = [];
  rejections = [];
  job_seq = job_seq;
}

-- The set of the active pause reasons, without repetition.
unfoldable pub contains : String → List String → Bool
contains r [] = false
contains r (s ∷ rs) = str_eq s r || contains r rs

unfoldable pub insert : String → List String → List String
unfolding contains
insert r rs = if contains r rs then rs else r ∷ rs

unfoldable pub delete : String → List String → List String
delete r [] = []
delete r (s ∷ rs) = if str_eq s r then delete r rs else s ∷ delete r rs

-- `len(d.pauseReasons) > 0`
unfoldable pub is_paused : Dispatcher → Bool
is_paused d = ltb 0 (length d.pause_reasons)

unfoldable pub has_reason : Dispatcher → String → Bool
unfolding contains
has_reason d reason = contains reason d.pause_reasons

-- The answer says whether the dispatcher went from running to paused.
unfoldable pub pause : Dispatcher → String → Bool × Dispatcher
unfolding is_paused insert
pause d reason =
    if d.stopped
    then (false, d)
    else (not (is_paused d), record d { pause_reasons = insert reason d.pause_reasons })

-- The answer says whether the dispatcher went from paused to running.
unfoldable pub resume : Dispatcher → String → Bool × Dispatcher
unfolding is_paused contains delete
resume d reason =
    let d' : Dispatcher = record d { pause_reasons = delete reason d.pause_reasons } in
    if d.stopped
    then (false, d)
    else if not (contains reason d.pause_reasons)
    then (false, d)
    else if is_paused d'
    then (false, d')
    else (true, d')

-- The call makes the channel of the parallel pool; the workers that it starts are not part of this
-- state.
unfoldable pub start : Dispatcher → Dispatcher
start d = if d.started then d else record d { started = true; cdp_open = true }

-- A send to a closed channel panics, and `deliver` recovers; a full buffer drops the result.
unfoldable pub deliver : ResultChan → JobResult → ResultChan
deliver ch r =
    if ch.closed
    then ch
    else record { buffer = elim ch.buffer [ none ↦ some r | some old ↦ some old ]; closed = true }

unfoldable pub deliver_to : List ResultChan → ℕ → JobResult → List ResultChan
unfolding deliver
deliver_to results c r = elim (get_elem? results c) [
  | none ↦ results
  | some ch ↦ set results c (deliver ch r)
]

-- WaitGroup.Done panics below zero.
unfoldable pub wait_group_done : ℕ → Option ℕ
wait_group_done zero = none
wait_group_done (suc n) = some n

-- The answer is the channel on which the result of the job will be delivered.
unfoldable pub enqueue : Dispatcher → Job → ℤ → Option (ℕ × Dispatcher)
enqueue d j now =
    let ch : ℕ = length d.results in
    let results : List ResultChan = d.results ++ record { buffer = none; closed = false } ∷ [] in
    let rejected : JobResult = record {
      id = 0;
      browser_id = j.browser_id;
      status = JobStatus.status_rejected;
      err = some (sentinel Sentinel.err_fleet_stopped);
      took = pos 0;
    } in
    let qj : QueuedJob = record {
      id = next_job_id d.job_seq;
      insert_seq = u64 (d.insert_seq + 1);
      job = j;
      result = ch;
      enqueued = now;
      heap_idx = 0;
    } in
    let accepted : Option (ℕ × Dispatcher) = Queue.push qj d.queue >>= λ queue. some (
      ch,
      record d {
        queue = queue;
        insert_seq = u64 (d.insert_seq + 1);
        job_seq = next_job_id d.job_seq;
        inflight = d.inflight + 1;
        results = results;
      },
    ) in
    if d.stopped
    then some (ch, record d { results = results; rejections = d.rejections ++ (ch, rejected) ∷ [] })
    else accepted

-- Completes the fields of the result, delivers it and counts the job out.
unfoldable pub complete_job : Dispatcher → QueuedJob → JobResult → ℤ → Option Dispatcher
unfolding deliver_to wait_group_done
complete_job d qj r now =
    let took : ℤ = if eqb_ℤ r.took (pos 0) then now -ℤ qj.enqueued else r.took in
    let r' : JobResult = record r { id = qj.id; browser_id = qj.job.browser_id; took = took } in
    wait_group_done d.inflight >>= λ n.
    some (record d { results = deliver_to d.results qj.result r'; inflight = n })

-- abortAll, under the lock: no more jobs, and the pending ones are taken from the queue.
unfoldable pub abort_begin : Dispatcher → List QueuedJob × Dispatcher
abort_begin d =
    let (pending, queue) = Queue.drain d.queue in
    (pending, record d { stopped = true; queue = queue })

-- One round of the loop of abortAll over the jobs that it took.
unfoldable pub cancel_one : Dispatcher → String → QueuedJob → Option Dispatcher
unfolding deliver_to wait_group_done
cancel_one d reason qj =
    let r : JobResult = record {
      id = qj.id;
      browser_id = qj.job.browser_id;
      status = JobStatus.status_cancelled;
      err = some (errorf "aborted: %s" (str reason ∷ []));
      took = pos 0;
    } in
    wait_group_done d.inflight >>= λ n.
    some (record d { results = deliver_to d.results qj.result r; inflight = n })

unfoldable pub cancel_pending : Dispatcher → String → List QueuedJob → Option Dispatcher
unfolding cancel_one
cancel_pending d reason [] = some d
cancel_pending d reason (qj ∷ pending) =
    cancel_one d reason qj >>= λ d'. cancel_pending d' reason pending

-- The end of abortAll closes the channel of the parallel pool.
unfoldable pub close_cdp : Dispatcher → Dispatcher
close_cdp d = if d.cdp_open then record d { cdp_open = false; cdp_closed = true } else d

unfoldable pub abort_all : Dispatcher → String → Option Dispatcher
unfolding abort_begin cancel_pending close_cdp
abort_all d reason =
    let (pending, d') = abort_begin d in
    cancel_pending d' reason pending >>= λ d''. some (close_cdp d'')

-- Whether waitDrained returns; what Add makes of a pending Wait is in Dispatcher/System/Waiting.
unfoldable pub wait_drained : Dispatcher → Bool
wait_drained d = d.inflight == 0

-- The status that runJob reports for the error of the execution.
unfoldable pub job_status : Option GoError → JobStatus
job_status none = JobStatus.status_done
job_status (some e) =
    if error_is (some e) Sentinel.canceled || error_is (some e) Sentinel.deadline_exceeded
    then JobStatus.status_cancelled
    else JobStatus.status_failed

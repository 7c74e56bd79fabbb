-- ===== src/Job.antt =====
-- job.go: jobs, their results, and the record that the queue carries.
use automationfleet.Base.{ℕ, ◌+◌, ◌%◌, ◌^◌, String, Option, none, ℤ, pos}
use automationfleet.Action.{Action, Duration}
use automationfleet.Errors.{GoError}

pub data JobStatus : Type 0 where
  status_done status_failed status_cancelled status_rejected : JobStatus

-- The method String, which calls any other number "unknown".
unfoldable pub status_name : JobStatus → String
status_name status_done = "done"
status_name status_failed = "failed"
status_name status_cancelled = "cancelled"
status_name status_rejected = "rejected"

-- `action` is none for a nil interface.
pub record Job : Type 0 where
  pub browser_id : String
  pub action : Option Action
  pub priority : ℤ
  pub timeout : Duration

pub record JobResult : Type 0 where
  pub id : ℕ
  pub browser_id : String
  pub status : JobStatus
  pub err : Option GoError
  pub took : Duration

-- `result` names the channel of the job; `enqueued` is a reading of the clock.
pub record QueuedJob : Type 0 where
  pub id : ℕ
  pub insert_seq : ℕ
  pub job : Job
  pub result : ℕ
  pub enqueued : ℤ
  pub heap_idx : ℕ

-- uint64 arithmetic wraps.
abbrev pub u64 : ℕ → ℕ
u64 n = n % 2 ^ 64

-- atomic.AddUint64(&jobSeq, 1), which is also the new value of jobSeq.
unfoldable pub next_job_id : ℕ → ℕ
next_job_id job_seq = u64 (job_seq + 1)

-- A job that stands where there is none.
abbrev pub no_job : QueuedJob
no_job = record {
  id = 0;
  insert_seq = 0;
  job = record { browser_id = ""; action = none; priority = pos 0; timeout = pos 0 };
  result = 0;
  enqueued = pos 0;
  heap_idx = 0;
}

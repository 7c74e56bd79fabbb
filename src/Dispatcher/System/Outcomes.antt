-- ===== src/Dispatcher/System/Outcomes.antt =====
-- What the callers of the dispatcher can rely on, over all interleavings of its goroutines.
use automationfleet.Base.{
  ℕ, ◌≤◌, ◌<◌, ◌≡◌, refl, ap, inl, inr, true, false, some, List, [], arith, length, total,
  total_mono, get_elem?,
}
use automationfleet.Job.{JobResult, QueuedJob}
use automationfleet.Queue.Order.{empty-IsValid}
use automationfleet.Dispatcher.{new_dispatcher, wait_drained}
use automationfleet.Dispatcher.System.{
  NativeWorker, absent, popped, running, sending, CdpWorker, idle, gone, busy, System, ◌⟶◌, Reach,
  here, next,
}
use automationfleet.Dispatcher.System.Ownership.{job_weight, native_weight, cdp_weight, load}
use automationfleet.Dispatcher.System.Results.{settled_result}
use automationfleet.Dispatcher.System.Invariant.{Inv, at, one, rejected_at}
use automationfleet.Dispatcher.System.Steps.{IsBroken, step-cases}

-- The dispatcher before its start, with no job.
abbrev pub initial : ℕ → System
initial job_seq = record {
  d = new_dispatcher job_seq;
  native = absent;
  cdp = [];
  aborting = [];
  cancelled = false;
  crashed = false;
}

pub initial-Inv : (job_seq : ℕ) → Inv (initial job_seq)
unfolding new_dispatcher
initial-Inv job_seq = record {
  valid = empty-IsValid;
  fresh = λ h. (refl, refl);
  counted = omega arith;
  owned = λ c. omega arith;
  settled = tt;
}

-- In every state that the goroutines reach from one that meets the invariant, in any order of their
-- steps, it holds: each job is held once and its channel is open, the count of jobs in flight is exact, the queue is valid,
-- and every closed channel holds a result.
pub Reach-Inv : {s t : System} → Inv s → Reach s t → Inv t
Reach-Inv v here = v
Reach-Inv v (next r alive step) = elim (step-cases step (Reach-Inv v r) alive) [
  | inl (v', alive') ↦ v'
  | inr (v', broken) ↦ v'
]

-- A step of the goroutines panics in one way only: the native worker sends a job to the closed
-- channel. The calls of Wait are not among these steps.
pub crash_is_send :
    (job_seq : ℕ) {s t : System}
    → Reach (initial job_seq) s
    → s.crashed ≡ false
    → s ⟶ t
    → t.crashed ≡ true
    → IsBroken s
crash_is_send job_seq r alive step crash =
    elim (step-cases step (Reach-Inv (initial-Inv job_seq) r) alive) [
      | inl (v, alive') ↦ absurd (cc)
      | inr (v, broken) ↦ broken
    ]

at-le : (c k : ℕ) → at c k ≤ 1
at-le c k = ground arith

native-le : (c : ℕ) (n : NativeWorker) → native_weight (at c) n ≤ native_weight one n
native-le c absent = omega arith
native-le c (popped qj) = at-le c qj.result
native-le c (running qj) = at-le c qj.result
native-le c (sending qj b) = at-le c qj.result
native-le c _ = omega arith

cdp-le : (c : ℕ) (x : CdpWorker) → cdp_weight (at c) x ≤ cdp_weight one x
cdp-le c idle = omega arith
cdp-le c gone = omega arith
cdp-le c (busy qj) = at-le c qj.result

load-le : (s : System) (c : ℕ) → load (at c) s ≤ load one s
load-le s c =
    let jobs = λ (xs : List QueuedJob).
      total_mono (job_weight (at c)) (job_weight one) xs (λ qj. at-le c qj.result) in
    omega (
      arith,
      jobs s.d.queue.items,
      jobs s.d.cdp_buffer,
      jobs s.aborting,
      native-le c s.native,
      total_mono (cdp_weight (at c)) (cdp_weight one) s.cdp (cdp-le c),
    )

-- Once Wait returns, since no job is in flight, and the rejections are delivered, the channel of
-- every Submit so far is closed and holds one result.
pub drained_all_done :
    (job_seq : ℕ) {s : System}
    → Reach (initial job_seq) s
    → wait_drained s.d ≡ true
    → s.d.rejections ≡ []
    → (c : ℕ) → c < length s.d.results
    → (r : JobResult) × (get_elem? s.d.results c ≡ some (record { buffer = some r; closed = true }))
unfolding wait_drained
drained_all_done job_seq {s} reach none_left quiet c made =
    let v = Reach-Inv (initial-Inv job_seq) reach in
    let empty : s.d.inflight ≡ 0 = ground arith in
    settled_result s.d.results c v.settled made
      (omega (arith, v.owned c, v.counted, load-le s c, ap (total (rejected_at c)) quiet))

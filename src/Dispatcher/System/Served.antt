-- ===== src/Dispatcher/System/Served.antt =====
-- From Submit to the native worker: in which order a dispatcher serves the jobs that it accepts.
use automationfleet.Base.{
  ℕ, suc, ◌+◌, ◌<◌, ◌^◌, ◌≡◌, refl, ap, ◌∙◌, inl, inr, false, Option, none, some, ◌>>=◌, List, [],
  ◌∷◌, ◌++◌, ℤ, arith, ◌==◌, length, length-append, Bool-cases, Option-cases,
}
use automationfleet.Job.{Job, QueuedJob, next_job_id, u64}
use automationfleet.Queue
use automationfleet.Queue.{PriorityQueue}
use automationfleet.Queue.Order.{pop-empty}
use automationfleet.Queue.Stable.{
  Request, pushed, popped, unplaced_answer, line_answers, queue_answers, Numbered, queue-refines,
}
use automationfleet.Dispatcher.{Dispatcher, ResultChan, new_dispatcher, enqueue, is_paused}
use automationfleet.Dispatcher.System.{NativeWorker, native_take}
use automationfleet.Dispatcher.System

-- A Submit that has passed its checks, at a time of the clock, or a look of the native worker at the
-- queue.
pub data Turn : Type 0 where
  submitted : Job → ℤ → Turn
  looks : Turn

-- The job that a look has taken.
abbrev job_of : NativeWorker → Option QueuedJob
job_of (System.popped qj) = some qj
job_of _ = none

-- What the looks of a sequence of turns take, without the jobs' heap indexes; none is a panic.
unfoldable pub served : Dispatcher → List Turn → Option (List (Option QueuedJob))
served d [] = some []
served d (submitted j now ∷ ts) = enqueue d j now >>= λ (ch, d'). served d' ts
served d (looks ∷ ts) =
    native_take d >>= λ (n, d'). served d' ts >>= λ out. some (unplaced_answer (job_of n) ∷ out)

-- The turns as requests to the queue: the jobs with their numbers, which count up.
unfoldable pub requests : (job_seq insert_seq channels : ℕ) → List Turn → List Request
requests job_seq insert_seq channels [] = []
requests job_seq insert_seq channels (submitted j now ∷ ts) =
    pushed (record {
      id = next_job_id job_seq;
      insert_seq = suc insert_seq;
      job = j;
      result = channels;
      enqueued = now;
      heap_idx = 0;
    })
    ∷ requests (next_job_id job_seq) (suc insert_seq) (suc channels) ts
requests job_seq insert_seq channels (looks ∷ ts) = popped ∷ requests job_seq insert_seq channels ts

requests-Numbered :
    (job_seq insert_seq channels : ℕ) (ts : List Turn)
    → Numbered insert_seq (requests job_seq insert_seq channels ts)
unfolding requests
requests-Numbered job_seq insert_seq channels [] = tt
requests-Numbered job_seq insert_seq channels (submitted j now ∷ ts) =
    (omega arith, requests-Numbered (next_job_id job_seq) (suc insert_seq) (suc channels) ts)
requests-Numbered job_seq insert_seq channels (looks ∷ ts) =
    requests-Numbered job_seq insert_seq channels ts

-- A job that Submit has numbered, and the dispatcher that has taken it.
abbrev numbered : Dispatcher → Job → ℤ → QueuedJob
numbered d j now = record {
  id = next_job_id d.job_seq;
  insert_seq = suc d.insert_seq;
  job = j;
  result = length d.results;
  enqueued = now;
  heap_idx = 0;
}

abbrev holding : Dispatcher → PriorityQueue → Dispatcher
holding d pq = record d {
  queue = pq;
  insert_seq = suc d.insert_seq;
  job_seq = next_job_id d.job_seq;
  inflight = d.inflight + 1;
  results = d.results ++ record { buffer = none; closed = false } ∷ [];
}

enqueue-push :
    (d : Dispatcher) (j : Job) (now : ℤ)
    → d.stopped ≡ false
    → suc d.insert_seq < 2 ^ 64
    → enqueue d j now
      ≡ (Queue.push (numbered d j now) d.queue >>= λ pq. some (length d.results, holding d pq))
unfolding enqueue
enqueue-push d j now running fits =
    let small : u64 (d.insert_seq + 1) ≡ suc d.insert_seq = omega arith in
    rw (running, small, enqueue) refl

-- A look at a queue with jobs.
native_take-look :
    (d : Dispatcher)
    → d.stopped ≡ false
    → is_paused d ≡ false
    → (length d.queue.items == 0) ≡ false
    → native_take d ≡ (
        Queue.pop d.queue >>= λ (o, pq). some (elim o [
          | none ↦ (System.waiting, record d { queue = pq })
          | some qj ↦ (System.popped qj, record d { queue = pq })
        ]))
unfolding native_take
native_take-look d running awake more = rw (running, awake, more, native_take) refl

served-requests :
    (ts : List Turn) (d : Dispatcher)
    → d.stopped ≡ false
    → is_paused d ≡ false
    → d.insert_seq + length ts < 2 ^ 64
    → served d ts ≡ queue_answers (requests d.job_seq d.insert_seq (length d.results) ts) d.queue
unfolding served requests queue_answers enqueue native_take
served-requests [] d running awake fits = refl
served-requests (submitted j now ∷ ts) d running awake fits =
    elim (Option-cases (Queue.push (numbered d j now) d.queue)) [
      | inl panics ↦ rw (enqueue-push d j now running (omega arith), panics) refl
      | inr (pq, e) ↦
          let new : ResultChan = record { buffer = none; closed = false } in
          let one_more : length (d.results ++ new ∷ []) ≡ suc (length d.results) =
            omega (arith, length-append d.results (new ∷ [])) in
          rw (enqueue-push d j now running (omega arith), e)
            (served-requests ts (holding d pq) running awake (omega arith)
              ∙ ap
                  (λ n. queue_answers (requests (next_job_id d.job_seq) (suc d.insert_seq) n ts) pq)
                  one_more)
    ]
served-requests (looks ∷ ts) d running awake fits = elim (Bool-cases (length d.queue.items == 0)) [
  | inl empty ↦
      let waits : native_take d ≡ some (System.waiting, d) = ground arith in
      rw (waits, pop-empty d.queue (ground arith), served-requests ts d running awake (omega arith))
        refl
  | inr more ↦ elim (Option-cases (Queue.pop d.queue)) [
    | inl panics ↦ rw (native_take-look d running awake more, panics) refl
    | inr ((none, pq), e) ↦
        rw (native_take-look d running awake more, e)
          (rw (served-requests ts (record d { queue = pq }) running awake (omega arith)) refl)
    | inr ((some qj, pq), e) ↦
        rw (native_take-look d running awake more, e)
          (rw (served-requests ts (record d { queue = pq }) running awake (omega arith)) refl)
  ]
]

-- From Submit to the native worker: a new dispatcher that is neither stopped nor paused, with fewer
-- than 2^64 turns, in which Submits and looks of the worker come in any order, panics at none of
-- them, and the looks take just the jobs that a stable priority queue hands out.
pub served_in_order :
    (job_seq : ℕ) (ts : List Turn)
    → length ts < 2 ^ 64
    → served (new_dispatcher job_seq) ts ≡ some (line_answers (requests job_seq 0 0 ts) [])
unfolding new_dispatcher is_paused
served_in_order job_seq ts fits =
    served-requests ts (new_dispatcher job_seq) refl refl (omega arith)
    ∙ queue-refines (requests job_seq 0 0 ts) (requests-Numbered job_seq 0 0 ts)

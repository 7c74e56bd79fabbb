-- ===== src/Dispatcher/System/Ownership.antt =====
-- Who holds the accepted jobs: the queue, the channel of the pool, the workers, or abortAll.
-- A weight of the jobs' result channels is summed over all holders; each step's effect on the sum
-- is an equation.
use automationfleet.Base.{
  ℕ, zero, suc, ◌+◌, ◌≡◌, refl, Bool, false, not, ◌&&◌, ◌||◌, Option, some, ◌∷◌, arith, ◌==◌,
  length, total, total-perm, total-map, Perm, Bool-cases, inl, inr,
}
use mathlib.Core.List.Perm
use automationfleet.Heap.Laws.{Yields}
use automationfleet.Job.{QueuedJob}
use automationfleet.Driver.{BrowserHandle}
use automationfleet.Queue.{PriorityQueue}
use automationfleet.Queue
use automationfleet.Queue.Lawful.{jobs, unplaced}
use automationfleet.Queue.Order.{IsValid, pop_first}
use automationfleet.Dispatcher.{Dispatcher, is_paused}
use automationfleet.Dispatcher.System.{
  NativeWorker, absent, waiting, exited, popped, running, sending, CdpWorker, idle, gone, busy,
  System, native_take, route, idle_workers,
}

module _ (w : ℕ → ℕ) where
  abbrev pub job_weight : QueuedJob → ℕ
  job_weight qj = w qj.result

  abbrev pub native_weight : NativeWorker → ℕ
  native_weight absent = 0
  native_weight waiting = 0
  native_weight exited = 0
  native_weight (popped qj) = job_weight qj
  native_weight (running qj) = job_weight qj
  native_weight (sending qj b) = job_weight qj

  abbrev pub cdp_weight : CdpWorker → ℕ
  cdp_weight idle = 0
  cdp_weight gone = 0
  cdp_weight (busy qj) = job_weight qj

  -- The weight of all accepted jobs that have no result yet.
  abbrev pub load : System → ℕ
  load s =
      total job_weight s.d.queue.items
      + total job_weight s.d.cdp_buffer
      + total job_weight s.aborting
      + native_weight s.native
      + total cdp_weight s.cdp

  pub total-unplaced :
      (v w' : PriorityQueue) (qj : QueuedJob)
      → Perm (jobs w') (unplaced qj ∷ jobs v)
      → total job_weight w'.items ≡ job_weight qj + total job_weight v.items
  total-unplaced v w' qj perm = omega (
    arith,
    total-perm job_weight perm,
    total-map job_weight unplaced v.items,
    total-map job_weight unplaced w'.items,
  )

  pub route-weight :
      (handle : Option BrowserHandle) (b : Bool) (qj : QueuedJob)
      → native_weight (route handle b qj) ≡ job_weight qj
  unfolding route
  route-weight handle b qj = ground arith

  pub idle-weight : (n : ℕ) → total cdp_weight (idle_workers n) ≡ 0
  idle-weight zero = refl
  idle-weight (suc n) = omega (arith, idle-weight n)

-- What the worker's look at the queue does: the job that it pops, and no other, moves.
abbrev pub Moved : Dispatcher → NativeWorker × Dispatcher → Type 0
Moved d (n, d') =
    (pq : PriorityQueue) × (d' ≡ record d { queue = pq })
    × IsValid pq
    × ((w : ℕ → ℕ)
        → total (job_weight w) pq.items + native_weight w n ≡ total (job_weight w) d.queue.items)

pub native_take-pop :
    (d : Dispatcher) (o : Option QueuedJob) (qj : QueuedJob) (pq : PriorityQueue)
    → (not d.stopped && ((length d.queue.items == 0) || is_paused d)) ≡ false
    → (length d.queue.items == 0) ≡ false
    → Queue.pop d.queue ≡ some (o, pq)
    → o ≡ some qj
    → native_take d ≡ some (popped qj, record d { queue = pq })
unfolding native_take
native_take-pop d o qj pq awake more e taken =
    rw (awake, more, e, native_take) (rw (taken, native_take) (ground arith))

native_pops :
    (d : Dispatcher)
    → IsValid d.queue
    → (not d.stopped && ((length d.queue.items == 0) || is_paused d)) ≡ false
    → (length d.queue.items == 0) ≡ false
    → Yields (Moved d) (native_take d)
unfolding native_take
native_pops d v awake more =
    let ((o, pq), e, (qj, taken, v', perm, first)) = pop_first d.queue v (ground arith) in
    (
      (popped qj, record d { queue = pq }),
      native_take-pop d o qj pq awake more e taken,
      (pq, refl, v', λ w. omega (arith, total-unplaced w pq d.queue qj (Perm.symm perm))),
    )

pub native_take-moves : (d : Dispatcher) → IsValid d.queue → Yields (Moved d) (native_take d)
unfolding native_take
native_take-moves d v =
    elim (Bool-cases (not d.stopped && ((length d.queue.items == 0) || is_paused d))) [
      | inl asleep ↦
          rw (asleep, native_take) ((waiting, d), refl, (d.queue, refl, v, λ w. omega arith))
      | inr awake ↦ elim (Bool-cases (length d.queue.items == 0)) [
        | inr more ↦ native_pops d v awake more
        | inl empty ↦
            let left : native_take d ≡ some (exited, d) = ground arith in
            ((exited, d), left, (d.queue, refl, v, λ w. omega arith))
      ]
    ]

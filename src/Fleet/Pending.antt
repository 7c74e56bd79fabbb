-- ===== src/Fleet/Pending.antt =====
-- The jobs of a fleet: what Submit accepts, and that no call of the fleet panics.
use automationfleet.Base.{
  ℕ, ◌+◌, ◌≤◌, ◌<◌, ◌-◌, ◌≡◌, refl, ◌∙◌, ◌↔◌, String, true, false, Option, none, some, ◌>>=◌, List,
  [], ◌∷◌, Perm, arith, ℤ, ltb_ℤ, pos, if◌then◌else◌, Bool-cases, Option-cases, if-intro, inl, inr,
  length, length-map,
}
use automationfleet.Heap.Array.{length-perm}
use automationfleet.Heap.Laws.{Yields}
use automationfleet.Action
use automationfleet.Action.{Action, not_positive}
use automationfleet.Job.{Job, QueuedJob}
use automationfleet.Queue
use automationfleet.Queue.{PriorityQueue}
use automationfleet.Queue.Lawful.{jobs, unplaced}
use automationfleet.Queue.Order.{IsValid, empty-IsValid, push-IsValid}
use automationfleet.Dispatcher.System.Invariant.{done-some}
use automationfleet.Dispatcher.{
  Dispatcher, cancel_one, cancel_pending, abort_begin, close_cdp, abort_all, enqueue,
}
use automationfleet.Driver.{BrowserHandle}
use automationfleet.Config.Sane.{IsSane}
use automationfleet.Fleet.{Fleet, handle, check_submit}

-- The queue is valid, and the wait group counts at least its jobs.
pub record IsPending (d : Dispatcher) : Type 0 where
  pub valid : IsValid d.queue
  pub awaited : length d.queue.items ≤ d.inflight

-- Submit accepts a job exactly when its action is present and valid, the fleet is not stopped, and
-- the browser is registered.
pub check_submit_accepts_iff :
    (f : Fleet) (j : Job)
    → ((j' : Job) × (check_submit f j ≡ inr j')) ↔ (
        ((a : Action) × (j.action ≡ some a) × (Action.validate a ≡ none))
        × (f.stopped ≡ false)
        × ((h : BrowserHandle) × (handle f j.browser_id ≡ some h)))
unfolding check_submit
check_submit_accepts_iff f j = elim (Option-cases j.action) [
  | inl n ↦ (λ p. absurd (ground (arith, p)), λ q. absurd (ground (arith, q)))
  | inr (a, o) ↦ elim (Option-cases (Action.validate a)) [
    | inr (e, bad) ↦ (λ p. absurd (ground (arith, p)), λ q. absurd (ground (arith, q)))
    | inl good ↦ elim (Bool-cases f.stopped) [
      | inl halted ↦ (λ p. absurd (ground (arith, p)), λ q. absurd (ground (arith, q)))
      | inr runs ↦ elim (Option-cases (handle f j.browser_id)) [
        | inl n ↦ (λ p. absurd (ground (arith, p)), λ q. absurd (ground (arith, q)))
        | inr (h, known) ↦
            (λ p. ((a, o, good), runs, (h, known)), λ q. accepted a o good runs h known)
      ]
    ]
  ]
]
  where
    accepted :
        (a : Action)
        → j.action ≡ some a
        → Action.validate a ≡ none
        → f.stopped ≡ false
        → (h : BrowserHandle) → handle f j.browser_id ≡ some h
        → (j' : Job) × (check_submit f j ≡ inr j')
    accepted a o good runs h known = (
      if not_positive j.timeout then record j { timeout = f.cfg.default_timeout } else j,
      ground arith,
    )

-- Under a sane configuration, an accepted job has a positive timeout, and else is the job given.
pub check_submit_timeout :
    (f : Fleet) (j j' : Job)
    → IsSane f.cfg
    → check_submit f j ≡ inr j'
    → (ltb_ℤ (pos 0) j'.timeout ≡ true) × (j' ≡ record j { timeout = j'.timeout })
unfolding check_submit
check_submit_timeout f j j' s e = ground arith

pub Yields-bind :
    {A B : Type 0} {P : A → Type 0} (Q : B → Type 0) (o : Option A) (f : A → Option B)
    → Yields P o
    → ((a : A) → P a → Yields Q (f a))
    → Yields Q (o >>= f)
Yields-bind Q none f (a, e, p) g = absurd (ground arith)
Yields-bind Q (some b) f (a, e, p) g = g b (ground arith)

-- One more job in the queue is one more that is awaited.
pushed_awaited :
    (pq pq' : PriorityQueue) (u : QueuedJob) (n : ℕ)
    → length pq.items ≤ n
    → Perm (jobs pq') (u ∷ jobs pq)
    → length pq'.items ≤ n + 1
pushed_awaited pq pq' u n le perm =
    omega (arith, length-perm perm, length-map unplaced pq.items, length-map unplaced pq'.items)

-- The same as to stopping and pausing.
abbrev pub IsHeldAlike : Dispatcher → Dispatcher → Type 0
IsHeldAlike d d' = (d'.stopped ≡ d.stopped) × (d'.pause_reasons ≡ d.pause_reasons)

pub enqueue-IsPending :
    (d : Dispatcher) (j : Job) (now : ℤ)
    → IsPending d
    → Yields (λ r. IsPending r.1 × IsHeldAlike d r.1) (enqueue d j now)
unfolding enqueue
enqueue-IsPending d j now p =
    if-intro (Yields (λ r. IsPending r.1 × IsHeldAlike d r.1)) d.stopped
      (_, refl, (record { valid = p.valid; awaited = p.awaited }, (refl, refl)))
      (Yields-bind _ (Queue.push _ d.queue) _ (push-IsValid _ d.queue p.valid) (λ pq' (v, perm). (
        _,
        refl,
        (
          record { valid = v; awaited = pushed_awaited d.queue pq' _ d.inflight p.awaited perm },
          (refl, refl),
        ),
      )))

-- What taking jobs out of the wait group leaves alone.
abbrev pub IsUnqueued : Dispatcher → Dispatcher → Type 0
IsUnqueued d d' = (d'.queue ≡ d.queue) × IsHeldAlike d d'

cancel_one_counts :
    (d : Dispatcher) (reason : String) (qj : QueuedJob)
    → 0 < d.inflight
    → Yields (λ d'. (d'.inflight ≡ d.inflight - 1) × IsUnqueued d d') (cancel_one d reason qj)
unfolding cancel_one
cancel_one_counts d reason qj h =
    rw (done-some d.inflight h, cancel_one) (_, refl, (refl, (refl, (refl, refl))))

-- The pending jobs are counted out one by one without a panic.
cancel_pending_all :
    (d : Dispatcher) (reason : String) (pending : List QueuedJob)
    → length pending ≤ d.inflight
    → Yields (IsUnqueued d) (cancel_pending d reason pending)
unfolding cancel_pending
cancel_pending_all d reason [] le = (d, refl, (refl, (refl, refl)))
cancel_pending_all d reason (qj ∷ pending) le =
    Yields-bind (IsUnqueued d) (cancel_one d reason qj) (λ d'. cancel_pending d' reason pending)
      (cancel_one_counts d reason qj (omega arith))
      (λ d' (n, (q, (st, pr))).
        let (d'', e, (same, (st', pr'))) = cancel_pending_all d' reason pending (omega arith) in
        (d'', e, (same ∙ q, (st' ∙ st, pr' ∙ pr))))

close_cdp-IsUnqueued : (d : Dispatcher) → IsUnqueued d (close_cdp d)
unfolding close_cdp
close_cdp-IsUnqueued d = ground arith

abbrev pub IsStopped : Dispatcher → Dispatcher → Type 0
IsStopped d d' = (d'.stopped ≡ true) × (d'.pause_reasons ≡ d.pause_reasons)

pub abort_all-IsPending :
    (d : Dispatcher) (reason : String)
    → IsPending d
    → Yields (λ d'. IsPending d' × IsStopped d d') (abort_all d reason)
unfolding abort_all abort_begin Queue.drain
abort_all-IsPending d reason p =
    let begun : Dispatcher = (abort_begin d).1 in
    Yields-bind (λ d'. IsPending d' × IsStopped d d') (cancel_pending begun reason d.queue.items)
      (λ d''. some (close_cdp d'')) (cancel_pending_all begun reason d.queue.items p.awaited)
      (λ d'' (q, (st, pr)).
        let (q', (st', pr')) = close_cdp-IsUnqueued d'' in
        (
          close_cdp d'',
          refl,
          (
            record { valid = rw q' (rw q empty-IsValid); awaited = rw q' (rw q (omega arith)) },
            (st' ∙ st, pr' ∙ pr),
          ),
        ))

-- ===== src/Dispatcher/System/Steps.antt =====
-- Every step of the goroutines keeps the invariant, and only one kind of step panics.
use automationfleet.Base.{
  ℕ, ◌+◌, ◌≡◌, refl, sym, ap, ◌∙◌, ◌⊎◌, inl, inr, true, false, List, [], ◌∷◌, ◌++◌, arith, length,
  total, total-append, length-append, if-intro,
}
use automationfleet.Job.{JobResult, QueuedJob}
use automationfleet.Queue
use automationfleet.Queue.{PriorityQueue}
use automationfleet.Queue.Order.{empty-IsValid}
use automationfleet.Dispatcher.{Dispatcher, start, deliver_to, abort_begin, close_cdp}
use automationfleet.Dispatcher.Pause.{pause-frame, resume-frame}
use automationfleet.Dispatcher.System.{
  absent, waiting, sending, CdpWorker, idle, gone, busy, System, External, submits, pauses, resumes,
  external, native_take, run_result, given_up, settle_take, idle_workers, ◌⟶◌, calls, starts,
  rejects, takes, routes, native_completes, sends, sends_on_closed, gives_up, receives,
  cdp_completes, leaves, abort_begins, abort_cancels, abort_closes, cancels,
}
use automationfleet.Dispatcher.System.Ownership.{
  job_weight, native_weight, cdp_weight, native_take-moves, route-weight, idle-weight,
}
use automationfleet.Dispatcher.System.Results.{
  open_at, open_at-le-one, open_at-deliver_to, AllSettled-deliver_to,
}
use automationfleet.Dispatcher.System.Invariant.{
  Inv, at, rejected_at, move-Inv, Survives, complete-Survives, cancel-Survives, enqueue-Survives,
}

-- A change of the dispatcher that no job and no channel takes part in.
touch-Inv :
    (s : System) (d : Dispatcher)
    → Inv s
    → d.queue ≡ s.d.queue
    → d.started ≡ s.d.started
    → d.inflight ≡ s.d.inflight
    → d.results ≡ s.d.results
    → d.rejections ≡ s.d.rejections
    → d.cdp_buffer ≡ s.d.cdp_buffer
    → Inv (record s { d = d })
touch-Inv s d v q st i r j b =
    move-Inv s (record s { d = d }) v (rw q v.valid) (λ h. v.fresh (sym st ∙ h)) i r j
      (λ w. omega (
        arith,
        ap (λ (x : PriorityQueue). total (job_weight w) x.items) q,
        ap (total (job_weight w)) b,
      ))

external-Survives :
    (s : System) (e : External) → Inv s → s.crashed ≡ false → Survives (external s e)
unfolding external
external-Survives s (submits j now) v alive = enqueue-Survives s v j now alive
external-Survives s (pauses reason) v alive =
    rw (pause-frame s.d reason) (touch-Inv s _ v refl refl refl refl refl refl, alive)
external-Survives s (resumes reason) v alive =
    rw (resume-frame s.d reason) (touch-Inv s _ v refl refl refl refl refl refl, alive)

-- A worker or a list of workers with a job exists only after the start.
started_native : (s : System) {A : Type 0} → Inv s → ¬ (s.native ≡ absent) → s.d.started ≡ false → A
started_native s v h n = absurd (h (v.fresh n).0)

started_cdp :
    (s : System) {A : Type 0} (before after : List CdpWorker) (x : CdpWorker)
    → Inv s
    → s.cdp ≡ before ++ x ∷ after
    → s.d.started ≡ false
    → A
started_cdp s before after x v e n =
    absurd (omega (arith, ap length e, ap length (v.fresh n).1, length-append before (x ∷ after)))

cdp-total :
    (w : ℕ → ℕ) (s : System) (before after : List CdpWorker) (x y : CdpWorker)
    → s.cdp ≡ before ++ x ∷ after
    → total (cdp_weight w) (before ++ y ∷ after) + cdp_weight w x
      ≡ total (cdp_weight w) s.cdp + cdp_weight w y
cdp-total w s before after x y e = omega (
  arith,
  ap (total (cdp_weight w)) e,
  total-append (cdp_weight w) before (x ∷ after),
  total-append (cdp_weight w) before (y ∷ after),
)

starts-Survives :
    (s : System) (n : ℕ)
    → Inv s
    → s.crashed ≡ false
    → s.d.started ≡ false
    → Survives (record s { d = start s.d; native = waiting; cdp = idle_workers n })
unfolding start
starts-Survives s n v alive new = rw new (
  move-Inv s _ v v.valid (λ h. cc) refl refl refl
      (λ w. omega (
        arith,
        idle-weight w n,
        ap (native_weight w) (v.fresh new).0,
        ap (total (cdp_weight w)) (v.fresh new).1,
      )),
  alive,
)

rejects-Survives :
    (s : System) (before after : List (ℕ × JobResult)) (ch : ℕ) (r : JobResult)
    → Inv s
    → s.crashed ≡ false
    → s.d.rejections ≡ before ++ (ch, r) ∷ after
    → Survives (record s {
      d = record (s.d) { results = deliver_to s.d.results ch r; rejections = before ++ after };
    })
rejects-Survives s before after ch r v alive e =
    let sums = λ (c : ℕ).
      let whole : total (rejected_at c) s.d.rejections
          ≡ at c ch + total (rejected_at c) (before ++ after) =
        omega (
          arith,
          ap (total (rejected_at c)) e,
          total-append (rejected_at c) before ((ch, r) ∷ after),
          total-append (rejected_at c) before after,
        ) in
      whole in
    let open_here : open_at s.d.results ch ≡ 1 =
      ground (arith, v.owned ch, sums ch, open_at-le-one s.d.results ch) in
    (
      record {
        valid = v.valid;
        fresh = v.fresh;
        counted = v.counted;
        owned =
            λ c. omega (arith, v.owned c, sums c, open_at-deliver_to s.d.results ch c r open_here);
        settled = AllSettled-deliver_to s.d.results ch r v.settled;
      },
      alive,
    )

takes-Survives :
    (s : System)
    → Inv s
    → s.crashed ≡ false
    → s.native ≡ waiting
    → Survives (settle_take s (native_take s.d))
takes-Survives s v alive w =
    let ((n, d'), e, (pq, same, valid, moved)) = native_take-moves s.d v.valid in
    rw (e, same)
      (
        move-Inv s _ v valid (λ h. started_native s v (λ a. cc) h) refl refl refl
            (λ g. omega (arith, moved g, ap (native_weight g) w)),
        alive,
      )

abort_closes-Inv : (s : System) → Inv s → Inv (record s { d = close_cdp s.d })
unfolding close_cdp
abort_closes-Inv s v =
    if-intro (λ (d : Dispatcher). Inv (record s { d = d })) s.d.cdp_open
      (touch-Inv s _ v refl refl refl refl refl refl) v

abort_begins-Inv :
    (s : System)
    → Inv s
    → Inv (record s { d = (abort_begin s.d).1; aborting = s.aborting ++ (abort_begin s.d).0 })
unfolding abort_begin Queue.drain
abort_begins-Inv s v =
    move-Inv s _ v empty-IsValid v.fresh refl refl refl
      (λ w. omega (arith, total-append (job_weight w) s.aborting s.d.queue.items))

-- What the worker is about to do when it panics: send on the closed channel of the pool.
abbrev pub IsBroken : System → Type 0
IsBroken s = (qj : QueuedJob) × (s.native ≡ sending qj true) × (s.d.cdp_closed ≡ true)

pub step-cases :
    {s t : System} → s ⟶ t → Inv s → s.crashed ≡ false → Survives t ⊎ (Inv t × IsBroken s)
step-cases (calls e) v alive = inl (external-Survives _ e v alive)
step-cases (starts n new) v alive = inl (starts-Survives _ n v alive new)
step-cases (rejects before after ch r e) v alive =
    inl (rejects-Survives _ before after ch r v alive e)
step-cases (takes w) v alive = inl (takes-Survives _ v alive w)
step-cases {s} (routes qj handle e) v alive = inl (
  move-Inv s _ v v.valid (started_native s v (λ a. cc)) refl refl refl
      (λ w. omega (arith, route-weight w handle s.d.cdp_open qj, ap (native_weight w) e)),
  alive,
)
step-cases {s} (native_completes qj handle err took now e) v alive = inl (
    complete-Survives s v alive waiting s.cdp s.aborting qj (started_native s v (λ a. cc))
      (λ w. omega (arith, ap (native_weight w) e)) (run_result handle err took) now)
step-cases {s} (sends qj e closed fits) v alive = inl (
  move-Inv s _ v v.valid (started_native s v (λ a. cc)) refl refl refl (λ w.
      omega (arith, total-append (job_weight w) s.d.cdp_buffer (qj ∷ []), ap (native_weight w) e)),
  alive,
)
step-cases {s} (sends_on_closed qj e closed) v alive =
    inr (move-Inv s _ v v.valid v.fresh refl refl refl (λ w. refl), (qj, e, closed))
step-cases {s} (gives_up qj b took now e c) v alive = inl (
    complete-Survives s v alive waiting s.cdp s.aborting qj (started_native s v (λ a. cc))
      (λ w. omega (arith, ap (native_weight w) e)) (given_up took) now)
step-cases {s} (receives before after qj rest e b) v alive = inl (
  move-Inv s _ v v.valid (started_cdp s before after idle v e) refl refl refl (λ w.
      omega (arith, cdp-total w s before after idle (busy qj) e, ap (total (job_weight w)) b)),
  alive,
)
step-cases {s} (cdp_completes before after qj handle err took now e) v alive = inl (
    complete-Survives s v alive s.native (before ++ idle ∷ after) s.aborting qj
      (started_cdp s before after (busy qj) v e)
      (λ w. omega (arith, cdp-total w s before after (busy qj) idle e)) (run_result handle err took)
      now)
step-cases {s} (leaves before after e b c) v alive = inl (
  move-Inv s _ v v.valid (started_cdp s before after idle v e) refl refl refl
      (λ w. omega (arith, cdp-total w s before after idle gone e)),
  alive,
)
step-cases {s} (abort_begins r) v alive = inl (abort_begins-Inv s v, alive)
step-cases {s} (abort_cancels qj rest reason e) v alive = inl (
    cancel-Survives s v alive s.native s.cdp rest qj v.fresh
      (λ w. omega (arith, ap (total (job_weight w)) e)) reason)
step-cases {s} (abort_closes st e) v alive = inl (abort_closes-Inv s v, alive)
step-cases {s} (cancels st c) v alive =
    inl (move-Inv s _ v v.valid v.fresh refl refl refl (λ w. refl), alive)

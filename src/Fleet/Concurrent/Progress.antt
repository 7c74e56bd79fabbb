-- ===== src/Fleet/Concurrent/Progress.antt =====
-- The concurrent calls return, unless a callback of the watchdog's own loop calls the fleet.
use automationfleet.Base.{
  ℕ, zero, suc, ◌<◌, ◌≡◌, refl, Bool, true, false, ◌⊎◌, inl, inr, none, List, [], ◌∷◌, ◌++◌, arith,
  total, locate, Option-cases, Bool-cases, pos,
}
use automationfleet.Config.{FleetOption}
use automationfleet.Watchdog.{Case}
use automationfleet.Fleet.{Schedule, stop_end}
use automationfleet.Fleet.Concurrent.{
  leaves, aborts, Pc, called, waiting, holding, starting, removing, joining, unlocking, enqueuing,
  aborting, returned, Task, Calls, in_callback, choose, forget, loop_over, task, ◌⟶◌, turns,
  is_refused, enters, lets_in, enqueues, follows, locks, reads, installs, asks, joins, unlocks,
  ends, Reach, here, next, initial,
}
use automationfleet.Fleet.Concurrent.Kept.{enter-watchdog, stop_end-kept}
use automationfleet.Fleet.Concurrent.Weights.{calls, holds}
use automationfleet.Fleet.Concurrent.Invariant.{Inv, Reach-Inv}
use automationfleet.Fleet.Concurrent.Asked.{Asked, Reach-Asked, watch-ends, ask_to_stop-loop_over}
use automationfleet.Fleet.Concurrent.Converged.{open_call}
use automationfleet.Fleet.Concurrent.Steady.{calls_never_panic}
use automationfleet.Fleet.Concurrent.Left.{
  waits_, aborts_, enters_, puts_, work_left, move, choose-left, enter-cases, enter-waits,
  stopping-le, open-le,
}
use automationfleet.Dispatcher

-- A step that leaves less to do, and no callback that calls the fleet; or a panic.
abbrev Lowers : Calls → Calls → Type 0
Lowers s u = (work_left u < work_left s) × (total in_callback u.tasks ≡ 0)

abbrev CanStep : Calls → Type 0
CanStep s = (u : Calls) × (s ⟶ u) × ((u.crashed ≡ true) ⊎ Lowers s u)

abbrev works : Schedule
works = record { hook_ok = true; now = 0; last = [] }

module _ (s : Calls) (a : Asked s) (free : total in_callback s.tasks ≡ 0) where
  -- The call that holds takeoverMu.
  holder_steps :
      (before after : List Task) (o : Bool) (p : Pc)
      → s.tasks ≡ before ++ task o p ∷ after
      → 0 < holds p
      → CanStep s
  holder_steps before after o (holding a') e h =
      let m = move before after o (holding a') (choose s.fleet a') s.tasks e in
      let c = choose-left s.fleet a' in
      (_, reads before after o a' e, inr (ground arith, ground arith))
  holder_steps before after o (starting a') e h =
      let m = move before after o (starting a') (unlocking a') s.tasks e in
      (_, installs before after o a' works e, inr (ground arith, ground arith))
  holder_steps before after o (removing a') e h =
      let m = move before after o (removing a') (joining a') s.tasks e in
      let same = ask_to_stop-loop_over s.fleet in
      (_, asks before after o a' e, inr (ground arith, ground arith))
  holder_steps before after o (joining a') e h = elim (Bool-cases (loop_over s.fleet)) [
    | inl over ↦
        let m = move before after o (joining a') (unlocking a') s.tasks e in
        (_, joins before after o a' e over free, inr (unfold forget in ground arith, ground arith))
    | inr on ↦
        let m = move before after o (joining a') (unlocking a') s.tasks e in
        let ended = watch-ends s.fleet 0 (a (omega (arith, m.joins_at))) in
        (_, turns 0 Case.stopping free, inr (ground arith, free))
  ]
  holder_steps before after o (unlocking leaves) e h =
      let m = move before after o (unlocking leaves) (returned none) s.tasks e in
      (_, unlocks before after o leaves e, inr (ground arith, ground arith))
  holder_steps before after o (unlocking (aborts r)) e h =
      let m = move before after o (unlocking (aborts r)) (aborting r) s.tasks e in
      (_, unlocks before after o (aborts r) e, inr (ground arith, ground arith))
  holder_steps before after o p e h = absurd (ground arith)

  -- Whoever is before takeoverMu.
  waiter_steps :
      (before after : List Task) (o : Bool) (p : Pc)
      → s.locked ≡ false
      → s.tasks ≡ before ++ task o p ∷ after
      → 0 < waits_ p
      → CanStep s
  waiter_steps before after o (waiting a') l e h =
      let m = move before after o (waiting a') (holding a') s.tasks e in
      (_, locks before after o a' e l, inr (ground arith, ground arith))
  waiter_steps before after o p l e h = absurd (ground arith)

  -- Whoever is at the end of requestStop.
  aborter_steps :
      (before after : List Task) (o : Bool) (p : Pc)
      → s.tasks ≡ before ++ task o p ∷ after
      → 0 < aborts_ p
      → CanStep s
  aborter_steps before after o (aborting r) e h =
      let m = move before after o (aborting r) (returned none) s.tasks e in
      elim (Option-cases (stop_end s.fleet r)) [
        | inl panics ↦ (_, ends before after o r e, inl (rw panics refl))
        | inr (f, ended) ↦
            let k = stop_end-kept s.fleet f r ended in
            (_, ends before after o r e, rw ended (inr (ground arith, ground arith)))
      ]
  aborter_steps before after o p e h = absurd (ground arith)

  -- Whoever is before the queue.
  enqueuer_steps :
      (before after : List Task) (o : Bool) (p : Pc)
      → s.tasks ≡ before ++ task o p ∷ after
      → 0 < puts_ p
      → CanStep s
  enqueuer_steps before after o (enqueuing j) e h =
      let m = move before after o (enqueuing j) (returned none) s.tasks e in
      elim (Option-cases (Dispatcher.enqueue (s.fleet.dispatcher) j (pos 0))) [
        | inl panics ↦ (_, enqueues before after o j (pos 0) e, inl (rw panics refl))
        | inr ((ch, d), put) ↦
            (_, enqueues before after o j (pos 0) e, rw put (inr (ground arith, ground arith)))
      ]
  enqueuer_steps before after o p e h = absurd (ground arith)

  -- Whoever has just been called, while nobody is further.
  caller_steps :
      (before after : List Task) (o : Bool) (p : Pc)
      → Inv s
      → (calls waits_ s.tasks ≡ 0) × (calls holds s.tasks ≡ 0) × (calls aborts_ s.tasks ≡ 0)
      → s.tasks ≡ before ++ task o p ∷ after
      → 0 < enters_ p
      → CanStep s
  caller_steps before after o (called c) v idle e h = elim (enter-cases s.fleet c) [
    | inl (err, said) ↦
        let m = move before after o (called c) (returned err) s.tasks e in
        (_, is_refused before after o c err e said, inr (ground arith, ground arith))
    | inr (inl (f, a', said)) ↦
        let m = move before after o (called c) (waiting a') s.tasks e in
        let same = enter-watchdog s.fleet f c a' said in
        (_, enters before after o c f a' e said, inr (ground arith, ground arith))
    | inr (inr (inl (j, said))) ↦
        let m = move before after o (called c) (enqueuing j) s.tasks e in
        (_, lets_in before after o c j e said, inr (ground arith, ground arith))
    | inr (inr (inr said)) ↦
        let m = move before after o (called c) (returned none) s.tasks e in
        let over : s.stop_over ≡ true =
          ground (arith, enter-waits s.fleet c said, v.one_stop, stopping-le s.tasks) in
        (_, follows before after o c e said over, inr (ground arith, ground arith))
  ]
  caller_steps before after o p v idle e h = absurd (ground arith)

  -- While a call is open, somebody can do a step.
  somebody_steps : Inv s → (total open_call s.tasks ≡ 0) ⊎ CanStep s
  somebody_steps v = elim (locate (λ t. holds t.pc) s.tasks) [
    | inr (before, after, t, e, h) ↦ inr (holder_steps before after t.on_loop t.pc e h)
    | inl held ↦ elim (locate (λ t. waits_ t.pc) s.tasks) [
      | inr (before, after, t, e, h) ↦
          inr (waiter_steps before after t.on_loop t.pc (ground (arith, v.one_holder)) e h)
      | inl waiting_ ↦ elim (locate (λ t. aborts_ t.pc) s.tasks) [
        | inr (before, after, t, e, h) ↦ inr (aborter_steps before after t.on_loop t.pc e h)
        | inl aborting_ ↦ elim (locate (λ t. enters_ t.pc) s.tasks) [
          | inr (before, after, t, e, h) ↦
              inr (caller_steps before after t.on_loop t.pc v (waiting_, held, aborting_) e h)
          | inl called_ ↦ elim (locate (λ t. puts_ t.pc) s.tasks) [
            | inr (before, after, t, e, h) ↦ inr (enqueuer_steps before after t.on_loop t.pc e h)
            | inl put ↦
                inl (omega (arith, open-le s.tasks, held, waiting_, aborting_, called_, put))
          ]
        ]
      ]
    ]
  ]

abbrev Ends : Calls → Type 0
Ends s = (u : Calls) × Reach s u × (total open_call u.tasks ≡ 0)

go_on :
    (n : ℕ) (opts : List FleetOption) (job_seq : ℕ) {s t : Calls}
    → work_left t < n
    → Reach (initial opts job_seq) t
    → Reach s t
    → total in_callback t.tasks ≡ 0
    → Ends s
go_on zero opts job_seq less r run free = absurd (omega arith)
go_on (suc n) opts job_seq {s} {t} less r run free =
    let alive = calls_never_panic opts job_seq r in
    elim (somebody_steps t (Reach-Asked opts job_seq r) free (Reach-Inv opts job_seq r)) [
      | inl over ↦ (t, run, over)
      | inr (u, st, inl panicked) ↦
          absurd (ground (arith, calls_never_panic opts job_seq (next r alive st), panicked))
      | inr (u, st, inr (lower, free')) ↦
          go_on n opts job_seq (omega (arith, lower, less)) (next r alive st) (next run alive st)
            free'
    ]

-- Register, Unregister, Submit and requestStop do not block one another: from every state that the
-- goroutines reach, in which no callback of the watchdog is calling the fleet, some run without a
-- panic ends where all of them have returned.
pub calls_return :
    (opts : List FleetOption) (job_seq : ℕ) {s : Calls}
    → Reach (initial opts job_seq) s
    → total in_callback s.tasks ≡ 0
    → (u : Calls) × Reach s u × (total open_call u.tasks ≡ 0)
calls_return opts job_seq {s} r free =
    go_on (suc (work_left s)) opts job_seq (omega arith) r here free

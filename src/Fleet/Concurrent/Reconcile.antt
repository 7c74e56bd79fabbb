-- ===== src/Fleet/Concurrent/Reconcile.antt =====
-- A reconciliation as a whole, and the steps that it makes when no other call interferes.
use mathlib.Core.Path.{subst}
use automationfleet.Base.{
  ℕ, ◌≡◌, refl, sym, ◌∙◌, ap, Bool, true, false, not, ◌||◌, none, some, List, [], ◌∷◌, map, arith,
  total, Option-cases, inl, inr,
}
use automationfleet.Watchdog
use automationfleet.Watchdog.{Watchdog, Case, Signal, loop, Happening}
use automationfleet.Fleet.{
  Fleet, Schedule, watch, stopping_history, start_takeover, stop_takeover, stop_watchdog,
  reconcile_takeover, is_installed,
}
use automationfleet.Fleet.Concurrent.{
  alone, After, waiting, holding, removing, joining, unlocking, Task, Calls, in_callback, choose,
  resumed, loop_over, ask_to_stop, forget, task, turns, locks, reads, installs, asks, joins,
  unlocks, Reach, here, next,
}
use automationfleet.Fleet.Concurrent.Invariant.{choose-cases}
use automationfleet.Fleet.Takeover.{stopping_history-done}
use automationfleet.Fleet.Concurrent.History.{
  with_watchdog, watch_all, watch_all-history, watch_all-append,
}

pub Reach-trans : {s t u : Calls} → Reach s t → Reach t u → Reach s u
Reach-trans r here = r
Reach-trans r (next q alive st) = next (Reach-trans r q) alive st

turns_run :
    (f : Fleet) (locked over refused : Bool) (tasks : List Task)
    → total in_callback tasks ≡ 0
    → (last : List (ℕ × Case))
    → Reach
        (alone f locked over refused tasks)
        (alone (watch_all f (map (λ (t, c). (t, loop c)) last)) locked over refused tasks)
unfolding watch_all
turns_run f locked over refused tasks free [] = here
turns_run f locked over refused tasks free ((t, c) ∷ last) =
    Reach-trans (next here refl (turns t c free))
      (turns_run (watch f t (loop c)) locked over refused tasks free last)

-- What the loop makes of a fleet that has asked its watchdog to stop, and what is left of it then.
asked_all : Fleet → Schedule → Fleet
asked_all f s = watch_all (ask_to_stop f) (stopping_history s.now s.last)

asked_all-eq :
    (f : Fleet) (s : Schedule) (w : Watchdog)
    → f.watchdog ≡ some w
    → (loop_over (asked_all f s) ≡ true) × (forget (asked_all f s) ≡ stop_takeover f s)
unfolding asked_all ask_to_stop forget stop_takeover stop_watchdog
asked_all-eq f s w e =
    let hs : List (ℕ × Happening) = stopping_history s.now s.last in
    let w' : Watchdog = Watchdog.request_stop w in
    let quiet : Fleet = record f { hook = false } in
    let asked : ask_to_stop f ≡ with_watchdog quiet (some w') = ground arith in
    let same = ap (λ g. watch_all g hs) asked ∙ watch_all-history quiet w' hs in
    let over = stopping_history-done w' s.now s.last (unfold Watchdog.request_stop in refl) in
    let stopped : stop_takeover f s
        ≡ record (stop_watchdog quiet w s.now s.last) { watchdog = none } =
      ground arith in
    (rw same over, ap forget same ∙ sym stopped)

removal_run :
    (f : Fleet) (s : Schedule) (over refused o : Bool) (a : After) (rest : List Task)
    → is_installed f ≡ true
    → total in_callback (task o (removing a) ∷ rest) ≡ 0
    → Reach
        (alone f true over refused (task o (removing a) ∷ rest))
        (alone (stop_takeover f s) true over refused (task o (unlocking a) ∷ rest))
unfolding asked_all
removal_run f s over refused o a rest i free = elim (Option-cases f.watchdog) [
  | inl n ↦ absurd (ground arith)
  | inr (w, e) ↦
      let (done, same) = asked_all-eq f s w e in
      let tasks : List Task = task o (joining a) ∷ rest in
      let asked : Reach _ (alone (ask_to_stop f) true over refused tasks) =
        next here refl (asks [] rest o a refl) in
      let turned = turns_run (ask_to_stop f) true over refused tasks free s.last in
      let turned' = next turned refl (turns s.now Case.stopping free) in
      let end = sym (
        watch_all-append (ask_to_stop f) (map (λ (t, c). (t, loop c)) s.last) s.now
          (loop Case.stopping)) in
      let drained : Reach _ (alone (asked_all f s) true over refused tasks) =
        subst
          (λ g.
            Reach (alone (ask_to_stop f) true over refused tasks) (alone g true over refused tasks))
          end turned' in
      let joined : Reach (alone (asked_all f s) true over refused tasks) _ =
        next here refl (joins [] rest o a refl done free) in
      subst
        (λ g.
          Reach (alone f true over refused (task o (removing a) ∷ rest))
            (alone g true over refused (task o (unlocking a) ∷ rest)))
        same (Reach-trans (Reach-trans asked drained) joined)
]

-- What is left of a reconciliation once the choice is made.
chosen_run :
    (f : Fleet) (s : Schedule) (over refused : Bool) (a : After) (rest : List Task)
    → total in_callback rest ≡ 0
    → (r : Bool) × Reach
        (alone f true over refused (task false (choose f a) ∷ rest))
        (alone (reconcile_takeover f s) true over r (task false (unlocking a) ∷ rest))
chosen_run f s over refused a rest free = elim (choose-cases f a) [
  | inl (e, w, i) ↦
      let same : start_takeover f s ≡ reconcile_takeover f s =
        unfold reconcile_takeover in ground arith in
      let r : Bool = refused || not s.hook_ok in
      rw e (rw (sym same) (r, next here refl (installs [] rest false a s refl)))
  | inr (inl (e, w, i)) ↦
      let same : stop_takeover f s ≡ reconcile_takeover f s =
        unfold reconcile_takeover in ground arith in
      rw e (rw (sym same) (refused, removal_run f s over refused false a rest i (ground arith)))
  | inr (inr (e, i)) ↦
      let same : f ≡ reconcile_takeover f s = unfold reconcile_takeover in ground arith in
      rw e (rw (sym same) (refused, here))
]

pub reconcile_run :
    (f : Fleet) (s : Schedule) (over refused : Bool) (a : After) (rest : List Task)
    → total in_callback rest ≡ 0
    → (r : Bool) × Reach
        (alone f false over refused (task false (waiting a) ∷ rest))
        (alone (reconcile_takeover f s) false over r (task false (resumed a) ∷ rest))
reconcile_run f s over refused a rest free =
    let (r, run) = chosen_run f s over refused a rest free in
    let locked : Reach (alone f false over refused (task false (waiting a) ∷ rest))
        (alone f true over refused (task false (holding a) ∷ rest)) =
      next here refl (locks [] rest false a refl refl) in
    let read : Reach (alone f false over refused (task false (waiting a) ∷ rest))
        (alone f true over refused (task false (choose f a) ∷ rest)) =
      next locked refl (reads [] rest false a refl) in
    (r, next (Reach-trans read run) refl (unlocks [] rest false a refl))

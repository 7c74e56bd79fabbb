-- ===== src/Fleet/Concurrent/Sequential.antt =====
-- The calls of a fleet as a whole, and the steps that they make when no other call interferes.
use mathlib.Core.Path.{subst}
use automationfleet.Base.{
  ◌≡◌, refl, sym, ◌∙◌, Bool, true, false, Option, none, some, List, [], ◌∷◌, arith, ℤ, ◌>>=◌, total,
  Option-cases, inl, inr,
}
use automationfleet.Errors.{GoError}
use automationfleet.Dispatcher
use automationfleet.Fleet.{
  Fleet, Schedule, stop_end, reconcile_takeover, register, unregister, submit, request_stop,
}
use automationfleet.Fleet.Invariant.{reconcile_takeover-IsKept}
use automationfleet.Fleet.Concurrent.{
  alone, Entry, settle_end, settle_enqueue, leaves, aborts, Call, After, waiting, called, enqueuing,
  aborting, changes, refuses, accepts, waits, enter, enters, is_refused, lets_in, enqueues, follows,
  ends, returned, Task, Calls, in_callback, resumed, task, Reach, here, next, ◌⟶◌,
}
use automationfleet.Fleet.Concurrent.Kept.{enter-Entered, stop_end-kept}
use automationfleet.Fleet.Concurrent.Reconcile.{Reach-trans, reconcile_run}

-- A call of a fleet as a whole: its error, if any, and the fleet after it; none is a panic.
unfoldable pub call_alone : Fleet → Call → Schedule → ℤ → Option (Option GoError × Fleet)
unfolding register unregister submit request_stop
call_alone f (Call.registers h) s now = some (register f h s)
call_alone f (Call.unregisters id) s now = some (unregister f id s)
call_alone f (Call.submits j) s now = submit f j now >>= λ (answer, f').
    some (elim answer [ inl e ↦ (some e, f') | inr ch ↦ (none, f') ])
call_alone f (Call.stops reason) s now = request_stop f reason s >>= λ f'. some (none, f')

-- The steps of a call that takes the lock of the registry first and then reconciles.
entered_run :
    (f f' : Fleet) (c : Call) (s : Schedule) (over refused : Bool) (a : After) (rest : List Task)
    → total in_callback rest ≡ 0
    → enter f c ≡ changes f' a
    → (r : Bool) × Reach
        (alone f false over refused (task false (called c) ∷ rest))
        (alone (reconcile_takeover f' s) false over r (task false (resumed a) ∷ rest))
entered_run f f' c s over refused a rest free e =
    let (r, run) = reconcile_run f' s over refused a rest free in
    let entered : Reach (alone f false over refused (task false (called c) ∷ rest))
        (alone f' false over refused (task false (waiting a) ∷ rest)) =
      next here refl (enters [] rest false c f' a refl e) in
    (r, Reach-trans entered run)

-- What a call makes of its first section.
abbrev after_entry : After → Fleet → Option (Option GoError × Fleet)
after_entry leaves f = some (none, f)
after_entry (aborts reason) f = stop_end f reason >>= λ f'. some (none, f')

abbrev settled : Fleet → Schedule → ℤ → Entry → Option (Option GoError × Fleet)
settled f s now (refuses e) = some (e, f)
settled f s now (changes f' a) = after_entry a (reconcile_takeover f' s)
settled f s now (accepts j) =
    Dispatcher.enqueue f.dispatcher j now >>= λ (ch, d). some (none, record f { dispatcher = d })
settled f s now waits = some (none, f)

call_alone-settled :
    (f : Fleet) (c : Call) (s : Schedule) (now : ℤ)
    → call_alone f c s now ≡ settled f s now (enter f c)
unfolding call_alone register unregister submit request_stop enter
call_alone-settled f (Call.registers h) s now = ground arith
call_alone-settled f (Call.unregisters id) s now = ground arith
call_alone-settled f (Call.submits j) s now = ground arith
call_alone-settled f (Call.stops reason) s now = ground arith

enter-waits : (f : Fleet) (c : Call) → enter f c ≡ waits → f.once ≡ true
unfolding enter
enter-waits f (Call.registers h) e = absurd (ground arith)
enter-waits f (Call.unregisters id) e = absurd (ground arith)
enter-waits f (Call.submits j) e = absurd (ground arith)
enter-waits f (Call.stops reason) e = ground arith

-- The steps of a call alone.
Runs : Fleet → Call → Bool → List Task → Option GoError → Fleet → Type 0
Runs f c refused rest e g =
    (r : Bool) × Reach (alone f false f.once refused (task false (called c) ∷ rest))
      (alone g false g.once r (task false (returned e) ∷ rest))

relabel :
    {s : Calls} {g g' : Fleet} {over r : Bool} {rest : List Task} {e e' : Option GoError}
    → Reach s (alone g false over r (task false (returned e) ∷ rest))
    → g ≡ g'
    → over ≡ g'.once
    → e ≡ e'
    → Reach s (alone g' false g'.once r (task false (returned e') ∷ rest))
relabel {s} {g' = g'} {over = over} {r = r} {rest = rest} {e = e} run same once quiet =
    let moved =
      subst (λ x. Reach s (alone x false over r (task false (returned e) ∷ rest))) same run in
    let ended =
      subst (λ o. Reach s (alone g' false o r (task false (returned e) ∷ rest))) once moved in
    subst (λ x. Reach s (alone g' false g'.once r (task false (returned x) ∷ rest))) quiet ended

changed_run :
    (f f' g : Fleet) (c : Call) (s : Schedule) (refused : Bool) (a : After) (rest : List Task)
    (e : Option GoError)
    → total in_callback rest ≡ 0
    → enter f c ≡ changes f' a
    → after_entry a (reconcile_takeover f' s) ≡ some (e, g)
    → Runs f c refused rest e g
unfolding Runs
changed_run f f' g c s refused leaves rest e free entry out =
    let (r, run) = entered_run f f' c s f.once refused leaves rest free entry in
    let same : reconcile_takeover f' s ≡ g = ground arith in
    let quiet : none ≡ e = ground arith in
    let once : f.once ≡ g.once =
      ground (arith, enter-Entered f f' c leaves entry, reconcile_takeover-IsKept f' s) in
    (r, relabel run same once quiet)
changed_run f f' g c s refused (aborts reason) rest e free entry out =
    let (r, run) = entered_run f f' c s f.once refused (aborts reason) rest free entry in
    elim (Option-cases (stop_end (reconcile_takeover f' s) reason)) [
      | inl n ↦ absurd (ground arith)
      | inr (g', n) ↦
          let same : g' ≡ g = ground arith in
          let quiet : none ≡ e = ground arith in
          let once : true ≡ g.once = ground (
            arith,
            enter-Entered f f' c (aborts reason) entry,
            reconcile_takeover-IsKept f' s,
            stop_end-kept (reconcile_takeover f' s) g' reason n,
          ) in
          let left : Calls =
            alone (reconcile_takeover f' s) false f.once r (task false (aborting reason) ∷ rest) in
          let end : Calls =
            alone (reconcile_takeover f' s) false f.once r (task false (returned none) ∷ rest) in
          let step : left ⟶ settle_end left end (some g') =
            subst (λ o. left ⟶ settle_end left end o) n (ends [] rest false reason refl) in
          (r, relabel (next run refl step) same once quiet)
    ]

entry_run :
    (f g : Fleet) (c : Call) (s : Schedule) (now : ℤ) (refused : Bool) (rest : List Task)
    (e : Option GoError) (entry : Entry)
    → total in_callback rest ≡ 0
    → enter f c ≡ entry
    → settled f s now entry ≡ some (e, g)
    → Runs f c refused rest e g
unfolding Runs
entry_run f g c s now refused rest e (refuses x) free same out = (
  refused,
  relabel (next here refl (is_refused [] rest false c x refl same)) (ground arith) (ground arith)
      (ground arith),
)
entry_run f g c s now refused rest e (changes f' a) free same out =
    changed_run f f' g c s refused a rest e free same out
entry_run f g c s now refused rest e (accepts j) free same out =
    elim (Option-cases (Dispatcher.enqueue f.dispatcher j now)) [
      | inl n ↦ absurd (ground arith)
      | inr ((ch, d), n) ↦
          let left : Calls = alone f false f.once refused (task false (enqueuing j) ∷ rest) in
          let end : Calls = alone f false f.once refused (task false (returned none) ∷ rest) in
          let begun : Reach (alone f false f.once refused (task false (called c) ∷ rest)) left =
            next here refl (lets_in [] rest false c j refl same) in
          let step : left ⟶ settle_enqueue left end (some (ch, d)) =
            subst (λ o. left ⟶ settle_enqueue left end o) n (enqueues [] rest false j now refl) in
          (refused, relabel (next begun refl step) (ground arith) (ground arith) (ground arith))
    ]
entry_run f g c s now refused rest e waits free same out = (
  refused,
  relabel (next here refl (follows [] rest false c refl same (enter-waits f c same))) (ground arith)
      (ground arith) (ground arith),
)

-- A call of Register, Unregister, Submit or requestStop that does not panic as a whole, made while no
-- other call moves and no callback runs, goes by its own steps, those of the watchdog's loop among
-- them, to its return with the error and the fleet of the call as a whole.
pub calls_alone :
    (f g : Fleet) (c : Call) (s : Schedule) (now : ℤ) (refused : Bool) (rest : List Task)
    (e : Option GoError)
    → total in_callback rest ≡ 0
    → call_alone f c s now ≡ some (e, g)
    → (r : Bool) × Reach
        (alone f false f.once refused (task false (called c) ∷ rest))
        (alone g false g.once r (task false (returned e) ∷ rest))
unfolding Runs
calls_alone f g c s now refused rest e free out =
    entry_run f g c s now refused rest e (enter f c) free refl
      (sym (call_alone-settled f c s now) ∙ out)

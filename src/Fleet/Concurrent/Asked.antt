-- ===== src/Fleet/Concurrent/Asked.antt =====
-- The loop for whose end a call waits has been asked to end.
use automationfleet.Base.{
  ℕ, ◌+◌, ◌≤◌, ◌<◌, ◌≡◌, refl, Bool, true, none, some, List, [], ◌∷◌, ◌++◌, arith, Option-cases,
  inl, inr,
}
use automationfleet.Config.{FleetOption}
use automationfleet.Dispatcher
use automationfleet.Watchdog
use automationfleet.Watchdog.{Watchdog, Case, moved, timed_out, Signal, Happening, mouse_move, loop}
use automationfleet.Fleet.{Fleet, watch, stop_end}
use automationfleet.Fleet.Takeover.{signal_all-IsSameBut, pause-IsSameBut, resume-IsSameBut}
use automationfleet.Fleet.Concurrent.{
  leaves, aborts, Pc, called, waiting, holding, starting, removing, joining, unlocking, enqueuing,
  aborting, returned, Task, Calls, ask_to_stop, forget, loop_over, task, Aside, mouse, pauses,
  unpauses, aside, ◌⟶◌, begins, happens, turns, calls_back, is_refused, enters, lets_in, enqueues,
  follows, locks, reads, installs, asks, joins, unlocks, ends, Reach, here, next, initial,
}
use automationfleet.Fleet.Concurrent.Kept.{enter-Entered, stop_end-kept}
use automationfleet.Fleet.Concurrent.Weights.{calls, holds, starts, exchange, counts_at}
use automationfleet.Fleet.Concurrent.Invariant.{Inv, Reach-Inv, choose-cases}

-- 1 for a call that waits for the end of the loop.
abbrev pub joins_ : Pc → ℕ
joins_ (joining a) = 1
joins_ _ = 0

abbrev pub is_asked : Fleet → Bool
is_asked f = elim f.watchdog [ none ↦ true | some w ↦ w.stop_requested ]

happen-asked :
    (w : Watchdog) (now : ℕ) (c : Case)
    → (Watchdog.happen w now (loop c)).0.stop_requested ≡ w.stop_requested
unfolding Watchdog.happen Watchdog.expire Watchdog.is_ready Watchdog.run_case
happen-asked w now moved = ground arith
happen-asked w now timed_out = ground arith
happen-asked w now Case.stopping = ground arith

happen-ends :
    (w : Watchdog) (now : ℕ)
    → w.stop_requested ≡ true
    → (Watchdog.happen w now (loop Case.stopping)).0.done ≡ true
unfolding Watchdog.happen Watchdog.expire Watchdog.is_ready Watchdog.run_case
happen-ends w now e = ground arith

watch-watchdog :
    (f : Fleet) (w : Watchdog) (now : ℕ) (h : Happening)
    → f.watchdog ≡ some w
    → (watch f now h).watchdog ≡ some (Watchdog.happen w now h).0
unfolding watch
watch-watchdog f w now h e =
    let happened : Watchdog × List Signal = Watchdog.happen w now h in
    let same = signal_all-IsSameBut (record f { watchdog = some happened.0 }) happened.1 in
    ground arith

watch-is_asked : (f : Fleet) (now : ℕ) (c : Case) → is_asked (watch f now (loop c)) ≡ is_asked f
watch-is_asked f now c = elim (Option-cases f.watchdog) [
  | inl n ↦ unfold watch in ground arith
  | inr (w, o) ↦ ground (arith, watch-watchdog f w now (loop c) o, happen-asked w now c)
]

aside-is_asked : (f : Fleet) (e : Aside) → is_asked (aside f e) ≡ is_asked f
aside-is_asked f (mouse now) = elim (Option-cases f.watchdog) [
  | inl n ↦ unfold aside watch in ground arith
  | inr (w, o) ↦
      unfold aside Watchdog.happen Watchdog.expire Watchdog.notify in
      ground (arith, watch-watchdog f w now mouse_move o)
]
aside-is_asked f (pauses reason) =
    let same = pause-IsSameBut f reason in unfold aside in ground arith
aside-is_asked f (unpauses reason) =
    let same = resume-IsSameBut f reason in unfold aside in ground arith

ask_to_stop-is_asked : (f : Fleet) → is_asked (ask_to_stop f) ≡ true
unfolding ask_to_stop Watchdog.request_stop
ask_to_stop-is_asked f = ground arith

pub ask_to_stop-loop_over : (f : Fleet) → loop_over (ask_to_stop f) ≡ loop_over f
unfolding ask_to_stop Watchdog.request_stop
ask_to_stop-loop_over f = ground arith

-- The case that ends a loop that was asked to end.
pub watch-ends :
    (f : Fleet) (now : ℕ) → is_asked f ≡ true → loop_over (watch f now (loop Case.stopping)) ≡ true
watch-ends f now e = elim (Option-cases f.watchdog) [
  | inl n ↦ unfold watch in ground arith
  | inr (w, o) ↦ ground (arith, watch-watchdog f w now (loop Case.stopping) o, happen-ends w now)
]

joins_-le : (xs : List Task) → calls joins_ xs + calls starts xs ≤ calls holds xs
joins_-le [] = omega arith
joins_-le (x ∷ xs) = omega (arith, one x.pc, joins_-le xs)
  where
    one : (p : Pc) → joins_ p + starts p ≤ holds p
    one (joining a) = omega arith
    one (starting a) = omega arith
    one p = ground arith

-- A call that moves from `x` to `y`.
moved_joins :
    (before after : List Task) (o : Bool) (x y : Pc) (tasks : List Task)
    → tasks ≡ before ++ task o x ∷ after
    → calls joins_ (before ++ task o y ∷ after) + joins_ x ≡ calls joins_ tasks + joins_ y
moved_joins before after o x y = exchange (λ t. joins_ t.pc) before after (task o x) (task o y)

abbrev pub Asked : Calls → Type 0
Asked s = 0 < calls joins_ s.tasks → is_asked s.fleet ≡ true

step-Asked : {s t : Calls} → s ⟶ t → Inv s → Asked s → Asked t
step-Asked (begins c) v a = ground arith
step-Asked {s} (happens e) v a = ground (arith, aside-is_asked s.fleet e)
step-Asked {s} (turns now c free) v a = ground (arith, watch-is_asked s.fleet now c)
step-Asked {s} (calls_back now case c free fires) v a =
    ground (arith, watch-is_asked s.fleet now case)
step-Asked {s} (is_refused before after o c e at_ said) v a =
    ground (arith, moved_joins before after o (called c) (returned e) s.tasks at_)
step-Asked {s} (enters before after o c f leaves at_ said) v a =
    let k = enter-Entered s.fleet f c leaves said in
    ground (arith, moved_joins before after o (called c) (waiting leaves) s.tasks at_)
step-Asked {s} (enters before after o c f (aborts r) at_ said) v a =
    let k = enter-Entered s.fleet f c (aborts r) said in
    ground (arith, moved_joins before after o (called c) (waiting (aborts r)) s.tasks at_)
step-Asked {s} (lets_in before after o c j at_ said) v a =
    ground (arith, moved_joins before after o (called c) (enqueuing j) s.tasks at_)
step-Asked {s} (enqueues before after o j now at_) v a =
    let m = moved_joins before after o (enqueuing j) (returned none) s.tasks at_ in
    elim (Option-cases (Dispatcher.enqueue (s.fleet.dispatcher) j now)) [
      | inl panics ↦ rw panics a
      | inr ((ch, d), e) ↦ rw e (ground arith)
    ]
step-Asked {s} (follows before after o c at_ said over) v a =
    ground (arith, moved_joins before after o (called c) (returned none) s.tasks at_)
step-Asked {s} (locks before after o a' at_ free) v a =
    ground (arith, moved_joins before after o (waiting a') (holding a') s.tasks at_)
step-Asked {s} (reads before after o a' at_) v a = elim (choose-cases s.fleet a') [
  | inl (e, w, i) ↦
      rw e (ground (arith, moved_joins before after o (holding a') (starting a') s.tasks at_))
  | inr (inl (e, w, i)) ↦
      rw e (ground (arith, moved_joins before after o (holding a') (removing a') s.tasks at_))
  | inr (inr (e, i)) ↦
      rw e (ground (arith, moved_joins before after o (holding a') (unlocking a') s.tasks at_))
]
step-Asked {s} (installs before after o a' sched at_) v a =
    let m = moved_joins before after o (starting a') (unlocking a') s.tasks at_ in
    let c = counts_at (λ t. starts t.pc) before after (task o (starting a')) s.tasks at_ in
    λ h. absurd (ground (arith, joins_-le s.tasks, v.one_holder))
step-Asked {s} (asks before after o a' at_) v a = λ h. ask_to_stop-is_asked s.fleet
step-Asked {s} (joins before after o a' at_ over free) v a = λ h. unfold forget in refl
step-Asked {s} (unlocks before after o leaves at_) v a =
    ground (arith, moved_joins before after o (unlocking leaves) (returned none) s.tasks at_)
step-Asked {s} (unlocks before after o (aborts r) at_) v a =
    ground (arith, moved_joins before after o (unlocking (aborts r)) (aborting r) s.tasks at_)
step-Asked {s} (ends before after o reason at_) v a =
    let m = moved_joins before after o (aborting reason) (returned none) s.tasks at_ in
    elim (Option-cases (stop_end s.fleet reason)) [
      | inl panics ↦ rw panics a
      | inr (f, e) ↦ let k = stop_end-kept s.fleet f reason e in rw e (ground arith)
    ]

pub Reach-Asked :
    (opts : List FleetOption) (job_seq : ℕ) {s : Calls} → Reach (initial opts job_seq) s → Asked s
Reach-Asked opts job_seq here = λ h. absurd (omega arith)
Reach-Asked opts job_seq (next r alive st) =
    step-Asked st (Reach-Inv opts job_seq r) (Reach-Asked opts job_seq r)

-- ===== src/Fleet/Concurrent/Reentrant.antt =====
-- What happens when a callback of the watchdog's own loop stops the fleet.
use automationfleet.Base.{
  ℕ, ◌+◌, ◌≤◌, ◌≡◌, refl, ◌∙◌, String, Bool, true, false, List, [], ◌∷◌, arith, total, length, inl,
  inr, Option-cases,
}
use automationfleet.Config.{FleetOption}
use automationfleet.Watchdog.{Case, loop}
use automationfleet.Fleet.{Fleet, is_installed, watch}
use automationfleet.Fleet.Concurrent.{
  stops, leaves, aborts, Pc, called, starting, unlocking, returned, Task, Calls, in_callback, task,
  calls_back, Reach, here, next, initial,
}
use automationfleet.Fleet.Concurrent.Kept.{watch-is_installed}
use automationfleet.Fleet.Concurrent.Weights.{calls, stopping}
use automationfleet.Fleet.Concurrent.Invariant.{Reach-Inv, step-Inv}
use automationfleet.Fleet.Concurrent.Blocked.{strays, past, Blocked, step-Blocked}

-- Before its stop, no call has got past the watchdog.
none_past : (xs : List Task) → calls past xs ≤ calls stopping xs
none_past [] = omega arith
none_past (x ∷ xs) = omega (arith, one x.pc, none_past xs)
  where
    one : (p : Pc) → past p ≤ stopping p
    one (starting leaves) = omega arith
    one (unlocking leaves) = omega arith
    one (starting (aborts r)) = omega arith
    one (unlocking (aborts r)) = omega arith
    one p = ground arith

strays-le : (xs : List Task) → total strays xs ≤ total in_callback xs
strays-le [] = omega arith
strays-le (x ∷ xs) = omega (arith, one x.on_loop x.pc, strays-le xs)
  where
    one : (o : Bool) (p : Pc) → strays (task o p) ≤ in_callback (task o p)
    one false p = ground arith
    one true (returned e) = omega arith
    one true p = ground arith

-- Only an installed watchdog makes callbacks.
fires-is_installed :
    (f : Fleet) (now : ℕ) (c : Case)
    → length (watch f now (loop c)).called ≡ length f.called + 1
    → is_installed f ≡ true
unfolding watch
fires-is_installed f now c e = elim (Option-cases f.watchdog) [
  | inl n ↦ absurd (ground arith)
  | inr (w, o) ↦ ground arith
]

Reach-Blocked : {s t : Calls} → Blocked s → Reach s t → Blocked t
Reach-Blocked b here = b
Reach-Blocked b (next r alive st) =
    let b' = Reach-Blocked b r in step-Blocked st (step-Inv st b'.inv) b'

-- If OnPause or OnResume, which the loop of the watchdog runs, is the first to stop the fleet, then,
-- whatever the goroutines do next, that call never returns, no call to stop the fleet ever ends, and
-- the watchdog is never removed.
pub callback_stop_blocks :
    (opts : List FleetOption) (job_seq : ℕ) {s u : Calls} (now : ℕ) (c : Case) (reason : String)
    → Reach (initial opts job_seq) s
    → s.fleet.once ≡ false
    → total in_callback s.tasks ≡ 0
    → length (watch s.fleet now (loop c)).called ≡ length s.fleet.called + 1
    → Reach
        (record s {
          fleet = watch s.fleet now (loop c);
          tasks = task true (called (stops reason)) ∷ s.tasks;
        })
        u
    → (total in_callback u.tasks ≡ 1) × (u.stop_over ≡ false) × (is_installed u.fleet ≡ true)
callback_stop_blocks opts job_seq {s} now c reason r first free fires later =
    let v = Reach-Inv opts job_seq r in
    let i = fires-is_installed s.fleet now c fires ∙ refl in
    let start : Blocked _ = record {
      inv = step-Inv (calls_back now c (stops reason) free fires) v;
      busy = omega (arith, free);
      kind = omega (arith, strays-le s.tasks, free);
      installed = watch-is_installed s.fleet now (loop c) ∙ i;
      none_past = ground (arith, none_past s.tasks, v.one_stop);
      unfinished = ground (arith, v.one_stop);
    } in
    let b = Reach-Blocked start later in (b.busy, b.unfinished, b.installed)

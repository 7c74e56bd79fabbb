-- ===== src/Fleet/Concurrent/Converged.antt =====
-- What the takeover watchdog is once all concurrent calls have returned.
use automationfleet.Base.{
  ℕ, ◌≤◌, ◌≡◌, refl, false, not, ◌&&◌, List, [], ◌∷◌, arith, total, ltb, if◌then◌else◌,
}
use automationfleet.Config.{FleetOption}
use automationfleet.Fleet.{is_installed}
use automationfleet.Fleet.Concurrent.{Pc, returned, Task, Calls, is_returned, Reach, initial}
use automationfleet.Fleet.Concurrent.Weights.{calls, holds, unread, starts, removes}
use automationfleet.Fleet.Concurrent.Invariant.{Reach-Inv}

-- 1 for a call that has not returned.
abbrev pub open_call : Task → ℕ
open_call t = if is_returned t.pc then 0 else 1

-- A weight that only open calls have.
quiet :
    (w : Pc → ℕ) (xs : List Task)
    → ((p : Pc) → w p ≤ (if is_returned p then 0 else 1))
    → total open_call xs ≡ 0
    → calls w xs ≡ 0
quiet w [] only z = refl
quiet w (x ∷ xs) only z = omega (arith, only x.pc, quiet w xs only (omega arith))

only_unread : (p : Pc) → unread p ≤ (if is_returned p then 0 else 1)
only_unread (returned e) = omega arith
only_unread p = ground arith

only_starts : (p : Pc) → starts p ≤ (if is_returned p then 0 else 1)
only_starts (returned e) = omega arith
only_starts p = ground arith

only_removes : (p : Pc) → removes p ≤ (if is_returned p then 0 else 1)
only_removes (returned e) = omega arith
only_removes p = ground arith

only_holds : (p : Pc) → holds p ≤ (if is_returned p then 0 else 1)
only_holds (returned e) = omega arith
only_holds p = ground arith

-- Racing calls of Register, Unregister and requestStop agree on the watchdog, in any order of their
-- steps: once all of them have returned, it is installed exactly when the fleet has a native browser
-- and is not stopped, if the mouse hook could be installed whenever that was tried; and takeoverMu is
-- free.
pub racing_calls_converge :
    (opts : List FleetOption) (job_seq : ℕ) {s : Calls}
    → Reach (initial opts job_seq) s
    → total open_call s.tasks ≡ 0
    → s.refused ≡ false
    → (is_installed s.fleet ≡ (ltb 0 s.fleet.native_count && not s.fleet.stopped))
      × (s.locked ≡ false)
racing_calls_converge opts job_seq {s} r over worked =
    let v = Reach-Inv opts job_seq r in
    let q = quiet unread s.tasks only_unread over in
    let q' = quiet starts s.tasks only_starts over in
    let q'' = quiet removes s.tasks only_removes over in
    let free = quiet holds s.tasks only_holds over in (ground arith, ground arith)

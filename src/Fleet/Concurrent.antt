-- ===== src/Fleet/Concurrent.antt =====
-- fleet.go: Register, Unregister, Submit, Pause, Resume and requestStop on goroutines of their own,
-- as one state and its atomic steps: between two of them every other goroutine may move.
mod State
mod Kept
mod Weights
mod Invariant
pub mod Converged
mod Blocked
pub mod Reentrant
mod Asked
mod Steady
mod Left
pub mod Progress
mod History
mod Reconcile
pub mod Sequential
unfoldable pub use State.*
use automationfleet.Base.{
  ℕ, ◌+◌, ◌≡◌, String, Bool, true, false, not, ◌&&◌, ◌||◌, Option, none, some, List, [], ◌∷◌, ◌++◌,
  if◌then◌else◌, length, total, ℤ, ◌⊎◌, inl, inr,
}
use automationfleet.Errors.{GoError, Sentinel, sentinel}
use automationfleet.Config.{FleetOption}
use automationfleet.Job.{Job}
use automationfleet.Dispatcher
use automationfleet.Dispatcher.{Dispatcher}
use automationfleet.Driver
use automationfleet.Driver.{BrowserHandle}
use automationfleet.Watchdog
use automationfleet.Watchdog.{Watchdog, Case, loop, mouse_move}
use automationfleet.Fleet.{
  Fleet, Schedule, new, handle, added, removed, already_registered, check_submit, watch, pause,
  resume, start_takeover, is_installed, stop_begin, stop_end,
}
use automationfleet.Fleet.Invariant.{wanted}

abbrev pub task : Bool → Pc → Task
task o p = record { on_loop = o; pc = p }

-- A call moves on.
abbrev pub at : Calls → List Task → Task → List Task → Calls
at s before t after = record s { tasks = before ++ t ∷ after }

abbrev pub settle_end : Calls → Calls → Option Fleet → Calls
settle_end s t none = record s { crashed = true }
settle_end s t (some f) = record t { fleet = f; stop_over = true }

abbrev pub settle_enqueue : Calls → Calls → Option (ℕ × Dispatcher) → Calls
settle_enqueue s t none = record s { crashed = true }
settle_enqueue s t (some (ch, d)) = record t { fleet = record (s.fleet) { dispatcher = d } }

-- What happens beside those calls: the mouse hook tells the watchdog of a move, and Pause and Resume.
pub data Aside : Type 0 where
  mouse : ℕ → Aside
  pauses unpauses : String → Aside

unfoldable pub aside : Fleet → Aside → Fleet
unfolding watch pause resume
aside f (mouse now) = watch f now mouse_move
aside f (pauses reason) = pause f reason
aside f (unpauses reason) = resume f reason

infix 40 ◌⟶◌
pub data ◌⟶◌ (s : Calls) : Calls → Type 0 where
  begins : (c : Call) → s ⟶ record s { tasks = task false (called c) ∷ s.tasks }
  happens : (e : Aside) → s ⟶ record s { fleet = aside s.fleet e }
  -- the loop of the watchdog, which waits while a callback of its own runs
  turns :
      (now : ℕ) (c : Case)
      → total in_callback s.tasks ≡ 0
      → s ⟶ record s { fleet = watch s.fleet now (loop c) }
  -- a turn of the loop that runs a callback, which calls the fleet
  calls_back :
      (now : ℕ) (case : Case) (c : Call)
      → total in_callback s.tasks ≡ 0
      → length (watch s.fleet now (loop case)).called ≡ length s.fleet.called + 1
      → s
        ⟶ record s { fleet = watch s.fleet now (loop case); tasks = task true (called c) ∷ s.tasks }
  is_refused :
      (before after : List Task) (o : Bool) (c : Call) (e : Option GoError)
      → s.tasks ≡ before ++ task o (called c) ∷ after
      → enter s.fleet c ≡ refuses e
      → s ⟶ at s before (task o (returned e)) after
  enters :
      (before after : List Task) (o : Bool) (c : Call) (f : Fleet) (a : After)
      → s.tasks ≡ before ++ task o (called c) ∷ after
      → enter s.fleet c ≡ changes f a
      → s ⟶ record (at s before (task o (waiting a)) after) { fleet = f }
  lets_in :
      (before after : List Task) (o : Bool) (c : Call) (j : Job)
      → s.tasks ≡ before ++ task o (called c) ∷ after
      → enter s.fleet c ≡ accepts j
      → s ⟶ at s before (task o (enqueuing j)) after
  enqueues :
      (before after : List Task) (o : Bool) (j : Job) (now : ℤ)
      → s.tasks ≡ before ++ task o (enqueuing j) ∷ after
      → s
        ⟶ settle_enqueue s
            (at s before (task o (returned none)) after)
            (Dispatcher.enqueue (s.fleet.dispatcher) j now)
  -- stopOnce lets a later call go once the first is over
  follows :
      (before after : List Task) (o : Bool) (c : Call)
      → s.tasks ≡ before ++ task o (called c) ∷ after
      → enter s.fleet c ≡ waits
      → s.stop_over ≡ true
      → s ⟶ at s before (task o (returned none)) after
  locks :
      (before after : List Task) (o : Bool) (a : After)
      → s.tasks ≡ before ++ task o (waiting a) ∷ after
      → s.locked ≡ false
      → s ⟶ record (at s before (task o (holding a)) after) { locked = true }
  reads :
      (before after : List Task) (o : Bool) (a : After)
      → s.tasks ≡ before ++ task o (holding a) ∷ after
      → s ⟶ at s before (task o (choose s.fleet a)) after
  installs :
      (before after : List Task) (o : Bool) (a : After) (sched : Schedule)
      → s.tasks ≡ before ++ task o (starting a) ∷ after
      → s ⟶ record (at s before (task o (unlocking a)) after) {
        fleet = start_takeover s.fleet sched;
        refused = s.refused || not sched.hook_ok;
      }
  asks :
      (before after : List Task) (o : Bool) (a : After)
      → s.tasks ≡ before ++ task o (removing a) ∷ after
      → s ⟶ record (at s before (task o (joining a)) after) { fleet = ask_to_stop s.fleet }
  joins :
      (before after : List Task) (o : Bool) (a : After)
      → s.tasks ≡ before ++ task o (joining a) ∷ after
      → loop_over s.fleet ≡ true
      → total in_callback s.tasks ≡ 0
      → s ⟶ record (at s before (task o (unlocking a)) after) { fleet = forget s.fleet }
  unlocks :
      (before after : List Task) (o : Bool) (a : After)
      → s.tasks ≡ before ++ task o (unlocking a) ∷ after
      → s ⟶ record (at s before (task o (resumed a)) after) { locked = false }
  ends :
      (before after : List Task) (o : Bool) (reason : String)
      → s.tasks ≡ before ++ task o (aborting reason) ∷ after
      → s ⟶ settle_end s (at s before (task o (returned none)) after) (stop_end s.fleet reason)

pub data Reach (s : Calls) : Calls → Type 0 where
  here : Reach s s
  next : {t u : Calls} → Reach s t → t.crashed ≡ false → t ⟶ u → Reach s u

-- New's fleet, before any call.
abbrev pub initial : List FleetOption → ℕ → Calls
initial opts job_seq = record {
  fleet = new opts job_seq;
  locked = false;
  stop_over = false;
  refused = false;
  crashed = false;
  tasks = [];
}

-- The state of some calls, without a panic.
abbrev pub alone : Fleet → Bool → Bool → Bool → List Task → Calls
alone f locked over refused tasks = record {
  fleet = f;
  locked = locked;
  stop_over = over;
  refused = refused;
  crashed = false;
  tasks = tasks;
}

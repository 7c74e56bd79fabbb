-- ===== src/Fleet/Concurrent/State.antt =====
-- fleet.go: the calls of a fleet that run on goroutines of their own, and what each does between two
-- points at which another may run.
use automationfleet.Base.{
  ℕ, String, Bool, true, false, not, ◌&&◌, Option, none, some, List, if◌then◌else◌, inl, inr,
}
use automationfleet.Errors.{GoError, Sentinel, sentinel}
use automationfleet.Job.{Job}
use automationfleet.Driver
use automationfleet.Driver.{BrowserHandle}
use automationfleet.Watchdog
use automationfleet.Watchdog.{Watchdog, Case, loop, mouse_move}
use automationfleet.Fleet.{
  Fleet, handle, added, removed, already_registered, check_submit, is_installed, stop_begin,
}
use automationfleet.Fleet.Invariant.{wanted}

pub data Call : Type 0 where
  registers : Option BrowserHandle → Call
  unregisters : String → Call
  submits : Job → Call
  stops : String → Call

-- What follows a reconciliation: the return, or the rest of requestStop.
pub data After : Type 0 where
  leaves : After
  aborts : String → After

-- Where a call stands; `enqueuing` is a Submit that was let in. Those between `holding` and `unlocking` hold takeoverMu: before the count is
-- read, before startTakeoverLocked, before stopTakeoverLocked, while that waits for the end of the
-- loop, and before the unlocking.
pub data Pc : Type 0 where
  called : Call → Pc
  waiting holding starting removing joining unlocking : After → Pc
  enqueuing : Job → Pc
  aborting : String → Pc
  returned : Option GoError → Pc

-- A call runs on a goroutine of its own, or inside OnPause or OnResume on the watchdog's.
pub record Task : Type 0 where
  pub on_loop : Bool
  pub pc : Pc

-- `locked` is takeoverMu, `stop_over` says that the function given to stopOnce has returned,
-- `refused` that the mouse hook could not be installed, `crashed` is a panic that nobody recovers.
pub record Calls : Type 0 where
  pub fleet : Fleet
  pub locked : Bool
  pub stop_over : Bool
  pub refused : Bool
  pub crashed : Bool
  pub tasks : List Task

abbrev pub is_returned : Pc → Bool
is_returned (returned e) = true
is_returned _ = false

-- 1 for a call that a callback of the watchdog waits for.
abbrev pub in_callback : Task → ℕ
in_callback t = if t.on_loop && not (is_returned t.pc) then 1 else 0

-- The first critical section of a call: it ends the call, changes the fleet, lets a job in, or waits
-- for stopOnce.
pub data Entry : Type 0 where
  refuses : Option GoError → Entry
  changes : Fleet → After → Entry
  accepts : Job → Entry
  waits : Entry

unfoldable pub enter : Fleet → Call → Entry
unfolding handle stop_begin check_submit
enter f (registers h) =
    let (failure, h') = Driver.validate h in
    elim failure [
      | some e ↦ refuses (some e)
      | none ↦ elim h' [
        | none ↦ refuses none
        | some new_handle ↦ elim (handle f new_handle.id) [
          | some old ↦ refuses (some (already_registered new_handle.id))
          | none ↦ changes (added f new_handle) leaves
        ]
      ]
    ]
enter f (unregisters id) = elim (handle f id) [
  | none ↦ refuses (some (sentinel Sentinel.err_unknown_browser))
  | some h ↦ changes (removed f h id) leaves
]
enter f (submits j) = elim (check_submit f j) [ inl e ↦ refuses (some e) | inr j' ↦ accepts j' ]
enter f (stops reason) = if f.once then waits else changes (stop_begin f) (aborts reason)

-- The choice of reconcileTakeover.
unfoldable pub choose : Fleet → After → Pc
choose f a =
    if wanted f && not (is_installed f)
    then starting a
    else if not (wanted f) && is_installed f
    then removing a
    else unlocking a

abbrev pub resumed : After → Pc
resumed leaves = returned none
resumed (aborts reason) = aborting reason

-- stopTakeoverLocked: uninstalls the hook and closes stopCh; and, after the end of the loop, forgets
-- the watchdog.
unfoldable pub ask_to_stop : Fleet → Fleet
ask_to_stop f = elim f.watchdog [
  | none ↦ record f { hook = false }
  | some w ↦ record f { hook = false; watchdog = some (Watchdog.request_stop w) }
]

unfoldable pub forget : Fleet → Fleet
forget f = record f { watchdog = none }

abbrev pub loop_over : Fleet → Bool
loop_over f = elim f.watchdog [ none ↦ true | some w ↦ w.done ]

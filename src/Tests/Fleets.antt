-- ===== src/Tests/Fleets.antt =====
-- Runs of a fleet with one native browser, and the theorems on fleets at it.
use automationfleet.Base.{◌≡◌, refl, ◌↔◌, true, false, none, some, List, [], ◌∷◌, ◌++◌, pos, inr}
use automationfleet.Heap.Laws.{Yields}
use automationfleet.Heap
use automationfleet.Queue
use automationfleet.Action
use automationfleet.Action.{Action, click_action, wait_action, mouse_left}
use automationfleet.Job.{Job, next_job_id}
use automationfleet.Driver
use automationfleet.Driver.{Driver, BrowserHandle, backend_native, is_native, with_scale}
use automationfleet.Config.{default_config, configure, with_drift_retries, with_default_timeout}
use automationfleet.Config.Sane.{IsSane, configure-IsSane}
use automationfleet.Dispatcher
use automationfleet.Watchdog
use automationfleet.Watchdog.{mouse_move, loop, moved, reason_user_takeover}
use automationfleet.Fleet.{
  Fleet, Schedule, new, register, handle, lookup, check_submit, submit, reconcile_takeover,
  snapshot, watch, signal_all, signal, pause, start_takeover, request_stop, stop_takeover,
  stop_watchdog,
}
use automationfleet.Fleet.Pending.{check_submit_accepts_iff}
use automationfleet.Fleet.Good.{IsGood}
use automationfleet.Fleet.Stop.{request_stop-request_stop}
use automationfleet.Fleet.Runs.{
  run, Call, registers, watches, submits, stops, run-IsGood, auto_paused_needs_native,
}

abbrev browser : BrowserHandle
browser = record {
  id = "b1";
  driver = some (record { ref = 0; input_backend = backend_native });
  x = pos 0;
  y = pos 0;
  scale = record { bits = 0 };
  native = true;
}

abbrev prompt : Schedule
prompt = record { hook_ok = true; now = 0; last = [] }

abbrev click : Job
click = record {
  browser_id = "b1";
  action = some (click_action "#submit" mouse_left);
  priority = pos 5;
  timeout = pos 0;
}

abbrev fresh : Fleet
fresh = new [] 0

abbrev registered : Fleet
registered = (register fresh (some browser) prompt).1

configure-IsSane_example :
    IsSane
      (configure default_config (with_drift_retries (pos 0) ∷ with_default_timeout (pos 0) ∷ []))
configure-IsSane_example =
    configure-IsSane (with_drift_retries (pos 0) ∷ with_default_timeout (pos 0) ∷ [])

check_submit_accepts_iff_example : ((j' : Job) × (check_submit registered click ≡ inr j')) ↔ (
    ((a : Action) × (click.action ≡ some a) × (Action.validate a ≡ none))
    × (registered.stopped ≡ false)
    × ((h : BrowserHandle) × (handle registered "b1" ≡ some h)))
check_submit_accepts_iff_example = check_submit_accepts_iff registered click

abbrev calls : List Call
calls =
    registers (some browser) prompt
    ∷ submits click (pos 3)
    ∷ watches 4 mouse_move
    ∷ watches 5 (loop moved)
    ∷ []

run-IsGood_example : Yields IsGood (run fresh (calls ++ stops "stop" prompt ∷ []))
run-IsGood_example =
    run-IsGood [] 0 (calls ++ stops "stop" prompt ∷ []) (tt, (tt, (tt, (tt, (tt, tt)))))

-- The fleet after the calls.
abbrev taken_over : Fleet
taken_over = elim (run fresh calls) [ none ↦ fresh | some f ↦ f ]

auto_paused_needs_native_example :
    ((snapshot taken_over).has_native ≡ true) × (taken_over.stopped ≡ false)
unfolding run new configure default_config register Driver.validate Driver.check_backend handle
    lookup reconcile_takeover start_takeover watch signal_all signal pause Dispatcher.pause
    Dispatcher.insert Dispatcher.new_dispatcher Dispatcher.contains Dispatcher.is_paused
    Dispatcher.has_reason snapshot submit check_submit Dispatcher.enqueue Queue.len Queue.push
    Heap.push Queue.append Queue.less Queue.swap next_job_id Action.validate Watchdog.happen
    Watchdog.expire Watchdog.is_ready Watchdog.run_case Watchdog.notify
    Watchdog.new_takeover_watchdog
auto_paused_needs_native_example =
    auto_paused_needs_native [] 0 calls taken_over (tt, (tt, (tt, (tt, tt)))) refl refl

-- The fleet with its browser, stopped.
abbrev ended : Fleet
ended = elim (request_stop registered "stop" prompt) [ none ↦ fresh | some f ↦ f ]

request_stop-request_stop_example : request_stop ended "hotkey" prompt ≡ some ended
unfolding request_stop new configure default_config register Driver.validate Driver.check_backend
    handle lookup reconcile_takeover start_takeover stop_takeover stop_watchdog signal_all
    Dispatcher.new_dispatcher Dispatcher.abort_all Dispatcher.abort_begin Dispatcher.cancel_pending
    Dispatcher.close_cdp Queue.drain Watchdog.new_takeover_watchdog Watchdog.history
request_stop-request_stop_example =
    request_stop-request_stop registered ended "stop" "hotkey" prompt prompt refl

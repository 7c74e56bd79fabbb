-- ===== src/Tests/Races.antt =====
-- Concurrent calls of a fleet with one native browser, and the theorems on them.
use automationfleet.Base.{
  ◌≡◌, refl, Bool, none, true, false, some, List, [], ◌∷◌, pos, ltb, total, not, ◌&&◌,
}
use automationfleet.Driver
use automationfleet.Driver.{BrowserHandle, backend_native}
use automationfleet.Config.{FleetOption, configure, on_pause_call}
use automationfleet.Dispatcher
use automationfleet.Watchdog
use automationfleet.Watchdog.{moved, loop}
use automationfleet.Fleet.{
  Schedule, Fleet, register, request_stop, reconcile_takeover, new, stop_begin, handle, lookup,
  remove, is_installed, start_takeover, watch, signal_all, signal, pause,
}
use automationfleet.Fleet.Concurrent.{
  alone, Call, Calls, Reach, initial, here, next, enter, choose, aside, begins, happens, mouse,
  enters, locks, reads, installs, unlocks, in_callback, task, called, stops, returned,
}
use automationfleet.Fleet.Concurrent.Converged.{open_call, racing_calls_converge}
use automationfleet.Fleet.Concurrent.Sequential.{call_alone, calls_alone}
use automationfleet.Fleet.Concurrent.Progress.{calls_return}
use automationfleet.Fleet.Concurrent.Reentrant.{callback_stop_blocks}

abbrev browser : BrowserHandle
browser = record {
  id = "b1";
  driver = some (record { ref = 0; input_backend = backend_native });
  x = pos 0;
  y = pos 0;
  scale = record { bits = 0 };
  native = true;
}

abbrev prompt : Schedule
prompt = record { hook_ok = true; now = 0; last = [] }

abbrev options : List FleetOption
options = on_pause_call (some 1) ∷ []

-- A call of Register, to its return; and a mouse move after it.
abbrev registered : (s : Calls) × Reach (initial options 0) s
unfolding new enter Driver.validate Driver.check_backend handle lookup remove choose start_takeover
registered = (
  _,
  next
      (next
        (next
          (next
            (next
              (next (next (here) refl (begins (Call.registers (some browser)))) refl
                (enters [] [] false _ _ _ refl refl))
              refl (locks [] [] false _ refl refl))
            refl (reads [] [] false _ refl))
          refl (installs [] [] false _ prompt refl))
        refl (unlocks [] [] false _ refl))
      refl (happens (mouse 5)),
)

-- A call of Unregister that changes the registry before the Register has taken takeoverMu.
abbrev raced : (s : Calls) × Reach (initial options 0) s
unfolding new enter Driver.validate Driver.check_backend handle lookup remove choose start_takeover
raced = (
  _,
  next
      (next
        (next
          (next
            (next
              (next
                (next
                  (next
                    (next (next (here) refl (begins (Call.registers (some browser)))) refl
                      (enters [] [] false _ _ _ refl refl))
                    refl (begins (Call.unregisters "b1")))
                  refl (enters [] (_ ∷ []) false _ _ _ refl refl))
                refl (locks (_ ∷ []) [] false _ refl refl))
              refl (reads (_ ∷ []) [] false _ refl))
            refl (unlocks (_ ∷ []) [] false _ refl))
          refl (locks [] (_ ∷ []) false _ refl refl))
        refl (reads [] (_ ∷ []) false _ refl))
      refl (unlocks [] (_ ∷ []) false _ refl),
)

racing_calls_converge_example :
    (is_installed raced.0.fleet ≡ (ltb 0 raced.0.fleet.native_count && not raced.0.fleet.stopped))
    × (raced.0.locked ≡ false)
unfolding raced
racing_calls_converge_example = racing_calls_converge options 0 raced.1 refl refl

calls_return_example : (u : Calls) × Reach registered.0 u × (total open_call u.tasks ≡ 0)
unfolding registered
calls_return_example = calls_return options 0 registered.1 refl

-- The loop takes the move, and OnPause stops the fleet.
abbrev called_back : Calls
unfolding new enter Driver.validate Driver.check_backend handle lookup remove choose start_takeover
    aside watch signal_all signal pause Watchdog.happen Watchdog.expire Watchdog.notify
    Watchdog.is_ready Watchdog.run_case Dispatcher.pause registered
called_back = record (registered.0) {
  fleet = watch registered.0.fleet 6 (loop moved);
  tasks = task true (called (stops "callback")) ∷ registered.0.tasks;
}

abbrev blocked : (u : Calls) × Reach called_back u
unfolding called_back enter stop_begin Watchdog.new_takeover_watchdog Dispatcher.new_dispatcher
    configure
blocked = (_, next here refl (enters [] (_ ∷ []) true _ _ _ refl refl))

callback_stop_blocks_example :
    (total in_callback (blocked.0).tasks ≡ 1)
    × (blocked.0.stop_over ≡ false)
    × (is_installed blocked.0.fleet ≡ true)
unfolding registered aside Watchdog.happen Watchdog.new_takeover_watchdog Dispatcher.pause
    Dispatcher.new_dispatcher configure
callback_stop_blocks_example =
    callback_stop_blocks options 0 6 moved "callback" registered.1 refl refl refl blocked.1

-- A fleet with one native browser, and the fleet after its stop.
abbrev one_browser : Fleet
unfolding new register Driver.validate Driver.check_backend handle lookup reconcile_takeover
    start_takeover
one_browser = (register (new options 0) (some browser) prompt).1

abbrev stopped_fleet : Fleet
unfolding one_browser request_stop
stopped_fleet = elim (request_stop one_browser "stop" prompt) [ none ↦ one_browser | some f ↦ f ]

calls_alone_example :
    (r : Bool) × Reach
      (alone one_browser false one_browser.once false (task false (called (stops "stop")) ∷ []))
      (alone stopped_fleet false stopped_fleet.once r (task false (returned none) ∷ []))
unfolding call_alone request_stop stopped_fleet Dispatcher.abort_all automationfleet.Queue.drain
    Watchdog.history Watchdog.new_takeover_watchdog configure automationfleet.Config.default_config
    Dispatcher.new_dispatcher
calls_alone_example =
    calls_alone one_browser stopped_fleet (stops "stop") prompt (pos 0) false [] none refl refl

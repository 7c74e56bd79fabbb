-- ===== src/Fleet.antt =====
-- fleet.go: the calls of a fleet, each of which runs as a whole here.
-- Time and what the operating system answers are arguments; `none` is a panic.
mod State
mod Guard
pub mod Takeover
pub mod Registry
pub mod Invariant
pub mod Pending
pub mod Kits
pub mod Mouse
pub mod Good
pub mod Preserved
pub mod Runs
pub mod Stop
pub mod Concurrent
unfoldable pub use State.*
unfoldable pub use Guard.*
use automationfleet.Base.{
  ℕ, ◌+◌, ◌-◌, String, Bool, true, false, not, ◌&&◌, ◌⊎◌, inl, inr, Option, none, some, ◌>>=◌, List,
  [], ◌∷◌, ◌++◌, map, ℤ, pos, str_eq, ltb, if◌then◌else◌, length,
}
use automationfleet.Errors.{GoError, Sentinel, sentinel, errorf, str}
use automationfleet.Action
use automationfleet.Action.{not_positive}
use automationfleet.Job.{Job}
use automationfleet.Hotkey.{Hotkey}
use automationfleet.Hotkey.Listener.{HotkeyBinding}
use automationfleet.Driver
use automationfleet.Driver.{BrowserHandle, Driver}
use automationfleet.Config.{Config, FleetOption, default_config, configure}
use automationfleet.Dispatcher
use automationfleet.Dispatcher.{Dispatcher, new_dispatcher}
use automationfleet.Watchdog
use automationfleet.Watchdog.{
  Watchdog, Signal, pauses, resumes, Case, stopping, Happening, loop, takeover_idle,
  reason_user_takeover,
}

-- The registry after its two updates, under the lock.
abbrev pub added : Fleet → BrowserHandle → Fleet
added f h = record f {
  handles = (h.id, h) ∷ f.handles;
  native_count = if h.native then f.native_count + 1 else f.native_count;
}

abbrev pub removed : Fleet → BrowserHandle → String → Fleet
removed f h id = record f {
  handles = remove id f.handles;
  native_count = if h.native && ltb 0 f.native_count then f.native_count - 1 else f.native_count;
}

abbrev pub already_registered : String → GoError
already_registered id = errorf "automationfleet: browser id already registered: " (str id ∷ [])

-- The error, if any, and the fleet after it. A handle without an error is never nil.
unfoldable pub register : Fleet → Option BrowserHandle → Schedule → Option GoError × Fleet
unfolding handle reconcile_takeover
register f h s =
    let (failure, h') = Driver.validate h in
    elim failure [
      | some e ↦ (some e, f)
      | none ↦ elim h' [
        | none ↦ (none, f)
        | some new_handle ↦ elim (handle f new_handle.id) [
          | some old ↦ (some (already_registered new_handle.id), f)
          | none ↦ (none, reconcile_takeover (added f new_handle) s)
        ]
      ]
    ]

unfoldable pub unregister : Fleet → String → Schedule → Option GoError × Fleet
unfolding handle remove reconcile_takeover
unregister f id s = elim (handle f id) [
  | none ↦ (some (sentinel Sentinel.err_unknown_browser), f)
  | some h ↦ (none, reconcile_takeover (removed f h id) s)
]

-- The checks of Submit, and the job with its timeout set.
unfoldable pub check_submit : Fleet → Job → GoError ⊎ Job
unfolding handle
check_submit f j = elim j.action [
  | none ↦ inl (errorf "automationfleet: Job.Action required" [])
  | some a ↦ elim (Action.validate a) [
    | some e ↦ inl e
    | none ↦
        if f.stopped
        then inl (sentinel Sentinel.err_fleet_stopped)
        else elim (handle f j.browser_id) [
          | none ↦ inl (sentinel Sentinel.err_unknown_browser)
          | some h ↦
              inr
                (if not_positive j.timeout then record j { timeout = f.cfg.default_timeout } else j)
        ]
  ]
]

-- The error, or the channel of the result.
unfoldable pub submit : Fleet → Job → ℤ → Option ((GoError ⊎ ℕ) × Fleet)
unfolding check_submit
submit f j now = elim (check_submit f j) [
  | inl e ↦ some (inl e, f)
  | inr j' ↦ Dispatcher.enqueue f.dispatcher j' now >>= λ (ch, d).
      some (inr ch, record f { dispatcher = d })
]

-- What requestStop does before and after the reconciliation.
unfoldable pub stop_begin : Fleet → Fleet
stop_begin f = record f { once = true; stopped = true }

unfoldable pub stop_end : Fleet → String → Option Fleet
stop_end quiet reason =
    let told : Fleet = callback quiet quiet.cfg.on_stop (λ cb. on_stop cb reason) in
    Dispatcher.abort_all told.dispatcher reason >>= λ d.
    some (record told { dispatcher = d; cancelled = true })

-- stopOnce.Do: all but the first call do nothing.
unfoldable pub request_stop : Fleet → String → Schedule → Option Fleet
unfolding reconcile_takeover stop_begin stop_end
request_stop f reason s =
    let all : Option Fleet = stop_end (reconcile_takeover (stop_begin f) s) reason in
    if f.once then some f else all

-- Stop, with the listener for whose end it waits; and whether Wait returns.
unfoldable pub stop : Fleet → Schedule → Option (Option ℕ × Fleet)
unfolding request_stop
stop f s = request_stop f "stop" s >>= λ f'. some (f'.hotkey_done, f')

unfoldable pub wait : Fleet → Bool
unfolding Dispatcher.wait_drained
wait f = Dispatcher.wait_drained f.dispatcher

abbrev pub bind_if : Bool → Hotkey → Fire → List (HotkeyBinding Fire)
bind_if b hotkey fire = if b then record { hotkey = hotkey; on_fire = some fire } ∷ [] else []

abbrev pub bindings : Config → List (HotkeyBinding Fire)
bindings c =
    bind_if c.pause_enabled c.pause_hotkey fire_pause
    ++ bind_if c.resume_enabled c.resume_hotkey fire_resume
    ++ bind_if c.stop_enabled c.stop_hotkey fire_stop

unfoldable pub start : Fleet → Fleet
start f =
    let f' : Fleet = record f { dispatcher = Dispatcher.start f.dispatcher } in
    if ltb 0 (length (bindings f.cfg))
    then record f' {
      hotkey_done = some (length f.listeners);
      listeners = f.listeners ++ bindings f.cfg ∷ [];
    }
    else f'

pub record Snapshot : Type 0 where
  pub has_native : Bool
  pub auto_paused : Bool

unfoldable pub snapshot : Fleet → Snapshot
snapshot f = record {
  has_native = ltb 0 f.native_count;
  auto_paused = Dispatcher.has_reason f.dispatcher reason_user_takeover;
}

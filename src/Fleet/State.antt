-- ===== src/Fleet/State.antt =====
-- fleet.go: the state of a fleet and its map of browsers.
-- `handles` is the map of the registered browsers. `watchdog` is the installed watchdog, `hook`
-- says that hookUninstall is set, and `once` that stopOnce has run. `called` are the callbacks made,
-- in order, and `listeners` the hotkey listeners started, of which `hotkey_done` names the last.
use automationfleet.Base.{
  ℕ, String, Bool, false, Option, none, some, List, [], ◌∷◌, str_eq, if◌then◌else◌,
}
use automationfleet.Hotkey.Listener.{HotkeyBinding}
use automationfleet.Driver.{BrowserHandle}
use automationfleet.Config.{Config, FleetOption, default_config, configure}
use automationfleet.Dispatcher.{Dispatcher, new_dispatcher}
use automationfleet.Watchdog.{Watchdog}

pub data Callback : Type 0 where
  on_pause on_resume on_stop : (callback : ℕ) (reason : String) → Callback

-- What a hotkey does.
pub data Fire : Type 0 where
  fire_pause fire_resume fire_stop : Fire

pub record Fleet : Type 0 where
  pub cfg : Config
  pub handles : List (String × BrowserHandle)
  pub native_count : ℕ
  pub stopped : Bool
  pub once : Bool
  pub cancelled : Bool
  pub dispatcher : Dispatcher
  pub watchdog : Option Watchdog
  pub hook : Bool
  pub called : List Callback
  pub listeners : List (List (HotkeyBinding Fire))
  pub hotkey_done : Option ℕ

-- `job_seq` is the value of the package's job counter.
unfoldable pub new : List FleetOption → ℕ → Fleet
new opts job_seq = record {
  cfg = configure default_config opts;
  handles = [];
  native_count = 0;
  stopped = false;
  once = false;
  cancelled = false;
  dispatcher = new_dispatcher job_seq;
  watchdog = none;
  hook = false;
  called = [];
  listeners = [];
  hotkey_done = none;
}

-- The map of handles.
unfoldable pub lookup : String → List (String × BrowserHandle) → Option BrowserHandle
lookup id [] = none
lookup id ((k, h) ∷ hs) = if str_eq k id then some h else lookup id hs

unfoldable pub remove : String → List (String × BrowserHandle) → List (String × BrowserHandle)
remove id [] = []
remove id ((k, h) ∷ hs) = if str_eq k id then remove id hs else (k, h) ∷ remove id hs

unfoldable pub handle : Fleet → String → Option BrowserHandle
unfolding lookup
handle f id = lookup id f.handles

-- ===== src/Fleet/Kits.antt =====
-- fleet.go: RegisterChrome and RegisterFirefox.
pub mod Routed
use automationfleet.Base.{ℕ, String, Bool, Option, none, some, [], ℤ}
use automationfleet.Action.{Float64}
use automationfleet.Errors.{GoError, errorf}
use automationfleet.Driver.{BrowserHandle}
use automationfleet.Kit.{KitBrowser, wrap}
use automationfleet.Fleet.{Fleet, Schedule, register}

-- The handle that the calls make of their arguments.
abbrev pub wrapped : String → ℕ → KitBrowser → Bool → ℤ → ℤ → Float64 → BrowserHandle
wrapped id native_code b native x y scale = record {
  id = id;
  driver = some (wrap native_code b);
  x = x;
  y = y;
  scale = scale;
  native = native;
}

-- `native_code` is chromekit.BackendNative; the browser is none for a nil pointer.
unfoldable pub register_chrome :
    ℕ
    → Fleet
    → String
    → Option KitBrowser
    → Bool
    → ℤ
    → ℤ
    → Float64
    → Schedule
    → Option GoError × Fleet
unfolding register
register_chrome native_code f id none native x y scale s =
    (some (errorf "automationfleet: RegisterChrome: browser is nil" []), f)
register_chrome native_code f id (some b) native x y scale s =
    register f (some (wrapped id native_code b native x y scale)) s

-- `native_code` is firefoxkit.BackendNative.
unfoldable pub register_firefox :
    ℕ
    → Fleet
    → String
    → Option KitBrowser
    → Bool
    → ℤ
    → ℤ
    → Float64
    → Schedule
    → Option GoError × Fleet
unfolding register
register_firefox native_code f id none native x y scale s =
    (some (errorf "automationfleet: RegisterFirefox: browser is nil" []), f)
register_firefox native_code f id (some b) native x y scale s =
    register f (some (wrapped id native_code b native x y scale)) s

-- ===== src/Tests/Kits.antt =====
-- Runs of the adapters, and registrations of their browsers.
use automationfleet.Base.{Option, ◌≡◌, refl, none, some, [], pos, true}
use automationfleet.Action.{Float64, click_action, mouse_left, needs_native_critical_section}
use automationfleet.Errors.{GoError}
use automationfleet.Job.{QueuedJob, no_job}
use automationfleet.Driver
use automationfleet.Driver.{one}
use automationfleet.Kit.{
  chromekit, KitBrowser, input_backend, KitWorld, element_center, current, nil_page, zero_float,
}
use automationfleet.Kit.Chrome.{chrome_call, chrome_center}
use automationfleet.Kit.Center.{driver_call, Measured, element_center-Measured}
use automationfleet.Dispatcher.System.{running, route}
use automationfleet.Fleet.{Fleet, Schedule, new, handle, lookup, register}
use automationfleet.Fleet.Kits.{register_chrome}
use automationfleet.Fleet.Kits.Routed.{register_kit, register_kit-routes}

-- A kit that answers every call, with an element of the size `size`.
abbrev willing : Float64 → KitWorld
willing size = record {
  answer = λ t call. record {
    err = none;
    page = none;
    found = true;
    node = 3;
    box = record { x = zero_float; y = one; width = size; height = one };
    ints = (pos 0, pos 0);
  };
  middle = λ a b. a;
}

-- No live page is a nil interface.
no_page : (chrome_call (willing one) current []).0.page ≡ nil_page
unfolding chrome_call
no_page = refl

element_center-Measured_example :
    Measured chromekit
      (willing one)
      "#ok"
      (driver_call chromekit (willing one) (element_center "#ok") [])
unfolding chrome_call chrome_center
element_center-Measured_example = element_center-Measured chromekit (willing one) "#ok" [] refl

abbrev native_browser : KitBrowser
native_browser = record { ref = 1; backend = 1 }

abbrev calm : Schedule
calm = record { hook_ok = true; now = 0; last = [] }

abbrev click : QueuedJob
click = record no_job {
  job = record (no_job.job) { browser_id = "b1"; action = some (click_action "#ok" mouse_left) };
}

abbrev registered : Option GoError × Fleet
registered =
    register_kit 1 (new [] 0) "b1" true (pos 0) (pos 0) one calm chromekit (some native_browser)

register_kit-routes_example : route (handle registered.1 "b1") true click ≡ running click
unfolding register_chrome register new Driver.validate Driver.check_backend input_backend handle
    lookup needs_native_critical_section
register_kit-routes_example =
    register_kit-routes 1 (new [] 0) "b1" true (pos 0) (pos 0) one calm chromekit native_browser
      click true refl refl

-- ===== src/Tests/Criticals.antt =====
-- Runs of the executors, in a world where all goes well and in one where the cursor drifts.
use automationfleet.Base.{
  ℕ, ◌≡◌, refl, ◌↔◌, ◌≤◌, ◌+ℤ◌, ◌-ℤ◌, true, false, Option, ltb, length, if◌then◌else◌, none, some,
  [], ◌∷◌, pos, arith,
}
use automationfleet.Errors.{GoError, error_is, err_cursor_drift}
use automationfleet.Action.{Action, Float64, type_action, click_action, mouse_left}
use automationfleet.Driver.{BrowserHandle, backend_native}
use automationfleet.Config.{Config, default_config, configure, apply, with_drift_retries}
use automationfleet.Critical.{
  World, Trace, Outcome, has_drifted, click_then, done, execute_critical,
  execute_critical_with_retry, type_text, click_at, context_err, attempt,
}
use automationfleet.Critical.Click.{looked, Strays, Clicks, click_drifts_iff, click_succeeds_iff}
use automationfleet.Winapi.Layout
use automationfleet.Winapi.Layout.{LayoutOs}
use automationfleet.Critical.Thread.{layouts_after, execute_critical-keeps_layout}
use automationfleet.Critical.Remote.{execute_cdp_only, execute_critical_other}
use automationfleet.Critical.Shared.{touches, executors-aloof}
use automationfleet.Critical.Order.{is_ordered, execute_critical-ordered}
use automationfleet.Critical.Retry.{Attempts, retries_bounded}

abbrev zero_bits : Float64
zero_bits = record { bits = 0 }

abbrev no_error : Option GoError
no_error = none

-- All operations succeed, and integers are all `n`.
abbrev calm : ℕ → World
calm n = record {
  answer = λ t op. record {
    err = none;
    live = true;
    floats = (zero_bits, zero_bits);
    ints = (pos 0, pos n);
    layout = 7;
  };
  round_scaled = λ css scale. pos n;
}

-- The cursor is 100 pixels away from where it should be.
abbrev drifting : World
drifting = record (calm 0) { round_scaled = λ css scale. pos 100 }

abbrev browser : BrowserHandle
browser = record {
  id = "b1";
  driver = some (record { ref = 0; input_backend = backend_native });
  x = pos 0;
  y = pos 0;
  scale = zero_bits;
  native = true;
}

abbrev one_retry : Config
one_retry = configure default_config (with_drift_retries (pos 1) ∷ [])

abbrev typing : Action
typing = type_action "#user" "abc" true

click_drifts_iff_example :
    ((error_is
          (click_then drifting default_config browser zero_bits zero_bits done []).0
          err_cursor_drift
        ≡ true)
      × ((click_then drifting default_config browser zero_bits zero_bits done []).1
          ≡ looked zero_bits zero_bits [])
      × (click_then drifting default_config browser zero_bits zero_bits
            (type_text drifting "abc" true)
            []
          ≡ click_then drifting default_config browser zero_bits zero_bits done []))
    ↔ Strays drifting default_config browser zero_bits zero_bits []
click_drifts_iff_example =
    click_drifts_iff drifting default_config browser zero_bits zero_bits
      (type_text drifting "abc" true) []

-- The first part of it holds.
strayed :
    error_is
      (click_then drifting default_config browser zero_bits zero_bits done []).0
      err_cursor_drift
    ≡ true
unfolding click_then attempt has_drifted default_config ◌+ℤ◌ ◌-ℤ◌
strayed = refl

click_succeeds_iff_example :
    (((click_then (calm 0) default_config browser zero_bits zero_bits done []).0 ≡ none)
      ↔ Clicks (calm 0) default_config browser zero_bits zero_bits [])
    × ((click_then (calm 0) default_config browser zero_bits zero_bits done []
          ≡ (none, click_at zero_bits zero_bits ∷ context_err ∷ looked zero_bits zero_bits []))
        ↔ Clicks (calm 0) default_config browser zero_bits zero_bits [])
click_succeeds_iff_example =
    click_succeeds_iff (calm 0) default_config browser zero_bits zero_bits []

-- A system with other layouts on it, and a world whose switches are made on its third thread.
abbrev windows : LayoutOs
windows = record { load = λ current. (9, 9); activate = λ layout current. layout; errno = "" }

abbrev third : Trace → ℕ
third t = 3

abbrev fives : ℕ → ℕ
fives k = 5

abbrev threaded : World
threaded = record (calm 0) {
  answer = λ t op. record ((calm 0).answer t op) {
    layout = (Layout.force_en_us_layout windows (layouts_after windows third fives t 3)).1;
  };
}

execute_critical-keeps_layout_example :
    layouts_after windows third fives
      (execute_critical threaded default_config browser typing []).1
      3
    ≡ 5
execute_critical-keeps_layout_example =
    execute_critical-keeps_layout windows third fives threaded default_config browser typing
      (λ t. refl) (λ zero_. omega (arith, zero_)) (λ current. refl) (λ t. refl) 3

-- The goroutine goes to another thread while it types.
abbrev moving : Trace → ℕ
moving t = if ltb (length t) 3 then 1 else 2

abbrev under : Trace → Trace
under [] = []
under (op ∷ t) = t

execute_critical-ordered_example :
    is_ordered (execute_critical (calm 0) default_config browser typing []).1 ≡ true
execute_critical-ordered_example = execute_critical-ordered (calm 0) default_config browser typing

abbrev clicking : Trace → Outcome
clicking = execute_critical drifting one_retry browser (click_action "#go" mouse_left)

retries_bounded_example :
    (k : ℕ) × Attempts drifting clicking 1
      (clicking [])
      k
      (execute_critical_with_retry drifting one_retry clicking [])
    × (k ≤ 1)
unfolding configure apply default_config
retries_bounded_example = retries_bounded drifting one_retry clicking []

executors-aloof_example :
    (touches (execute_cdp_only (calm 0) default_config typing []).1 ≡ false)
    × (touches (execute_critical_other (calm 0) default_config browser typing []).1 ≡ false)
executors-aloof_example = executors-aloof (calm 0) default_config browser typing

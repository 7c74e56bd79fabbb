-- ===== src/Critical/Moved.antt =====
-- What becomes of the keyboard layout when the goroutine goes to another thread while it types.
use automationfleet.Base.{ℕ, String, Bool, [], if◌then◌else◌}
use automationfleet.Winapi.Layout
use automationfleet.Winapi.Layout.{LayoutOs}
use automationfleet.Errors.{wrapf}
use automationfleet.Critical.{World, Trace, Outcome, clear_input, type_human, attempt, finally}
use automationfleet.Critical.Thread.{layouts_after}

module _ (os : LayoutOs) (thread : Trace → ℕ) (layouts : ℕ → ℕ) where
  abbrev now : Trace → ℕ → ℕ
  now = layouts_after os thread layouts

  -- What is typed, between the switch and the restoration.
  abbrev typed : World → String → Bool → Trace → Outcome
  typed w text clear_first =
      if clear_first
      then attempt w clear_input (λ e. wrapf "clearInput: %w" e [])
          (λ a. finally w (type_human text))
      else finally w (type_human text)

-- ===== src/Critical.antt =====
-- dispatcher_critical_windows.go, dispatcher_critical_other.go and the executors of dispatcher.go:
-- what a job does with its browser.
-- A run is the list of the operations it has made on the driver, its page and the operating system,
-- newest first. What each answers is a parameter, and may depend on all the operations before it.
pub mod Click
pub mod Layout
pub mod Order
pub mod Remote
pub mod Retry
pub mod Shared
pub mod Thread
pub mod Moved
use automationfleet.Base.{
  ℕ, zero, suc, ◌+◌, String, Bool, true, false, not, ◌&&◌, ◌||◌, Option, none, some, List, [], ◌∷◌,
  ◌++◌, ℤ, pos, negsuc, ◌+ℤ◌, ◌-ℤ◌, ltb_ℤ, pos_part, str_eq, if◌then◌else◌,
}
use automationfleet.Errors.{GoError, Sentinel, sentinel, errorf, wrapf, str, int, error_is}
use automationfleet.Action.{
  Action, Duration, Float64, click_action, type_action, navigate_action, scroll_action, wait_action,
  kind, not_positive,
}
use automationfleet.Driver.{BrowserHandle}
use automationfleet.Config.{Config}

-- `context_err` is a reading of ctx.Err(), `retry_delay` the `select` between the end of the context
-- and the delay before the next attempt.
pub data Op : Type 0 where
  context_err focus current content_offset get_cursor_pos force_en_us_layout clear_input settle
        retry_delay :
      Op
  restore_layout : ℕ → Op
  element_center click focus_element type_human : String → Op
  move_to click_at : (css_x css_y : Float64) → Op
  navigate wait_for_selector : String → Duration → Op
  evaluate_scroll : (selector : String) (delta_y : Float64) → Op

-- All that an operation can return: an error, whether a page is live, two floats, two integers, and
-- a keyboard layout. Each operation has its own of these.
pub record Answer : Type 0 where
  pub err : Option GoError
  pub live : Bool
  pub floats : Float64 × Float64
  pub ints : ℤ × ℤ
  pub layout : ℕ

abbrev pub Trace : Type 0
Trace = List Op

abbrev pub Outcome : Type 0
Outcome = Option GoError × Trace

abbrev pub abs : ℤ → ℤ
abs x = if ltb_ℤ x (pos 0) then pos 0 -ℤ x else x

abbrev pub same : GoError → GoError
same e = e

-- `round_scaled c s` is int(math.Round(c*s)).
pub record World : Type 0 where
  pub answer : Trace → Op → Answer
  pub round_scaled : Float64 → Float64 → ℤ

-- An operation whose error ends the run, wrapped.
unfoldable pub attempt :
    World → Op → (GoError → GoError) → (Answer → Trace → Outcome) → Trace → Outcome
attempt w op wrap go_on t = elim (w.answer t op).err [
  | some e ↦ (some (wrap e), op ∷ t)
  | none ↦ go_on (w.answer t op) (op ∷ t)
]

-- Where the cursor should stand, with the content's offset where it is known.
abbrev pub expected : ℤ → ℤ → Answer → (Answer → ℤ) → ℤ
expected origin scaled offset component = elim offset.err [
  | some e ↦ origin +ℤ scaled
  | none ↦ origin +ℤ scaled +ℤ component offset
]

abbrev pub expected_x : World → BrowserHandle → Answer → Float64 → ℤ
expected_x w h offset css_x = expected h.x (w.round_scaled css_x h.scale) offset (λ a. a.ints.0)

abbrev pub expected_y : World → BrowserHandle → Answer → Float64 → ℤ
expected_y w h offset css_y = expected h.y (w.round_scaled css_y h.scale) offset (λ a. a.ints.1)

abbrev pub is_far : Config → ℤ → ℤ → Bool
is_far cfg got wanted = ltb_ℤ cfg.drift_threshold (abs (got -ℤ wanted))

-- The guard of clickAt, at the trace after the move: a cursor that can be read and is too far away.
unfoldable pub has_drifted : World → Config → BrowserHandle → Float64 → Float64 → Trace → Bool
has_drifted w cfg h css_x css_y t =
    let offset : Answer = w.answer t content_offset in
    let got : Answer = w.answer (content_offset ∷ t) get_cursor_pos in
    elim got.err [
      | some e ↦ false
      | none ↦
          is_far cfg got.ints.0 (expected_x w h offset css_x)
          || is_far cfg got.ints.1 (expected_y w h offset css_y)
    ]

abbrev pub drift_error : World → BrowserHandle → Float64 → Float64 → Trace → GoError
drift_error w h css_x css_y t =
    let offset : Answer = w.answer t content_offset in
    let got : Answer = w.answer (content_offset ∷ t) get_cursor_pos in
    wrapf "%w: expected (%d,%d) got (%d,%d)" (sentinel Sentinel.err_cursor_drift) (
      int (expected_x w h offset css_x)
      ∷ int (expected_y w h offset css_y)
      ∷ int got.ints.0
      ∷ int got.ints.1
      ∷ [])

-- clickAt, and what its caller does after it succeeds.
unfoldable pub click_then :
    World → Config → BrowserHandle → Float64 → Float64 → (Trace → Outcome) → Trace → Outcome
unfolding has_drifted
click_then w cfg h css_x css_y go_on =
    attempt w (move_to css_x css_y) (λ e. wrapf "moveTo: %w" e [])
      (λ moved t.
        if has_drifted w cfg h css_x css_y t
        then (some (drift_error w h css_x css_y t), get_cursor_pos ∷ content_offset ∷ t)
        else attempt w context_err same
            (λ alive.
              attempt w (click_at css_x css_y) (λ e. wrapf "click: %w" e []) (λ clicked. go_on))
            (get_cursor_pos ∷ content_offset ∷ t))

abbrev pub done : Trace → Outcome
done t = (none, t)

-- The last operation of a function, whose error is the function's.
abbrev pub finally : World → Op → Trace → Outcome
finally w op = attempt w op same (λ a. done)

-- A duration that is not positive stands for the default.
abbrev pub timeout_of : Config → Duration → Duration
timeout_of cfg timeout = if not_positive timeout then cfg.default_timeout else timeout

-- A deferred RestoreLayout.
abbrev pub restoring : ℕ → Outcome → Outcome
restoring layout (e, t) = (e, restore_layout layout ∷ t)

-- The part of a TypeAction after the click: the layout is switched, and restored whatever happens.
unfoldable pub type_text : World → String → Bool → Trace → Outcome
type_text w text clear_first t =
    let forced : Answer = w.answer (settle ∷ t) force_en_us_layout in
    let typing : Trace → Outcome = finally w (type_human text) in
    restoring forced.layout (
      (if clear_first
          then attempt w clear_input (λ e. wrapf "clearInput: %w" e []) (λ a. typing)
          else typing)
        (force_en_us_layout ∷ settle ∷ t))

abbrev pub no_page : BrowserHandle → GoError
no_page h = errorf "no active page on browser %s" (str h.id ∷ [])

abbrev pub unsupported : Action → GoError
unsupported a = errorf "executeCritical: unsupported action %s" (str (kind a) ∷ [])

-- The `switch` of executeCritical on Windows, on a live page.
unfoldable pub perform : World → Config → BrowserHandle → Action → Trace → Outcome
unfolding click_then type_text
perform w cfg h (navigate_action url timeout) = finally w (navigate url (timeout_of cfg timeout))
perform w cfg h (click_action selector button) = attempt w context_err same (λ alive.
    attempt w (element_center selector) same
      (λ at. click_then w cfg h at.floats.0 at.floats.1 done))
perform w cfg h (type_action selector text clear_first) = attempt w context_err same (λ alive.
    attempt w (element_center selector) same
      (λ at. click_then w cfg h at.floats.0 at.floats.1 (type_text w text clear_first)))
perform w cfg h (scroll_action selector delta_y) =
    λ t. (some (unsupported (scroll_action selector delta_y)), t)
perform w cfg h (wait_action selector timeout) =
    λ t. (some (unsupported (wait_action selector timeout)), t)

-- executeCritical on Windows.
unfoldable pub execute_critical : World → Config → BrowserHandle → Action → Trace → Outcome
unfolding perform
execute_critical w cfg h a = attempt w context_err same (λ alive.
    attempt w focus (λ e. wrapf "focus: %w" e [])
      (λ focused t.
        if (w.answer t current).live
        then perform w cfg h a (current ∷ t)
        else (some (no_page h), current ∷ t)))

-- The loop of executeCriticalWithRetry, with the attempts that are left and the last outcome.
unfoldable pub retry : World → (Trace → Outcome) → ℕ → Outcome → Outcome
retry w execute zero (e, t) = (e, t)
retry w execute (suc n) (e, t) =
    if error_is e Sentinel.err_cursor_drift
    then attempt w retry_delay same (λ a t'. retry w execute n (execute t')) t
    else (e, t)

unfoldable pub execute_critical_with_retry : World → Config → (Trace → Outcome) → Trace → Outcome
unfolding retry
execute_critical_with_retry w cfg execute t =
    retry w execute (pos_part cfg.drift_retries) (execute t)

-- ===== src/Action.antt =====
-- action.go: the actions that a job can ask for, their validation and their routing class.
-- A duration is its number of nanoseconds. A float64 is its bit pattern.
use automationfleet.Base.{
  ℕ, String, Bool, true, false, Option, none, some, [], ℤ, pos, ltb_ℤ, str_eq, if◌then◌else◌,
}
use automationfleet.Errors.{GoError, errorf}

pub record Float64 : Type 0 where
  pub bits : ℕ

abbrev pub Duration : Type 0
Duration = ℤ

pub data MouseButton : Type 0 where
  mouse_left mouse_right mouse_middle : MouseButton

-- ClickAction, TypeAction, NavigateAction, ScrollAction and WaitAction, by their fields.
pub data Action : Type 0 where
  click_action : (selector : String) (button : MouseButton) → Action
  type_action : (selector text : String) (clear_first : Bool) → Action
  navigate_action : (url : String) (timeout : Duration) → Action
  scroll_action : (selector : String) (delta_y : Float64) → Action
  wait_action : (selector : String) (timeout : Duration) → Action

unfoldable pub kind : Action → String
kind (click_action selector button) = "click"
kind (type_action selector text clear_first) = "type"
kind (navigate_action url timeout) = "navigate"
kind (scroll_action selector delta_y) = "scroll"
kind (wait_action selector timeout) = "wait"

-- `d <= 0`
abbrev pub not_positive : Duration → Bool
not_positive d = if ltb_ℤ (pos 0) d then false else true

unfoldable pub validate : Action → Option GoError
validate (click_action selector button) =
    if str_eq selector "" then some (errorf "ClickAction: Selector required" []) else none
validate (type_action selector text clear_first) =
    if str_eq selector ""
    then some
        (errorf "TypeAction: Selector required (typing without target leaks to wrong window)" [])
    else if str_eq text ""
    then some (errorf "TypeAction: Text required" [])
    else none
validate (navigate_action url timeout) =
    if str_eq url "" then some (errorf "NavigateAction: URL required" []) else none
validate (scroll_action selector delta_y) = none
validate (wait_action selector timeout) =
    if str_eq selector ""
    then some (errorf "WaitAction: Selector required" [])
    else if not_positive timeout
    then some (errorf "WaitAction: Timeout > 0 required" [])
    else none

-- A nil action, like scrolling and waiting, takes the `default` case.
unfoldable pub needs_native_critical_section : Option Action → Bool
needs_native_critical_section (some (click_action selector button)) = true
needs_native_critical_section (some (type_action selector text clear_first)) = true
needs_native_critical_section (some (navigate_action url timeout)) = true
needs_native_critical_section _ = false

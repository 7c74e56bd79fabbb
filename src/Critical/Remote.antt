-- ===== src/Critical/Remote.antt =====
-- dispatcher_critical_other.go, and executeCDPOnly of dispatcher.go: the executors that leave the
-- mouse and the keyboard of the computer alone.
use automationfleet.Base.{String, Bool, some, [], ◌∷◌, if◌then◌else◌}
use automationfleet.Errors.{errorf}
use automationfleet.Action.{
  Action, click_action, type_action, navigate_action, scroll_action, wait_action,
}
use automationfleet.Driver.{BrowserHandle}
use automationfleet.Config.{Config}
use automationfleet.Critical.{
  World, Trace, Outcome, attempt, finally, same, unsupported, no_page, timeout_of, current,
  context_err, focus_element, clear_input, type_human, navigate, click, wait_for_selector,
  evaluate_scroll,
}

-- FocusElement, the optional ClearInput, and TypeHuman.
abbrev pub type_remotely : World → String → String → Bool → Trace → Outcome
type_remotely w selector text clear_first = attempt w (focus_element selector) same (λ focused.
    if clear_first
    then attempt w clear_input same (λ a. finally w (type_human text))
    else finally w (type_human text))

-- The `switch` of executeCritical elsewhere.
unfoldable pub perform_other : World → Config → Action → Trace → Outcome
perform_other w cfg (navigate_action url timeout) =
    finally w (navigate url (timeout_of cfg timeout))
perform_other w cfg (click_action selector button) = finally w (click selector)
perform_other w cfg (type_action selector text clear_first) =
    type_remotely w selector text clear_first
perform_other w cfg (scroll_action selector delta_y) =
    λ t. (some (unsupported (scroll_action selector delta_y)), t)
perform_other w cfg (wait_action selector timeout) =
    λ t. (some (unsupported (wait_action selector timeout)), t)

-- executeCritical elsewhere, after its warning.
unfoldable pub execute_critical_other : World → Config → BrowserHandle → Action → Trace → Outcome
unfolding perform_other
execute_critical_other w cfg h a t =
    if (w.answer t current).live
    then perform_other w cfg a (current ∷ t)
    else (some (no_page h), current ∷ t)

-- The `switch` of executeCDPOnly; an empty selector scrolls the window.
unfoldable pub perform_cdp : World → Config → Action → Trace → Outcome
perform_cdp w cfg (scroll_action selector delta_y) = finally w (evaluate_scroll selector delta_y)
perform_cdp w cfg (wait_action selector timeout) = finally w (wait_for_selector selector timeout)
perform_cdp w cfg (click_action selector button) = finally w (click selector)
perform_cdp w cfg (type_action selector text clear_first) =
    type_remotely w selector text clear_first
perform_cdp w cfg (navigate_action url timeout) = finally w (navigate url (timeout_of cfg timeout))

unfoldable pub execute_cdp_only : World → Config → Action → Trace → Outcome
unfolding perform_cdp
execute_cdp_only w cfg a t =
    if (w.answer t current).live
    then attempt w context_err same (λ alive. perform_cdp w cfg a) (current ∷ t)
    else (some (errorf "automationfleet: no active page" []), current ∷ t)

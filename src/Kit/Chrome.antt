-- ===== src/Kit/Chrome.antt =====
-- adapter_chromekit.go: the calls of a driver for chromekit.
use automationfleet.Base.{ℕ, String, Option, none, some, [], ◌∷◌, pos, if◌then◌else◌}
use automationfleet.Errors.{errorf, wrapf, str}
use automationfleet.Kit.{
  given, scroll_to_center, kit_current, kit_focus, kit_content_offset, kit_move_to, kit_click_at,
  kit_click, kit_focus_element, kit_type_human, kit_clear_input, kit_evaluate, kit_navigate,
  kit_wait_for_selector, kit_query_selector, kit_bounding_box, sleep, KitTrace, KitWorld,
  DriverCall, current, focus, content_offset, move_to, click_at, click, focus_element, type_human,
  element_center, clear_input, evaluate, navigate, wait_for_selector, Page, nil_page, chrome_page,
  DriverAnswer, failure, forward, and_then, as_is, center,
}

-- A nil pointer is never wrapped.
unfoldable pub wrap_page : Option ℕ → Page
wrap_page none = nil_page
wrap_page (some p) = chrome_page (some p)

unfoldable pub chrome_center : KitWorld → String → KitTrace → DriverAnswer × KitTrace
chrome_center w selector =
    and_then w (kit_evaluate (scroll_to_center selector)) (λ e. wrapf "scrollIntoView: %w" e [])
      (λ scrolled t.
        if scrolled.found
        then and_then w (kit_query_selector selector (pos 2000000000)) as_is
            (λ queried. and_then w (kit_bounding_box queried.node) as_is (center w selector))
            (sleep (pos 60000000) ∷ t)
        else (failure (some (errorf "element %q not found" (str selector ∷ []))), t))

unfoldable pub chrome_call : KitWorld → DriverCall → KitTrace → DriverAnswer × KitTrace
unfolding wrap_page chrome_center
chrome_call w current t =
    (record (failure none) { page = wrap_page (w.answer t kit_current).page }, kit_current ∷ t)
chrome_call w focus t = forward w kit_focus t
chrome_call w content_offset t = forward w kit_content_offset t
chrome_call w (move_to x y) t = forward w (kit_move_to x y) t
chrome_call w (click_at x y) t = forward w (kit_click_at x y) t
chrome_call w (click selector) t = forward w (kit_click selector) t
chrome_call w (focus_element selector) t = forward w (kit_focus_element selector) t
chrome_call w (type_human text) t = forward w (kit_type_human text) t
chrome_call w (clear_input selectors) t = forward w (kit_clear_input selectors) t
chrome_call w (evaluate script) t = forward w (kit_evaluate (given script)) t
chrome_call w (navigate url timeout) t = forward w (kit_navigate url timeout) t
chrome_call w (wait_for_selector selector timeout) t =
    forward w (kit_wait_for_selector selector timeout) t
chrome_call w (element_center selector) t = chrome_center w selector t

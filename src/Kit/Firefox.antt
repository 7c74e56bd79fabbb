-- ===== src/Kit/Firefox.antt =====
-- adapter_firefoxkit.go: the calls of a driver for firefoxkit.
use automationfleet.Base.{ℕ, String, Option, none, some, ◌∷◌}
use automationfleet.Kit.{
  given, kit_current, kit_focus, kit_content_offset, kit_move_to, kit_click_at, kit_click,
  kit_focus_element, kit_type_human, kit_clear_input, kit_evaluate, kit_navigate,
  kit_wait_for_selector, kit_scroll_into_view, kit_bounding_box_of, KitTrace, KitWorld, DriverCall,
  current, focus, content_offset, move_to, click_at, click, focus_element, type_human,
  element_center, clear_input, evaluate, navigate, wait_for_selector, Page, nil_page, firefox_page,
  DriverAnswer, failure, forward, and_then, as_is, center,
}

unfoldable pub wrap_page : Option ℕ → Page
wrap_page none = nil_page
wrap_page (some p) = firefox_page (some p)

unfoldable pub firefox_center : KitWorld → String → KitTrace → DriverAnswer × KitTrace
firefox_center w selector =
    and_then w (kit_scroll_into_view selector) as_is
      (λ scrolled. and_then w (kit_bounding_box_of selector) as_is (center w selector))

unfoldable pub firefox_call : KitWorld → DriverCall → KitTrace → DriverAnswer × KitTrace
unfolding wrap_page firefox_center
firefox_call w current t =
    (record (failure none) { page = wrap_page (w.answer t kit_current).page }, kit_current ∷ t)
firefox_call w focus t = forward w kit_focus t
firefox_call w content_offset t = forward w kit_content_offset t
firefox_call w (move_to x y) t = forward w (kit_move_to x y) t
firefox_call w (click_at x y) t = forward w (kit_click_at x y) t
firefox_call w (click selector) t = forward w (kit_click selector) t
firefox_call w (focus_element selector) t = forward w (kit_focus_element selector) t
firefox_call w (type_human text) t = forward w (kit_type_human text) t
firefox_call w (clear_input selectors) t = forward w (kit_clear_input selectors) t
firefox_call w (evaluate script) t = forward w (kit_evaluate (given script)) t
firefox_call w (navigate url timeout) t = forward w (kit_navigate url timeout) t
firefox_call w (wait_for_selector selector timeout) t =
    forward w (kit_wait_for_selector selector timeout) t
firefox_call w (element_center selector) t = firefox_center w selector t

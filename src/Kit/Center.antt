-- ===== src/Kit/Center.antt =====
-- The point that ElementCenter returns, in either kit.
use mathlib.Core.Path.{subst}
use mathlib.Core.List.{Mem, mem-cons_self, mem-cons_of_mem}
use automationfleet.Base.{◌≡◌, refl, sym, String, Bool, true, false, none, ◌∷◌, arith, ◌||◌, pos}
use automationfleet.Driver.{at_most_zero}
use automationfleet.Kit.{
  Kit, chromekit, firefoxkit, KitCall, scroll_to_center, kit_evaluate, kit_query_selector,
  kit_bounding_box, kit_scroll_into_view, kit_bounding_box_of, sleep, KitTrace, KitWorld, KitAnswer,
  DriverCall, element_center, DriverAnswer, failure, Box,
}
use automationfleet.Kit.Chrome.{chrome_call, chrome_center}
use automationfleet.Kit.Firefox.{firefox_call, firefox_center}

abbrev pub driver_call : Kit → KitWorld → DriverCall → KitTrace → DriverAnswer × KitTrace
driver_call chromekit = chrome_call
driver_call firefoxkit = firefox_call

-- The call that scrolls the element into view.
abbrev pub scroll : Kit → String → KitCall
scroll chromekit selector = kit_evaluate (scroll_to_center selector)
scroll firefoxkit selector = kit_scroll_into_view selector

-- A call that reads the box of an element.
abbrev pub reads_box : KitCall → Bool
reads_box (kit_bounding_box node) = true
reads_box (kit_bounding_box_of selector) = true
reads_box _ = false

-- The point is the middle of a box that is not empty; the box is what the last call of the run read,
-- and the element was scrolled into view before.
abbrev pub Measured : Kit → KitWorld → String → DriverAnswer × KitTrace → Type 0
Measured k w selector (a, t') =
    (call : KitCall) × (t : KitTrace) × (t' ≡ call ∷ t)
    × (reads_box call ≡ true)
    × Mem (scroll k selector) t
    × (at_most_zero (w.answer t call).box.width ≡ false)
    × (at_most_zero (w.answer t call).box.height ≡ false)
    × (a.floats ≡ (
      w.middle (w.answer t call).box.x (w.answer t call).box.width,
      w.middle (w.answer t call).box.y (w.answer t call).box.height,
    ))

abbrev empty : Box → Bool
empty b = at_most_zero b.width || at_most_zero b.height

-- A run that ends at the middle of a box.
abbrev at_center : KitWorld → KitTrace → KitAnswer → DriverAnswer × KitTrace
at_center w t a = (
  record (failure none) { floats = (w.middle a.box.x a.box.width, w.middle a.box.y a.box.height) },
  t,
)

chrome-Measured :
    (w : KitWorld) (selector : String) (t : KitTrace)
    → (chrome_center w selector t).0.err ≡ none
    → Measured chromekit w selector (chrome_center w selector t)
unfolding chrome_center
chrome-Measured w selector t e =
    let script = scroll chromekit selector in
    let query = kit_query_selector selector (pos 2000000000) in
    let paused = sleep (pos 60000000) ∷ script ∷ t in
    let read = kit_bounding_box (w.answer paused query).node in
    let scrolled : (w.answer t script).err ≡ none = ground arith in
    let found : (w.answer t script).found ≡ true = ground arith in
    let queried : (w.answer paused query).err ≡ none = ground arith in
    let measured : (w.answer (query ∷ paused) read).err ≡ none = ground arith in
    let full : empty (w.answer (query ∷ paused) read).box ≡ false = ground arith in
    let done : chrome_center w selector t
        ≡ at_center w (read ∷ query ∷ paused) (w.answer (query ∷ paused) read) =
      ground arith in
    subst (Measured chromekit w selector) (sym done) (
      read,
      query ∷ paused,
      refl,
      refl,
      mem-cons_of_mem _ (mem-cons_of_mem _ mem-cons_self),
      ground arith,
      ground arith,
      refl,
    )

firefox-Measured :
    (w : KitWorld) (selector : String) (t : KitTrace)
    → (firefox_center w selector t).0.err ≡ none
    → Measured firefoxkit w selector (firefox_center w selector t)
unfolding firefox_center
firefox-Measured w selector t e =
    let scrolling = scroll firefoxkit selector in
    let read = kit_bounding_box_of selector in
    let scrolled : (w.answer t scrolling).err ≡ none = ground arith in
    let measured : (w.answer (scrolling ∷ t) read).err ≡ none = ground arith in
    let full : empty (w.answer (scrolling ∷ t) read).box ≡ false = ground arith in
    let done : firefox_center w selector t
        ≡ at_center w (read ∷ scrolling ∷ t) (w.answer (scrolling ∷ t) read) =
      ground arith in
    subst (Measured firefoxkit w selector) (sym done)
      (read, scrolling ∷ t, refl, refl, mem-cons_self, ground arith, ground arith, refl)

-- In either kit, whatever its calls answer: if ElementCenter returns no error, its point is the
-- middle of a box that is not empty, which the last call of the run read, after the element was
-- scrolled into view.
pub element_center-Measured :
    (k : Kit) (w : KitWorld) (selector : String) (t : KitTrace)
    → (driver_call k w (element_center selector) t).0.err ≡ none
    → Measured k w selector (driver_call k w (element_center selector) t)
unfolding chrome_call firefox_call
element_center-Measured chromekit w selector t e = chrome-Measured w selector t e
element_center-Measured firefoxkit w selector t e = firefox-Measured w selector t e

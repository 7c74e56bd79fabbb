-- ===== src/Kit.antt =====
-- adapter_chromekit.go and adapter_firefoxkit.go: the two kits as drivers.
-- What a call of a kit answers is a parameter, and may depend on the calls before it. A run is the
-- list of the calls made on the kit, newest first.
pub mod Chrome
pub mod Firefox
pub mod Center
use automationfleet.Base.{
  ℕ, String, Bool, false, Option, none, some, List, [], ◌∷◌, ℤ, pos, ◌||◌, ◌==◌, if◌then◌else◌,
}
use automationfleet.Action.{Duration, Float64}
use automationfleet.Errors.{GoError, errorf, str}
use automationfleet.Driver.{Backend, backend_native, backend_remote, Driver, at_most_zero}

pub data Kit : Type 0 where
  chromekit firefoxkit : Kit

-- A script: one that is given, or the one that scrolls the element to the center of the viewport.
pub data Script : Type 0 where
  given scroll_to_center : String → Script

-- The calls that the adapters make. A bounding box is asked for by the node in one kit, and by the
-- selector in the other. `sleep` is the pause of the adapter.
pub data KitCall : Type 0 where
  kit_current kit_focus kit_content_offset : KitCall
  kit_move_to kit_click_at : (css_x css_y : Float64) → KitCall
  kit_click kit_focus_element kit_type_human kit_scroll_into_view kit_bounding_box_of :
      String → KitCall
  kit_clear_input : List String → KitCall
  kit_evaluate : Script → KitCall
  kit_navigate kit_wait_for_selector kit_query_selector : String → Duration → KitCall
  kit_bounding_box : ℕ → KitCall
  sleep : Duration → KitCall

pub record Box : Type 0 where
  pub x : Float64
  pub y : Float64
  pub width : Float64
  pub height : Float64

-- All that a call can return: an error, a pointer to a page, which may be nil, the truth value that
-- a script returns, a node, a box, and two integers. Each call has its own of these.
pub record KitAnswer : Type 0 where
  pub err : Option GoError
  pub page : Option ℕ
  pub found : Bool
  pub node : ℕ
  pub box : Box
  pub ints : ℤ × ℤ

abbrev pub KitTrace : Type 0
KitTrace = List KitCall

-- `middle a b` is the float `a + b/2`.
pub record KitWorld : Type 0 where
  pub answer : KitTrace → KitCall → KitAnswer
  pub middle : Float64 → Float64 → Float64

-- The calls of the interfaces Driver, Page, Mouse and Keyboard, but InputBackend, Mouse and Keyboard.
pub data DriverCall : Type 0 where
  current focus content_offset : DriverCall
  move_to click_at : (css_x css_y : Float64) → DriverCall
  click focus_element type_human element_center : String → DriverCall
  clear_input : List String → DriverCall
  evaluate : String → DriverCall
  navigate wait_for_selector : String → Duration → DriverCall

-- A value of the interface Page: nil, or a page of a kit by its pointer, which may be nil.
pub data Page : Type 0 where
  nil_page : Page
  chrome_page firefox_page : Option ℕ → Page

pub record DriverAnswer : Type 0 where
  pub err : Option GoError
  pub page : Page
  pub floats : Float64 × Float64
  pub ints : ℤ × ℤ

abbrev pub zero_float : Float64
zero_float = record { bits = 0 }

abbrev pub failure : Option GoError → DriverAnswer
failure err = record {
  err = err;
  page = nil_page;
  floats = (zero_float, zero_float);
  ints = (pos 0, pos 0);
}

-- A call that is passed on to the kit, with its error and its integers.
abbrev pub forward : KitWorld → KitCall → KitTrace → DriverAnswer × KitTrace
forward w call t =
    let a : KitAnswer = w.answer t call in (record (failure a.err) { ints = a.ints }, call ∷ t)

-- A call of the kit whose error ends the adapter's.
abbrev pub and_then :
    KitWorld
    → KitCall
    → (GoError → GoError)
    → (KitAnswer → KitTrace → DriverAnswer × KitTrace)
    → KitTrace
    → DriverAnswer × KitTrace
and_then w call wrap go_on t = elim (w.answer t call).err [
  | some e ↦ (failure (some (wrap e)), call ∷ t)
  | none ↦ go_on (w.answer t call) (call ∷ t)
]

abbrev pub as_is : GoError → GoError
as_is e = e

-- The end of ElementCenter, with the box of the element.
abbrev pub center : KitWorld → String → KitAnswer → KitTrace → DriverAnswer × KitTrace
center w selector a t =
    if at_most_zero a.box.width || at_most_zero a.box.height
    then (failure (some (errorf "zero-size element %q" (str selector ∷ []))), t)
    else (
      record (failure none) {
        floats = (w.middle a.box.x a.box.width, w.middle a.box.y a.box.height);
      },
      t,
    )

-- A browser of a kit: the object, and what its method InputBackend returns. `native_code` is the
-- constant BackendNative of the kit.
pub record KitBrowser : Type 0 where
  pub ref : ℕ
  pub backend : ℕ

unfoldable pub input_backend : ℕ → KitBrowser → Backend
input_backend native_code b = if b.backend == native_code then backend_native else backend_remote

abbrev pub wrap : ℕ → KitBrowser → Driver
wrap native_code b = record { ref = b.ref; input_backend = input_backend native_code b }

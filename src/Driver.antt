-- ===== src/Driver.antt =====
-- driver.go and browser_handle.go: what the fleet knows of a browser.
-- `ref` names the driver object; `input_backend` is what its method InputBackend returns. A handle
-- is a value here: the caller keeps its pointer to it, and is taken not to write through it.
pub mod Accepted
use automationfleet.Base.{
  ℕ, String, Bool, true, false, not, ◌&&◌, Option, none, some, [], ℤ, ltb, ◌||◌, ◌==◌, ◌%◌, ◌^◌,
  leb, str_eq, if◌then◌else◌,
}
use automationfleet.Action.{Float64}
use automationfleet.Errors.{GoError, errorf}

pub data Backend : Type 0 where
  backend_native backend_remote : Backend

pub record Driver : Type 0 where
  pub ref : ℕ
  pub input_backend : Backend

-- `driver` is none for a nil interface.
pub record BrowserHandle : Type 0 where
  pub id : String
  pub driver : Option Driver
  pub x : ℤ
  pub y : ℤ
  pub scale : Float64
  pub native : Bool

abbrev pub is_native : Backend → Bool
is_native backend_native = true
is_native backend_remote = false

-- 1.0, and the bits of infinity.
abbrev pub one : Float64
one = record { bits = 4607182418800017408 }

abbrev pub infinity_bits : ℕ
infinity_bits = 9218868437227405312

-- `s <= 0`: false of a NaN, true of both zeros and of what has the sign bit.
abbrev pub at_most_zero : Float64 → Bool
at_most_zero s = not (ltb infinity_bits (s.bits % 2 ^ 63)) && (s.bits == 0 || leb (2 ^ 63) s.bits)

-- The checks of a handle with a driver, after the scale is set.
unfoldable pub check_backend : BrowserHandle → Driver → Option GoError
check_backend h d =
    if h.native && not (is_native d.input_backend)
    then some (errorf "BrowserHandle: Native=true but Driver uses remote backend" [])
    else if not h.native && is_native d.input_backend
    then some (errorf "BrowserHandle: Native=false but Driver uses native backend" [])
    else none

abbrev pub with_scale : BrowserHandle → BrowserHandle
with_scale h = if at_most_zero h.scale then record h { scale = one } else h

-- The error, if any, and the handle as the call leaves it; `none` is a nil pointer.
unfoldable pub validate : Option BrowserHandle → Option GoError × Option BrowserHandle
unfolding check_backend
validate none = (some (errorf "BrowserHandle: nil" []), none)
validate (some h) =
    if str_eq h.id ""
    then (some (errorf "BrowserHandle: ID required" []), some h)
    else elim h.driver [
      | none ↦ (some (errorf "BrowserHandle: Driver required" []), some h)
      | some d ↦ (check_backend (with_scale h) d, some (with_scale h))
    ]

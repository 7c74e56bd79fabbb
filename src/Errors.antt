-- ===== src/Errors.antt =====
-- The error values of the package: the sentinels of job.go and dispatcher.go, those of the context
-- package, and what errors.New and fmt.Errorf build. A message is kept as its format and arguments.
use automationfleet.Base.{ℕ, String, Bool, true, false, Option, none, some, List, ℤ}

-- Errors that the code compares with by errors.Is.
pub data Sentinel : Type 0 where
  err_fleet_stopped : Sentinel
  err_unknown_browser : Sentinel
  err_cursor_drift : Sentinel
  canceled : Sentinel
  deadline_exceeded : Sentinel

pub data Arg : Type 0 where
  str : String → Arg
  int : ℤ → Arg
  text : List ℕ → Arg

-- `wrapf` is fmt.Errorf with the verb %w for the error.
pub data GoError : Type 0 where
  sentinel : Sentinel → GoError
  errorf : String → List Arg → GoError
  wrapf : String → GoError → List Arg → GoError

abbrev pub same_sentinel : Sentinel → Sentinel → Bool
same_sentinel err_fleet_stopped err_fleet_stopped = true
same_sentinel err_unknown_browser err_unknown_browser = true
same_sentinel err_cursor_drift err_cursor_drift = true
same_sentinel canceled canceled = true
same_sentinel deadline_exceeded deadline_exceeded = true
same_sentinel _ _ = false

-- errors.Is: the chain of wrapped errors is searched for the sentinel.
abbrev pub errors_is : GoError → Sentinel → Bool
errors_is (sentinel s) t = same_sentinel s t
errors_is (errorf format args) t = false
errors_is (wrapf format e args) t = errors_is e t

-- The nil error is no sentinel.
abbrev pub error_is : Option GoError → Sentinel → Bool
error_is none t = false
error_is (some e) t = errors_is e t

-- ===== src/FiveSteps.antt =====
-- examples/five_browser_steps/main.go and examples/testpage/server.go: the script that the example
-- runs on each browser, the layout of its windows, and its wait for the browsers.
-- What the fleet and the page answer is a parameter, and may depend on the calls before.
pub mod Script
pub mod Layout
pub mod Devtools
pub mod Literal
use Prim.Native.String.{◌++◌}
use automationfleet.Base.{
  ℕ, zero, suc, ◌+◌, ◌*◌, ◌/◌, ◌%◌, String, Bool, true, false, not, ◌&&◌, ◌||◌, Option, none, some,
  List, [], ◌∷◌, ℤ, pos, ◌==◌, ltb, str_eq, codes, eq_codes, if◌then◌else◌,
}
use automationfleet.Errors.{GoError, errorf, wrapf, str, int}
use automationfleet.Action.{
  Action, Duration, click_action, type_action, navigate_action, mouse_left,
}
use automationfleet.Job.{Job, JobStatus, status_done, JobResult, status_name}

-- strconv.Itoa of a number of at most nine digits.
abbrev digit : ℕ → String
digit n =
    if n == 0
    then "0"
    else if n == 1
    then "1"
    else if n == 2
    then "2"
    else if n == 3
    then "3"
    else if n == 4
    then "4"
    else if n == 5
    then "5"
    else if n == 6
    then "6"
    else if n == 7
    then "7"
    else if n == 8
    then "8"
    else "9"

digits : ℕ → ℕ → String
digits zero n = ""
digits (suc fuel) n =
    let more = digits fuel (n / 10) in if ltb n 10 then digit n else more ++ digit (n % 10)

unfoldable pub itoa : ℕ → String
unfolding digits
itoa n = digits 9 n

-- strings.Contains, on code points.
starts_with : List ℕ → List ℕ → Bool
starts_with [] s = true
starts_with (c ∷ p) [] = false
starts_with (c ∷ p) (d ∷ s) = c == d && starts_with p s

unfoldable pub contains : List ℕ → List ℕ → Bool
unfolding starts_with
contains [] p = starts_with p []
contains (c ∷ s) p = starts_with p (c ∷ s) || contains s p

-- Server.PageURL, for a server at the address `url`.
unfoldable pub page_url : String → String → String
page_url url id = url ++ "/?id=" ++ id

-- What the script reads of the page.
pub data Read : Type 0 where
  wait_for_selector : String → Duration → Read
  field_value counter_value last_click_value page_address : Read

-- A job is submitted, its result is received, and the page is read. Newest first.
pub data Event : Type 0 where
  submits : Job → Event
  receives : Event
  reads : Read → Event

abbrev pub Trace : Type 0
Trace = List Event

pub record Answer : Type 0 where
  pub err : Option GoError
  pub text : String
  pub number : ℤ

-- `print` is what the verb %v writes of an error.
pub record World : Type 0 where
  pub submit : Trace → Job → Option GoError
  pub result : Trace → JobResult
  pub answer : Trace → Read → Answer
  pub print : Option GoError → String

abbrev pub is_done : JobStatus → Bool
is_done status_done = true
is_done _ = false

abbrev pub job_of : String → Action → Job
job_of id a = record { browser_id = id; action = some a; priority = pos 5; timeout = pos 0 }

unfoldable pub submit_wait : World → String → Action → Trace → Option GoError × Trace
submit_wait w id a t =
    let t' : Trace = receives ∷ submits (job_of id a) ∷ t in
    elim (w.submit t (job_of id a)) [
      | some e ↦ (some (wrapf "submit: %w" e []), submits (job_of id a) ∷ t)
      | none ↦ if is_done (w.result t').status then (none, t') else (
        some (
            errorf "status=%s err=%v"
              (str (status_name (w.result t').status) ∷ str (w.print (w.result t').err) ∷ [])),
        t',
      )
    ]

-- A step whose error ends the script.
unfoldable pub and_then :
    Option GoError × Trace
    → (GoError → GoError)
    → (Trace → Option GoError × Trace)
    → Option GoError × Trace
and_then (some e, t) wrap go_on = (some (wrap e), t)
and_then (none, t) wrap go_on = go_on t

-- A reading of the page, with the test of what it read.
unfoldable pub check :
    World
    → Read
    → (GoError → GoError)
    → (Answer → Bool)
    → (Answer → GoError)
    → (Trace → Option GoError × Trace)
    → Trace
    → Option GoError × Trace
check w r wrap test mismatch go_on t = elim (w.answer t r).err [
  | some e ↦ (some (wrap e), reads r ∷ t)
  | none ↦
      if test (w.answer t r)
      then go_on (reads r ∷ t)
      else (some (mismatch (w.answer t r)), reads r ∷ t)
]

abbrev pub is_one : ℤ → Bool
is_one (pos n) = n == 1
is_one _ = false

abbrev pub seconds : ℕ → Duration
seconds n = pos (n * 1000000000)

abbrev step_id : String → ℕ → String
step_id step stt = step ++ itoa stt

-- The end of the script, which looks at what has become of the page.
unfoldable pub verify : World → String → String → Trace → Option GoError × Trace
unfolding contains
verify w step2 round2 =
    check w page_address (λ e. wrapf "getURL: %w" e [])
      (λ a. contains (codes a.text) (codes ("id=" ++ step2)))
      (λ a. errorf "URL want id=%s, got %s" (str step2 ∷ str a.text ∷ []))
      (check w field_value (λ e. wrapf "read #q: %w" e []) (λ a. str_eq a.text round2)
        (λ a.
          errorf
            "input value want %q, got %q (ClearFirst on round2 may have failed — round1 prefix?)"
            (str round2 ∷ str a.text ∷ []))
        (check w counter_value (λ e. wrapf "read counter: %w" e []) (λ a. is_one a.number)
          (λ a. errorf "counter want 1, got %d" (int a.number ∷ []))
          (check w last_click_value (λ e. wrapf "read fleetLog: %w" e [])
            (λ a. str_eq a.text round2)
            (λ a.
              errorf "click event value want %q, got %q (input may have leaked to wrong window)"
                (str round2 ∷ str a.text ∷ []))
            (λ t. (none, t)))))

-- `url` is the address of the test page's server. The constructor `receives` is the receive from the
-- channel of the job just submitted.
unfoldable pub run_script :
    World → String → String → ℕ → String → String → Duration → Trace → Option GoError × Trace
unfolding page_url itoa
run_script w id url stt round1 round2 timeout t =
    let step1 : String = step_id "step1-" stt in
    let step2 : String = step_id "step2-" stt in
    and_then (submit_wait w id (navigate_action (page_url url step1) timeout) t)
      (λ e. wrapf "nav %s: %w" e (str step1 ∷ []))
      λ t1.
        and_then (submit_wait w id (navigate_action (page_url url step2) timeout) t1)
          (λ e. wrapf "nav %s: %w" e (str step2 ∷ []))
          (check w (wait_for_selector "#q" (seconds 10))
            (λ e. wrapf "wait #q after %s: %w" e (str step2 ∷ [])) (λ a. true) (λ a. errorf "" [])
            λ t2.
              and_then (submit_wait w id (type_action "#q" round1 true) t2)
                (λ e. wrapf "type round1 %q: %w" e (str round1 ∷ []))
                (check w field_value (λ e. wrapf "read #q after round1: %w" e [])
                  (λ a. str_eq a.text round1)
                  (λ a. errorf "round1 mismatch: want %q, got %q" (str round1 ∷ str a.text ∷ []))
                  λ t3.
                    and_then (submit_wait w id (type_action "#q" round2 true) t3)
                      (λ e. wrapf "type round2 %q: %w" e (str round2 ∷ []))
                      λ t4.
                        and_then (submit_wait w id (click_action "#submit" mouse_left) t4)
                          (λ e. wrapf "click submit: %w" e []) (verify w step2 round2)))

-- How many of the scripts' results are errors; the example ends well if none is.
unfoldable pub failed : List (Option GoError) → ℕ
failed [] = 0
failed (some e ∷ results) = suc (failed results)
failed (none ∷ results) = failed results

-- ===== src/Tests/Examples.antt =====
-- Runs of the examples: a script that passes and one that does not, and a wait.
use automationfleet.Base.{
  ℕ, suc, ◌+◌, ◌*◌, ◌/◌, ◌≡◌, ◌↔◌, refl, String, Bool, Option, none, some, [], ◌∷◌, arith, pos,
  length, ltb, ◌==◌, codes, if◌then◌else◌,
}
use automationfleet.Errors.{GoError, sentinel, Sentinel}
use automationfleet.Job.{JobResult, status_done, status_failed, status_name}
use automationfleet.FiveSteps
use automationfleet.FiveSteps.{
  Read, Answer, Event, Trace, World, field_value, counter_value, last_click_value, page_address,
  wait_for_selector, run_script, submit_wait, and_then, check, seconds, failed, page_url,
}
use automationfleet.FiveSteps.Script.{script, Passed, run_script_passes_iff}
use automationfleet.FiveSteps.Devtools.{unreachable, Waited, wait_devtools, wait_devtools-returns}
use automationfleet.FiveSteps.Literal.{js_string}

abbrev answered : String → Answer
answered s = record { err = none; text = s; number = pos 1 }

-- The field holds what was typed last.
abbrev read_page : Trace → Read → Answer
read_page t field_value = answered (if ltb (length t) 10 then "step1-first" else "step1-final")
read_page t counter_value = answered ""
read_page t last_click_value = answered "step1-final"
read_page t page_address = answered "http://127.0.0.1:80/?id=step2-1"
read_page t (wait_for_selector s d) = answered ""

abbrev done : JobResult
done = record { id = 1; browser_id = "b1"; status = status_done; err = none; took = pos 5 }

abbrev willing : World
willing = record {
  submit = λ t j. none;
  result = λ t. done;
  answer = read_page;
  print = λ e. "nil";
}

passes :
    (run_script willing "b1" "http://127.0.0.1:80" 1 "step1-first" "step1-final" (seconds 20) []).0
    ≡ none
unfolding run_script submit_wait and_then check FiveSteps.verify
passes = refl

-- The second job fails.
abbrev failing : World
failing = record willing {
  result = λ t. if length t == 4 then record done { status = status_failed } else done;
}

stops_early :
    length
      (run_script failing "b1" "http://127.0.0.1:80" 1 "step1-first" "step1-final"
        (seconds 20)
        []).1
    ≡ 4
unfolding run_script submit_wait and_then check status_name
stops_early = refl

run_script_passes_iff_example :
    ((run_script failing "b1" "http://127.0.0.1:80" 1 "step1-first" "step1-final" (seconds 20) []).0
      ≡ none)
    ↔ Passed failing "b1"
        (script "http://127.0.0.1:80" 1 "step1-first" "step1-final" (seconds 20))
        []
        (run_script failing "b1" "http://127.0.0.1:80" 1 "step1-first" "step1-final"
          (seconds 20)
          []).1
run_script_passes_iff_example =
    run_script_passes_iff failing "b1" "http://127.0.0.1:80" 1 "step1-first" "step1-final"
      (seconds 20) []

one_failed : failed (none ∷ some (sentinel Sentinel.canceled) ∷ none ∷ []) ≡ 1
unfolding failed
one_failed = refl

quoted : js_string (codes "it's") ≡ codes "'it\\'s'"
unfolding js_string
quoted = refl

-- An attempt in each sixty milliseconds, the fourth of which succeeds, in a time of one second.
abbrev reading : ℕ → ℕ
reading k = k * 60000000

abbrev fourth : ℕ → Bool
fourth k = k == 3

wait_devtools-returns_example :
    (r : Option GoError) × (wait_devtools reading fourth 9222 1000000000
        (suc (1000000000 / 50000000 + 1))
      ≡ some r)
    × Waited reading fourth (unreachable 9222 1000000000) (0 + 1000000000) r
wait_devtools-returns_example =
    wait_devtools-returns reading fourth 9222 1000000000 (λ k. omega arith) (omega arith)

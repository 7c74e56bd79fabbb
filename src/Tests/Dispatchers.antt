-- ===== src/Tests/Dispatchers.antt =====
-- Runs of the dispatcher, and the theorems on it at concrete states.
use automationfleet.Base.{
  List, ◌≡◌, ◌⊎◌, refl, ◌⊎◌, ◌≤◌, none, some, [], ◌∷◌, pos, arith, true, get_elem?,
}
use automationfleet.Heap
use automationfleet.Action.{mouse_left, click_action, needs_native_critical_section}
use automationfleet.Job.{Job, JobResult, QueuedJob, status_failed, next_job_id}
use automationfleet.Queue
use automationfleet.Dispatcher.{
  new_dispatcher, start, complete_job, abort_begin, close_cdp, abort_all, wait_drained,
}
use automationfleet.Dispatcher.System
use automationfleet.Dispatcher.System.{
  System, waiting, popped, sending, idle, busy, idle_workers, native_take, route, run_result,
  settle, settle_take, external, calls, starts, takes, routes, sends, receives, cdp_completes,
  Reach, here, next,
}
use automationfleet.Dispatcher.System.Invariant.{Inv}
use automationfleet.Dispatcher.System.Outcomes.{initial, initial-Inv, Reach-Inv, drained_all_done}
use automationfleet.Dispatcher.System.Work.{is_work, measure, begun, worked, work_terminates}
use automationfleet.Queue.Stable.{line_answers}
use automationfleet.Dispatcher.System.Served.{Turn, looks, served, requests, served_in_order}
use automationfleet.Heap.Laws.{Yields}
use automationfleet.Dispatcher.System.Sequential.{abort_all-Reach}
use automationfleet.Errors.{sentinel, err_unknown_browser}
use automationfleet.Dispatcher.System.Final.{result_final}
use automationfleet.Dispatcher.System.Crash.{abort_can_crash}

abbrev click : Job
click = record {
  browser_id = "b1";
  action = some (click_action "#submit" mouse_left);
  priority = pos 5;
  timeout = pos 1000;
}

-- One job, from Submit over the pool to its result; no handle is found for its browser.
abbrev submitted : System
submitted = external (initial 0) (System.submits click (pos 7))

abbrev started_up : System
started_up = record submitted { d = start submitted.d; native = waiting; cdp = idle_workers 1 }

abbrev taken : System
taken = settle_take started_up (native_take started_up.d)

abbrev first_job : QueuedJob
first_job = record {
  id = 1;
  insert_seq = 1;
  job = click;
  result = 0;
  enqueued = pos 7;
  heap_idx = 0;
}

abbrev routed : System
routed = record taken { native = route none taken.d.cdp_open first_job }

abbrev sent : System
sent = record routed { d = record (routed.d) { cdp_buffer = first_job ∷ [] }; native = waiting }

abbrev received : System
received = record sent { d = record (sent.d) { cdp_buffer = [] }; cdp = busy first_job ∷ [] }

abbrev completed : System
completed =
    settle (record received { cdp = idle ∷ [] })
      (complete_job received.d first_job (run_result none none (pos 3)) (pos 9))

Reach-routed : Reach (initial 0) routed
unfolding new_dispatcher external start native_take Queue.push Queue.pop Heap.push Heap.pop
    Queue.less Queue.swap Queue.append Queue.take_last route next_job_id
    needs_native_critical_section
Reach-routed =
    next
      (next (next (next here refl (calls (System.submits click (pos 7)))) refl (starts 1 refl)) refl
        (takes refl))
      refl (routes first_job none refl)

Reach-completed : Reach (initial 0) completed
unfolding new_dispatcher external start native_take Queue.push Queue.pop Heap.push Heap.pop
    Queue.less Queue.swap Queue.append Queue.take_last route next_job_id
    needs_native_critical_section complete_job run_result
Reach-completed =
    next
      (next (next Reach-routed refl (sends first_job refl refl (omega arith))) refl
        (receives [] [] first_job [] refl refl))
      refl (cdp_completes [] [] first_job none none (pos 3) (pos 9) refl)

-- The result of the job: no browser is registered under its id.
abbrev unknown : JobResult
unknown = record {
  id = 1;
  browser_id = "b1";
  status = status_failed;
  err = some (sentinel err_unknown_browser);
  took = pos 3;
}

completed_result : completed.d.results ≡ record { buffer = some unknown; closed = true } ∷ []
unfolding new_dispatcher external start native_take Queue.push Queue.pop Heap.push Heap.pop
    Queue.less Queue.swap Queue.append Queue.take_last route next_job_id
    needs_native_critical_section complete_job run_result
completed_result = refl

drained_all_done_example :
    (r : JobResult) × (get_elem? completed.d.results 0
      ≡ some (record { buffer = some r; closed = true }))
unfolding new_dispatcher external start native_take Queue.push Queue.pop Heap.push Heap.pop
    Queue.less Queue.swap Queue.append Queue.take_last route next_job_id
    needs_native_critical_section complete_job run_result wait_drained
drained_all_done_example = drained_all_done 0 Reach-completed refl refl 0 (omega arith)

-- A second Submit after the first result.
abbrev resubmitted : System
resubmitted = external completed (System.submits click (pos 20))

result_final_example :
    get_elem? resubmitted.d.results 0 ≡ some (record { buffer = some unknown; closed = true })
unfolding new_dispatcher external start native_take Queue.push Queue.pop Heap.push Heap.pop
    Queue.less Queue.swap Queue.append Queue.take_last route next_job_id
    needs_native_critical_section complete_job run_result
result_final_example =
    result_final 0 Reach-completed (next here refl (calls (System.submits click (pos 20)))) 0
      (record { buffer = some unknown; closed = true }) refl refl

abort_can_crash_example : (u : System) × Reach routed u × (u.crashed ≡ true)
unfolding new_dispatcher external start native_take Queue.push Queue.pop Heap.push Heap.pop
    Queue.less Queue.swap Queue.append Queue.take_last route next_job_id
    needs_native_critical_section
abort_can_crash_example = abort_can_crash 0 first_job Reach-routed refl refl refl refl

-- The state in which the worker sends on the closed channel, and the panic.
abbrev broken : System
broken = record routed { d = close_cdp (abort_begin routed.d).1; aborting = [] }

Reach-Inv_example : Inv completed
Reach-Inv_example = Reach-Inv (initial-Inv 0) Reach-completed

work_terminates_example : 2 ≤ measure routed
unfolding new_dispatcher external start native_take Queue.push Queue.pop Heap.push Heap.pop
    Queue.less Queue.swap Queue.append Queue.take_last route next_job_id
    needs_native_critical_section is_work
work_terminates_example = work_terminates 0 2 Reach-routed (
    worked (worked begun refl (sends first_job refl refl (omega arith)) refl) refl
      (receives [] [] first_job [] refl refl) refl)

abort_all-Reach_example :
    Yields (λ d. Reach submitted (record submitted { d = d })) (abort_all submitted.d "stop")
unfolding new_dispatcher external Queue.push Heap.push Queue.less Queue.swap Queue.append
    next_job_id Queue.len
abort_all-Reach_example =
    abort_all-Reach 0 "stop" (next here refl (calls (System.submits click (pos 7)))) refl refl refl

-- A second job of higher priority goes first.
abbrev turns : List Turn
turns =
    looks
    ∷ Turn.submitted click (pos 7)
    ∷ Turn.submitted (record click { priority = pos 9 }) (pos 8)
    ∷ looks
    ∷ looks
    ∷ []

served_in_order_example :
    served (new_dispatcher 0) turns ≡ some (line_answers (requests 0 0 0 turns) [])
served_in_order_example = served_in_order 0 turns (omega arith)

-- ===== src/Dispatcher/System/Final.antt =====
-- A delivered result is never taken back or replaced.
use automationfleet.Base.{
  ℕ, ◌+◌, ◌≡◌, refl, inl, inr, true, some, List, [], ◌∷◌, ◌++◌, ℤ, String, length, get_elem?,
  if-intro, Option-cases,
}
use automationfleet.Job.{JobResult, QueuedJob, next_job_id, u64}
use automationfleet.Queue.Order.{push-IsValid}
use automationfleet.Dispatcher.{
  Dispatcher, ResultChan, start, enqueue, deliver_to, wait_group_done, complete_job, abort_begin,
  cancel_one, close_cdp,
}
use automationfleet.Dispatcher.Pause.{pause-frame, resume-frame}
use automationfleet.Dispatcher.System.{
  System, External, submits, pauses, resumes, external, native_take, run_result, given_up, settle,
  settle_take, settle_enqueue, ◌⟶◌, calls, starts, rejects, takes, native_completes, gives_up,
  cdp_completes, abort_cancels, abort_closes, Reach, here, next,
}
use automationfleet.Dispatcher.System.Ownership.{native_take-moves}
use automationfleet.Dispatcher.System.Results.{new_chan, get_elem?-deliver_to, get_elem?-append_one}
use automationfleet.Dispatcher.System.Invariant.{Inv}
use automationfleet.Dispatcher.System.Outcomes.{initial, initial-Inv, Reach-Inv}

-- The results after a call are the same, with one channel more, or with one delivery more.
data Advance (before after : List ResultChan) : Type 0 where
  same : after ≡ before → Advance before after
  made : (x : ResultChan) → after ≡ before ++ x ∷ [] → Advance before after
  delivered : (c : ℕ) (r : JobResult) → after ≡ deliver_to before c r → Advance before after

Advance-keeps :
    (before after : List ResultChan)
    → Advance before after
    → (c : ℕ) (ch : ResultChan) → get_elem? before c ≡ some ch
    → ch.closed ≡ true
    → get_elem? after c ≡ some ch
Advance-keeps before after (same e) c ch g h = rw e g
Advance-keeps before after (made x e) c ch g h = rw e (get_elem?-append_one before c x g)
Advance-keeps before after (delivered k r e) c ch g h = rw e (get_elem?-deliver_to before k c r g h)

complete-Advance :
    (s b : System) (qj : QueuedJob) (r : JobResult) (now : ℤ)
    → b.d.results ≡ s.d.results
    → Advance s.d.results (settle b (complete_job s.d qj r now)).d.results
unfolding complete_job
complete-Advance s b qj r now e = elim (Option-cases (wait_group_done s.d.inflight)) [
  | inl panics ↦ rw (panics, complete_job) (same e)
  | inr (n, fine) ↦ rw (fine, complete_job) (delivered qj.result _ refl)
]

cancel-Advance :
    (s b : System) (qj : QueuedJob) (reason : String)
    → b.d.results ≡ s.d.results
    → Advance s.d.results (settle b (cancel_one s.d reason qj)).d.results
unfolding cancel_one
cancel-Advance s b qj reason e = elim (Option-cases (wait_group_done s.d.inflight)) [
  | inl panics ↦ rw (panics, cancel_one) (same e)
  | inr (n, fine) ↦ rw (fine, cancel_one) (delivered qj.result _ refl)
]

external-Advance :
    (s : System) (e : External) → Inv s → Advance s.d.results (external s e).d.results
unfolding external enqueue
external-Advance s (submits j now) v =
    let qj : QueuedJob = record {
      id = next_job_id s.d.job_seq;
      insert_seq = u64 (s.d.insert_seq + 1);
      job = j;
      result = length s.d.results;
      enqueued = now;
      heap_idx = 0;
    } in
    let (pq, e, rest) = push-IsValid qj s.d.queue v.valid in
    if-intro (λ o. Advance s.d.results (settle_enqueue s o).d.results) s.d.stopped
      (made new_chan refl) (rw e (made new_chan refl))
external-Advance s (pauses reason) v = rw (pause-frame s.d reason) (same refl)
external-Advance s (resumes reason) v = rw (resume-frame s.d reason) (same refl)

takes-Advance :
    (s : System) → Inv s → Advance s.d.results (settle_take s (native_take s.d)).d.results
takes-Advance s v =
    let ((n, d'), e, (pq, unchanged, valid, moved)) = native_take-moves s.d v.valid in
    rw (e, unchanged) (same refl)

step-Advance : {s t : System} → s ⟶ t → Inv s → Advance s.d.results t.d.results
unfolding start close_cdp abort_begin
step-Advance {s} (calls e) v = external-Advance s e v
step-Advance {s} (starts n new) v =
    if-intro (λ (d : Dispatcher). Advance s.d.results d.results) s.d.started (same refl) (same refl)
step-Advance (rejects before after ch r e) v = delivered ch r refl
step-Advance {s} (takes w) v = takes-Advance s v
step-Advance {s} (native_completes qj handle err took now e) v =
    complete-Advance s _ qj (run_result handle err took) now refl
step-Advance {s} (gives_up qj b took now e c) v = complete-Advance s _ qj (given_up took) now refl
step-Advance {s} (cdp_completes before after qj handle err took now e) v =
    complete-Advance s _ qj (run_result handle err took) now refl
step-Advance {s} (abort_cancels qj rest reason e) v = cancel-Advance s _ qj reason refl
step-Advance {s} (abort_closes st e) v =
    if-intro (λ (d : Dispatcher). Advance s.d.results d.results) s.d.cdp_open (same refl)
      (same refl)
step-Advance _ v = same refl

-- A result is final: whatever the goroutines do next, a channel that holds one keeps it.
pub result_final :
    (job_seq : ℕ) {s t : System}
    → Reach (initial job_seq) s
    → Reach s t
    → (c : ℕ) (ch : ResultChan) → get_elem? s.d.results c ≡ some ch
    → ch.closed ≡ true
    → get_elem? t.d.results c ≡ some ch
result_final job_seq start_ here c ch g h = g
result_final job_seq start_ (next r alive step) c ch g h =
    Advance-keeps _ _ (step-Advance step (Reach-Inv (Reach-Inv (initial-Inv job_seq) start_) r)) c
      ch (result_final job_seq start_ r c ch g h) h

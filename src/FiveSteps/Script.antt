-- ===== src/FiveSteps/Script.antt =====
-- When the script of a browser passes.
use Prim.Native.String.{◌++◌}
use automationfleet.Base.{
  ℕ, ◌≡◌, refl, ◌↔◌, String, Bool, true, Option, none, some, List, [], ◌∷◌, arith, str_eq, codes,
  Option-cases, inl, inr, Bool-cases,
}
use automationfleet.Errors.{GoError, errorf, wrapf, str}
use automationfleet.Action.{
  Action, Duration, click_action, type_action, navigate_action, mouse_left,
}
use automationfleet.Job.{JobStatus, status_done, JobResult, status_name}
use automationfleet.FiveSteps.{
  contains, page_url, Read, wait_for_selector, field_value, counter_value, last_click_value,
  page_address, submits, receives, reads, Trace, Answer, World, is_done, job_of, submit_wait,
  and_then, check, is_one, seconds, step_id, verify, run_script,
}

-- What a script does with its browser: an action, and a reading with the test that it must meet.
pub data Expected : Type 0 where
  does : Action → Expected
  sees : Read → (Answer → Bool) → Expected

-- The steps of the script, in order.
abbrev pub script : String → ℕ → String → String → Duration → List Expected
script url stt round1 round2 timeout =
    does (navigate_action (page_url url (step_id "step1-" stt)) timeout)
    ∷ does (navigate_action (page_url url (step_id "step2-" stt)) timeout)
    ∷ sees (wait_for_selector "#q" (seconds 10)) (λ a. true)
    ∷ does (type_action "#q" round1 true)
    ∷ sees field_value (λ a. str_eq a.text round1)
    ∷ does (type_action "#q" round2 true)
    ∷ does (click_action "#submit" mouse_left)
    ∷ sees page_address (λ a. contains (codes a.text) (codes ("id=" ++ step_id "step2-" stt)))
    ∷ sees field_value (λ a. str_eq a.text round2)
    ∷ sees counter_value (λ a. is_one a.number)
    ∷ sees last_click_value (λ a. str_eq a.text round2)
    ∷ []

-- From `t` to `u` each step is made once, in order: each job is accepted and done, and each reading
-- meets its test.
abbrev pub Passed : World → String → List Expected → Trace → Trace → Type 0
Passed w id [] t u = u ≡ t
Passed w id (does a ∷ es) t u =
    (w.submit t (job_of id a) ≡ none)
    × ((w.result (receives ∷ submits (job_of id a) ∷ t)).status ≡ status_done)
    × Passed w id es (receives ∷ submits (job_of id a) ∷ t) u
Passed w id (sees r test ∷ es) t u =
    ((w.answer t r).err ≡ none) × (test (w.answer t r) ≡ true) × Passed w id es (reads r ∷ t) u

-- An outcome without an error is one in which the steps have passed.
record Meets (w : World) (id : String) (es : List Expected) (t : Trace) (o : Option GoError × Trace)
    : Type 0 where
  to : o.0 ≡ none → Passed w id es t o.1
  from : Passed w id es t o.1 → o.0 ≡ none

is_done-eq : (s : JobStatus) → is_done s ≡ true → s ≡ status_done
is_done-eq s e = ground arith

module _ (w : World) (id : String) where
  does-Meets :
      (a : Action) (es : List Expected) (wrap : GoError → GoError)
      (go_on : Trace → Option GoError × Trace) (t : Trace)
      → ((u : Trace) → Meets w id es u (go_on u))
      → Meets w id (does a ∷ es) t (and_then (submit_wait w id a t) wrap go_on)
  unfolding submit_wait and_then
  does-Meets a es wrap go_on t rest =
      let t' : Trace = receives ∷ submits (job_of id a) ∷ t in
      elim (Option-cases (w.submit t (job_of id a))) [
        | inr (e, bad) ↦
            let same : and_then (submit_wait w id a t) wrap go_on
                ≡ (some (wrap (wrapf "submit: %w" e [])), submits (job_of id a) ∷ t) =
              ground arith in
            rw same
              (record { to = λ h. absurd (ground arith); from = λ p. absurd (ground (arith, p.0)) })
        | inl ok ↦ elim (Bool-cases (is_done (w.result t').status)) [
          | inr bad ↦
              let r : JobResult = w.result t' in
              let same : and_then (submit_wait w id a t) wrap go_on ≡ (
                some (
                    wrap (
                      errorf "status=%s err=%v"
                        (str (status_name r.status) ∷ str (w.print r.err) ∷ []))),
                t',
              ) =
                ground arith in
              rw same (record {
                to = λ h. absurd (ground arith);
                from = λ p. absurd (ground (arith, p.1));
              })
          | inl done ↦
              let same : and_then (submit_wait w id a t) wrap go_on ≡ go_on t' = ground arith in
              rw same (record {
                to = λ h. (ok, is_done-eq _ done, (rest t').to h);
                from = λ p. (rest t').from p.2;
              })
        ]
      ]

  sees-Meets :
      (r : Read) (test : Answer → Bool) (es : List Expected) (wrap : GoError → GoError)
      (mismatch : Answer → GoError) (go_on : Trace → Option GoError × Trace) (t : Trace)
      → ((u : Trace) → Meets w id es u (go_on u))
      → Meets w id (sees r test ∷ es) t (check w r wrap test mismatch go_on t)
  unfolding check
  sees-Meets r test es wrap mismatch go_on t rest = elim (Option-cases (w.answer t r).err) [
    | inr (e, bad) ↦
        let same : check w r wrap test mismatch go_on t ≡ (some (wrap e), reads r ∷ t) =
          ground arith in
        rw same
          (record { to = λ h. absurd (ground arith); from = λ p. absurd (ground (arith, p.0)) })
    | inl ok ↦ elim (Bool-cases (test (w.answer t r))) [
      | inr bad ↦
          let same : check w r wrap test mismatch go_on t
              ≡ (some (mismatch (w.answer t r)), reads r ∷ t) =
            ground arith in
          rw same
            (record { to = λ h. absurd (ground arith); from = λ p. absurd (ground (arith, p.1)) })
      | inl met ↦
          let same : check w r wrap test mismatch go_on t ≡ go_on (reads r ∷ t) = ground arith in
          rw same (record {
            to = λ h. (ok, met, (rest (reads r ∷ t)).to h);
            from = λ p. (rest (reads r ∷ t)).from p.2;
          })
    ]
  ]

verify-Meets :
    (w : World) (id step2 round2 : String) (t : Trace)
    → Meets w id
        (sees page_address (λ a. contains (codes a.text) (codes ("id=" ++ step2)))
          ∷ sees field_value (λ a. str_eq a.text round2)
          ∷ sees counter_value (λ a. is_one a.number)
          ∷ sees last_click_value (λ a. str_eq a.text round2)
          ∷ [])
        t
        (verify w step2 round2 t)
unfolding verify
verify-Meets w id step2 round2 t = sees-Meets w id _ _ _ _ _ _ t (λ t1.
    sees-Meets w id _ _ _ _ _ _ t1 (λ t2.
      sees-Meets w id _ _ _ _ _ _ t2
        (λ t3. sees-Meets w id _ _ _ _ _ _ t3 (λ t4. record { to = λ e. refl; from = λ p. refl }))))

run_script-Meets :
    (w : World) (id url : String) (stt : ℕ) (round1 round2 : String) (timeout : Duration)
    (t : Trace)
    → Meets w id
        (script url stt round1 round2 timeout)
        t
        (run_script w id url stt round1 round2 timeout t)
unfolding run_script
run_script-Meets w id url stt round1 round2 timeout t = does-Meets w id _ _ _ _ t (λ t1.
    does-Meets w id _ _ _ _ t1 (λ t2. sees-Meets w id _ _ _ _ _ _ t2 (λ t3.
      does-Meets w id _ _ _ _ t3 (λ t4. sees-Meets w id _ _ _ _ _ _ t4 (λ t5.
        does-Meets w id _ _ _ _ t5
          (λ t6. does-Meets w id _ _ _ _ t6 (λ t7. verify-Meets w id _ round2 t7)))))))

-- The script of a browser ends without an error exactly when its five jobs are accepted and done, one
-- after the other, in the order of the script, and each reading of the page between and after them
-- finds what the script expects; and then these are all its calls.
pub run_script_passes_iff :
    (w : World) (id url : String) (stt : ℕ) (round1 round2 : String) (timeout : Duration)
    (t : Trace)
    → ((run_script w id url stt round1 round2 timeout t).0 ≡ none)
      ↔ Passed w id
          (script url stt round1 round2 timeout)
          t
          (run_script w id url stt round1 round2 timeout t).1
run_script_passes_iff w id url stt round1 round2 timeout t =
    let m = run_script-Meets w id url stt round1 round2 timeout t in (m.to, m.from)

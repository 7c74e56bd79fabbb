-- ===== src/MixedFleet.antt =====
-- examples/mixed_fleet/main.go: the loop over the two browsers.
use automationfleet.Base.{
  String, ◌≡◌, refl, true, Option, none, some, List, [], ◌∷◌, arith, pos, Option-cases, inl, inr,
}
use automationfleet.Errors.{GoError}
use automationfleet.Action.{type_action, navigate_action}
use automationfleet.Job.{Job}
use automationfleet.FiveSteps.{World, Trace, submits, receives, job_of}

abbrev pub navigate : String → Job
navigate id = job_of id (navigate_action "https://example.com" (pos 0))

abbrev pub type_hello : String → Job
type_hello id = job_of id (type_action "input" "hello" true)

-- A job is submitted, and its result received. The error of Submit is dropped, and the channel is
-- then nil: the receive never ends, which is `none`.
abbrev pub submit_receive : World → Job → Trace → Option Trace
submit_receive w j t = elim (w.submit t j) [
  | some e ↦ none
  | none ↦ some (receives ∷ submits j ∷ t)
]

unfoldable pub drive : World → List String → Trace → Option Trace
drive w [] t = some t
drive w (id ∷ ids) t = elim (submit_receive w (navigate id) t) [
  | none ↦ none
  | some t1 ↦ elim (w.result t1).err [
    | some e ↦ drive w ids t1
    | none ↦ elim (submit_receive w (type_hello id) t1) [ none ↦ none | some t2 ↦ drive w ids t2 ]
  ]
]

-- If Submit accepts every job, the loop ends.
pub drive-ends :
    (w : World) (ids : List String) (t : Trace)
    → ((u : Trace) (j : Job) → w.submit u j ≡ none)
    → (u : Trace) × (drive w ids t ≡ some u)
unfolding drive
drive-ends w [] t accepts = (t, refl)
drive-ends w (id ∷ ids) t accepts =
    let t1 : Trace = receives ∷ submits (navigate id) ∷ t in
    let t2 : Trace = receives ∷ submits (type_hello id) ∷ t1 in
    let first = accepts t (navigate id) in
    let second = accepts t1 (type_hello id) in
    elim (Option-cases (w.result t1).err) [
      | inr (e, failed) ↦ let (u, ends) = drive-ends w ids t1 accepts in (u, ground arith)
      | inl ok ↦ let (u, ends) = drive-ends w ids t2 accepts in (u, ground arith)
    ]

-- If it refuses the first, the loop waits for ever.
pub drive-waits :
    (w : World) (id : String) (ids : List String) (t : Trace) (e : GoError)
    → w.submit t (navigate id) ≡ some e
    → drive w (id ∷ ids) t ≡ none
unfolding drive
drive-waits w id ids t e refused = ground arith

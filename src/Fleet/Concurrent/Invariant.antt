-- ===== src/Fleet/Concurrent/Invariant.antt =====
-- The invariant of the concurrent calls: who holds takeoverMu, who will still read the count of the
-- native browsers, and how far the stop has come.
use automationfleet.Base.{
  ℕ, ◌+◌, ◌<◌, ◌≡◌, ◌∙◌, Bool, true, false, none, List, arith, ltb, if◌then◌else◌, Bool-cases,
  Option-cases, ◌⊎◌, inl, inr, sym,
}
use automationfleet.Dispatcher
use automationfleet.Watchdog.{loop}
use automationfleet.Fleet.{Fleet, new, is_installed, stop_end}
use automationfleet.Fleet.Invariant.{wanted}
use automationfleet.Config.{FleetOption}
use automationfleet.Fleet.Concurrent.{
  After, leaves, aborts, called, waiting, holding, starting, removing, joining, unlocking,
  enqueuing, aborting, returned, Calls, choose, ◌⟶◌, begins, happens, turns, calls_back, is_refused,
  enters, lets_in, enqueues, follows, locks, reads, installs, asks, joins, unlocks, ends, Reach,
  here, next, initial,
}
use automationfleet.Fleet.Concurrent.Weights.{
  flag, holds, unread, starts, removes, stopping, calls, exchange_all,
}
use automationfleet.Fleet.Concurrent.Kept.{
  watch-IsLike, watch-is_installed, aside-IsLike, aside-is_installed, start_takeover-IsLike,
  start_takeover-is_installed, ask_to_stop-IsLike, ask_to_stop-is_installed, stop_end-kept,
  enter-Entered, forget-IsLike, forget-is_installed,
}

-- What the watchdog will be once the call that holds takeoverMu has done as it read.
abbrev pub settled : Calls → Bool
settled s =
    if ltb 0 (calls starts s.tasks)
    then true
    else if ltb 0 (calls removes s.tasks)
    then false
    else is_installed s.fleet

pub record Inv (s : Calls) : Type 0 where
  pub one_holder : calls holds s.tasks ≡ flag s.locked
  pub absent : 0 < calls starts s.tasks → is_installed s.fleet ≡ false
  pub present : 0 < calls removes s.tasks → is_installed s.fleet ≡ true
  pub agrees : calls unread s.tasks ≡ 0 → s.refused ≡ false → wanted s.fleet ≡ settled s
  pub one_stop : calls stopping s.tasks + flag s.stop_over ≡ flag s.fleet.once
  pub halted : s.fleet.once ≡ true → s.fleet.stopped ≡ true

pub choose-cases :
    (f : Fleet) (a : After)
    → ((choose f a ≡ starting a) × (wanted f ≡ true) × (is_installed f ≡ false))
      ⊎ ((choose f a ≡ removing a) × (wanted f ≡ false) × (is_installed f ≡ true))
      ⊎ ((choose f a ≡ unlocking a) × (is_installed f ≡ wanted f))
unfolding choose
choose-cases f a = elim (Bool-cases (wanted f)) [
  | inl w ↦ elim (Bool-cases (is_installed f)) [
    | inl i ↦ inr (inr (ground arith, i ∙ sym w))
    | inr i ↦ inl (ground arith, w, i)
  ]
  | inr w ↦ elim (Bool-cases (is_installed f)) [
    | inl i ↦ inr (inl (ground arith, w, i))
    | inr i ↦ inr (inr (ground arith, i ∙ sym w))
  ]
]

pub step-Inv : {s t : Calls} → s ⟶ t → Inv s → Inv t
step-Inv (begins c) v = ground arith
step-Inv {s} (happens e) v = ground (arith, aside-IsLike s.fleet e, aside-is_installed s.fleet e)
step-Inv {s} (turns now c free) v =
    ground (arith, watch-IsLike s.fleet now (loop c), watch-is_installed s.fleet now (loop c))
step-Inv {s} (calls_back now case c free fires) v =
    ground (arith, watch-IsLike s.fleet now (loop case), watch-is_installed s.fleet now (loop case))
step-Inv {s} (is_refused before after o c e at_ said) v =
    let x = exchange_all before after o (called c) (returned e) s.tasks at_ in ground arith
step-Inv {s} (enters before after o c f leaves at_ said) v =
    let x = exchange_all before after o (called c) (waiting leaves) s.tasks at_ in
    let k = enter-Entered s.fleet f c leaves said in ground arith
step-Inv {s} (enters before after o c f (aborts r) at_ said) v =
    let x = exchange_all before after o (called c) (waiting (aborts r)) s.tasks at_ in
    let k = enter-Entered s.fleet f c (aborts r) said in ground arith
step-Inv {s} (lets_in before after o c j at_ said) v =
    let x = exchange_all before after o (called c) (enqueuing j) s.tasks at_ in ground arith
step-Inv {s} (enqueues before after o j now at_) v =
    let x = exchange_all before after o (enqueuing j) (returned none) s.tasks at_ in
    elim (Option-cases (Dispatcher.enqueue (s.fleet.dispatcher) j now)) [
      | inl panics ↦ rw panics (ground arith)
      | inr ((ch, d), e) ↦ rw e (ground arith)
    ]
step-Inv {s} (follows before after o c at_ said over) v =
    let x = exchange_all before after o (called c) (returned none) s.tasks at_ in ground arith
step-Inv {s} (locks before after o a at_ free) v =
    let x = exchange_all before after o (waiting a) (holding a) s.tasks at_ in ground arith
step-Inv {s} (reads before after o a at_) v = elim (choose-cases s.fleet a) [
  | inl (e, w, i) ↦
      let x = exchange_all before after o (holding a) (starting a) s.tasks at_ in
      rw e (ground arith)
  | inr (inl (e, w, i)) ↦
      let x = exchange_all before after o (holding a) (removing a) s.tasks at_ in
      rw e (ground arith)
  | inr (inr (e, i)) ↦
      let x = exchange_all before after o (holding a) (unlocking a) s.tasks at_ in
      rw e (ground arith)
]
step-Inv {s} (installs before after o a sched at_) v =
    let x = exchange_all before after o (starting a) (unlocking a) s.tasks at_ in
    let like = start_takeover-IsLike s.fleet sched in
    let put = start_takeover-is_installed s.fleet sched in ground arith
step-Inv {s} (asks before after o a at_) v =
    let x = exchange_all before after o (removing a) (joining a) s.tasks at_ in
    ground (arith, ask_to_stop-IsLike s.fleet, ask_to_stop-is_installed s.fleet)
step-Inv {s} (joins before after o a at_ over free) v =
    let x = exchange_all before after o (joining a) (unlocking a) s.tasks at_ in
    ground (arith, forget-IsLike s.fleet, forget-is_installed s.fleet)
step-Inv {s} (unlocks before after o leaves at_) v =
    let x = exchange_all before after o (unlocking leaves) (returned none) s.tasks at_ in
    ground arith
step-Inv {s} (unlocks before after o (aborts r) at_) v =
    let x = exchange_all before after o (unlocking (aborts r)) (aborting r) s.tasks at_ in
    ground arith
step-Inv {s} (ends before after o reason at_) v =
    let x = exchange_all before after o (aborting reason) (returned none) s.tasks at_ in
    elim (Option-cases (stop_end s.fleet reason)) [
      | inl panics ↦ rw panics (ground arith)
      | inr (f, e) ↦ let k = stop_end-kept s.fleet f reason e in rw e (ground arith)
    ]

initial-Inv : (opts : List FleetOption) (job_seq : ℕ) → Inv (initial opts job_seq)
unfolding new
initial-Inv opts job_seq = ground arith

pub Reach-Inv :
    (opts : List FleetOption) (job_seq : ℕ) {s : Calls} → Reach (initial opts job_seq) s → Inv s
Reach-Inv opts job_seq here = initial-Inv opts job_seq
Reach-Inv opts job_seq (next r alive step) = step-Inv step (Reach-Inv opts job_seq r)

-- ===== src/Fleet/Concurrent/Blocked.antt =====
-- The states in which a call to stop the fleet waits for the loop that it runs in.
use automationfleet.Base.{
  ℕ, ◌+◌, ◌≤◌, ◌≡◌, ◌≢◌, String, Bool, true, false, Option, none, List, ◌∷◌, ◌++◌, arith, total,
  if◌then◌else◌, inl, inr, Option-cases,
}
use automationfleet.Errors.{GoError}
use automationfleet.Job.{Job}
use automationfleet.Dispatcher
use automationfleet.Fleet.{Fleet, is_installed}
use automationfleet.Fleet.Concurrent.{
  stops, leaves, aborts, Pc, called, waiting, holding, starting, removing, joining, unlocking,
  enqueuing, aborting, returned, Task, Calls, in_callback, choose, enter, refuses, changes, accepts,
  task, ◌⟶◌, begins, happens, turns, calls_back, is_refused, enters, lets_in, enqueues, follows,
  locks, reads, installs, asks, joins, unlocks, ends,
}
use automationfleet.Fleet.Concurrent.Kept.{
  aside-is_installed, ask_to_stop-is_installed, enter-Entered,
}
use automationfleet.Fleet.Concurrent.Weights.{calls, stopping, starts, exchange, counts_at}
use automationfleet.Fleet.Concurrent.Invariant.{Inv, choose-cases}

-- 1 for an open call that does not stop the fleet, or whose stop has got past the watchdog.
abbrev pub astray : Pc → ℕ
astray (called (stops r)) = 0
astray (waiting (aborts r)) = 0
astray (holding (aborts r)) = 0
astray (removing (aborts r)) = 0
astray (joining (aborts r)) = 0
astray (returned e) = 0
astray _ = 1

-- The same, for the calls on the goroutine of the watchdog.
abbrev pub strays : Task → ℕ
strays t = if t.on_loop then astray t.pc else 0

-- 1 for a stop that has got past the watchdog.
abbrev pub past : Pc → ℕ
past (starting (aborts r)) = 1
past (unlocking (aborts r)) = 1
past (aborting r) = 1
past _ = 0

pub record Blocked (s : Calls) : Type 0 where
  pub inv : Inv s
  pub busy : total in_callback s.tasks ≡ 1
  pub kind : total strays s.tasks ≡ 0
  pub installed : is_installed s.fleet ≡ true
  pub none_past : calls past s.tasks ≡ 0
  pub unfinished : s.stop_over ≡ false

-- The three exchanges of a call that moves from `x` to `y`, and what it was before.
record Moved (xs ys : List Task) (o : Bool) (x y : Pc) : Type 0 where
  busy_ :
      total in_callback ys + in_callback (task o x) ≡ total in_callback xs + in_callback (task o y)
  strays_ : total strays ys + strays (task o x) ≡ total strays xs + strays (task o y)
  past_ : calls past ys + past x ≡ calls past xs + past y
  strays_at : strays (task o x) ≤ total strays xs
  past_at : past x ≤ calls past xs
  stopping_at : stopping x ≤ calls stopping xs
  starts_at : starts x ≤ calls starts xs

move :
    (before after : List Task) (o : Bool) (x y : Pc) (tasks : List Task)
    → tasks ≡ before ++ task o x ∷ after
    → Moved tasks (before ++ task o y ∷ after) o x y
move before after o x y tasks e = record {
  busy_ = exchange in_callback before after (task o x) (task o y) tasks e;
  strays_ = exchange strays before after (task o x) (task o y) tasks e;
  past_ = exchange (λ t. past t.pc) before after (task o x) (task o y) tasks e;
  strays_at = counts_at strays before after (task o x) tasks e;
  past_at = counts_at (λ t. past t.pc) before after (task o x) tasks e;
  stopping_at = counts_at (λ t. stopping t.pc) before after (task o x) tasks e;
  starts_at = counts_at (λ t. starts t.pc) before after (task o x) tasks e;
}

-- A call to stop the fleet is never refused, and goes on to end it.
stops-ne-refuses : (f : Fleet) (r : String) (e : Option GoError) → enter f (stops r) ≢ refuses e
unfolding enter
stops-ne-refuses f r e h = ground arith

stops-ne-leaves : (f f' : Fleet) (r : String) → enter f (stops r) ≢ changes f' leaves
unfolding enter
stops-ne-leaves f f' r h = ground arith

stops-ne-accepts : (f : Fleet) (j : Job) (r : String) → enter f (stops r) ≢ accepts j
unfolding enter
stops-ne-accepts f j r h = ground arith

pub step-Blocked : {s t : Calls} → s ⟶ t → Inv t → Blocked s → Blocked t
step-Blocked (begins c) v b = ground arith
step-Blocked {s} (happens e) v b = ground (arith, aside-is_installed s.fleet e)
step-Blocked {s} (turns now c free) v b = absurd (omega (arith, free, b.busy))
step-Blocked {s} (calls_back now case c free fires) v b = absurd (omega (arith, free, b.busy))
step-Blocked {s} (is_refused before after false c e at_ said) v b =
    let m = move before after false (called c) (returned e) s.tasks at_ in ground arith
step-Blocked {s} (is_refused before after true (stops r) e at_ said) v b =
    absurd (stops-ne-refuses s.fleet r e said)
step-Blocked {s} (is_refused before after true c e at_ said) v b =
    let m = move before after true (called c) (returned e) s.tasks at_ in ground arith
step-Blocked {s} (enters before after false c f leaves at_ said) v b =
    let m = move before after false (called c) (waiting leaves) s.tasks at_ in
    let k = enter-Entered s.fleet f c leaves said in ground arith
step-Blocked {s} (enters before after false c f (aborts r) at_ said) v b =
    let m = move before after false (called c) (waiting (aborts r)) s.tasks at_ in
    let k = enter-Entered s.fleet f c (aborts r) said in ground arith
step-Blocked {s} (enters before after true (stops r) f leaves at_ said) v b =
    absurd (stops-ne-leaves s.fleet f r said)
step-Blocked {s} (enters before after true (stops q) f (aborts r) at_ said) v b =
    let m = move before after true (called (stops q)) (waiting (aborts r)) s.tasks at_ in
    let k = enter-Entered s.fleet f (stops q) (aborts r) said in ground arith
step-Blocked {s} (enters before after true c f a at_ said) v b =
    let m = move before after true (called c) (waiting a) s.tasks at_ in ground arith
step-Blocked {s} (lets_in before after false c j at_ said) v b =
    let m = move before after false (called c) (enqueuing j) s.tasks at_ in ground arith
step-Blocked {s} (lets_in before after true (stops r) j at_ said) v b =
    absurd (stops-ne-accepts s.fleet j r said)
step-Blocked {s} (lets_in before after true c j at_ said) v b =
    let m = move before after true (called c) (enqueuing j) s.tasks at_ in ground arith
step-Blocked {s} (enqueues before after o j now at_) v b =
    let m = move before after o (enqueuing j) (returned none) s.tasks at_ in
    elim (Option-cases (Dispatcher.enqueue (s.fleet.dispatcher) j now)) [
      | inl panics ↦ let v' = rw panics at v in rw panics (ground arith)
      | inr ((ch, d), e) ↦ let v' = rw e at v in rw e (ground arith)
    ]
step-Blocked {s} (follows before after o c at_ said over) v b =
    absurd (ground (arith, b.unfinished))
step-Blocked {s} (locks before after false a at_ free) v b =
    let m = move before after false (waiting a) (holding a) s.tasks at_ in ground arith
step-Blocked {s} (locks before after true leaves at_ free) v b =
    let m = move before after true (waiting leaves) (holding leaves) s.tasks at_ in ground arith
step-Blocked {s} (locks before after true (aborts r) at_ free) v b =
    let m = move before after true (waiting (aborts r)) (holding (aborts r)) s.tasks at_ in
    ground arith
step-Blocked {s} (reads before after true leaves at_) v b =
    let m = move before after true (holding leaves) (choose s.fleet leaves) s.tasks at_ in
    absurd (omega (arith, m.strays_at, b.kind))
step-Blocked {s} (reads before after false leaves at_) v b = elim (choose-cases s.fleet leaves) [
  | inl (e, w, i) ↦ absurd (ground (arith, b.installed))
  | inr (inl (e, w, i)) ↦
      let m = move before after false (holding leaves) (removing leaves) s.tasks at_ in
      let v' = rw e at v in rw e (ground arith)
  | inr (inr (e, i)) ↦
      let m = move before after false (holding leaves) (unlocking leaves) s.tasks at_ in
      let v' = rw e at v in rw e (ground arith)
]
step-Blocked {s} (reads before after o (aborts r) at_) v b =
    elim (choose-cases s.fleet (aborts r)) [
      | inl (e, w, i) ↦ absurd (ground (arith, b.installed))
      | inr (inl (e, w, i)) ↦
          let m = move before after o (holding (aborts r)) (removing (aborts r)) s.tasks at_ in
          let v' = rw e at v in rw e (ground arith)
      | inr (inr (e, i)) ↦
          let m = move before after o (holding (aborts r)) (unlocking (aborts r)) s.tasks at_ in
          absurd (ground (arith, b.installed, b.inv.halted, b.inv.one_stop))
    ]
step-Blocked {s} (installs before after o a sched at_) v b =
    let m = move before after o (starting a) (unlocking a) s.tasks at_ in
    absurd (ground (arith, b.inv.absent))
step-Blocked {s} (asks before after o leaves at_) v b =
    let m = move before after o (removing leaves) (joining leaves) s.tasks at_ in
    ground (arith, ask_to_stop-is_installed s.fleet)
step-Blocked {s} (asks before after o (aborts r) at_) v b =
    let m = move before after o (removing (aborts r)) (joining (aborts r)) s.tasks at_ in
    ground (arith, ask_to_stop-is_installed s.fleet)
step-Blocked {s} (joins before after o a at_ over free) v b = absurd (omega (arith, free, b.busy))
step-Blocked {s} (unlocks before after false leaves at_) v b =
    let m = move before after false (unlocking leaves) (returned none) s.tasks at_ in ground arith
step-Blocked {s} (unlocks before after true leaves at_) v b =
    let m = move before after true (unlocking leaves) (returned none) s.tasks at_ in
    absurd (omega (arith, m.strays_at, b.kind))
step-Blocked {s} (unlocks before after o (aborts r) at_) v b =
    let m = move before after o (unlocking (aborts r)) (aborting r) s.tasks at_ in
    absurd (omega (arith, m.past_at, b.none_past))
step-Blocked {s} (ends before after o reason at_) v b =
    let m = move before after o (aborting reason) (returned none) s.tasks at_ in
    absurd (omega (arith, m.past_at, b.none_past))

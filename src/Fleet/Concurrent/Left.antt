-- ===== src/Fleet/Concurrent/Left.antt =====
-- What the concurrent calls have left to do, and where an open one stands.
use automationfleet.Base.{
  ℕ, ◌+◌, ◌≤◌, ◌≡◌, refl, Bool, true, false, ◌⊎◌, inl, inr, Option, List, [], ◌∷◌, ◌++◌, arith,
  total, if◌then◌else◌,
}
use automationfleet.Errors.{GoError}
use automationfleet.Job.{Job}
use automationfleet.Fleet.{Fleet}
use automationfleet.Fleet.Concurrent.{
  Call, registers, unregisters, submits, stops, After, leaves, aborts, Pc, called, waiting, holding,
  starting, removing, joining, unlocking, enqueuing, aborting, returned, Task, Calls, is_returned,
  in_callback, Entry, refuses, changes, accepts, waits, enter, choose, loop_over, task,
}
use automationfleet.Fleet.Concurrent.Weights.{calls, holds, stopping, ending, exchange, counts_at}
use automationfleet.Fleet.Concurrent.Invariant.{choose-cases}
use automationfleet.Fleet.Concurrent.Asked.{joins_}
use automationfleet.Fleet.Concurrent.Converged.{open_call}

-- What a call has left to do, and the watchdog's loop.
abbrev pub left : Pc → ℕ
left (called c) = 10
left (waiting a) = 9
left (holding a) = 8
left (starting a) = 6
left (removing a) = 5
left (joining a) = 4
left (unlocking a) = 3
left (enqueuing j) = 2
left (aborting r) = 2
left (returned e) = 0

abbrev pub loop_left : Fleet → ℕ
loop_left f = if loop_over f then 0 else 1

-- 1 for a call before takeoverMu, at the end of requestStop, before its first lock, and before the
-- queue.
abbrev pub waits_ : Pc → ℕ
waits_ (waiting a) = 1
waits_ _ = 0

abbrev pub aborts_ : Pc → ℕ
aborts_ (aborting r) = 1
aborts_ _ = 0

abbrev pub enters_ : Pc → ℕ
enters_ (called c) = 1
enters_ _ = 0

abbrev pub puts_ : Pc → ℕ
puts_ (enqueuing j) = 1
puts_ _ = 0

abbrev pub work_left : Calls → ℕ
work_left s = calls left s.tasks + loop_left s.fleet

-- The exchanges of a call that moves from `x` to `y`.
pub record Moved (xs ys : List Task) (o : Bool) (x y : Pc) : Type 0 where
  pub left_ : calls left ys + left x ≡ calls left xs + left y
  pub busy_ :
      total in_callback ys + in_callback (task o x) ≡ total in_callback xs + in_callback (task o y)
  pub busy_at : in_callback (task o x) ≤ total in_callback xs
  pub joins_at : joins_ x ≤ calls joins_ xs

pub move :
    (before after : List Task) (o : Bool) (x y : Pc) (tasks : List Task)
    → tasks ≡ before ++ task o x ∷ after
    → Moved tasks (before ++ task o y ∷ after) o x y
move before after o x y tasks e = record {
  left_ = exchange (λ t. left t.pc) before after (task o x) (task o y) tasks e;
  busy_ = exchange in_callback before after (task o x) (task o y) tasks e;
  busy_at = counts_at in_callback before after (task o x) tasks e;
  joins_at = counts_at (λ t. joins_ t.pc) before after (task o x) tasks e;
}

pub choose-left :
    (f : Fleet) (a : After) → (left (choose f a) ≤ 6) × (is_returned (choose f a) ≡ false)
choose-left f a = elim (choose-cases f a) [
  | inl (e, w, i) ↦ rw e (omega arith, refl)
  | inr (inl (e, w, i)) ↦ rw e (omega arith, refl)
  | inr (inr (e, i)) ↦ rw e (omega arith, refl)
]

pub enter-cases :
    (f : Fleet) (c : Call)
    → ((e : Option GoError) × (enter f c ≡ refuses e))
      ⊎ ((f' : Fleet) × (a : After) × (enter f c ≡ changes f' a))
      ⊎ ((j : Job) × (enter f c ≡ accepts j))
      ⊎ (enter f c ≡ waits)
enter-cases f c = one (enter f c) refl
  where
    one :
        (e : Entry)
        → enter f c ≡ e
        → ((e : Option GoError) × (enter f c ≡ refuses e))
          ⊎ ((f' : Fleet) × (a : After) × (enter f c ≡ changes f' a))
          ⊎ ((j : Job) × (enter f c ≡ accepts j))
          ⊎ (enter f c ≡ waits)
    one (refuses e) said = inl (e, said)
    one (changes f' a) said = inr (inl (f', a, said))
    one (accepts j) said = inr (inr (inl (j, said)))
    one waits said = inr (inr (inr said))

pub enter-waits : (f : Fleet) (c : Call) → enter f c ≡ waits → f.once ≡ true
unfolding enter
enter-waits f (registers h) e = absurd (ground arith)
enter-waits f (unregisters id) e = absurd (ground arith)
enter-waits f (submits j) e = absurd (ground arith)
enter-waits f (stops r) e = ground arith

-- The calls that run the function of stopOnce are on their way.
pub stopping-le :
    (xs : List Task) → calls stopping xs ≤ calls waits_ xs + calls holds xs + calls aborts_ xs
stopping-le [] = omega arith
stopping-le (x ∷ xs) = omega (arith, one x.pc, stopping-le xs)
  where
    ends_ : (a : After) → ending a ≤ 1
    ends_ leaves = omega arith
    ends_ (aborts r) = omega arith

    one : (p : Pc) → stopping p ≤ waits_ p + holds p + aborts_ p
    one (waiting a) = ends_ a
    one (holding a) = ends_ a
    one (starting a) = ends_ a
    one (removing a) = ends_ a
    one (joining a) = ends_ a
    one (unlocking a) = ends_ a
    one p = ground arith

-- A call that has not returned is somewhere.
pub open-le :
    (xs : List Task)
    → total open_call xs
      ≤ calls waits_ xs + calls holds xs + calls aborts_ xs + calls enters_ xs + calls puts_ xs
open-le [] = omega arith
open-le (x ∷ xs) = omega (arith, one x.pc, open-le xs)
  where
    one : (p : Pc) → open_call (task false p) ≤ waits_ p + holds p + aborts_ p + enters_ p + puts_ p
    one (called c) = omega arith
    one p = ground arith

-- ===== src/Fleet/Concurrent/Weights.antt =====
-- The calls counted by where they stand, and how a step changes the counts.
use automationfleet.Base.{
  ℕ, ◌+◌, ◌≤◌, ◌≡◌, ap, Bool, List, [], ◌∷◌, ◌++◌, arith, total, total-append, if◌then◌else◌,
}
use automationfleet.Fleet.Concurrent.{
  After, leaves, aborts, Pc, called, waiting, holding, starting, removing, joining, unlocking,
  enqueuing, aborting, returned, Task, task,
}

abbrev pub flag : Bool → ℕ
flag b = if b then 1 else 0

-- 1 for a call that holds takeoverMu; that has still to read the count; that is about to start the
-- watchdog; that is removing it; and that runs the function of stopOnce.
abbrev pub holds : Pc → ℕ
holds (holding a) = 1
holds (starting a) = 1
holds (removing a) = 1
holds (joining a) = 1
holds (unlocking a) = 1
holds _ = 0

abbrev pub unread : Pc → ℕ
unread (waiting a) = 1
unread (holding a) = 1
unread _ = 0

abbrev pub starts : Pc → ℕ
starts (starting a) = 1
starts _ = 0

abbrev pub removes : Pc → ℕ
removes (removing a) = 1
removes (joining a) = 1
removes _ = 0

abbrev pub ending : After → ℕ
ending leaves = 0
ending (aborts r) = 1

abbrev pub stopping : Pc → ℕ
stopping (called c) = 0
stopping (waiting a) = ending a
stopping (holding a) = ending a
stopping (starting a) = ending a
stopping (removing a) = ending a
stopping (joining a) = ending a
stopping (unlocking a) = ending a
stopping (enqueuing j) = 0
stopping (aborting r) = 1
stopping (returned e) = 0

-- The calls of a kind.
abbrev pub calls : (Pc → ℕ) → List Task → ℕ
calls w = total (λ t. w t.pc)

-- 1 for a call that holds takeoverMu and has no plan to change the watchdog.
abbrev pub others : Pc → ℕ
others (holding a) = 1
others (unlocking a) = 1
others _ = 0

pub holders :
    (xs : List Task) → calls starts xs + calls removes xs + calls others xs ≡ calls holds xs
holders [] = omega arith
holders (x ∷ xs) = omega (arith, one x.pc, holders xs)
  where
    one : (p : Pc) → starts p + removes p + others p ≡ holds p
    one (called c) = omega arith
    one (waiting a) = omega arith
    one (holding a) = omega arith
    one (starting a) = omega arith
    one (removing a) = omega arith
    one (joining a) = omega arith
    one (unlocking a) = omega arith
    one (enqueuing j) = omega arith
    one (aborting r) = omega arith
    one (returned e) = omega arith

pub counts_at :
    (w : Task → ℕ) (before after : List Task) (x : Task) (tasks : List Task)
    → tasks ≡ before ++ x ∷ after
    → w x ≤ total w tasks
counts_at w before after x tasks e =
    omega (arith, ap (total w) e, total-append w before (x ∷ after))

pub exchange :
    (w : Task → ℕ) (before after : List Task) (x y : Task) (tasks : List Task)
    → tasks ≡ before ++ x ∷ after
    → total w (before ++ y ∷ after) + w x ≡ total w tasks + w y
exchange w before after x y tasks e =
    omega
      (arith, ap (total w) e, total-append w before (x ∷ after), total-append w before (y ∷ after))

-- The five exchanges of a call that moves from `x` to `y`.
pub record Exchanged (xs ys : List Task) (x y : Pc) : Type 0 where
  pub holds_ : calls holds ys + holds x ≡ calls holds xs + holds y
  pub unread_ : calls unread ys + unread x ≡ calls unread xs + unread y
  pub starts_ : calls starts ys + starts x ≡ calls starts xs + starts y
  pub removes_ : calls removes ys + removes x ≡ calls removes xs + removes y
  pub holders_ : calls starts xs + calls removes xs + calls others xs ≡ calls holds xs
  pub others_ : others x ≤ calls others xs
  pub stopping_ : calls stopping ys + stopping x ≡ calls stopping xs + stopping y

pub exchange_all :
    (before after : List Task) (o : Bool) (x y : Pc) (tasks : List Task)
    → tasks ≡ before ++ task o x ∷ after
    → Exchanged tasks (before ++ task o y ∷ after) x y
exchange_all before after o x y tasks e = record {
  holds_ = exchange (λ t. holds t.pc) before after (task o x) (task o y) tasks e;
  unread_ = exchange (λ t. unread t.pc) before after (task o x) (task o y) tasks e;
  starts_ = exchange (λ t. starts t.pc) before after (task o x) (task o y) tasks e;
  removes_ = exchange (λ t. removes t.pc) before after (task o x) (task o y) tasks e;
  holders_ = holders tasks;
  others_ = counts_at (λ t. others t.pc) before after (task o x) tasks e;
  stopping_ = exchange (λ t. stopping t.pc) before after (task o x) (task o y) tasks e;
}

-- ===== src/Dispatcher/System/Waiting.antt =====
-- dispatcher.go and fleet.go: the dispatcher's goroutines beside calls of Wait, which share the
-- WaitGroup of the jobs in flight with Submit.
use automationfleet.Base.{ℕ, suc, ◌<◌, ◌≡◌, true, false}
use automationfleet.Dispatcher.{wait_drained}
use automationfleet.Dispatcher.System.{System, ◌⟶◌, Reach, here, next}

-- `waiting` counts the calls of Wait that have not returned.
pub record Waiting : Type 0 where
  pub system : System
  pub waiting : ℕ

-- A Submit that is about to count its job in from zero while a Wait is pending, which the
-- documentation of sync.WaitGroup forbids.
abbrev pub IsMisuse : Waiting → Type 0
IsMisuse s = (0 < s.waiting) × (wait_drained s.system.d ≡ true) × (s.system.d.stopped ≡ false)

infix 40 ◌⇢◌
pub data ◌⇢◌ (s : Waiting) : Waiting → Type 0 where
  moves : {t : System} → s.system ⟶ t → s ⇢ record s { system = t }
  waits : s ⇢ record s { waiting = suc s.waiting }
  returns :
      (n : ℕ) → s.waiting ≡ suc n → wait_drained s.system.d ≡ true → s ⇢ record s { waiting = n }
  -- the WaitGroup may notice the misuse, in Add or as Wait returns; it may as well go unnoticed,
  -- and then the Submit is one of the `moves`
  is_noticed : IsMisuse s → s ⇢ record s { system = record (s.system) { crashed = true } }

pub data Run (s : Waiting) : Waiting → Type 0 where
  begun : Run s s
  then_ : {t u : Waiting} → Run s t → t.system.crashed ≡ false → t ⇢ u → Run s u

-- And the other way round, while the same calls of Wait are pending.
pub Reach-Run :
    {s t : System} (n : ℕ)
    → Reach s t
    → Run (record { system = s; waiting = n }) (record { system = t; waiting = n })
Reach-Run n here = begun
Reach-Run n (next r alive st) = then_ (Reach-Run n r) alive (moves st)

-- ===== src/Dispatcher/System/Progress.antt =====
-- Whether an accepted job can wait for ever: who can work while one is in flight.
use automationfleet.Base.{◌≡◌, ◌⊎◌, inl, inr, true}
use automationfleet.Dispatcher.System.{System, ◌⟶◌}
use automationfleet.Dispatcher.System.Work.{is_work}
use automationfleet.Dispatcher.System.Alive.{Alive}

-- A goroutine can do a step of work.
abbrev pub CanWork : System → Type 0
CanWork s = (u : System) × (st : s ⟶ u) × (is_work st ≡ true)

module _ {ℓ κ μ} {P : Type ℓ} {Q : Type κ} {W : Type μ} where
  -- The rest of an argument, unless it has ended with a step of work.
  and_then : P ⊎ W → (P → Q ⊎ W) → Q ⊎ W
  and_then (inl p) f = f p
  and_then (inr w) f = inr w

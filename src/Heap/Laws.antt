-- ===== src/Heap/Laws.antt =====
-- What heap.Interface asks of an implementation: the methods act on an array of entries, and Less
-- is a strict weak order of the entries. `Good` is the implementation's own invariant.
use automationfleet.Base.{
  ℕ, ◌<◌, ◌≡◌, Bool, true, false, Option, some, List, [], ◌∷◌, ◌++◌, length, get_or,
}
use automationfleet.Heap.{Interface}
use automationfleet.Heap.Array.{exchange}

-- The call returns, with a value that satisfies `P`.
abbrev pub Yields : {A : Type 0} → (A → Type 0) → Option A → Type 0
Yields {A} P o = (a : A) × (o ≡ some a) × P a

pub record StrictWeakOrder (E : Type 0) (lt : E → E → Bool) : Type 0 where
  pub asym : (x y : E) → lt x y ≡ true → lt y x ≡ false
  pub not_lt_trans : (x y z : E) → lt y x ≡ false → lt z y ≡ false → lt z x ≡ false

pub record Lawful {H X E : Type 0} (I : Interface H X) (Good : H → Type 0) (view : H → List E)
    (entry : X → E) (d : E) (lt : E → E → Bool) : Type 0 where
  pub order : StrictWeakOrder E lt
  pub len-view : (h : H) → I.len h ≡ length (view h)
  pub less-view :
      (h : H) (i j : ℕ)
      → i < length (view h)
      → j < length (view h)
      → I.less h i j ≡ some (lt (get_or (view h) i d) (get_or (view h) j d))
  pub swap-view :
      (h : H) (i j : ℕ)
      → Good h
      → i < length (view h)
      → j < length (view h)
      → Yields (λ h'. (view h' ≡ exchange d (view h) i j) × Good h') (I.swap h i j)
  pub push-view : (x : X) (h : H) → view (I.push x h) ≡ view h ++ entry x ∷ []
  pub push-Good : (x : X) (h : H) → Good h → Good (I.push x h)
  pub pop-view :
      (h : H)
      → Good h
      → 0 < length (view h)
      → Yields (λ (x, h'). (view h ≡ view h' ++ entry x ∷ []) × Good h') (I.pop h)

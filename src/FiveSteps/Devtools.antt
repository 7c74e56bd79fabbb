-- ===== src/FiveSteps/Devtools.antt =====
-- examples/five_browser_steps/main.go: waitDevtools, which tries to reach a browser until a time.
-- The readings of the clock and the outcomes of the attempts are parameters, by their number.
use automationfleet.Base.{
  ℕ, zero, suc, ◌+◌, ◌*◌, ◌/◌, ◌≤◌, ◌<◌, ◌≡◌, Bool, true, false, Option, none, some, [], ◌∷◌, ltb,
  pos, refl, arith, if◌then◌else◌, Bool-cases, inl, inr,
}
use native.Mathlib.Decide.{dec_lt}
use Prim.Native.String.{◌++◌}
use automationfleet.Errors.{GoError, errorf, int, str}
use automationfleet.FiveSteps.{itoa}

-- Fifty milliseconds, the pause between two attempts.
abbrev pause : ℕ
pause = 50000000

abbrev pub unreachable : ℕ → ℕ → GoError
unreachable port timeout =
    errorf "devtools on %s did not become reachable within %s"
      (str ("127.0.0.1:" ++ itoa port) ∷ int (pos timeout) ∷ [])

-- The loop from the attempt `k` on; the outer none is the end of the fuel.
wait_loop : (ℕ → ℕ) → (ℕ → Bool) → GoError → ℕ → ℕ → ℕ → Option (Option GoError)
wait_loop now reaches failure zero deadline k = none
wait_loop now reaches failure (suc fuel) deadline k =
    let rest = wait_loop now reaches failure fuel deadline (suc k) in
    if ltb (now (suc k)) deadline
    then (if reaches k then some none else rest)
    else some (some failure)

unfoldable pub wait_devtools : (ℕ → ℕ) → (ℕ → Bool) → ℕ → ℕ → ℕ → Option (Option GoError)
unfolding wait_loop
wait_devtools now reaches port timeout fuel =
    wait_loop now reaches (unreachable port timeout) fuel (now 0 + timeout) 0

module _ (now : ℕ → ℕ) (reaches : ℕ → Bool) (failure : GoError) where
  -- What the loop returns: no error after an attempt in time that succeeds, else the error.
  abbrev pub Waited : ℕ → Option GoError → Type 0
  Waited deadline none = (k : ℕ) × (reaches k ≡ true) × (now (suc k) < deadline)
  Waited deadline (some e) =
      (e ≡ failure) × (k : ℕ) × (deadline ≤ now (suc k)) × ((j : ℕ) → j < k → reaches j ≡ false)

  module _ (slept : (k : ℕ) → now (suc k) + pause ≤ now (suc (suc k))) where
    wait_loop-returns :
        (fuel deadline k : ℕ)
        → deadline ≤ now (suc k) + fuel * pause
        → ((j : ℕ) → j < k → reaches j ≡ false)
        → (r : Option GoError) × (wait_loop now reaches failure (suc fuel) deadline k ≡ some r)
          × Waited deadline r
    unfolding wait_loop
    wait_loop-returns zero deadline k enough before =
        (some failure, ground arith, (refl, k, omega arith, before))
    wait_loop-returns (suc fuel) deadline k enough before = elim (dec_lt (now (suc k)) deadline) [
      | no late ↦ (some failure, ground arith, (refl, k, omega arith, before))
      | yes early ↦ elim (Bool-cases (reaches k)) [
        | inl reached ↦ (none, ground arith, (k, reached, early))
        | inr missed ↦
            let (r, e, waited) =
              wait_loop-returns fuel deadline (suc k) (omega (arith, slept k))
                (λ j l. ground (arith, before j)) in
            (r, ground arith, waited)
      ]
    ]

-- If each attempt but the first comes at least fifty milliseconds after the one before it, then
-- waitDevtools returns after at most one attempt in each fifty milliseconds of its time and two more:
-- without an error if some attempt in time succeeded, and with its error when the time is over and
-- none did.
pub wait_devtools-returns :
    (now : ℕ → ℕ) (reaches : ℕ → Bool) (port timeout : ℕ)
    → ((k : ℕ) → now (suc k) + pause ≤ now (suc (suc k)))
    → now 0 ≤ now 1
    → (r : Option GoError) × (wait_devtools now reaches port timeout (suc (timeout / pause + 1))
        ≡ some r)
      × Waited now reaches (unreachable port timeout) (now 0 + timeout) r
unfolding wait_devtools
wait_devtools-returns now reaches port timeout slept started =
    wait_loop-returns now reaches (unreachable port timeout) slept (timeout / pause + 1)
      (now 0 + timeout) 0 (omega arith) (λ j l. absurd (omega arith))

-- ===== src/Critical/Retry.antt =====
-- The retries after a drift: how many attempts there are, and what their last outcome says.
use automationfleet.Base.{
  ℕ, zero, suc, ◌≤◌, ◌≡◌, refl, ap, true, false, none, some, ◌∷◌, arith, Bool-cases, Option-cases,
  inl, inr, pos_part,
}
use automationfleet.Errors.{GoError, error_is, err_cursor_drift}
use automationfleet.Config.{Config}
use automationfleet.Critical.{
  World, Trace, Outcome, retry_delay, attempt, retry, execute_critical_with_retry,
}

-- The outcomes of the attempts that are made with `n` retries left after the outcome `o`, newest
-- last: an attempt follows while the last one drifted and the delay passes.
pub data Attempts (w : World) (execute : Trace → Outcome) : ℕ → Outcome → ℕ → Outcome → Type 0 where
  ended :
      {n : ℕ} {o : Outcome} → error_is o.0 err_cursor_drift ≡ false → Attempts w execute n o zero o
  exhausted : {o : Outcome} → Attempts w execute zero o zero o
  interrupted :
      {n : ℕ} {o : Outcome} {e : GoError}
      → error_is o.0 err_cursor_drift ≡ true
      → (w.answer o.1 retry_delay).err ≡ some e
      → Attempts w execute (suc n) o zero (some e, retry_delay ∷ o.1)
  again :
      {n k : ℕ} {o r : Outcome}
      → error_is o.0 err_cursor_drift ≡ true
      → (w.answer o.1 retry_delay).err ≡ none
      → Attempts w execute n (execute (retry_delay ∷ o.1)) k r
      → Attempts w execute (suc n) o (suc k) r

Attempts-le :
    {w : World} {execute : Trace → Outcome} {n k : ℕ} {o r : Outcome}
    → Attempts w execute n o k r
    → k ≤ n
Attempts-le (ended e) = omega arith
Attempts-le exhausted = omega arith
Attempts-le (interrupted d e) = omega arith
Attempts-le (again d e a) = let le = Attempts-le a in omega arith

retry-Attempts :
    (w : World) (execute : Trace → Outcome) (n : ℕ) (o : Outcome)
    → (k : ℕ) × Attempts w execute n o k (retry w execute n o)
unfolding retry attempt
retry-Attempts w execute zero (e, t) = (zero, exhausted)
retry-Attempts w execute (suc n) (e, t) = elim (Bool-cases (error_is e err_cursor_drift)) [
  | inr other ↦ (zero, rw other (ended other))
  | inl drifted ↦ elim (Option-cases (w.answer t retry_delay).err) [
    | inr (e', stop) ↦ (zero, rw (drifted, retry) (rw (stop, attempt) (interrupted drifted stop)))
    | inl ok ↦
        let (k, a) = retry-Attempts w execute n (execute (retry_delay ∷ t)) in
        (suc k, rw (drifted, retry) (rw (ok, attempt) (again drifted ok a)))
  ]
]

-- executeCriticalWithRetry makes at most driftRetries attempts after the first, each after a drift and
-- a delay, and none after another outcome.
pub retries_bounded :
    (w : World) (cfg : Config) (execute : Trace → Outcome) (t : Trace)
    → (k : ℕ) × Attempts w execute
        (pos_part cfg.drift_retries)
        (execute t)
        k
        (execute_critical_with_retry w cfg execute t)
      × (k ≤ pos_part cfg.drift_retries)
unfolding execute_critical_with_retry
retries_bounded w cfg execute t =
    let (k, a) = retry-Attempts w execute (pos_part cfg.drift_retries) (execute t) in
    (k, a, Attempts-le a)

drifted-all :
    {w : World} {execute : Trace → Outcome} {n k : ℕ} {o r : Outcome}
    → ((t : Trace) → error_is (w.answer t retry_delay).err err_cursor_drift ≡ false)
    → Attempts w execute n o k r
    → error_is r.0 err_cursor_drift ≡ true
    → k ≡ n
drifted-all other (ended e) d = absurd (ground arith)
drifted-all other exhausted d = refl
drifted-all {o = o} other (interrupted d' e) d = absurd (ground (arith, other o.1))
drifted-all other (again d' e a) d = ap suc (drifted-all other a d)

-- If the end of the context is never reported as a drift, then executeCriticalWithRetry ends with a
-- drift only after all its retries.
pub drift_exhausts_retries :
    (w : World) (cfg : Config) (execute : Trace → Outcome) (t : Trace) (k : ℕ)
    → ((t' : Trace) → error_is (w.answer t' retry_delay).err err_cursor_drift ≡ false)
    → Attempts w execute
        (pos_part cfg.drift_retries)
        (execute t)
        k
        (execute_critical_with_retry w cfg execute t)
    → error_is (execute_critical_with_retry w cfg execute t).0 err_cursor_drift ≡ true
    → k ≡ pos_part cfg.drift_retries
drift_exhausts_retries w cfg execute t k other a = drifted-all other a

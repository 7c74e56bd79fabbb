-- ===== src/Watchdog/Debounce.antt =====
-- The watchdog pauses once for a series of moves, resumes only after the idle time has passed since
-- the last of them, and never ends with the fleet paused.
use automationfleet.Base.{ℕ, ◌≡◌, Bool, true, false, not, ◌&&◌, List, [], ◌∷◌, ◌++◌, arith}
use automationfleet.Watchdog.{
  Watchdog, Signal, pauses, resumes, moved, timed_out, stopping, expire, Happening, mouse_move,
  clock_tick, stop_request, loop, happen, history,
}

-- Calls that alternate: `Alternates p signals q` leads from paused = p to paused = q.
pub data Alternates : Bool → List Signal → Bool → Type 0 where
  quiet : {p : Bool} → Alternates p [] p
  pausing :
      {signals : List Signal} {q : Bool}
      → Alternates true signals q
      → Alternates false (pauses ∷ signals) q
  resuming :
      {signals : List Signal} {q : Bool}
      → Alternates false signals q
      → Alternates true (resumes ∷ signals) q

-- Whether the watchdog holds the fleet paused: not after its loop has ended.
abbrev pub holds : Watchdog → Bool
holds w = w.paused && not w.done

Alternates-append :
    {p q r : Bool} {xs : List Signal} (ys : List Signal)
    → Alternates p xs q
    → Alternates q ys r
    → Alternates p (xs ++ ys) r
Alternates-append ys quiet b = b
Alternates-append ys (pausing a) b = pausing (Alternates-append ys a b)
Alternates-append ys (resuming a) b = resuming (Alternates-append ys a b)

expire-holds : (w : Watchdog) (now : ℕ) → (holds (expire w now) ≡ holds w)
unfolding expire
expire-holds w now = ground arith

-- The one or no call of a step, by the flag before and after it.
pub change : Bool → Bool → List Signal
change false true = pauses ∷ []
change true false = resumes ∷ []
change _ _ = []

change-Alternates : (p q : Bool) → Alternates p (change p q) q
unfolding change
change-Alternates false false = quiet
change-Alternates false true = pausing quiet
change-Alternates true false = resuming quiet
change-Alternates true true = quiet

happen-change :
    (w : Watchdog) (now : ℕ) (h : Happening)
    → (happen w now h).1 ≡ change (holds w) (holds (happen w now h).0)
unfolding happen change
happen-change w now mouse_move = ground arith
happen-change w now clock_tick = ground arith
happen-change w now stop_request = ground arith
happen-change w now (loop moved) = ground arith
happen-change w now (loop timed_out) = ground arith
happen-change w now (loop stopping) = ground arith

pub happen-Alternates :
    (w : Watchdog) (now : ℕ) (h : Happening)
    → Alternates (holds w) (happen w now h).1 (holds (happen w now h).0)
happen-Alternates w now h =
    rw (happen-change w now h) (change-Alternates (holds w) (holds (happen w now h).0))

-- Whatever happens, the calls of pause and resume alternate, and the last one tells whether the
-- watchdog holds the fleet paused.
pub history-Alternates :
    (w : Watchdog) (hs : List (ℕ × Happening))
    → Alternates (holds w) (history w hs).1 (holds (history w hs).0)
unfolding history
history-Alternates w [] = quiet
history-Alternates w ((now, h) ∷ hs) =
    Alternates-append (history (happen w now h).0 hs).1 (happen-Alternates w now h)
      (history-Alternates (happen w now h).0 hs)

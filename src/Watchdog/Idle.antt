-- ===== src/Watchdog/Idle.antt =====
-- The watchdog resumes the fleet only after its idle time has passed without a move.
use automationfleet.Base.{
  ℕ, ◌+◌, ◌≤◌, ◌≡◌, refl, ◌∙◌, true, false, some, List, [], ◌∷◌, arith, if◌then◌else◌,
}
use automationfleet.Watchdog.{
  Watchdog, resumes, new_takeover_watchdog, moved, timed_out, stopping, expire, is_ready, Happening,
  mouse_move, clock_tick, stop_request, loop, happen, history,
}

-- While the loop runs and holds the fleet paused, the timer is armed for the idle time after the move at `last`, or it
-- has fired and that time is over.
record IsTimed (last clock : ℕ) (w : Watchdog) : Type 0 where
  armed : w.done ≡ false → w.paused ≡ true → w.fired ≡ false → w.deadline ≡ some (last + w.idle)
  over : w.done ≡ false → w.paused ≡ true → w.fired ≡ true → last + w.idle ≤ clock

-- The time of the last move that the loop has taken, or `last` if it took none.
abbrev pub next_last : Watchdog → ℕ → ℕ → Happening → ℕ
next_last w last now (loop moved) = if is_ready (expire w now) moved then now else last
next_last w last now _ = last

pub last_move : Watchdog → ℕ → List (ℕ × Happening) → ℕ
last_move w last [] = last
last_move w last ((now, h) ∷ hs) = last_move (happen w now h).0 (next_last w last now h) hs

-- The times of a history do not fall, and begin at `clock` or later.
abbrev pub IsChronological : ℕ → List (ℕ × Happening) → Type 0
IsChronological clock [] = Unit {0}
IsChronological clock ((now, h) ∷ hs) = (clock ≤ now) × IsChronological now hs

-- The time of the last entry.
abbrev pub end_time : ℕ → List (ℕ × Happening) → ℕ
end_time clock [] = clock
end_time clock ((now, h) ∷ hs) = end_time now hs

expire-IsTimed :
    (last clock now : ℕ) (w : Watchdog)
    → clock ≤ now
    → IsTimed last clock w
    → IsTimed last now (expire w now)
unfolding expire
expire-IsTimed last clock now w le t = ground arith

expire-idle : (w : Watchdog) (now : ℕ) → (expire w now).idle ≡ w.idle
unfolding expire
expire-idle w now = ground arith

pub happen-idle : (w : Watchdog) (now : ℕ) (h : Happening) → (happen w now h).0.idle ≡ w.idle
unfolding happen
happen-idle w now mouse_move = expire-idle w now
happen-idle w now clock_tick = expire-idle w now
happen-idle w now stop_request = expire-idle w now
happen-idle w now (loop moved) = ground (arith, expire-idle w now)
happen-idle w now (loop timed_out) = ground (arith, expire-idle w now)
happen-idle w now (loop stopping) = ground (arith, expire-idle w now)

happen-IsTimed :
    (last clock now : ℕ) (w : Watchdog) (h : Happening)
    → clock ≤ now
    → IsTimed last clock w
    → IsTimed (next_last w last now h) now (happen w now h).0
unfolding happen
happen-IsTimed last clock now w mouse_move le t =
    let e = expire-IsTimed last clock now w le t in record { armed = e.armed; over = e.over }
happen-IsTimed last clock now w clock_tick le t = expire-IsTimed last clock now w le t
happen-IsTimed last clock now w stop_request le t =
    let e = expire-IsTimed last clock now w le t in record { armed = e.armed; over = e.over }
happen-IsTimed last clock now w (loop moved) le t =
    let e = expire-IsTimed last clock now w le t in ground (arith, e)
happen-IsTimed last clock now w (loop timed_out) le t =
    let e = expire-IsTimed last clock now w le t in ground (arith, e)
happen-IsTimed last clock now w (loop stopping) le t =
    let e = expire-IsTimed last clock now w le t in ground (arith, e)

history-IsTimed :
    (last clock : ℕ) (w : Watchdog) (hs : List (ℕ × Happening))
    → IsChronological clock hs
    → IsTimed last clock w
    → IsTimed (last_move w last hs) (end_time clock hs) (history w hs).0
      × ((history w hs).0.idle ≡ w.idle)
unfolding history last_move
history-IsTimed last clock w [] m t = (t, refl)
history-IsTimed last clock w ((now, h) ∷ hs) m t =
    let rest =
      history-IsTimed (next_last w last now h) now (happen w now h).0 hs m.1
        (happen-IsTimed last clock now w h m.0 t) in
    (rest.0, rest.1 ∙ happen-idle w now h)

timed_out-late :
    (last clock now : ℕ) (w : Watchdog)
    → clock ≤ now
    → IsTimed last clock w
    → (happen w now (loop timed_out)).1 ≡ resumes ∷ []
    → last + w.idle ≤ now
unfolding happen
timed_out-late last clock now w le t e =
    let x = expire-IsTimed last clock now w le t in ground (arith, x, expire-idle w now)

new-IsTimed : (idle : ℕ) → IsTimed 0 0 (new_takeover_watchdog idle)
unfolding new_takeover_watchdog
new-IsTimed idle = record { armed = λ d p f. cc; over = λ d p f. cc }

new-idle : (idle : ℕ) → (new_takeover_watchdog idle).idle ≡ idle
unfolding new_takeover_watchdog
new-idle idle = refl

-- After any chronological history, if the loop's timer case resumes the fleet, then at least the
-- idle time has passed since the last move that the loop took.
pub resume_needs_idle :
    (idle : ℕ) (hs : List (ℕ × Happening)) (now : ℕ)
    → IsChronological 0 hs
    → end_time 0 hs ≤ now
    → (happen (history (new_takeover_watchdog idle) hs).0 now (loop timed_out)).1 ≡ resumes ∷ []
    → last_move (new_takeover_watchdog idle) 0 hs + idle ≤ now
resume_needs_idle idle hs now m le e =
    let (t, same) = history-IsTimed 0 0 (new_takeover_watchdog idle) hs m (new-IsTimed idle) in
    let late = timed_out-late _ _ now (history (new_takeover_watchdog idle) hs).0 le t e in
    omega (arith, late, same, new-idle idle)

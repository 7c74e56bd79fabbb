-- ===== src/Tests/Watchdogs.antt =====
-- Runs of the takeover watchdog: one move, a pause, and a resume after the idle time.
use automationfleet.Base.{ℕ, ◌+◌, ◌≤◌, ◌≡◌, refl, List, [], ◌∷◌, arith}
use automationfleet.Watchdog.{
  Watchdog, pauses, resumes, new_takeover_watchdog, moved, timed_out, stopping, mouse_move,
  clock_tick, stop_request, loop, Happening, happen, history, expire, is_ready, run_case, notify,
  request_stop,
}
use automationfleet.Watchdog.Debounce.{Alternates, holds, history-Alternates}
use automationfleet.Watchdog.Idle.{last_move, resume_needs_idle}

abbrev one_move : List (ℕ × Happening)
one_move = (3, mouse_move) ∷ (4, loop moved) ∷ (9, clock_tick) ∷ []

abbrev fresh : Watchdog
fresh = new_takeover_watchdog 10

-- One move pauses, the timer resumes, and a stop while paused resumes too.
signals :
    (history fresh (
      (3, mouse_move)
      ∷ (4, loop moved)
      ∷ (5, mouse_move)
      ∷ (6, loop moved)
      ∷ (15, loop timed_out)
      ∷ (16, loop timed_out)
      ∷ (17, mouse_move)
      ∷ (18, loop moved)
      ∷ (19, stop_request)
      ∷ (20, loop stopping)
      ∷ [])).1
    ≡ pauses ∷ resumes ∷ pauses ∷ resumes ∷ []
unfolding history happen expire is_ready run_case notify request_stop new_takeover_watchdog
signals = refl

history-Alternates_example :
    Alternates (holds fresh) (history fresh one_move).1 (holds (history fresh one_move).0)
history-Alternates_example = history-Alternates fresh one_move

resume_needs_idle_example : last_move fresh 0 one_move + 10 ≤ 14
unfolding history happen expire is_ready run_case notify request_stop new_takeover_watchdog
resume_needs_idle_example =
    resume_needs_idle 10 one_move 14 (omega arith, (omega arith, (omega arith, tt))) (omega arith)
      refl

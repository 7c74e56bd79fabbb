-- ===== src/Watchdog.antt =====
-- takeover_watchdog.go: the loop that pauses the fleet while a person moves the mouse.
-- The clock is a number of nanoseconds that each step is given. `moves` is the channel of size one,
-- `deadline` the armed timer, `fired` its channel, `stop_requested` says that stopCh is closed, and
-- `done` that the loop has ended. The once guards of start and stop are the fields themselves.
pub mod Debounce
pub mod Idle
use automationfleet.Base.{
  ℕ, ◌+◌, String, Bool, true, false, not, ◌&&◌, Option, none, some, List, [], ◌∷◌, ◌++◌, leb,
  if◌then◌else◌,
}

abbrev pub reason_user_takeover : String
reason_user_takeover = "user-takeover"

-- takeoverIdle: ten seconds.
abbrev pub takeover_idle : ℕ
takeover_idle = 10000000000

pub record Watchdog : Type 0 where
  pub idle : ℕ
  pub moves : Bool
  pub stop_requested : Bool
  pub done : Bool
  pub paused : Bool
  pub deadline : Option ℕ
  pub fired : Bool

-- The calls of the functions `pause` and `resume` that the watchdog was made with.
pub data Signal : Type 0 where
  pauses resumes : Signal

-- The loop begins with its timer stopped and drained.
unfoldable pub new_takeover_watchdog : ℕ → Watchdog
new_takeover_watchdog idle = record {
  idle = idle;
  moves = false;
  stop_requested = false;
  done = false;
  paused = false;
  deadline = none;
  fired = false;
}

unfoldable pub notify : Watchdog → Watchdog
notify w = record w { moves = true }

-- The timer at the time `now`.
unfoldable pub expire : Watchdog → ℕ → Watchdog
expire w now = elim w.deadline [
  | none ↦ w
  | some t ↦ if leb t now then record w { deadline = none; fired = true } else w
]

-- Closes stopCh; the caller then waits for the end of the loop.
unfoldable pub request_stop : Watchdog → Watchdog
request_stop w = record w { stop_requested = true }

-- The cases of the loop's `select`.
pub data Case : Type 0 where
  moved timed_out stopping : Case

unfoldable pub is_ready : Watchdog → Case → Bool
is_ready w moved = not w.done && w.moves
is_ready w timed_out = not w.done && w.fired
is_ready w stopping = not w.done && w.stop_requested

-- The body of a case: the new state, and what it calls. Stopping the timer drains its channel.
unfoldable pub run_case : Watchdog → ℕ → Case → Watchdog × List Signal
run_case w now moved = (
  record w { moves = false; paused = true; deadline = some (now + w.idle); fired = false },
  if w.paused then [] else pauses ∷ [],
)
run_case w now timed_out =
    (record w { fired = false; paused = false }, if w.paused then resumes ∷ [] else [])
run_case w now stopping =
    (record w { deadline = none; done = true }, if w.paused then resumes ∷ [] else [])

-- What happens to a watchdog, each at a time of the clock: a mouse move, the clock alone, a request
-- to stop, or a case of the loop, which does nothing unless it is ready.
pub data Happening : Type 0 where
  mouse_move clock_tick stop_request : Happening
  loop : Case → Happening

unfoldable pub happen : Watchdog → ℕ → Happening → Watchdog × List Signal
unfolding notify expire request_stop is_ready run_case
happen w now mouse_move = (notify (expire w now), [])
happen w now clock_tick = (expire w now, [])
happen w now stop_request = (request_stop (expire w now), [])
happen w now (loop c) =
    let w' : Watchdog = expire w now in if is_ready w' c then run_case w' now c else (w', [])

-- A history: the state and the calls after it, oldest first.
unfoldable pub history : Watchdog → List (ℕ × Happening) → Watchdog × List Signal
unfolding happen
history w [] = (w, [])
history w ((now, h) ∷ hs) =
    let (w', signals) = happen w now h in let rest = history w' hs in (rest.0, signals ++ rest.1)

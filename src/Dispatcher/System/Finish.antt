-- ===== src/Dispatcher/System/Finish.antt =====
-- How the goroutines end their work when they are left alone.
use automationfleet.Base.{ℕ, ◌<◌, ◌≡◌, ◌⊎◌, true, some, length, get_elem?}
use automationfleet.Job.{JobResult}
use automationfleet.Dispatcher.{Dispatcher, wait_drained}
use automationfleet.Dispatcher.System.{System}

-- What no step of work changes.
abbrev Frame : System → System → Type 0
Frame s t =
    (t.d.stopped ≡ s.d.stopped)
    × (t.d.pause_reasons ≡ s.d.pause_reasons)
    × (length t.cdp ≡ length s.cdp)

-- Wait returns and every Submit has its result, or the process has panicked.
abbrev pub IsOver : System → Type 0
IsOver t =
    (t.crashed ≡ true)
    ⊎ ((wait_drained t.d ≡ true)
        × ((c : ℕ)
            → c < length t.d.results
            → (r : JobResult) × (get_elem? t.d.results c
                ≡ some (record { buffer = some r; closed = true }))))

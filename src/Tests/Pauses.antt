-- ===== src/Tests/Pauses.antt =====
-- dispatcher_pause_test.go, and the theorem on the reports of pauses at a concrete input.
use automationfleet.Base.{◌≡◌, refl, [], ◌∷◌}
use automationfleet.Dispatcher.{Dispatcher, new_dispatcher, is_paused, pause, resume}
use automationfleet.Dispatcher.Pause.{
  pauses, resumes, on_pause, on_resume, Alternates, events, events-Alternates,
}

-- TestDispatcherPauseReasonSet
reasons :
    (events
      (new_dispatcher 0)
      (pauses "ui" ∷ pauses "user-takeover" ∷ resumes "user-takeover" ∷ resumes "ui" ∷ [])).0
    ≡ on_pause ∷ on_resume ∷ []
unfolding new_dispatcher events pause resume
reasons = refl

abbrev idle_dispatcher : Dispatcher
idle_dispatcher = new_dispatcher 0

events-Alternates_example :
    Alternates
      (is_paused idle_dispatcher)
      (events idle_dispatcher (pauses "ui" ∷ pauses "hotkey" ∷ resumes "ui" ∷ [])).0
      (is_paused (events idle_dispatcher (pauses "ui" ∷ pauses "hotkey" ∷ resumes "ui" ∷ [])).1)
events-Alternates_example =
    events-Alternates idle_dispatcher (pauses "ui" ∷ pauses "hotkey" ∷ resumes "ui" ∷ [])

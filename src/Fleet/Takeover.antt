-- ===== src/Fleet/Takeover.antt =====
-- The takeover watchdog of a fleet: installed as wanted, and in step with the pause reasons.
use automationfleet.Base.{ℕ, ◌≡◌, refl, ◌∙◌, Bool, true, false, List, [], ◌∷◌, arith, String}
use automationfleet.Dispatcher
use automationfleet.Dispatcher.{Dispatcher, has_reason}
use automationfleet.Dispatcher.Pause.{
  has_reason-pause, has_reason-resume, pause-frame, resume-frame,
}
use automationfleet.Watchdog
use automationfleet.Watchdog.{
  Watchdog, Signal, pauses, resumes, reason_user_takeover, Happening, history,
}
use automationfleet.Watchdog.Debounce.{
  Alternates, quiet, pausing, resuming, holds, history-Alternates,
}
use automationfleet.Fleet.{
  Fleet, signal, signal_all, pause, resume, stop_watchdog, stopping_history,
}

-- What signals leave alone.
pub record IsSameBut (f f' : Fleet) : Type 0 where
  pub handles : f'.handles ≡ f.handles
  pub native_count : f'.native_count ≡ f.native_count
  pub stopped : f'.stopped ≡ f.stopped
  pub once : f'.once ≡ f.once
  pub watchdog : f'.watchdog ≡ f.watchdog
  pub hook : f'.hook ≡ f.hook
  pub halted : f'.dispatcher.stopped ≡ f.dispatcher.stopped
  pub queue : f'.dispatcher.queue ≡ f.dispatcher.queue
  pub inflight : f'.dispatcher.inflight ≡ f.dispatcher.inflight
  pub cfg : f'.cfg ≡ f.cfg

pub pause-IsSameBut : (f : Fleet) (r : String) → IsSameBut f (pause f r)
unfolding pause
pause-IsSameBut f r = ground (arith, pause-frame f.dispatcher r)

pub pause-dispatcher :
    (f : Fleet) (r : String) → (pause f r).dispatcher ≡ (Dispatcher.pause f.dispatcher r).1
unfolding pause
pause-dispatcher f r = ground arith

pub resume-IsSameBut : (f : Fleet) (r : String) → IsSameBut f (resume f r)
unfolding resume
resume-IsSameBut f r = ground (arith, resume-frame f.dispatcher r)

pub resume-dispatcher :
    (f : Fleet) (r : String) → (resume f r).dispatcher ≡ (Dispatcher.resume f.dispatcher r).1
unfolding resume
resume-dispatcher f r = ground arith

signal-IsSameBut : (f : Fleet) (s : Signal) → IsSameBut f (signal f s)
unfolding signal
signal-IsSameBut f pauses = pause-IsSameBut f reason_user_takeover
signal-IsSameBut f resumes = resume-IsSameBut f reason_user_takeover

IsSameBut-trans : (f g h : Fleet) → IsSameBut f g → IsSameBut g h → IsSameBut f h
IsSameBut-trans f g h a b = ground arith

pub signal_all-IsSameBut : (f : Fleet) (signals : List Signal) → IsSameBut f (signal_all f signals)
unfolding signal_all
signal_all-IsSameBut f [] = ground arith
signal_all-IsSameBut f (s ∷ signals) =
    IsSameBut-trans f (signal f s) (signal_all (signal f s) signals) (signal-IsSameBut f s)
      (signal_all-IsSameBut (signal f s) signals)

-- Whether the dispatcher of the fleet is paused for the takeover.
abbrev pub auto_paused : Fleet → Bool
auto_paused f = has_reason f.dispatcher reason_user_takeover

pub signal-pauses :
    (f : Fleet) → f.dispatcher.stopped ≡ false → auto_paused (signal f pauses) ≡ true
unfolding signal
signal-pauses f e = ground (
  arith,
  pause-dispatcher f reason_user_takeover,
  has_reason-pause f.dispatcher reason_user_takeover reason_user_takeover,
)

signal-resumes : (f : Fleet) → f.dispatcher.stopped ≡ false → auto_paused (signal f resumes) ≡ false
unfolding signal
signal-resumes f e = ground (
  arith,
  resume-dispatcher f reason_user_takeover,
  has_reason-resume f.dispatcher reason_user_takeover reason_user_takeover,
)

-- Alternating signals lead the reason from what it is to what they end with.
pub signal_all-auto_paused :
    {p q : Bool} {signals : List Signal} (f : Fleet)
    → f.dispatcher.stopped ≡ false
    → Alternates p signals q
    → auto_paused f ≡ p
    → auto_paused (signal_all f signals) ≡ q
unfolding signal_all
signal_all-auto_paused f e quiet h = h
signal_all-auto_paused f e (pausing a) h =
    signal_all-auto_paused (signal f pauses) ((signal-IsSameBut f pauses).halted ∙ e) a
      (signal-pauses f e)
signal_all-auto_paused f e (resuming a) h =
    signal_all-auto_paused (signal f resumes) ((signal-IsSameBut f resumes).halted ∙ e) a
      (signal-resumes f e)

-- A loop that is asked to stop has ended at the end of its stopping history.
pub stopping_history-done :
    (w : Watchdog) (now : ℕ) (last : List (ℕ × Watchdog.Case))
    → w.stop_requested ≡ true
    → (history w (stopping_history now last)).0.done ≡ true
unfolding history Watchdog.happen Watchdog.expire Watchdog.is_ready Watchdog.run_case
stopping_history-done w now [] e = ground arith
stopping_history-done w now ((t, c) ∷ last) e =
    stopping_history-done (Watchdog.happen w t (Watchdog.loop c)).0 now last (kept c)
  where
    kept : (c : Watchdog.Case) → (Watchdog.happen w t (Watchdog.loop c)).0.stop_requested ≡ true
    kept Watchdog.Case.moved = ground arith
    kept Watchdog.Case.timed_out = ground arith
    kept Watchdog.Case.stopping = ground arith

-- Stopping a watchdog that is in step with the reason leaves the fleet without the reason.
pub stop_watchdog-auto_paused :
    (f : Fleet) (w : Watchdog) (now : ℕ) (last : List (ℕ × Watchdog.Case))
    → f.dispatcher.stopped ≡ false
    → auto_paused f ≡ holds w
    → auto_paused (stop_watchdog f w now last) ≡ false
unfolding stop_watchdog Watchdog.request_stop
stop_watchdog-auto_paused f w now last e h =
    let w' : Watchdog = Watchdog.request_stop w in
    let hs : List (ℕ × Happening) = stopping_history now last in
    let ended = stopping_history-done w' now last refl in
    let p = signal_all-auto_paused f e (history-Alternates w' hs) h in ground arith

pub stop_watchdog-IsSameBut :
    (f : Fleet) (w : Watchdog) (now : ℕ) (last : List (ℕ × Watchdog.Case))
    → IsSameBut f (stop_watchdog f w now last)
unfolding stop_watchdog
stop_watchdog-IsSameBut f w now last =
    signal_all-IsSameBut f ((history (Watchdog.request_stop w) (stopping_history now last)).1)

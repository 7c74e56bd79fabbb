-- ===== src/Fleet/Concurrent/History.antt =====
-- A history of the watchdog of a fleet, and its happenings one by one.
use automationfleet.Base.{
  ℕ, ◌≡◌, refl, sym, ◌∙◌, ap, String, Bool, true, false, Option, none, some, List, [], ◌∷◌, ◌++◌,
  if◌then◌else◌,
}
use automationfleet.Dispatcher
use automationfleet.Watchdog
use automationfleet.Watchdog.{Watchdog, Case, Signal, loop, Happening}
use automationfleet.Fleet.{
  Fleet, pause, resume, signal, signal_all, watch, callback, Callback, on_pause, on_resume,
}

-- The fleet with another watchdog.
abbrev pub with_watchdog : Fleet → Option Watchdog → Fleet
with_watchdog f o = record f { watchdog = o }

callback-with_watchdog :
    (f : Fleet) (o : Option Watchdog) (cb : Option ℕ) (c : ℕ → Callback)
    → callback (with_watchdog f o) cb c ≡ with_watchdog (callback f cb c) o
callback-with_watchdog f o none c = refl
callback-with_watchdog f o (some k) c = refl

-- A signal that may have been reported.
told-with_watchdog :
    (fired : Bool) (f : Fleet) (o : Option Watchdog) (cb : Option ℕ) (c : ℕ → Callback)
    → (if fired then callback (with_watchdog f o) cb c else with_watchdog f o)
      ≡ with_watchdog (if fired then callback f cb c else f) o
told-with_watchdog true f o cb c = callback-with_watchdog f o cb c
told-with_watchdog false f o cb c = refl

pause-with_watchdog :
    (f : Fleet) (o : Option Watchdog) (r : String)
    → pause (with_watchdog f o) r ≡ with_watchdog (pause f r) o
unfolding pause
pause-with_watchdog f o r =
    let (fired, d) = Dispatcher.pause f.dispatcher r in
    told-with_watchdog fired (record f { dispatcher = d }) o f.cfg.on_pause (λ cb. on_pause cb r)

resume-with_watchdog :
    (f : Fleet) (o : Option Watchdog) (r : String)
    → resume (with_watchdog f o) r ≡ with_watchdog (resume f r) o
unfolding resume
resume-with_watchdog f o r =
    let (fired, d) = Dispatcher.resume f.dispatcher r in
    told-with_watchdog fired (record f { dispatcher = d }) o f.cfg.on_resume (λ cb. on_resume cb r)

signal_all-with_watchdog :
    (f : Fleet) (o : Option Watchdog) (signals : List Signal)
    → signal_all (with_watchdog f o) signals ≡ with_watchdog (signal_all f signals) o
unfolding signal_all signal
signal_all-with_watchdog f o [] = refl
signal_all-with_watchdog f o (Signal.pauses ∷ signals) =
    ap (λ g. signal_all g signals) (pause-with_watchdog f o _)
    ∙ signal_all-with_watchdog (pause f _) o signals
signal_all-with_watchdog f o (Signal.resumes ∷ signals) =
    ap (λ g. signal_all g signals) (resume-with_watchdog f o _)
    ∙ signal_all-with_watchdog (resume f _) o signals

signal_all-append :
    (f : Fleet) (xs ys : List Signal) → signal_all f (xs ++ ys) ≡ signal_all (signal_all f xs) ys
unfolding signal_all
signal_all-append f [] ys = refl
signal_all-append f (x ∷ xs) ys = signal_all-append (signal f x) xs ys

-- The happenings of a history, one by one, to the watchdog of a fleet.
unfoldable pub watch_all : Fleet → List (ℕ × Happening) → Fleet
watch_all f [] = f
watch_all f ((now, h) ∷ hs) = watch_all (watch f now h) hs

pub watch_all-history :
    (f : Fleet) (w : Watchdog) (hs : List (ℕ × Happening))
    → watch_all (with_watchdog f (some w)) hs
      ≡ with_watchdog (signal_all f (Watchdog.history w hs).1) (some (Watchdog.history w hs).0)
unfolding watch_all watch Watchdog.history
watch_all-history f w [] = unfold signal_all in refl
watch_all-history f w ((now, h) ∷ hs) =
    let w' : Watchdog = (Watchdog.happen w now h).0 in
    let signals : List Signal = (Watchdog.happen w now h).1 in
    ap (λ g. watch_all g hs) (signal_all-with_watchdog f (some w') signals)
    ∙ watch_all-history (signal_all f signals) w' hs
    ∙ ap (λ g. with_watchdog g (some (Watchdog.history w' hs).0))
        (sym (signal_all-append f signals (Watchdog.history w' hs).1))

pub watch_all-append :
    (f : Fleet) (hs : List (ℕ × Happening)) (now : ℕ) (h : Happening)
    → watch_all f (hs ++ (now, h) ∷ []) ≡ watch (watch_all f hs) now h
unfolding watch_all
watch_all-append f [] now h = refl
watch_all-append f ((t, k) ∷ hs) now h = watch_all-append (watch f t k) hs now h

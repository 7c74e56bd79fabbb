-- ===== src/Fleet/Guard.antt =====
-- fleet.go: Pause and Resume, and the takeover watchdog that calls them.
-- Time and what the operating system answers are arguments.
use automationfleet.Fleet.State.{Fleet, Callback, on_pause, on_resume}
use automationfleet.Base.{
  ℕ, String, Bool, true, false, not, ◌&&◌, Option, none, some, List, [], ◌∷◌, ◌++◌, map, ltb,
  if◌then◌else◌,
}
use automationfleet.Dispatcher
use automationfleet.Dispatcher.{Dispatcher, new_dispatcher}
use automationfleet.Watchdog
use automationfleet.Watchdog.{
  Watchdog, Signal, pauses, resumes, Case, stopping, Happening, loop, takeover_idle,
  reason_user_takeover,
}

-- Runs a callback, if it is set; a panic of it is recovered.
abbrev pub callback : Fleet → Option ℕ → (ℕ → Callback) → Fleet
callback f none c = f
callback f (some cb) c = record f { called = f.called ++ c cb ∷ [] }

unfoldable pub pause : Fleet → String → Fleet
pause f reason =
    let (fired, d) = Dispatcher.pause f.dispatcher reason in
    let f' : Fleet = record f { dispatcher = d } in
    if fired then callback f' f.cfg.on_pause (λ cb. on_pause cb reason) else f'

unfoldable pub resume : Fleet → String → Fleet
resume f reason =
    let (fired, d) = Dispatcher.resume f.dispatcher reason in
    let f' : Fleet = record f { dispatcher = d } in
    if fired then callback f' f.cfg.on_resume (λ cb. on_resume cb reason) else f'

-- The functions that the watchdog is made with.
unfoldable pub signal : Fleet → Signal → Fleet
unfolding pause resume
signal f pauses = pause f reason_user_takeover
signal f resumes = resume f reason_user_takeover

unfoldable pub signal_all : Fleet → List Signal → Fleet
unfolding signal
signal_all f [] = f
signal_all f (s ∷ signals) = signal_all (signal f s) signals

-- The installed watchdog does something.
unfoldable pub watch : Fleet → ℕ → Happening → Fleet
unfolding signal_all
watch f now h = elim f.watchdog [
  | none ↦ f
  | some w ↦
      let (w', signals) = Watchdog.happen w now h in
      signal_all (record f { watchdog = some w' }) signals
]

-- What watchdog.stop waits for: once it is asked to stop, the loop may take other ready cases, at
-- the times in `last`, before the one that ends it.
abbrev pub stopping_history : ℕ → List (ℕ × Case) → List (ℕ × Happening)
stopping_history now last = map (λ (t, c). (t, loop c)) last ++ (now, loop stopping) ∷ []

unfoldable pub stop_watchdog : Fleet → Watchdog → ℕ → List (ℕ × Case) → Fleet
unfolding signal_all
stop_watchdog f w now last =
    signal_all f (Watchdog.history (Watchdog.request_stop w) (stopping_history now last)).1

-- How a reconciliation goes: whether the hook can be installed, and how a loop ends.
pub record Schedule : Type 0 where
  pub hook_ok : Bool
  pub now : ℕ
  pub last : List (ℕ × Case)

unfoldable pub start_takeover : Fleet → Schedule → Fleet
unfolding stop_watchdog
start_takeover f s =
    let w : Watchdog = Watchdog.new_takeover_watchdog takeover_idle in
    if s.hook_ok
    then record f { watchdog = some w; hook = true }
    else stop_watchdog f w s.now s.last

unfoldable pub stop_takeover : Fleet → Schedule → Fleet
unfolding stop_watchdog
stop_takeover f s =
    let f' : Fleet = record f { hook = false } in
    elim f.watchdog [
      | none ↦ f'
      | some w ↦ record (stop_watchdog f' w s.now s.last) { watchdog = none }
    ]

abbrev pub is_installed : Fleet → Bool
is_installed f = elim f.watchdog [ none ↦ false | some w ↦ true ]

unfoldable pub reconcile_takeover : Fleet → Schedule → Fleet
unfolding start_takeover stop_takeover
reconcile_takeover f s =
    let want : Bool = ltb 0 f.native_count && not f.stopped in
    if want && not (is_installed f)
    then start_takeover f s
    else if not want && is_installed f
    then stop_takeover f s
    else f

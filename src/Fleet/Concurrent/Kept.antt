-- ===== src/Fleet/Concurrent/Kept.antt =====
-- What the parts of the concurrent calls change in a fleet, as far as the takeover depends on it.
use automationfleet.Base.{
  ℕ, ◌≡◌, refl, String, true, false, Option, none, some, List, ◌>>=◌, arith, Option-cases, inl, inr,
}
use automationfleet.Dispatcher
use automationfleet.Dispatcher.{Dispatcher}
use automationfleet.Watchdog
use automationfleet.Watchdog.{Watchdog, Signal, Happening, mouse_move, takeover_idle}
use automationfleet.Fleet.{
  Fleet, Schedule, Callback, on_stop, callback, watch, start_takeover, is_installed, stop_begin,
  stop_end,
}
use automationfleet.Fleet.Takeover.{
  pause-IsSameBut, resume-IsSameBut, signal_all-IsSameBut, stop_watchdog-IsSameBut,
}
use automationfleet.Fleet.Invariant.{IsKept, wanted, watch-IsKept, start_takeover-IsKept}
use automationfleet.Fleet.Concurrent.{
  Call, registers, unregisters, submits, stops, After, leaves, aborts, changes, enter, ask_to_stop,
  forget, Aside, mouse, pauses, unpauses, aside,
}

-- The same wish for a watchdog, and the same progress of the stop.
pub record IsLike (f f' : Fleet) : Type 0 where
  pub wanted : wanted f' ≡ wanted f
  pub once : f'.once ≡ f.once
  pub stopped : f'.stopped ≡ f.stopped

kept-IsLike : (f f' : Fleet) → IsKept f f' → IsLike f f'
kept-IsLike f f' k = ground arith

pub watch-IsLike : (f : Fleet) (now : ℕ) (h : Happening) → IsLike f (watch f now h)
watch-IsLike f now h = kept-IsLike f (watch f now h) (watch-IsKept f now h)

pub watch-is_installed :
    (f : Fleet) (now : ℕ) (h : Happening) → is_installed (watch f now h) ≡ is_installed f
unfolding watch
watch-is_installed f now h = elim (Option-cases f.watchdog) [
  | inl n ↦ ground arith
  | inr (w, o) ↦
      let happened : Watchdog × List Signal = Watchdog.happen w now h in
      let same = signal_all-IsSameBut (record f { watchdog = some happened.0 }) happened.1 in
      ground arith
]

pub aside-IsLike : (f : Fleet) (e : Aside) → IsLike f (aside f e)
aside-IsLike f (mouse now) = unfold aside in watch-IsLike f now mouse_move
aside-IsLike f (pauses reason) = let same = pause-IsSameBut f reason in unfold aside in ground arith
aside-IsLike f (unpauses reason) =
    let same = resume-IsSameBut f reason in unfold aside in ground arith

pub aside-is_installed : (f : Fleet) (e : Aside) → is_installed (aside f e) ≡ is_installed f
aside-is_installed f (mouse now) = unfold aside in watch-is_installed f now mouse_move
aside-is_installed f (pauses reason) =
    let same = pause-IsSameBut f reason in unfold aside in ground arith
aside-is_installed f (unpauses reason) =
    let same = resume-IsSameBut f reason in unfold aside in ground arith

pub start_takeover-IsLike : (f : Fleet) (s : Schedule) → IsLike f (start_takeover f s)
start_takeover-IsLike f s = kept-IsLike f (start_takeover f s) (start_takeover-IsKept f s)

-- Whether a hook that can be installed is.
pub start_takeover-is_installed :
    (f : Fleet) (s : Schedule)
    → is_installed f ≡ false
    → is_installed (start_takeover f s) ≡ s.hook_ok
unfolding start_takeover
start_takeover-is_installed f s e =
    let k : Watchdog = Watchdog.new_takeover_watchdog takeover_idle in
    ground (arith, stop_watchdog-IsSameBut f k s.now s.last)

pub ask_to_stop-IsLike : (f : Fleet) → IsLike f (ask_to_stop f)
unfolding ask_to_stop
ask_to_stop-IsLike f = ground arith

pub ask_to_stop-is_installed : (f : Fleet) → is_installed (ask_to_stop f) ≡ is_installed f
unfolding ask_to_stop
ask_to_stop-is_installed f = ground arith

pub forget-IsLike : (f : Fleet) → IsLike f (forget f)
unfolding forget
forget-IsLike f = ground arith

pub forget-is_installed : (f : Fleet) → is_installed (forget f) ≡ false
unfolding forget
forget-is_installed f = refl

callback-kept :
    (f : Fleet) (cb : Option ℕ) (c : ℕ → Callback)
    → IsLike f (callback f cb c) × ((callback f cb c).watchdog ≡ f.watchdog)
callback-kept f none c = (ground arith, refl)
callback-kept f (some k) c = (ground arith, refl)

aborted :
    (f f' told : Fleet) (o : Option Dispatcher)
    → IsLike f told × (told.watchdog ≡ f.watchdog)
    → (o >>= λ d. some (record told { dispatcher = d; cancelled = true })) ≡ some f'
    → IsLike f f' × (f'.watchdog ≡ f.watchdog)
aborted f f' told none k e = absurd (ground arith)
aborted f f' told (some d) k e = (ground arith, ground arith)

pub stop_end-kept :
    (f f' : Fleet) (reason : String)
    → stop_end f reason ≡ some f'
    → IsLike f f' × (f'.watchdog ≡ f.watchdog)
unfolding stop_end
stop_end-kept f f' reason e =
    let told : Fleet = callback f f.cfg.on_stop (λ cb. on_stop cb reason) in
    aborted f f' told (Dispatcher.abort_all told.dispatcher reason)
      (callback-kept f f.cfg.on_stop (λ cb. on_stop cb reason)) e

-- The first section of a call leaves the watchdog alone; one that goes on to end the fleet is the
-- first to do so, and no other touches the stop.
abbrev pub Entered : After → Fleet → Fleet → Type 0
Entered leaves f f' = (f'.watchdog ≡ f.watchdog) × (f'.once ≡ f.once) × (f'.stopped ≡ f.stopped)
Entered (aborts r) f f' =
    (f'.watchdog ≡ f.watchdog) × (f.once ≡ false) × (f'.once ≡ true) × (f'.stopped ≡ true)

pub enter-Entered :
    (f f' : Fleet) (c : Call) (a : After) → enter f c ≡ changes f' a → Entered a f f'
unfolding enter stop_begin
enter-Entered f f' (registers h) leaves e = ground arith
enter-Entered f f' (registers h) (aborts r) e = ground arith
enter-Entered f f' (unregisters id) leaves e = ground arith
enter-Entered f f' (unregisters id) (aborts r) e = ground arith
enter-Entered f f' (submits j) leaves e = ground arith
enter-Entered f f' (submits j) (aborts r) e = ground arith
enter-Entered f f' (stops reason) leaves e = ground arith
enter-Entered f f' (stops reason) (aborts r) e = ground arith

pub enter-watchdog :
    (f f' : Fleet) (c : Call) (a : After) → enter f c ≡ changes f' a → f'.watchdog ≡ f.watchdog
enter-watchdog f f' c leaves e = (enter-Entered f f' c leaves e).0
enter-watchdog f f' c (aborts r) e = (enter-Entered f f' c (aborts r) e).0

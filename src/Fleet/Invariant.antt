-- ===== src/Fleet/Invariant.antt =====
-- The invariant of a fleet's takeover state, which every call preserves.
use automationfleet.Base.{
  ℕ, ◌≡◌, refl, ◌∙◌, Bool, true, false, not, ◌&&◌, none, some, List, arith, ltb, Option-cases, inl,
  inr,
}
use automationfleet.Watchdog
use automationfleet.Watchdog.{Watchdog, Signal, reason_user_takeover, Happening, takeover_idle}
use automationfleet.Watchdog.Debounce.{holds, happen-Alternates}
use automationfleet.Fleet.{
  Fleet, Schedule, watch, start_takeover, stop_takeover, reconcile_takeover, is_installed,
}
use automationfleet.Fleet.Takeover.{
  auto_paused, signal_all-IsSameBut, signal_all-auto_paused, stop_watchdog-auto_paused,
  stop_watchdog-IsSameBut,
}

-- The watchdog is in step: the hook stands with it, the reason is active exactly while it holds the
-- fleet paused, and the dispatcher does not stop before the fleet does.
pub record IsInStep (f : Fleet) : Type 0 where
  pub hooked : f.hook ≡ is_installed f
  pub held : auto_paused f ≡ elim f.watchdog [ none ↦ false | some w ↦ holds w ]
  pub alive : is_installed f ≡ true → f.dispatcher.stopped ≡ false
  pub halted : f.dispatcher.stopped ≡ true → f.stopped ≡ true

-- Whether the fleet wants a watchdog.
abbrev pub wanted : Fleet → Bool
wanted f = ltb 0 f.native_count && not f.stopped

-- A fleet in step has a watchdog only if it wants one.
pub record IsSound (f : Fleet) : Type 0 where
  pub in_step : IsInStep f
  pub needed : is_installed f ≡ true → wanted f ≡ true

new-holds : holds (Watchdog.new_takeover_watchdog takeover_idle) ≡ false
unfolding Watchdog.new_takeover_watchdog
new-holds = refl

start_takeover-IsSound :
    (f : Fleet) (s : Schedule)
    → IsInStep f
    → is_installed f ≡ false
    → wanted f ≡ true
    → IsSound (start_takeover f s)
unfolding start_takeover
start_takeover-IsSound f s i e w =
    let k : Watchdog = Watchdog.new_takeover_watchdog takeover_idle in
    let same = stop_watchdog-IsSameBut f k s.now s.last in
    let quiet = stop_watchdog-auto_paused f k s.now s.last in ground (arith, new-holds)

stop_takeover-IsSound :
    (f : Fleet) (s : Schedule) → IsInStep f → is_installed f ≡ true → IsSound (stop_takeover f s)
unfolding stop_takeover
stop_takeover-IsSound f s i e =
    let f' : Fleet = record f { hook = false } in
    elim (Option-cases f.watchdog) [
      | inl n ↦ absurd (ground arith)
      | inr (w, o) ↦
          let same = stop_watchdog-IsSameBut f' w s.now s.last in
          let quiet = stop_watchdog-auto_paused f' w s.now s.last in ground arith
    ]

pub reconcile_takeover-IsSound :
    (f : Fleet) (s : Schedule) → IsInStep f → IsSound (reconcile_takeover f s)
unfolding reconcile_takeover
reconcile_takeover-IsSound f s i =
    ground (arith, start_takeover-IsSound f s, stop_takeover-IsSound f s)

-- What a reconciliation leaves alone.
pub record IsKept (f f' : Fleet) : Type 0 where
  pub handles : f'.handles ≡ f.handles
  pub native_count : f'.native_count ≡ f.native_count
  pub stopped : f'.stopped ≡ f.stopped
  pub once : f'.once ≡ f.once
  pub halted : f'.dispatcher.stopped ≡ f.dispatcher.stopped
  pub queue : f'.dispatcher.queue ≡ f.dispatcher.queue
  pub inflight : f'.dispatcher.inflight ≡ f.dispatcher.inflight
  pub cfg : f'.cfg ≡ f.cfg

pub start_takeover-IsKept : (f : Fleet) (s : Schedule) → IsKept f (start_takeover f s)
unfolding start_takeover
start_takeover-IsKept f s =
    let k : Watchdog = Watchdog.new_takeover_watchdog takeover_idle in
    ground (arith, stop_watchdog-IsSameBut f k s.now s.last)

stop_takeover-IsKept : (f : Fleet) (s : Schedule) → IsKept f (stop_takeover f s)
unfolding stop_takeover
stop_takeover-IsKept f s = elim (Option-cases f.watchdog) [
  | inl n ↦ ground arith
  | inr (w, o) ↦ ground (arith, stop_watchdog-IsSameBut (record f { hook = false }) w s.now s.last)
]

pub reconcile_takeover-IsKept : (f : Fleet) (s : Schedule) → IsKept f (reconcile_takeover f s)
unfolding reconcile_takeover
reconcile_takeover-IsKept f s = ground (arith, start_takeover-IsKept f s, stop_takeover-IsKept f s)

-- If the hook can be installed, a reconciliation leaves the watchdog installed exactly when the
-- fleet has a native browser and is not stopped.
pub reconcile_takeover-converges :
    (f : Fleet) (s : Schedule) → s.hook_ok ≡ true → is_installed (reconcile_takeover f s) ≡ wanted f
unfolding reconcile_takeover start_takeover stop_takeover
reconcile_takeover-converges f s ok = ground arith

-- The watchdog of a sound fleet does something.
pub watch-IsSound : (f : Fleet) (now : ℕ) (h : Happening) → IsSound f → IsSound (watch f now h)
unfolding watch
watch-IsSound f now h s = elim (Option-cases f.watchdog) [
  | inl n ↦ ground arith
  | inr (w, o) ↦
      let happened : Watchdog × List Signal = Watchdog.happen w now h in
      let f' : Fleet = record f { watchdog = some happened.0 } in
      let same = signal_all-IsSameBut f' happened.1 in
      let held =
        signal_all-auto_paused f' (s.in_step.alive (rw o refl)) (happen-Alternates w now h)
          (s.in_step.held ∙ rw o refl) in
      ground arith
]

pub watch-IsKept : (f : Fleet) (now : ℕ) (h : Happening) → IsKept f (watch f now h)
unfolding watch
watch-IsKept f now h = elim (Option-cases f.watchdog) [
  | inl n ↦ ground arith
  | inr (w, o) ↦
      let happened : Watchdog × List Signal = Watchdog.happen w now h in
      let same = signal_all-IsSameBut (record f { watchdog = some happened.0 }) happened.1 in
      ground arith
]

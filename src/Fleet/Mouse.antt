-- ===== src/Fleet/Mouse.antt =====
-- fleet.go, internal/winapi/mouse_hook_windows.go and takeover_watchdog.go together: what the moves
-- of the mouse do to a fleet, whose hook has the method notify of its watchdog as its callback.
use automationfleet.Base.{
  ℕ, ◌≡◌, refl, ◌∙◌, ap, true, false, not, ◌&&◌, none, some, List, [], ◌∷◌, ℤ, arith, if◌then◌else◌,
  Bool-cases, inl, inr, ltb_ℤ, pos,
}
use automationfleet.Winapi.{is_real_mouse_move, mouse_proc}
use automationfleet.Dispatcher.{Dispatcher, has_reason}
use automationfleet.Fleet.Takeover.{auto_paused, signal-pauses}
use automationfleet.Watchdog.{
  Watchdog, pauses, Case, moved, timed_out, stopping, Happening, mouse_move, clock_tick, loop,
  happen, notify, reason_user_takeover, expire, run_case, is_ready,
}
use automationfleet.Fleet
use automationfleet.Fleet.{Fleet, signal, watch, signal_all}

-- An event of the mouse, with the code and the flags that Windows gives it, the clock alone, or a
-- case of the watchdog's loop.
pub data Input : Type 0 where
  event : (n_code : ℤ) (flags : ℕ) → Input
  ticks : Input
  loops : Case → Input

unfoldable pub input : Fleet → ℕ → Input → Fleet
unfolding watch mouse_proc
input f now (event n_code flags) =
    elim (mouse_proc (if f.hook then some tt else none) n_code flags) [
      | none ↦ f
      | some called ↦ watch f now mouse_move
    ]
input f now ticks = watch f now clock_tick
input f now (loops c) = watch f now (loop c)

unfoldable pub inputs : Fleet → List (ℕ × Input) → Fleet
unfolding input
inputs f [] = f
inputs f ((now, i) ∷ is) = inputs (input f now i) is

-- Every event comes from the automation.
abbrev pub IsInjected : Input → Type 0
IsInjected (event n_code flags) = is_real_mouse_move flags ≡ false
IsInjected _ = Unit

abbrev pub AllInjected : List (ℕ × Input) → Type 0
AllInjected [] = Unit
AllInjected ((now, i) ∷ is) = IsInjected i × AllInjected is

-- The loop runs, has dealt with every move, and holds no pause.
abbrev pub IsCalm : Watchdog → Type 0
IsCalm w = (w.moves ≡ false) × (w.paused ≡ false) × (w.done ≡ false) × (w.stop_requested ≡ false)

-- The hook is set and its watchdog is calm.
abbrev pub Watches : Fleet → Type 0
Watches f = (f.hook ≡ true) × ((w : Watchdog) × (f.watchdog ≡ some w) × IsCalm w)

happen-IsCalm :
    (w : Watchdog) (now : ℕ) (c : Case)
    → IsCalm w
    → ((happen w now (loop c)).1 ≡ []) × IsCalm (happen w now (loop c)).0
unfolding happen expire run_case is_ready
happen-IsCalm w now moved k = ground arith
happen-IsCalm w now timed_out k = ground arith
happen-IsCalm w now stopping k = ground arith

tick-IsCalm :
    (w : Watchdog) (now : ℕ)
    → IsCalm w
    → ((happen w now clock_tick).1 ≡ []) × IsCalm (happen w now clock_tick).0
unfolding happen expire
tick-IsCalm w now k = ground arith

watch-Watches :
    (f : Fleet) (w : Watchdog) (now : ℕ) (h : Happening)
    → f.hook ≡ true
    → f.watchdog ≡ some w
    → (happen w now h).1 ≡ []
    → IsCalm (happen w now h).0
    → Watches (watch f now h) × ((watch f now h).dispatcher ≡ f.dispatcher)
unfolding watch signal_all
watch-Watches f w now h hooked e quiet k =
    let after : watch f now h ≡ record f { watchdog = some (happen w now h).0 } =
      rw (e, quiet, watch) refl in
    rw after ((hooked, ((happen w now h).0, refl, k)), refl)

-- An event that the hook procedure passes over.
unheard :
    (f : Fleet) (now : ℕ) (n_code : ℤ) (flags : ℕ)
    → (not (ltb_ℤ n_code (pos 0)) && is_real_mouse_move flags) ≡ false
    → input f now (event n_code flags) ≡ f
unfolding input mouse_proc
unheard f now n_code flags j = ground (arith, j)

input-Watches :
    (f : Fleet) (now : ℕ) (i : Input)
    → IsInjected i
    → Watches f
    → Watches (input f now i) × ((input f now i).dispatcher ≡ f.dispatcher)
unfolding input mouse_proc
input-Watches f now (event n_code flags) j (hooked, w) =
    rw (unheard f now n_code flags (ground (arith, j))) ((hooked, w), refl)
input-Watches f now ticks j (hooked, (w, e, k)) =
    watch-Watches f w now clock_tick hooked e (tick-IsCalm w now k).0 (tick-IsCalm w now k).1
input-Watches f now (loops c) j (hooked, (w, e, k)) =
    watch-Watches f w now (loop c) hooked e (happen-IsCalm w now c k).0 (happen-IsCalm w now c k).1

inputs-Watches :
    (f : Fleet) (is : List (ℕ × Input))
    → AllInjected is
    → Watches f
    → Watches (inputs f is) × ((inputs f is).dispatcher ≡ f.dispatcher)
unfolding inputs
inputs-Watches f [] j s = (s, refl)
inputs-Watches f ((now, i) ∷ is) (j, js) s =
    let (s', same) = input-Watches f now i j s in
    let (s'', same') = inputs-Watches (input f now i) is js s' in (s'', same' ∙ same)

-- A move that the watchdog is told of, and the loop's turn.
moved-pauses :
    (f : Fleet) (now later : ℕ)
    → Watches f
    → f.dispatcher.stopped ≡ false
    → auto_paused (watch (watch f now mouse_move) later (loop moved)) ≡ true
unfolding watch signal_all signal Fleet.pause happen notify expire run_case is_ready
moved-pauses f now later (hooked, (w, e, k)) running =
    let w' = (happen w now mouse_move).0 in
    let told : watch f now mouse_move ≡ record f { watchdog = some w' } = rw (e, watch) refl in
    let fires : (happen w' later (loop moved)).1 ≡ pauses ∷ [] = ground arith in
    let f' : Fleet = record f { watchdog = some w' } in
    let f'' : Fleet = record f { watchdog = some (happen w' later (loop moved)).0 } in
    let calls : watch f' later (loop moved) ≡ signal f'' pauses = rw (fires, watch) refl in
    rw (told, calls) (signal-pauses f'' running)

next_event :
    (f : Fleet) (now later : ℕ) (n_code : ℤ) (flags : ℕ)
    → Watches f
    → f.dispatcher.stopped ≡ false
    → auto_paused f ≡ false
    → auto_paused (input (input f now (event n_code flags)) later (loops moved))
      ≡ (not (ltb_ℤ n_code (pos 0)) && is_real_mouse_move flags)
unfolding input mouse_proc
next_event f now later n_code flags s running free =
    elim (Bool-cases (not (ltb_ℤ n_code (pos 0)) && is_real_mouse_move flags)) [
      | inl heard ↦
          let told : input f now (event n_code flags) ≡ watch f now mouse_move =
            ground (arith, heard, s.0) in
          rw (told, heard) (moved-pauses f now later s running)
      | inr passed ↦
          rw (unheard f now n_code flags passed, passed)
            (ap (λ (d : Dispatcher). has_reason d reason_user_takeover)
                (input-Watches f later (loops moved) tt s).1
              ∙ free)
    ]

-- Only a person pauses the fleet: after any inputs in which every event of the mouse comes from the
-- automation, the next event and the loop's turn after it leave the fleet paused for a takeover
-- exactly if the event is real and its code is not negative; the fleet has a hook and a calm watchdog
-- at first, and is neither stopped nor paused for a takeover.
pub real_move_pauses :
    (f : Fleet) (is : List (ℕ × Input)) (now later : ℕ) (n_code : ℤ) (flags : ℕ)
    → AllInjected is
    → Watches f
    → f.dispatcher.stopped ≡ false
    → has_reason f.dispatcher reason_user_takeover ≡ false
    → has_reason
        (input (input (inputs f is) now (event n_code flags)) later (loops moved)).dispatcher
        reason_user_takeover
      ≡ (not (ltb_ℤ n_code (pos 0)) && is_real_mouse_move flags)
real_move_pauses f is now later n_code flags j s running free =
    let (s', same) = inputs-Watches f is j s in
    next_event (inputs f is) now later n_code flags s'
      (ap (λ (d : Dispatcher). d.stopped) same ∙ running)
      (ap (λ (d : Dispatcher). has_reason d reason_user_takeover) same ∙ free)

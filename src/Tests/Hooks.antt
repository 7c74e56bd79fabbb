-- ===== src/Tests/Hooks.antt =====
-- mouse_hook_test.go, and a run of the mouse hook.
use automationfleet.Base.{
  ℕ, ◌+◌, ◌≡◌, refl, true, false, none, some, List, [], ◌∷◌, pos, not, ◌&&◌, ltb_ℤ, if◌then◌else◌,
  total,
}
use automationfleet.Watchdog.{new_takeover_watchdog, takeover_idle, moved}
use automationfleet.Dispatcher.{new_dispatcher, has_reason}
use automationfleet.Fleet.{Fleet, new}
use automationfleet.Fleet.Takeover.{auto_paused}
use automationfleet.Fleet.Mouse.{Input, event, ticks, loops, input, inputs, real_move_pauses}
use automationfleet.Winapi.{is_real_mouse_move, mouse_proc}
use automationfleet.Winapi.Hook.{
  HookState, Session, pumping, unhooked, installs, arms, hooks, Reach, here, next,
}
use automationfleet.Winapi.Single.{active, hook_calls_own}

-- TestIsRealMouseMove
classified :
    (is_real_mouse_move 0 ≡ true)
    × (is_real_mouse_move 1 ≡ false)
    × (is_real_mouse_move 3 ≡ false)
    × (is_real_mouse_move 2 ≡ true)
unfolding is_real_mouse_move
classified = (refl, refl, refl, refl)

-- One installation, with the callback 7.
abbrev hooked : HookState ℕ
hooked = record { hook_installed = true; real_move_callback = some 7; sessions = pumping 7 ∷ [] }

abbrev no_sessions : List (Session ℕ)
no_sessions = []

Reach-hooked : Reach unhooked hooked
Reach-hooked = next (next (next here (installs 7 refl)) (arms [] [] 7 refl)) (hooks [] [] 7 refl)

hook_calls_own_example :
    (total active no_sessions + total active no_sessions ≡ 0)
    × (hooked.hook_installed ≡ true)
    × (mouse_proc hooked.real_move_callback (pos 0) 2
        ≡ (if ltb_ℤ (pos 0) (pos 0) then none else if is_real_mouse_move 2 then some 7 else none))
hook_calls_own_example = hook_calls_own no_sessions no_sessions 7 (pos 0) 2 Reach-hooked refl

-- A fleet whose watchdog was just installed; it moves the mouse itself, and then a person does.
abbrev watching : Fleet
watching = record (new [] 0) { watchdog = some (new_takeover_watchdog takeover_idle); hook = true }

abbrev own_moves : List (ℕ × Input)
own_moves = (1, event (pos 0) 1) ∷ (2, loops moved) ∷ (3, ticks) ∷ (4, event (pos 0) 3) ∷ []

real_move_pauses_example :
    auto_paused (input (input (inputs watching own_moves) 5 (event (pos 0) 0)) 6 (loops moved))
    ≡ (not (ltb_ℤ (pos 0) (pos 0)) && is_real_mouse_move 0)
unfolding new new_takeover_watchdog is_real_mouse_move new_dispatcher has_reason
real_move_pauses_example =
    real_move_pauses watching own_moves 5 6 (pos 0) 0 (refl, (tt, (tt, (refl, tt))))
      (refl, (new_takeover_watchdog takeover_idle, refl, (refl, refl, refl, refl))) refl refl

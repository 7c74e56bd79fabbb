-- ===== src/Tests/Listeners.antt =====
-- Runs of the hotkey listener: one with three bindings, and one that is refused.
use mathlib.Core.List.{Memᴰ}
use automationfleet.Base.{
  ℕ, ◌≡◌, ◌↔◌, pos, codes, refl, false, none, some, List, [], ◌∷◌, ◌==◌, if◌then◌else◌,
}
use automationfleet.Errors.{errorf, text, int}
use automationfleet.Hotkey.Parse.{parse_hotkey}
use automationfleet.Hotkey.Print.{to_text}
use automationfleet.Hotkey.RoundTrip.{IsUsable, parse_hotkey-to_text}
use automationfleet.Hotkey.{mod_ctrl, key_f1, key_f10, key_f11, default_stop_hotkey}
use automationfleet.Hotkey.Listener.{
  HotkeyBinding, Answers, registered, refused, unregistered, hotkey, other, quit, register_all,
  unregister_all, serve, find, run_hotkey_multi_listener,
}
use automationfleet.Hotkey.Listener.Released.{is_held, run_hotkey_multi_listener-releases}
use automationfleet.Hotkey.Listener.Dispatched.{Binds, run_hotkey_multi_listener-dispatches}

-- Callbacks are numbers; the second binding has none.
abbrev pause_binding : HotkeyBinding ℕ
pause_binding = record { hotkey = record { mods = mod_ctrl; key = key_f10 }; on_fire = some 7 }

abbrev more : List (HotkeyBinding ℕ)
more =
    record { hotkey = record { mods = mod_ctrl; key = key_f11 }; on_fire = none }
    ∷ record { hotkey = default_stop_hotkey; on_fire = some 9 }
    ∷ []

abbrev willing : Answers
willing = λ calls id h. none

-- The third id is taken.
abbrev unwilling : Answers
unwilling = λ calls id h. if id == 3 then some "taken" else none

fired :
    (run_hotkey_multi_listener willing
      (pause_binding ∷ more)
      (hotkey 3 ∷ other ∷ hotkey 2 ∷ hotkey 1 ∷ quit ∷ hotkey 1 ∷ [])).fired
    ≡ 9 ∷ 7 ∷ []
unfolding run_hotkey_multi_listener register_all serve find
fired = refl

bailed :
    (run_hotkey_multi_listener unwilling (pause_binding ∷ more) []).calls
    ≡ unregistered 1 ∷ refused 3 default_stop_hotkey ∷ registered 1 pause_binding.hotkey ∷ []
unfolding run_hotkey_multi_listener register_all unregister_all
bailed = refl

run_hotkey_multi_listener-releases_example :
    is_held 1 (run_hotkey_multi_listener unwilling (pause_binding ∷ more) (hotkey 1 ∷ [])).calls
    ≡ false
run_hotkey_multi_listener-releases_example =
    run_hotkey_multi_listener-releases unwilling (pause_binding ∷ more) (hotkey 1 ∷ []) 1

run_hotkey_multi_listener-dispatches_example :
    (Memᴰ
        (registered 3 default_stop_hotkey)
        (run_hotkey_multi_listener willing (pause_binding ∷ more) (hotkey 3 ∷ [])).calls
      × ((run_hotkey_multi_listener willing (pause_binding ∷ more) (hotkey 3 ∷ [])).fired ≡ 9 ∷ []))
    ↔ Binds (pause_binding ∷ more) 3 default_stop_hotkey 9
unfolding run_hotkey_multi_listener register_all
run_hotkey_multi_listener-dispatches_example =
    run_hotkey_multi_listener-dispatches willing pause_binding more 3 default_stop_hotkey 9 refl

-- TestParseHotkey_F10WithCtrl and TestParseHotkey_F11WithCtrlLowercase, and some texts that are
-- refused.
parsed :
    (parse_hotkey (codes "Ctrl+F10") ≡ (none, pause_binding.hotkey))
    × (parse_hotkey (codes "ctrl+f11") ≡ (none, record { mods = mod_ctrl; key = key_f11 }))
    × (parse_hotkey (codes " SHIFT +Meta+q+ALT") ≡ (none, record { mods = 13; key = 81 }))
    × ((parse_hotkey (codes "Ctrl+F13")).0
        ≡ some (errorf "hotkey: unknown token %q" (text (codes "F13") ∷ [])))
    × ((parse_hotkey (codes "Ctrl+")).0
        ≡ some (errorf "hotkey: empty token at position %d" (int (pos 1) ∷ [])))
    × ((parse_hotkey (codes "S")).0
        ≡ some (errorf "hotkey: at least one modifier required in %q" (text (codes "S") ∷ [])))
unfolding parse_hotkey
parsed = (refl, refl, refl, refl, refl, refl)

-- TestHotkey_StringRendersFKey and TestHotkey_StringRendersF1, and a key that has no name.
printed :
    (to_text (record { mods = mod_ctrl; key = key_f11 }) ≡ codes "Ctrl+F11")
    × (to_text (record { mods = 6; key = key_f1 }) ≡ codes "Ctrl+Shift+F1")
    × (to_text (record { mods = 1; key = 45 }) ≡ codes "Alt+VK_0x2D")
unfolding to_text
printed = (refl, refl, refl)

parse_hotkey-to_text_example :
    (((s : List ℕ) × (parse_hotkey s ≡ (none, default_stop_hotkey))) ↔ IsUsable default_stop_hotkey)
    × ((parse_hotkey (to_text default_stop_hotkey) ≡ (none, default_stop_hotkey))
        ↔ IsUsable default_stop_hotkey)
parse_hotkey-to_text_example = parse_hotkey-to_text default_stop_hotkey

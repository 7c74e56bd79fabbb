-- ===== src/Hotkey/Print.antt =====
-- hotkey.go: the method String of a hotkey.
use automationfleet.Base.{
  ℕ, ◌+◌, ◌-◌, Bool, ◌&&◌, List, [], ◌∷◌, ◌++◌, leb, if◌then◌else◌, codes, join, numeral,
}
use automationfleet.Hotkey.{
  Hotkey, mod_alt, mod_ctrl, mod_shift, mod_win, key_a, key_z, key_f1, key_f12, has_mod,
}

-- A name, if the modifier is set.
abbrev named : Bool → List ℕ → List (List ℕ)
named b name = if b then name ∷ [] else []

unfoldable pub key_name : ℕ → List ℕ
unfolding numeral
key_name key =
    if leb key_a key && leb key key_z
    then (b'A' + (key - key_a)) ∷ []
    else if leb key_f1 key && leb key key_f12
    then b'F' ∷ numeral 10 2 (key - key_f1 + 1)
    else codes "VK_0x" ++ numeral 16 8 key

unfoldable pub to_text : Hotkey → List ℕ
unfolding has_mod key_name join
to_text h = join b'+' (
    named (has_mod h.mods mod_ctrl) (codes "Ctrl")
    ++ named (has_mod h.mods mod_alt) (codes "Alt")
    ++ named (has_mod h.mods mod_shift) (codes "Shift")
    ++ named (has_mod h.mods mod_win) (codes "Win")
    ++ key_name h.key ∷ [])

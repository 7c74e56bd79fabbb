-- ===== src/Hotkey.antt =====
-- hotkey.go: key combinations as bit masks of modifiers and virtual key codes.
pub mod Listener
pub mod Parse
pub mod Print
pub mod RoundTrip
mod Keys
use automationfleet.Base.{ℕ, ◌+◌, ◌/◌, ◌%◌, Bool, ◌==◌, if◌then◌else◌}

abbrev pub mod_alt : ℕ
mod_alt = 1

abbrev pub mod_ctrl : ℕ
mod_ctrl = 2

abbrev pub mod_shift : ℕ
mod_shift = 4

abbrev pub mod_win : ℕ
mod_win = 8

-- The letters from A to Z and the function keys from F1 to F12 have consecutive codes.
abbrev pub key_a : ℕ
key_a = 65

abbrev pub key_z : ℕ
key_z = 90

abbrev pub key_s : ℕ
key_s = 83

abbrev pub key_f1 : ℕ
key_f1 = 112

abbrev pub key_f10 : ℕ
key_f10 = 121

abbrev pub key_f11 : ℕ
key_f11 = 122

abbrev pub key_f12 : ℕ
key_f12 = 123

-- `mods & m != 0` and `mods | m`, where `m` is one of the four bits.
unfoldable pub has_mod : ℕ → ℕ → Bool
has_mod mods m = (mods / m) % 2 == 1

unfoldable pub or_mod : ℕ → ℕ → ℕ
unfolding has_mod
or_mod mods m = if has_mod mods m then mods else mods + m

-- The modifiers of `mods` are OR-ed.
pub record Hotkey : Type 0 where
  pub mods : ℕ
  pub key : ℕ

-- Ctrl+Alt+Shift+S; no two of the modifiers share a bit, so their OR is 7.
abbrev pub default_stop_hotkey : Hotkey
default_stop_hotkey = record { mods = 7; key = key_s }

-- ===== src/Hotkey/Keys.antt =====
-- hotkey.go: the constants of the keys, and what String and ParseHotkey make of each.
use automationfleet.Base.{ℕ, String, ◌≡◌, refl, some, List, [], ◌∷◌, map, codes}
use automationfleet.Hotkey.Print.{key_name}
use automationfleet.Hotkey.Parse.{primary_key}

-- The constants KeyA to KeyZ and KeyF1 to KeyF12, by what follows `Key` in their names.
abbrev pub keys : List (String × ℕ)
keys =
    ("A", 0x41)
    ∷ ("B", 0x42)
    ∷ ("C", 0x43)
    ∷ ("D", 0x44)
    ∷ ("E", 0x45)
    ∷ ("F", 0x46)
    ∷ ("G", 0x47)
    ∷ ("H", 0x48)
    ∷ ("I", 0x49)
    ∷ ("J", 0x4a)
    ∷ ("K", 0x4b)
    ∷ ("L", 0x4c)
    ∷ ("M", 0x4d)
    ∷ ("N", 0x4e)
    ∷ ("O", 0x4f)
    ∷ ("P", 0x50)
    ∷ ("Q", 0x51)
    ∷ ("R", 0x52)
    ∷ ("S", 0x53)
    ∷ ("T", 0x54)
    ∷ ("U", 0x55)
    ∷ ("V", 0x56)
    ∷ ("W", 0x57)
    ∷ ("X", 0x58)
    ∷ ("Y", 0x59)
    ∷ ("Z", 0x5a)
    ∷ ("F1", 0x70)
    ∷ ("F2", 0x71)
    ∷ ("F3", 0x72)
    ∷ ("F4", 0x73)
    ∷ ("F5", 0x74)
    ∷ ("F6", 0x75)
    ∷ ("F7", 0x76)
    ∷ ("F8", 0x77)
    ∷ ("F9", 0x78)
    ∷ ("F10", 0x79)
    ∷ ("F11", 0x7a)
    ∷ ("F12", 0x7b)
    ∷ []

-- String writes the name of each.
keys_print : map (λ (name, key). key_name key) keys ≡ map (λ (name, key). codes name) keys
unfolding key_name
keys_print = refl

-- ParseHotkey reads each back.
keys_parse : map (λ (name, key). primary_key (codes name)) keys ≡ map (λ (name, key). some key) keys
unfolding primary_key
keys_parse = refl

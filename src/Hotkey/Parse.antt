-- ===== src/Hotkey/Parse.antt =====
-- hotkey.go: ParseHotkey.
use automationfleet.Base.{
  ℕ, suc, ◌+◌, ◌-◌, ◌&&◌, ◌||◌, Option, none, some, ◌>>=◌, List, [], ◌∷◌, map, ℤ, pos, leb, ◌==◌,
  ltb_ℤ, if◌then◌else◌, length, codes, eq_codes, split, trim, lower, upper, atoi, pos_part,
}
use automationfleet.Errors.{GoError, errorf, text, int}
use automationfleet.Hotkey.{Hotkey, mod_alt, mod_ctrl, mod_shift, mod_win, key_f1, or_mod}

-- The modifier that a token names, in lower case.
unfoldable pub modifier : List ℕ → Option ℕ
modifier low =
    if eq_codes low (codes "ctrl") || eq_codes low (codes "control")
    then some mod_ctrl
    else if eq_codes low (codes "alt")
    then some mod_alt
    else if eq_codes low (codes "shift")
    then some mod_shift
    else if eq_codes low (codes "win")
        || eq_codes low (codes "super")
        || eq_codes low (codes "meta")
    then some mod_win
    else none

-- The key of a token of one byte, a letter.
unfoldable pub letter_key : List ℕ → Option ℕ
unfolding upper
letter_key (c ∷ []) = if leb b'A' (upper c) && leb (upper c) b'Z' then some (upper c) else none
letter_key _ = none

-- The key of a token in lower case, f1 to f12.
abbrev in_range : ℤ → Option ℕ
in_range n = if ltb_ℤ n (pos 1) || ltb_ℤ (pos 12) n then none else some (key_f1 + (pos_part n - 1))

unfoldable pub function_key : List ℕ → Option ℕ
unfolding atoi
function_key [] = none
function_key (c ∷ []) = none
function_key (c ∷ d ∷ s) = if c == b'f' then atoi (d ∷ s) >>= in_range else none

abbrev or_else : Option ℕ → Option ℕ → Option ℕ
or_else none y = y
or_else (some x) y = some x

unfoldable pub primary_key : List ℕ → Option ℕ
unfolding letter_key function_key lower
primary_key tok = or_else (letter_key tok) (function_key (map lower tok))

-- The loop over the tokens from the one at `i` on, with the hotkey so far.
unfoldable pub parse_tokens : ℕ → List (List ℕ) → Hotkey → Option GoError × Hotkey
unfolding trim lower modifier primary_key or_mod
parse_tokens i [] out = (none, out)
parse_tokens i (raw ∷ tokens) out =
    let tok = trim raw in
    if length tok == 0
    then (some (errorf "hotkey: empty token at position %d" (int (pos i) ∷ [])), out)
    else elim (modifier (map lower tok)) [
      | some m ↦ parse_tokens (suc i) tokens (record out { mods = or_mod out.mods m })
      | none ↦ elim (primary_key tok) [
        | some k ↦ parse_tokens (suc i) tokens (record out { key = k })
        | none ↦ (some (errorf "hotkey: unknown token %q" (text tok ∷ [])), out)
      ]
    ]

-- What follows the loop.
abbrev pub check_hotkey : List ℕ → Option GoError × Hotkey → Option GoError × Hotkey
check_hotkey s (some err, out) = (some err, out)
check_hotkey s (none, out) =
    if out.key == 0
    then (some (errorf "hotkey: missing primary key in %q" (text s ∷ [])), out)
    else if out.mods == 0
    then (some (errorf "hotkey: at least one modifier required in %q" (text s ∷ [])), out)
    else (none, out)

unfoldable pub parse_hotkey : List ℕ → Option GoError × Hotkey
unfolding split parse_tokens
parse_hotkey s =
    let out : Hotkey = record { mods = 0; key = 0 } in
    let tokens = split b'+' s in
    if length tokens == 0
    then (some (errorf "hotkey: empty string" []), out)
    else check_hotkey s (parse_tokens 0 tokens out)

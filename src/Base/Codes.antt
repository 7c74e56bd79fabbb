-- ===== src/Base/Codes.antt =====
-- Texts that the code takes apart, as lists of code points, and what the packages strings, strconv
-- and fmt do with them. The text is valid UTF-8.
use Prim.Native.Char.{code}
use Prim.Native.Nat.{ℕ, zero, suc, ◌+◌, ◌-◌, ◌*◌, ◌/◌, ◌%◌}
use Prim.Native.String.{String}
use mathlib.Core.Bool.{Bool, true, false, ◌&&◌, ◌||◌}
use mathlib.Core.List.{List, [], ◌∷◌, ◌++◌, reverse}
use mathlib.Core.Option.{Option, none, some}
use automationfleet.Base.Tests.{ltb, leb, ◌==◌, if◌then◌else◌}
use automationfleet.Base.Ints.{ℤ, pos, negsuc}

-- The code points of a text.
abbrev pub codes : String → List ℕ
codes String.[] = []
codes (String.◌∷◌ c s) = code c ∷ codes s

abbrev pub eq_codes : List ℕ → List ℕ → Bool
eq_codes [] [] = true
eq_codes [] (d ∷ t) = false
eq_codes (c ∷ s) [] = false
eq_codes (c ∷ s) (d ∷ t) = c == d && eq_codes s t

-- strings.Split at one character: there is at least one part.
abbrev pub add_to_first : ℕ → List (List ℕ) → List (List ℕ)
add_to_first c [] = (c ∷ []) ∷ []
add_to_first c (part ∷ parts) = (c ∷ part) ∷ parts

unfoldable pub split : ℕ → List ℕ → List (List ℕ)
split sep [] = [] ∷ []
split sep (c ∷ s) = let rest = split sep s in if c == sep then [] ∷ rest else add_to_first c rest

-- strings.Join with one character.
unfoldable pub join : ℕ → List (List ℕ) → List ℕ
join sep [] = []
join sep (part ∷ []) = part
join sep (part ∷ next ∷ parts) = part ++ sep ∷ join sep (next ∷ parts)

-- unicode.IsSpace
unfoldable pub is_space : ℕ → Bool
is_space c =
    (leb 9 c && leb c 13)
    || c == 32
    || c == 133
    || c == 160
    || c == 5760
    || (leb 8192 c && leb c 8202)
    || c == 8232
    || c == 8233
    || c == 8239
    || c == 8287
    || c == 12288

unfoldable pub trim_left : List ℕ → List ℕ
unfolding is_space
trim_left [] = []
trim_left (c ∷ s) = let rest = trim_left s in if is_space c then rest else c ∷ s

-- strings.TrimSpace
unfoldable pub trim : List ℕ → List ℕ
unfolding trim_left
trim s = reverse (trim_left (reverse (trim_left s)))

-- unicode.ToLower, as far as its values are ASCII; of all else it makes no ASCII character, and the
-- code compares the text with ASCII only. The two that are not ASCII are the capital I with a dot
-- and the sign of the kelvin.
unfoldable pub lower : ℕ → ℕ
lower c =
    if leb b'A' c && leb c b'Z'
    then c + 32
    else if c == 304
    then b'i'
    else if c == 8490
    then b'k'
    else c

-- unicode.ToUpper of an ASCII character.
unfoldable pub upper : ℕ → ℕ
upper c = if leb b'a' c && leb c b'z' then c - 32 else c

-- The value of decimal digits, after those of which the value is `n`.
abbrev digits_value : ℕ → List ℕ → Option ℕ
digits_value n [] = some n
digits_value n (c ∷ s) =
    let rest = digits_value (10 * n + (c - b'0')) s in
    if leb b'0' c && leb c b'9' then rest else none

abbrev unsigned : List ℕ → Option ℕ
unsigned [] = none
unsigned (c ∷ s) = digits_value 0 (c ∷ s)

abbrev negate : ℕ → ℤ
negate zero = pos 0
negate (suc n) = negsuc n

abbrev signed : (ℕ → ℤ) → Option ℕ → Option ℤ
signed f none = none
signed f (some n) = some (f n)

-- strconv.Atoi; none is an error. Of a number that is no int Go makes an error.
unfoldable pub atoi : List ℕ → Option ℤ
atoi [] = none
atoi (c ∷ s) =
    if c == b'-'
    then signed negate (unsigned s)
    else if c == b'+'
    then signed pos (unsigned s)
    else signed pos (unsigned (c ∷ s))

-- A digit as %d and %X write it.
abbrev digit : ℕ → ℕ
digit d = if ltb d 10 then b'0' + d else b'A' + (d - 10)

-- A number of at most `k` digits.
unfoldable pub numeral : ℕ → ℕ → ℕ → List ℕ
numeral base zero n = []
numeral base (suc k) n =
    let front = numeral base k (n / base) in
    if ltb n base then digit n ∷ [] else front ++ digit (n % base) ∷ []

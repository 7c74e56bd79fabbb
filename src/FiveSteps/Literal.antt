-- ===== src/FiveSteps/Literal.antt =====
-- examples/five_browser_steps/main.go: jsString, on code points.
use mathlib.Core.List.{append_assoc}
use automationfleet.Base.{
  ℕ, ◌≡◌, refl, ap, Bool, true, false, ◌||◌, Option, none, some, ◌>>=◌, List, [], ◌∷◌, ◌++◌, arith,
  ◌==◌, if◌then◌else◌, Bool-cases, inl, inr,
}

abbrev pub quote : ℕ
quote = b'\''

abbrev pub backslash : ℕ
backslash = b'\\'

-- What the replacer makes of a character.
abbrev escaped : ℕ → List ℕ
escaped c = if c == backslash || c == quote then backslash ∷ c ∷ [] else c ∷ []

escape : List ℕ → List ℕ
escape [] = []
escape (c ∷ s) = escaped c ++ escape s

unfoldable pub js_string : List ℕ → List ℕ
unfolding escape
js_string s = quote ∷ (escape s ++ quote ∷ [])

-- A JavaScript string literal in single quotes, after its opening quote: the value and the rest.
-- There is none if it holds a line break, or does not end; of the escapes only those of the quote
-- and the backslash are read.
abbrev pub breaks : ℕ → Bool
breaks c = c == 10 || c == 13

-- The flag says that a backslash came just before.
pub read_literal : Bool → List ℕ → Option (List ℕ × List ℕ)
read_literal b [] = none
read_literal true (c ∷ s) =
    let after = read_literal false s >>= λ (v, rest). some (c ∷ v, rest) in
    if c == backslash || c == quote then after else none
read_literal false (c ∷ s) =
    let escapes = read_literal true s in
    let plain = read_literal false s >>= λ (v, rest). some (c ∷ v, rest) in
    if c == quote
    then some ([], s)
    else if c == backslash
    then escapes
    else if breaks c
    then none
    else plain

abbrev pub HasNoBreak : List ℕ → Type 0
HasNoBreak [] = Unit {0}
HasNoBreak (c ∷ s) = (breaks c ≡ false) × HasNoBreak s

read_literal-escape :
    (s rest : List ℕ)
    → HasNoBreak s
    → read_literal false (escape s ++ quote ∷ rest) ≡ some (s, rest)
unfolding read_literal escape
read_literal-escape [] rest h = refl
read_literal-escape (c ∷ s) rest (whole, h) =
    let ih = read_literal-escape s rest h in
    elim (Bool-cases (c == backslash || c == quote)) [
      | inl special ↦ rw special (rw special (rw ih refl))
      | inr plain ↦ rw plain (ground (arith, ih))
    ]

-- The literal that jsString writes of a text without line breaks stands for that text, whatever
-- follows it.
pub read_literal-js_string :
    (s rest : List ℕ)
    → HasNoBreak s
    → (t : List ℕ) × (js_string s ++ rest ≡ quote ∷ t) × (read_literal false t ≡ some (s, rest))
unfolding js_string
read_literal-js_string s rest h = (
  escape s ++ quote ∷ rest,
  ap (◌∷◌ quote) (append_assoc (escape s) (quote ∷ []) rest),
  read_literal-escape s rest h,
)

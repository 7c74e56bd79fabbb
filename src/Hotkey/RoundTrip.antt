-- ===== src/Hotkey/RoundTrip.antt =====
-- What String writes, against what ParseHotkey reads.
use automationfleet.Base.{
  ℕ, zero, suc, ◌≤◌, ◌<◌, ◌+◌, ◌≡◌, refl, Bool, true, false, ◌&&◌, arith, ◌==◌, Option, none, some,
  List, [], ◌∷◌, ◌-◌, ◌⊎◌, ◌↔◌, ◌∙◌, inl, inr, Bool-cases, Option-cases, length, map, trim, lower,
  upper, atoi, split, pos, negsuc,
}
use automationfleet.Errors.{GoError}
use automationfleet.Hotkey.{Hotkey, key_a, key_z, key_f1, key_f12, has_mod, or_mod}
use automationfleet.Hotkey.Parse.{
  modifier, letter_key, function_key, primary_key, parse_tokens, check_hotkey, parse_hotkey,
}
use automationfleet.Hotkey.Print.{to_text}

-- The code of a key that has a name.
abbrev pub IsNamed : ℕ → Type 0
IsNamed k = ((key_a ≤ k) × (k ≤ key_z)) ⊎ ((key_f1 ≤ k) × (k ≤ key_f12))

-- At least one of the four modifiers and no other bit, and a key that has a name.
abbrev pub IsUsable : Hotkey → Type 0
IsUsable h = (0 < h.mods) × (h.mods < 16) × IsNamed h.key

-- Every number below `n` passes the test.
all_below : ℕ → (ℕ → Bool) → Bool
all_below zero p = true
all_below (suc n) p = p n && all_below n p

-- Whether the text of a hotkey is read back.
is_read_back : Hotkey → Option GoError × Hotkey → Bool
is_read_back h (some e, g) = false
is_read_back h (none, g) = g.mods == h.mods && g.key == h.key

all_below-apply : (n : ℕ) (p : ℕ → Bool) → all_below n p ≡ true → (i : ℕ) → i < n → p i ≡ true
unfolding all_below
all_below-apply zero p h i less = absurd (omega arith)
all_below-apply (suc n) p h i less = elim (Bool-cases (i == n)) [
  | inl last ↦ let e : i ≡ n = ground arith in rw e (ground arith)
  | inr before ↦ all_below-apply n p (ground arith) i (ground arith)
]

-- With each set of modifiers the `n` keys from `first` on are read back.
abbrev reads_back : ℕ → ℕ → Bool
reads_back n first = all_below 15 (λ m. all_below n (λ k.
    let h : Hotkey = record { mods = m + 1; key = k + first } in
    is_read_back h (parse_hotkey (to_text h))))

letters : reads_back 26 key_a ≡ true
unfolding all_below is_read_back parse_hotkey to_text
letters = refl

function_keys : reads_back 12 key_f1 ≡ true
unfolding all_below is_read_back parse_hotkey to_text
function_keys = refl

read_back-eq : (h : Hotkey) (r : Option GoError × Hotkey) → is_read_back h r ≡ true → r ≡ (none, h)
unfolding is_read_back
read_back-eq h (some e, g) t = absurd (ground arith)
read_back-eq h (none, g) t =
    let same_mods : g.mods ≡ h.mods = ground arith in
    let same_key : g.key ≡ h.key = ground arith in cc (same_mods, same_key)

reads_back-apply :
    (n first : ℕ) (h : Hotkey)
    → reads_back n first ≡ true
    → 0 < h.mods
    → h.mods < 16
    → first ≤ h.key
    → h.key < first + n
    → parse_hotkey (to_text h) ≡ (none, h)
reads_back-apply n first h t some_mod few above below =
    let row = all_below-apply 15 _ t (h.mods - 1) (omega arith) in
    let entry = all_below-apply n _ row (h.key - first) (omega arith) in
    let m : h.mods - 1 + 1 ≡ h.mods = omega arith in
    let k : h.key - first + first ≡ h.key = omega arith in read_back-eq h _ (rw (m, k) at entry)

IsUsable-reads_back : (h : Hotkey) → IsUsable h → parse_hotkey (to_text h) ≡ (none, h)
IsUsable-reads_back h (some_mod, few, inl (above, below)) =
    reads_back-apply 26 key_a h letters some_mod few above (omega arith)
IsUsable-reads_back h (some_mod, few, inr (above, below)) =
    reads_back-apply 12 key_f1 h function_keys some_mod few above (omega arith)

-- What the loop over the tokens keeps.
abbrev IsPartial : Hotkey → Type 0
IsPartial h = (h.mods < 16) × ((h.key ≡ 0) ⊎ IsNamed h.key)

abbrev IsModifier : ℕ → Type 0
IsModifier m = (m ≡ 1) ⊎ (m ≡ 2) ⊎ (m ≡ 4) ⊎ (m ≡ 8)

modifier-IsModifier : (low : List ℕ) (m : ℕ) → modifier low ≡ some m → IsModifier m
unfolding modifier
modifier-IsModifier low m e = ground arith

or_mod-less : (mods m : ℕ) → mods < 16 → IsModifier m → or_mod mods m < 16
unfolding or_mod has_mod
or_mod-less mods m few (inl e) = rw e (ground arith)
or_mod-less mods m few (inr (inl e)) = rw e (ground arith)
or_mod-less mods m few (inr (inr (inl e))) = rw e (ground arith)
or_mod-less mods m few (inr (inr (inr e))) = rw e (ground arith)

letter_key-IsNamed : (tok : List ℕ) (k : ℕ) → letter_key tok ≡ some k → IsNamed k
unfolding letter_key upper
letter_key-IsNamed [] k e = absurd (ground arith)
letter_key-IsNamed (c ∷ []) k e = ground arith
letter_key-IsNamed (c ∷ d ∷ s) k e = absurd (ground arith)

function_key-IsNamed : (low : List ℕ) (k : ℕ) → function_key low ≡ some k → IsNamed k
unfolding function_key
function_key-IsNamed [] k e = absurd (ground arith)
function_key-IsNamed (c ∷ []) k e = absurd (ground arith)
function_key-IsNamed (c ∷ d ∷ s) k e = elim (Option-cases (atoi (d ∷ s))) [
  | inl n ↦ absurd (ground arith)
  | inr (pos n, e') ↦ ground arith
  | inr (negsuc n, e') ↦ absurd (ground arith)
]

primary_key-IsNamed : (tok : List ℕ) (k : ℕ) → primary_key tok ≡ some k → IsNamed k
unfolding primary_key
primary_key-IsNamed tok k e = elim (Option-cases (letter_key tok)) [
  | inl no_letter ↦ function_key-IsNamed (map lower tok) k (rw (no_letter, primary_key) at e)
  | inr (c, letter) ↦ letter_key-IsNamed tok k (letter ∙ (rw (letter, primary_key) at e))
]

-- What holds of the hotkey if there is no error.
abbrev OnSuccess : (Hotkey → Type 0) → Option GoError × Hotkey → Type 0
OnSuccess P (some e, h) = Unit
OnSuccess P (none, h) = P h

parse_tokens-IsPartial :
    (i : ℕ) (tokens : List (List ℕ)) (out : Hotkey)
    → IsPartial out
    → OnSuccess IsPartial (parse_tokens i tokens out)
unfolding parse_tokens
parse_tokens-IsPartial i [] out p = p
parse_tokens-IsPartial i (raw ∷ tokens) out (few, key) =
    elim (Bool-cases (length (trim raw) == 0)) [
      | inl empty ↦ rw empty tt
      | inr more ↦ elim (Option-cases (modifier (map lower (trim raw)))) [
        | inr (m, e) ↦
            rw (more, e)
              (parse_tokens-IsPartial (suc i) tokens _
                (or_mod-less out.mods m few (modifier-IsModifier (map lower (trim raw)) m e), key))
        | inl no_modifier ↦ elim (Option-cases (primary_key (trim raw))) [
          | inr (k, e) ↦
              rw (more, no_modifier, e)
                (parse_tokens-IsPartial (suc i) tokens _
                  (few, inr (primary_key-IsNamed (trim raw) k e)))
          | inl unknown ↦ rw (more, no_modifier, unknown) tt
        ]
      ]
    ]

check_hotkey-IsUsable :
    (s : List ℕ) (r : Option GoError × Hotkey)
    → OnSuccess IsPartial r
    → OnSuccess IsUsable (check_hotkey s r)
check_hotkey-IsUsable s (some e, h) p = tt
check_hotkey-IsUsable s (none, h) (few, key) = elim (Bool-cases (h.key == 0)) [
  | inl missing ↦ rw missing tt
  | inr keyed ↦ elim (Bool-cases (h.mods == 0)) [
    | inl bare ↦ rw (keyed, bare) tt
    | inr modified ↦ rw (keyed, modified) (ground arith)
  ]
]

parse_hotkey-IsUsable : (s : List ℕ) → OnSuccess IsUsable (parse_hotkey s)
unfolding parse_hotkey
parse_hotkey-IsUsable s = elim (Bool-cases (length (split b'+' s) == 0)) [
  | inl empty ↦ rw empty tt
  | inr more ↦
      let out : Hotkey = record { mods = 0; key = 0 } in
      let p = parse_tokens-IsPartial 0 (split b'+' s) out (omega arith, inl refl) in
      rw more (check_hotkey-IsUsable s (parse_tokens 0 (split b'+' s) out) p)
]

accepted-IsUsable : (s : List ℕ) (h : Hotkey) → parse_hotkey s ≡ (none, h) → IsUsable h
accepted-IsUsable s h e = rw e at (parse_hotkey-IsUsable s)

-- ParseHotkey accepts some text as a hotkey exactly when the hotkey has at least one of the four
-- modifiers, no other bit, and a key that has a name; and these are the hotkeys for which it reads
-- back the text that String writes.
pub parse_hotkey-to_text :
    (h : Hotkey)
    → (((s : List ℕ) × (parse_hotkey s ≡ (none, h))) ↔ IsUsable h)
      × ((parse_hotkey (to_text h) ≡ (none, h)) ↔ IsUsable h)
parse_hotkey-to_text h = (
  (λ (s, e). accepted-IsUsable s h e, λ u. (to_text h, IsUsable-reads_back h u)),
  (accepted-IsUsable (to_text h) h, IsUsable-reads_back h),
)

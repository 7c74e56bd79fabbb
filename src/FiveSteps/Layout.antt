-- ===== src/FiveSteps/Layout.antt =====
-- examples/five_browser_steps/main.go: the browsers of the example, their ports and windows.
use Prim.Native.String.{◌++◌}
use automationfleet.Base.{
  ℕ, zero, suc, ◌+◌, ◌*◌, ◌/◌, ◌%◌, ◌<◌, ◌≡◌, ◌≢◌, ◌∙◌, ap, String, some, List, [], ◌∷◌, arith,
  get_elem?,
}
use automationfleet.FiveSteps.{itoa}

abbrev browsers : ℕ
browsers = 5

abbrev cell_w : ℕ
cell_w = 640

abbrev cell_h : ℕ
cell_h = 360

abbrev cols : ℕ
cols = 3

pub record Spec : Type 0 where
  pub id : String
  pub port : ℕ
  pub x : ℕ
  pub y : ℕ

unfoldable pub spec_at : ℕ → Spec
spec_at i = record {
  id = "b" ++ itoa (i + 1);
  port = 9222 + i;
  x = i % cols * cell_w;
  y = i / cols * cell_h;
}

specs_from : ℕ → ℕ → List Spec
specs_from zero i = []
specs_from (suc n) i = spec_at i ∷ specs_from n (suc i)

unfoldable pub specs : List Spec
unfolding specs_from
specs = specs_from browsers 0

-- The arguments of the Chrome of a browser.
unfoldable pub chrome_args : Spec → String → List String
unfolding itoa
chrome_args s profile =
    ("--remote-debugging-port=" ++ itoa s.port)
    ∷ ("--user-data-dir=" ++ profile)
    ∷ "--no-first-run"
    ∷ "--no-default-browser-check"
    ∷ "--disable-features=Translate,OptimizationHints"
    ∷ ("--window-position=" ++ itoa s.x ++ "," ++ itoa s.y)
    ∷ ("--window-size=" ++ itoa cell_w ++ "," ++ itoa cell_h)
    ∷ "about:blank"
    ∷ []

-- The windows share a pixel.
abbrev pub Overlap : Spec → Spec → Type 0
Overlap s t =
    (s.x < t.x + cell_w) × (t.x < s.x + cell_w) × (s.y < t.y + cell_h) × (t.y < s.y + cell_h)

specs_from-at : (n i k : ℕ) (s : Spec) → get_elem? (specs_from n i) k ≡ some s → s ≡ spec_at (i + k)
unfolding specs_from
specs_from-at zero i k s e = absurd (ground arith)
specs_from-at (suc n) i zero s e = ground arith
specs_from-at (suc n) i (suc k) s e = specs_from-at n (suc i) k s e ∙ ap spec_at (omega arith)

-- Two browsers of the example have different ports, and windows that share no pixel.
pub specs_apart :
    (i j : ℕ) (s t : Spec)
    → get_elem? specs i ≡ some s
    → get_elem? specs j ≡ some t
    → i ≢ j
    → (s.port ≢ t.port) × (¬ Overlap s t)
unfolding specs spec_at
specs_apart i j s t at_i at_j apart =
    let e = specs_from-at browsers 0 i s at_i in
    let e' = specs_from-at browsers 0 j t at_j in
    (λ p. apart (ground arith), λ o. apart (ground arith))

-- ===== src/Critical/Click.antt =====
-- The drift guard: a click happens only where the cursor was last seen.
use mathlib.Core.Path.{subst}
use automationfleet.Base.{
  ◌≡◌, ◌↔◌, ◌⊎◌, inl, inr, refl, sym, ◌∙◌, ap, Bool, true, false, ◌||◌, none, some, ◌∷◌, arith, ℤ,
  pos, negsuc, ltb_ℤ, ◌-ℤ◌, ◌+ℤ◌, Option-cases, Bool-cases,
}
use automationfleet.Errors.{error_is, err_cursor_drift}
use automationfleet.Action.{Float64}
use automationfleet.Driver.{BrowserHandle}
use automationfleet.Config.{Config}
use automationfleet.Critical.{
  World, Trace, Answer, Outcome, context_err, content_offset, get_cursor_pos, move_to, click_at,
  has_drifted, click_then, done, attempt, expected_x, expected_y, is_far,
}

-- Two coordinates, at most so many pixels apart, in the one direction and in the other.
abbrev pub IsNear : ℤ → ℤ → ℤ → Type 0
IsNear threshold got wanted =
    (ltb_ℤ threshold (got -ℤ wanted) ≡ false) × (ltb_ℤ threshold (wanted -ℤ got) ≡ false)

is_far-IsNear :
    (cfg : Config) (got wanted : ℤ)
    → (is_far cfg got wanted ≡ false) ↔ IsNear cfg.drift_threshold got wanted
unfolding ◌-ℤ◌
is_far-IsNear cfg got wanted = ground arith

-- The offset of the page's content in the window, nothing if it is not known.
abbrev pub shift : Answer → ℤ × ℤ
shift offset = elim offset.err [ none ↦ offset.ints | some e ↦ (pos 0, pos 0) ]

-- Where the point (x, y) of the page is on the screen, when ContentOffset is asked after the trace.
abbrev pub target : World → BrowserHandle → Float64 → Float64 → Trace → ℤ × ℤ
target w h x y t =
    let s : ℤ × ℤ = shift (w.answer t content_offset) in
    (h.x +ℤ w.round_scaled x h.scale +ℤ s.0, h.y +ℤ w.round_scaled y h.scale +ℤ s.1)

-- The cursor as it is read after the trace, near the point in both coordinates.
abbrev pub IsThere : World → Config → BrowserHandle → Float64 → Float64 → Trace → Type 0
IsThere w cfg h x y t =
    let got : Answer = w.answer (content_offset ∷ t) get_cursor_pos in
    IsNear cfg.drift_threshold got.ints.0 (target w h x y t).0
    × IsNear cfg.drift_threshold got.ints.1 (target w h x y t).1

-- Whether the cursor can be read.
abbrev pub is_readable : World → Trace → Bool
is_readable w t = elim (w.answer (content_offset ∷ t) get_cursor_pos).err [
  | none ↦ true
  | some e ↦ false
]

plus_zero : (a : ℤ) → a +ℤ pos 0 ≡ a
unfolding ◌+ℤ◌
plus_zero (pos n) = ground arith
plus_zero (negsuc n) = ground arith

target-expected :
    (w : World) (h : BrowserHandle) (x y : Float64) (t : Trace)
    → (expected_x w h (w.answer t content_offset) x ≡ (target w h x y t).0)
      × (expected_y w h (w.answer t content_offset) y ≡ (target w h x y t).1)
target-expected w h x y t = elim (Option-cases (w.answer t content_offset).err) [
  | inl ok ↦ ground arith
  | inr (e, bad) ↦ ground (
    arith,
    plus_zero (h.x +ℤ w.round_scaled x h.scale),
    plus_zero (h.y +ℤ w.round_scaled y h.scale),
  )
]

both_near :
    {P Q : Type 0} (a b : Bool) → (a ≡ false) ↔ P → (b ≡ false) ↔ Q → ((a || b) ≡ false) ↔ (P × Q)
both_near true b p q = (λ e. absurd (ground arith), λ both. absurd (ground (arith, p.1 both.0)))
both_near false b p q = (λ e. (p.0 refl, q.0 e), λ both. q.1 both.1)

-- Whether the guard sees a drift.
guard_cases :
    (w : World) (cfg : Config) (h : BrowserHandle) (x y : Float64) (t : Trace)
    → ((is_readable w t ≡ false) × (has_drifted w cfg h x y t ≡ false))
      ⊎ ((is_readable w t ≡ true) × ((has_drifted w cfg h x y t ≡ false) ↔ IsThere w cfg h x y t))
unfolding has_drifted
guard_cases w cfg h x y t =
    let offset : Answer = w.answer t content_offset in
    let got : Answer = w.answer (content_offset ∷ t) get_cursor_pos in
    let (same_x, same_y) = target-expected w h x y t in
    let near_x = is_far-IsNear cfg got.ints.0 (expected_x w h offset x) in
    let near_y = is_far-IsNear cfg got.ints.1 (expected_y w h offset y) in
    let far_x : Bool = is_far cfg got.ints.0 (expected_x w h offset x) in
    let far_y : Bool = is_far cfg got.ints.1 (expected_y w h offset y) in
    let near : ((far_x || far_y) ≡ false) ↔ IsThere w cfg h x y t =
      both_near far_x far_y
        (subst (λ z. (far_x ≡ false) ↔ IsNear cfg.drift_threshold got.ints.0 z) same_x near_x)
        (subst (λ z. (far_y ≡ false) ↔ IsNear cfg.drift_threshold got.ints.1 z) same_y near_y) in
    elim (Option-cases got.err) [
      | inl ok ↦
          let same : has_drifted w cfg h x y t ≡ (far_x || far_y) =
            ap (λ o. elim o [ some e ↦ false | none ↦ far_x || far_y ]) ok in
          let readable : is_readable w t ≡ true =
            ap (λ o. elim o [ none ↦ true | some e ↦ false ]) ok in
          inr (readable, (λ e. near.0 (sym same ∙ e), λ there. same ∙ near.1 there))
      | inr (e, bad) ↦
          let same : has_drifted w cfg h x y t ≡ false =
            ap (λ o. elim o [ some e' ↦ false | none ↦ far_x || far_y ]) bad in
          let unreadable : is_readable w t ≡ false =
            ap (λ o. elim o [ none ↦ true | some e' ↦ false ]) bad in
          inl (unreadable, same)
    ]

-- What a run of clickAt has made when it has read the cursor.
abbrev pub looked : Float64 → Float64 → Trace → Trace
looked x y t = get_cursor_pos ∷ content_offset ∷ move_to x y ∷ t

-- The move succeeds, and the cursor is read elsewhere.
abbrev pub Strays : World → Config → BrowserHandle → Float64 → Float64 → Trace → Type 0
Strays w cfg h x y t =
    ((w.answer t (move_to x y)).err ≡ none)
    × (is_readable w (move_to x y ∷ t) ≡ true)
    × (¬ IsThere w cfg h x y (move_to x y ∷ t))

-- clickAt ends with the drift error directly after reading the cursor, without a click and without
-- what its caller would do next, exactly when the move succeeds, and the cursor can be read and is
-- farther than the threshold from the point in one of its coordinates.
pub click_drifts_iff :
    (w : World) (cfg : Config) (h : BrowserHandle) (x y : Float64) (go_on : Trace → Outcome)
    (t : Trace)
    → ((error_is (click_then w cfg h x y done t).0 err_cursor_drift ≡ true)
        × ((click_then w cfg h x y done t).1 ≡ looked x y t)
        × (click_then w cfg h x y go_on t ≡ click_then w cfg h x y done t))
      ↔ Strays w cfg h x y t
unfolding click_then attempt
click_drifts_iff w cfg h x y go_on t = elim (guard_cases w cfg h x y (move_to x y ∷ t)) [
  | inl (dark, quiet) ↦ ground arith
  | inr (readable, near) ↦ elim (Bool-cases (has_drifted w cfg h x y (move_to x y ∷ t))) [
    | inl far ↦ ground arith
    | inr quiet ↦ ground arith
  ]
]

-- The move succeeds, the cursor is not seen elsewhere, the context is alive, and the click succeeds.
abbrev pub Clicks : World → Config → BrowserHandle → Float64 → Float64 → Trace → Type 0
Clicks w cfg h x y t =
    ((w.answer t (move_to x y)).err ≡ none)
    × ((is_readable w (move_to x y ∷ t) ≡ false) ⊎ IsThere w cfg h x y (move_to x y ∷ t))
    × ((w.answer (looked x y t) context_err).err ≡ none)
    × ((w.answer (context_err ∷ looked x y t) (click_at x y)).err ≡ none)

-- clickAt ends without an error exactly when the move succeeds, the cursor cannot be read or is
-- within the threshold of the point in both coordinates, the context is alive, and the click
-- succeeds; and exactly then it ends so with the click as the last thing it does.
pub click_succeeds_iff :
    (w : World) (cfg : Config) (h : BrowserHandle) (x y : Float64) (t : Trace)
    → (((click_then w cfg h x y done t).0 ≡ none) ↔ Clicks w cfg h x y t)
      × ((click_then w cfg h x y done t ≡ (none, click_at x y ∷ context_err ∷ looked x y t))
          ↔ Clicks w cfg h x y t)
unfolding click_then attempt
click_succeeds_iff w cfg h x y t = elim (guard_cases w cfg h x y (move_to x y ∷ t)) [
  | inl (dark, quiet) ↦ ground arith
  | inr (readable, near) ↦ elim (Bool-cases (has_drifted w cfg h x y (move_to x y ∷ t))) [
    | inl far ↦ ground arith
    | inr quiet ↦ ground arith
  ]
]

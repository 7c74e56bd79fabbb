-- ===== src/Driver/Accepted.antt =====
-- Which handles the validation accepts, and what it does to them.
use automationfleet.Base.{
  ◌≡◌, ◌≢◌, ◌↔◌, none, some, arith, str_eq_iff, Bool-cases, Option-cases, inl, inr,
}
use automationfleet.Driver.{BrowserHandle, Driver, validate, check_backend, is_native, with_scale}

-- A handle is accepted exactly when it has an id and a driver, and its flag `native` is what the
-- backend of the driver says.
pub validate_accepts_iff :
    (h : BrowserHandle)
    → ((validate (some h)).0 ≡ none) ↔ (
        (h.id ≢ "") × ((d : Driver) × (h.driver ≡ some d) × (is_native d.input_backend ≡ h.native)))
unfolding validate check_backend
validate_accepts_iff h = elim (Option-cases h.driver) [
  | inl n ↦ (λ e. absurd (ground (arith, str_eq_iff h.id "")), λ p. absurd (ground (arith, p.1.1)))
  | inr (d, o) ↦ elim (Bool-cases (is_native d.input_backend)) [
    | inl n ↦ (
      λ e. (λ same. absurd (ground (arith, str_eq_iff h.id "")), (d, o, ground arith)),
      λ p. ground (arith, p, str_eq_iff h.id ""),
    )
    | inr r ↦ (
      λ e. (λ same. absurd (ground (arith, str_eq_iff h.id "")), (d, o, ground arith)),
      λ p. ground (arith, p, str_eq_iff h.id ""),
    )
  ]
]

-- An accepted handle changes in its scale only, which is then above zero or a NaN.
pub validate_ok :
    (h : BrowserHandle) → (validate (some h)).0 ≡ none → (validate (some h)).1 ≡ some (with_scale h)
unfolding validate check_backend
validate_ok h e = ground arith

-- ===== src/Critical/Layout.antt =====
-- The keyboard layout: whatever fails, each switch of it is undone.
use automationfleet.Base.{
  ℕ, ◌+◌, ◌≡◌, refl, String, Bool, [], ◌∷◌, arith, Option-cases, inl, inr, if-intro,
}
use automationfleet.Errors.{GoError}
use automationfleet.Action.{
  Action, Float64, click_action, type_action, navigate_action, scroll_action, wait_action,
}
use automationfleet.Driver.{BrowserHandle}
use automationfleet.Config.{Config}
use automationfleet.Critical.{
  World, Trace, Outcome, Answer, Op, force_en_us_layout, restore_layout, attempt, click_then,
  type_text, perform, execute_critical, done, same, finally, restoring, has_drifted, current,
  content_offset, get_cursor_pos, type_human, settle, navigate, timeout_of,
}

-- The switches of the layout in a run, and the restorations.
unfoldable pub switches : Op → ℕ
switches force_en_us_layout = 1
switches _ = 0

unfoldable pub restores : Op → ℕ
restores (restore_layout l) = 1
restores _ = 0

pub forced : Trace → ℕ
forced [] = 0
forced (op ∷ t) = switches op + forced t

pub restored : Trace → ℕ
restored [] = 0
restored (op ∷ t) = restores op + restored t

-- Operations that have nothing to do with the layout.
abbrev pub IsPlain : Op → Type 0
IsPlain op = (switches op ≡ 0) × (restores op ≡ 0)

-- What holds of a run in which the layout is not switched, and in which no other operation matters.
module _ (P : Trace → Type 0) (keeps : (op : Op) (t : Trace) → IsPlain op → P t → P (op ∷ t)) where
  -- Not an abbreviation, so that the outcome can be read off a goal.
  pub record Leaves (o : Outcome) : Type 0 where
    pub holds : P o.1

  pub Leaves-attempt :
      (w : World) (op : Op) (wrap : GoError → GoError) (go_on : Answer → Trace → Outcome)
      (t : Trace)
      → IsPlain op
      → ((a : Answer) (t' : Trace) → P t' → Leaves (go_on a t'))
      → P t
      → Leaves (attempt w op wrap go_on t)
  unfolding attempt
  Leaves-attempt w op wrap go_on t p next b = elim (Option-cases (w.answer t op).err) [
    | inl ok ↦ rw (ok, attempt) (next (w.answer t op) (op ∷ t) (keeps op t p b))
    | inr (e, bad) ↦ rw (bad, attempt) (record { holds = keeps op t p b })
  ]

  Leaves-click_then :
      (w : World) (cfg : Config) (h : BrowserHandle) (x y : Float64) (go_on : Trace → Outcome)
      (t : Trace)
      → ((t' : Trace) → P t' → Leaves (go_on t'))
      → P t
      → Leaves (click_then w cfg h x y go_on t)
  unfolding click_then switches restores
  Leaves-click_then w cfg h x y go_on t next =
      Leaves-attempt w _ _ _ _ (refl, refl)
        (λ moved t' b.
          let read =
            keeps get_cursor_pos (content_offset ∷ t') (refl, refl)
              (keeps content_offset t' (refl, refl) b) in
          if-intro Leaves (has_drifted w cfg h x y t') (record { holds = read })
            (Leaves-attempt w _ _ _ _ (refl, refl)
              (λ alive t''. Leaves-attempt w _ _ _ _ (refl, refl) (λ clicked. next)) read))

  pub Leaves-finally :
      (w : World) (op : Op) (t : Trace) → IsPlain op → P t → Leaves (finally w op t)
  Leaves-finally w op t p =
      Leaves-attempt w op same (λ a. done) t p (λ a t' b. record { holds = b })

  Leaves-perform :
      (w : World) (cfg : Config) (h : BrowserHandle) (a : Action) (t : Trace)
      → ((text : String) (clear_first : Bool) (t' : Trace)
          → P t'
          → Leaves (type_text w text clear_first t'))
      → P t
      → Leaves (perform w cfg h a t)
  unfolding perform switches restores
  Leaves-perform w cfg h (navigate_action url timeout) t types =
      Leaves-finally w (navigate url (timeout_of cfg timeout)) t (refl, refl)
  Leaves-perform w cfg h (click_action selector button) t types =
      Leaves-attempt w _ _ _ _ (refl, refl)
        (λ alive t'.
          Leaves-attempt w _ _ _ _ (refl, refl)
            (λ at t''.
              Leaves-click_then w cfg h at.floats.0 at.floats.1 done t''
                (λ t3 b. record { holds = b })))
  Leaves-perform w cfg h (type_action selector text clear_first) t types =
      Leaves-attempt w _ _ _ _ (refl, refl)
        (λ alive t'.
          Leaves-attempt w _ _ _ _ (refl, refl)
            (λ at t''.
              Leaves-click_then w cfg h at.floats.0 at.floats.1 (type_text w text clear_first) t''
                (types text clear_first)))
  Leaves-perform w cfg h (scroll_action selector delta_y) t types = λ b. record { holds = b }
  Leaves-perform w cfg h (wait_action selector timeout) t types = λ b. record { holds = b }

  pub Leaves-execute_critical :
      (w : World) (cfg : Config) (h : BrowserHandle) (a : Action)
      → ((text : String) (clear_first : Bool) (t' : Trace)
          → P t'
          → Leaves (type_text w text clear_first t'))
      → P []
      → Leaves (execute_critical w cfg h a [])
  unfolding execute_critical switches restores
  Leaves-execute_critical w cfg h a types =
      Leaves-attempt w _ _ _ _ (refl, refl)
        (λ alive t.
          Leaves-attempt w _ _ _ _ (refl, refl)
            (λ focused t'.
              let seen = keeps current t' (refl, refl) in
              λ b.
                if-intro Leaves (w.answer t' current).live
                  (Leaves-perform w cfg h a (current ∷ t') types (seen b))
                  (record { holds = seen b })))

-- A run with `k` more switches than restorations.
abbrev pub Owing : ℕ → Trace → Type 0
Owing k t = forced t ≡ k + restored t

Owing-plain : (k : ℕ) (op : Op) (t : Trace) → IsPlain op → Owing k t → Owing k (op ∷ t)
unfolding forced restored
Owing-plain k op t p b = ground arith

Leaves-restoring :
    (layout : ℕ) (o : Outcome)
    → Leaves (Owing 1) (Owing-plain 1) o
    → Leaves (Owing 0) (Owing-plain 0) (restoring layout o)
unfolding forced restored switches restores
Leaves-restoring layout (e, t) b = record { holds = omega (arith, b.holds) }

Leaves-type_text :
    (w : World) (text : String) (clear_first : Bool) (t : Trace)
    → Owing 0 t
    → Leaves (Owing 0) (Owing-plain 0) (type_text w text clear_first t)
unfolding type_text switches restores forced restored
Leaves-type_text w text clear_first t b =
    let switched : Owing 1 (force_en_us_layout ∷ settle ∷ t) = omega (arith, b) in
    let leaves = Leaves (Owing 1) (Owing-plain 1) in
    Leaves-restoring _ _ (
      if-intro (λ (f : Trace → Outcome). leaves (f (force_en_us_layout ∷ settle ∷ t))) clear_first
        (Leaves-attempt (Owing 1) (Owing-plain 1) w _ _ _ _ (refl, refl)
          (λ a t'. Leaves-finally (Owing 1) (Owing-plain 1) w (type_human text) t' (refl, refl))
          switched)
        (Leaves-finally (Owing 1) (Owing-plain 1) w (type_human text) _ (refl, refl) switched))

-- Whatever the action, and whichever of its operations fail, executeCritical restores the keyboard
-- layout as often as it switches it.
pub execute_critical-restores :
    (w : World) (cfg : Config) (h : BrowserHandle) (a : Action)
    → forced (execute_critical w cfg h a []).1 ≡ restored (execute_critical w cfg h a []).1
unfolding forced restored
execute_critical-restores w cfg h a =
    let left =
      Leaves-execute_critical (Owing 0) (Owing-plain 0) w cfg h a (Leaves-type_text w)
        (omega arith) in
    omega (arith, left.holds)

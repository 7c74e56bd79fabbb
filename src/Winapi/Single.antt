-- ===== src/Winapi/Single.antt =====
-- How many mouse hooks there can be, and which callback they call.
use automationfleet.Base.{
  ℕ, ◌+◌, ◌≤◌, ◌≡◌, refl, sym, ◌∙◌, ap, Bool, true, Option, none, some, List, [], ◌∷◌, ◌++◌, ℤ, pos,
  arith, total, total-append, ltb_ℤ, if◌then◌else◌,
}
use automationfleet.Winapi.{is_real_mouse_move, mouse_proc}
use automationfleet.Winapi.Hook.{
  Session, launched, armed, pumping, leaving, closed, finished, HookState, unhooked, ◌⟶◌, installs,
  is_refused, arms, hooks, fails, unhooks, disarms, releases, Reach, here, next,
}

abbrev flag : Bool → ℕ
flag b = if b then 1 else 0

module _ {F : Type 0} where
  -- 1 for a session that is not finished.
  abbrev pub active : Session F → ℕ
  active finished = 0
  active _ = 1

  -- The callback that a session keeps in the variable of the package.
  abbrev held : Session F → Option F
  held (armed f) = some f
  held (pumping f) = some f
  held (leaving f) = some f
  held _ = none

  -- What the first of the active sessions holds.
  held_first : List (Session F) → Option F
  held_first [] = none
  held_first (finished ∷ xs) = held_first xs
  held_first (x ∷ xs) = held x

  held_first-at :
      (before after : List (Session F)) (x : Session F)
      → active x ≡ 1
      → total active (before ++ x ∷ after) ≤ 1
      → held_first (before ++ x ∷ after) ≡ held x
  unfolding held_first
  held_first-at [] after (launched f) a one = refl
  held_first-at [] after (armed f) a one = refl
  held_first-at [] after (pumping f) a one = refl
  held_first-at [] after (leaving f) a one = refl
  held_first-at [] after closed a one = refl
  held_first-at [] after finished a one = absurd (omega (arith, a))
  held_first-at (finished ∷ before) after x a one = held_first-at before after x a (omega arith)
  held_first-at (y ∷ before) after x a one =
      absurd (omega (arith, total-append active before (x ∷ after)))

  held_first-none : (xs : List (Session F)) → total active xs ≡ 0 → held_first xs ≡ none
  unfolding held_first
  held_first-none [] z = refl
  held_first-none (finished ∷ xs) z = held_first-none xs (omega arith)
  held_first-none (x ∷ xs) z = absurd (omega arith)

  -- The flag counts the active sessions, and the variable is what the active one holds.
  record Inv (s : HookState F) : Type 0 where
    counted : total active s.sessions ≡ flag s.hook_installed
    owned : s.real_move_callback ≡ held_first s.sessions

  -- A session that stays active moves on.
  move-Inv :
      (s t : HookState F) (before after : List (Session F)) (x y : Session F)
      → Inv s
      → s.sessions ≡ before ++ x ∷ after
      → t.sessions ≡ before ++ y ∷ after
      → t.hook_installed ≡ s.hook_installed
      → active x ≡ 1
      → active y ≡ 1
      → t.real_move_callback ≡ held y
      → Inv t
  move-Inv s t before after x y v e e' i ax ay c =
      let before_ = total-append active before (x ∷ after) in
      let after_ = total-append active before (y ∷ after) in
      let one : total active (before ++ y ∷ after) ≤ 1 =
        ground (arith, v.counted, ap (total active) e, before_, after_) in
      record {
        counted =
            ground
              (arith, v.counted, i, ap (total active) e, ap (total active) e', before_, after_);
        owned = c ∙ sym (held_first-at before after y ay one) ∙ ap held_first (sym e');
      }

  -- What the variable holds while a session is active.
  held_now :
      (s : HookState F) (before after : List (Session F)) (x : Session F)
      → Inv s
      → s.sessions ≡ before ++ x ∷ after
      → active x ≡ 1
      → s.real_move_callback ≡ held x
  held_now s before after x v e ax =
      v.owned
      ∙ ap held_first e
      ∙ held_first-at before after x ax (ground (arith, v.counted, ap (total active) e))

  step-Inv : {s t : HookState F} → s ⟶ t → Inv s → Inv t
  unfolding held_first
  step-Inv {s} (installs f e) v = record {
    counted = ground (arith, v.counted);
    owned = v.owned ∙ held_first-none s.sessions (ground (arith, v.counted));
  }
  step-Inv (is_refused e) v = v
  step-Inv {s} (arms before after f e) v =
      move-Inv s _ before after _ _ v e refl refl refl refl refl
  step-Inv {s} (hooks before after f e) v =
      move-Inv s _ before after _ _ v e refl refl refl refl (held_now s before after _ v e refl)
  step-Inv {s} (fails before after f e) v =
      move-Inv s _ before after _ _ v e refl refl refl refl (held_now s before after _ v e refl)
  step-Inv {s} (unhooks before after f e) v =
      move-Inv s _ before after _ _ v e refl refl refl refl (held_now s before after _ v e refl)
  step-Inv {s} (disarms before after f e) v =
      move-Inv s _ before after _ _ v e refl refl refl refl refl
  step-Inv {s} (releases before after e) v =
      let before_ = total-append active before (closed ∷ after) in
      let after_ = total-append active before (finished ∷ after) in
      let none_left : total active (before ++ finished ∷ after) ≡ 0 =
        ground (arith, v.counted, ap (total active) e, before_, after_) in
      record {
        counted = none_left;
        owned = held_now s before after _ v e refl ∙ sym (held_first-none _ none_left);
      }

  unhooked-Inv : Inv unhooked
  unfolding held_first
  unhooked-Inv = record { counted = refl; owned = refl }

  Reach-Inv : {s t : HookState F} → Inv s → Reach s t → Inv t
  Reach-Inv v here = v
  Reach-Inv v (next r step) = step-Inv step (Reach-Inv v r)

-- In every state that the calls of InstallMouseHook reach, in any order of their steps: while a hook
-- is set, every other session is finished, no further installation is let in, and an event calls the
-- callback that this hook was installed with if it is real and its code is not negative, and
-- otherwise nothing.
pub hook_calls_own :
    {F : Type 0} {s : HookState F} (before after : List (Session F)) (f : F) (n_code : ℤ)
    (flags : ℕ)
    → Reach unhooked s
    → s.sessions ≡ before ++ pumping f ∷ after
    → (total active before + total active after ≡ 0)
      × (s.hook_installed ≡ true)
      × (mouse_proc s.real_move_callback n_code flags ≡ (
          if ltb_ℤ n_code (pos 0) then none else if is_real_mouse_move flags then some f else none))
unfolding mouse_proc
hook_calls_own {F} {s} before after f n_code flags r e =
    let v = Reach-Inv unhooked-Inv r in
    let split = total-append active before (pumping f ∷ after) in
    (
      ground (arith, v.counted, ap (total active) e, split),
      ground (arith, v.counted, ap (total active) e, split),
      ground (arith, held_now s before after (pumping f) v e refl),
    )

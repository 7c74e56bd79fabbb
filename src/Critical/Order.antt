-- ===== src/Critical/Order.antt =====
-- The order of the operations: focus before a click, a look at the cursor right before it, and a
-- click before typing.
use automationfleet.Base.{
  ℕ, ◌≡◌, refl, String, Bool, true, false, ◌&&◌, [], ◌∷◌, if-intro, arith, Option-cases, inl, inr,
}
use automationfleet.Errors.{GoError}
use automationfleet.Action.{
  Action, Float64, click_action, type_action, navigate_action, scroll_action, wait_action,
}
use automationfleet.Driver.{BrowserHandle}
use automationfleet.Config.{Config}
use automationfleet.Critical.{
  World, Trace, Outcome, Answer, Op, force_en_us_layout, attempt, click_then, type_text, perform,
  execute_critical, finally, restoring, has_drifted, context_err, focus, current, content_offset,
  get_cursor_pos, click_at, move_to, type_human, settle, clear_input, element_center, done, same,
  navigate, timeout_of,
}

is_focused : Trace → Bool
is_focused [] = false
is_focused (focus ∷ t) = true
is_focused (_ ∷ t) = is_focused t

is_clicked : Trace → Bool
is_clicked [] = false
is_clicked (click_at x y ∷ t) = true
is_clicked (_ ∷ t) = is_clicked t

-- The cursor was read, and then the context.
is_guarded : Trace → Bool
is_guarded (context_err ∷ get_cursor_pos ∷ t) = true
is_guarded _ = false

-- Each click follows the focus and directly the guard, and each typing follows a click.
unfoldable pub is_ordered : Trace → Bool
unfolding is_focused is_clicked is_guarded
is_ordered [] = true
is_ordered (type_human s ∷ t) = is_clicked t && is_ordered t
is_ordered (click_at x y ∷ t) = is_focused t && is_guarded t && is_ordered t
is_ordered (_ ∷ t) = is_ordered t

record IsOrdered (o : Outcome) : Type 0 where
  ordered : is_ordered o.1 ≡ true

attempt-IsOrdered :
    (w : World) (op : Op) (wrap : GoError → GoError) (go_on : Answer → Trace → Outcome) (t : Trace)
    → is_ordered (op ∷ t) ≡ true
    → IsOrdered (go_on (w.answer t op) (op ∷ t))
    → IsOrdered (attempt w op wrap go_on t)
unfolding attempt
attempt-IsOrdered w op wrap go_on t o next = elim (Option-cases (w.answer t op).err) [
  | inl ok ↦ rw (ok, attempt) next
  | inr (e, bad) ↦ rw (bad, attempt) (record { ordered = o })
]

click_then-IsOrdered :
    (w : World) (cfg : Config) (h : BrowserHandle) (x y : Float64) (go_on : Trace → Outcome)
    (t : Trace)
    → is_ordered t ≡ true
    → is_focused t ≡ true
    → IsOrdered
        (go_on (click_at x y ∷ context_err ∷ get_cursor_pos ∷ content_offset ∷ move_to x y ∷ t))
    → IsOrdered (click_then w cfg h x y go_on t)
unfolding click_then is_ordered is_focused is_guarded
click_then-IsOrdered w cfg h x y go_on t o f next = attempt-IsOrdered w (move_to x y) _ _ t o (
    if-intro IsOrdered (has_drifted w cfg h x y (move_to x y ∷ t)) (record { ordered = o })
      (attempt-IsOrdered w context_err _ _ _ o
        (attempt-IsOrdered w (click_at x y) _ _ _ (ground arith) next)))

restoring-IsOrdered : (layout : ℕ) (o : Outcome) → IsOrdered o → IsOrdered (restoring layout o)
unfolding is_ordered
restoring-IsOrdered layout (e, t) o = record { ordered = o.ordered }

type_human-IsOrdered :
    (w : World) (text : String) (t : Trace)
    → is_ordered t ≡ true
    → is_clicked t ≡ true
    → IsOrdered (finally w (type_human text) t)
unfolding is_ordered
type_human-IsOrdered w text t o c =
    attempt-IsOrdered w (type_human text) same (λ a. done) t (ground arith)
      (record { ordered = ground arith })

type_text-IsOrdered :
    (w : World) (text : String) (clear_first : Bool) (t : Trace)
    → is_ordered t ≡ true
    → is_clicked t ≡ true
    → IsOrdered (type_text w text clear_first t)
unfolding type_text is_ordered is_clicked
type_text-IsOrdered w text clear_first t o c =
    let t1 : Trace = force_en_us_layout ∷ settle ∷ t in
    restoring-IsOrdered _ _ (
      if-intro (λ (f : Trace → Outcome). IsOrdered (f t1)) clear_first
        (attempt-IsOrdered w clear_input _ _ t1 o
          (type_human-IsOrdered w text (clear_input ∷ t1) o c))
        (type_human-IsOrdered w text t1 o c))

perform-IsOrdered :
    (w : World) (cfg : Config) (h : BrowserHandle) (a : Action) (t : Trace)
    → is_ordered t ≡ true
    → is_focused t ≡ true
    → IsOrdered (perform w cfg h a t)
unfolding perform is_ordered is_focused is_clicked is_guarded
perform-IsOrdered w cfg h (navigate_action url timeout) t o f =
    attempt-IsOrdered w (navigate url (timeout_of cfg timeout)) same (λ a. done) t o
      (record { ordered = o })
perform-IsOrdered w cfg h (click_action selector button) t o f =
    attempt-IsOrdered w context_err _ _ t o (
      attempt-IsOrdered w (element_center selector) _ _ (context_err ∷ t) o (
        click_then-IsOrdered w cfg h _ _ done (element_center selector ∷ context_err ∷ t) o f
          (record { ordered = ground arith })))
perform-IsOrdered w cfg h (type_action selector text clear_first) t o f =
    attempt-IsOrdered w context_err _ _ t o (
      attempt-IsOrdered w (element_center selector) _ _ (context_err ∷ t) o (
        click_then-IsOrdered w cfg h _ _ (type_text w text clear_first)
          (element_center selector ∷ context_err ∷ t) o f
          (type_text-IsOrdered w text clear_first _ (ground arith) refl)))
perform-IsOrdered w cfg h (scroll_action selector delta_y) t o f = record { ordered = o }
perform-IsOrdered w cfg h (wait_action selector timeout) t o f = record { ordered = o }

-- In every run of executeCritical, whatever its operations answer, each click follows the focus and
-- comes directly after the reading of the cursor and of the context, and the text is typed only
-- after a click.
pub execute_critical-ordered :
    (w : World) (cfg : Config) (h : BrowserHandle) (a : Action)
    → is_ordered (execute_critical w cfg h a []).1 ≡ true
unfolding execute_critical is_ordered is_focused
execute_critical-ordered w cfg h a =
    let all : IsOrdered (execute_critical w cfg h a []) =
      attempt-IsOrdered w context_err _ _ [] refl (
        attempt-IsOrdered w focus _ _ (context_err ∷ []) refl (
          if-intro IsOrdered (w.answer (focus ∷ context_err ∷ []) current).live
            (perform-IsOrdered w cfg h a (current ∷ focus ∷ context_err ∷ []) refl refl)
            (record { ordered = refl }))) in
    all.ordered

-- ===== src/Critical/Shared.antt =====
-- What the jobs of all browsers share: the cursor, the focus and the keyboard layout of the computer.
use automationfleet.Base.{
  ◌≡◌, refl, String, Bool, true, false, ◌||◌, [], ◌∷◌, arith, Option-cases, inl, inr, if-intro,
}
use automationfleet.Errors.{GoError}
use automationfleet.Action.{
  Action, click_action, type_action, navigate_action, scroll_action, wait_action,
}
use automationfleet.Driver.{BrowserHandle}
use automationfleet.Config.{Config}
use automationfleet.Critical.{
  World, Answer, Op, Trace, Outcome, attempt, finally, same, done, timeout_of, focus, move_to,
  click_at, get_cursor_pos, force_en_us_layout, restore_layout, type_human, navigate, click,
  wait_for_selector, evaluate_scroll, current, context_err,
}
use automationfleet.Critical.Remote.{
  type_remotely, perform_other, perform_cdp, execute_critical_other, execute_cdp_only,
}

-- Operations on what is shared.
pub is_shared : Op → Bool
is_shared focus = true
is_shared get_cursor_pos = true
is_shared force_en_us_layout = true
is_shared (restore_layout layout) = true
is_shared (move_to css_x css_y) = true
is_shared (click_at css_x css_y) = true
is_shared _ = false

pub touches : Trace → Bool
touches [] = false
touches (op ∷ t) = is_shared op || touches t

-- The run of an outcome has touched nothing that is shared.
record IsAloof (o : Outcome) : Type 0 where
  aloof : touches o.1 ≡ false

attempt-IsAloof :
    (w : World) (op : Op) (wrap : GoError → GoError) (go_on : Answer → Trace → Outcome) (t : Trace)
    → is_shared op ≡ false
    → ((a : Answer) (t' : Trace) → touches t' ≡ false → IsAloof (go_on a t'))
    → touches t ≡ false
    → IsAloof (attempt w op wrap go_on t)
unfolding attempt touches
attempt-IsAloof w op wrap go_on t p next b = elim (Option-cases (w.answer t op).err) [
  | inl ok ↦ rw (ok, attempt) (next (w.answer t op) (op ∷ t) (ground arith))
  | inr (e, bad) ↦ rw (bad, attempt) (record { aloof = ground arith })
]

finally-IsAloof :
    (w : World) (op : Op) (t : Trace)
    → is_shared op ≡ false
    → touches t ≡ false
    → IsAloof (finally w op t)
finally-IsAloof w op t p =
    attempt-IsAloof w op same (λ a. done) t p (λ a t' b. record { aloof = b })

type_remotely-IsAloof :
    (w : World) (selector text : String) (clear_first : Bool) (t : Trace)
    → touches t ≡ false
    → IsAloof (type_remotely w selector text clear_first t)
unfolding is_shared
type_remotely-IsAloof w selector text clear_first t =
    attempt-IsAloof w _ _ _ t refl (λ focused t' b.
      if-intro (λ (f : Trace → Outcome). IsAloof (f t')) clear_first
        (attempt-IsAloof w _ _ _ t' refl (λ a t''. finally-IsAloof w (type_human text) t'' refl) b)
        (finally-IsAloof w (type_human text) t' refl b))

perform_other-IsAloof :
    (w : World) (cfg : Config) (a : Action) (t : Trace)
    → touches t ≡ false
    → IsAloof (perform_other w cfg a t)
unfolding perform_other is_shared
perform_other-IsAloof w cfg (navigate_action url timeout) t =
    finally-IsAloof w (navigate url (timeout_of cfg timeout)) t refl
perform_other-IsAloof w cfg (click_action selector button) t =
    finally-IsAloof w (click selector) t refl
perform_other-IsAloof w cfg (type_action selector text clear_first) t =
    type_remotely-IsAloof w selector text clear_first t
perform_other-IsAloof w cfg (scroll_action selector delta_y) t = λ b. record { aloof = b }
perform_other-IsAloof w cfg (wait_action selector timeout) t = λ b. record { aloof = b }

perform_cdp-IsAloof :
    (w : World) (cfg : Config) (a : Action) (t : Trace)
    → touches t ≡ false
    → IsAloof (perform_cdp w cfg a t)
unfolding perform_cdp is_shared
perform_cdp-IsAloof w cfg (scroll_action selector delta_y) t =
    finally-IsAloof w (evaluate_scroll selector delta_y) t refl
perform_cdp-IsAloof w cfg (wait_action selector timeout) t =
    finally-IsAloof w (wait_for_selector selector timeout) t refl
perform_cdp-IsAloof w cfg (click_action selector button) t =
    finally-IsAloof w (click selector) t refl
perform_cdp-IsAloof w cfg (type_action selector text clear_first) t =
    type_remotely-IsAloof w selector text clear_first t
perform_cdp-IsAloof w cfg (navigate_action url timeout) t =
    finally-IsAloof w (navigate url (timeout_of cfg timeout)) t refl

-- Whatever the action and whatever its operations answer, executeCDPOnly, which the workers of the
-- pool run side by side, and executeCritical on other systems than Windows neither focus a browser's
-- window, nor read the cursor, nor move it or click at a point, nor switch or restore the keyboard
-- layout.
pub executors-aloof :
    (w : World) (cfg : Config) (h : BrowserHandle) (a : Action)
    → (touches (execute_cdp_only w cfg a []).1 ≡ false)
      × (touches (execute_critical_other w cfg h a []).1 ≡ false)
unfolding execute_cdp_only execute_critical_other touches is_shared
executors-aloof w cfg h a = (
  (if-intro IsAloof (w.answer [] current).live
      (attempt-IsAloof w context_err same (λ alive. perform_cdp w cfg a) (current ∷ []) refl
        (λ alive t b. perform_cdp-IsAloof w cfg a t b) refl)
      (record { aloof = refl })).aloof,
  (if-intro IsAloof (w.answer [] current).live (perform_other-IsAloof w cfg a (current ∷ []) refl)
      (record { aloof = refl })).aloof,
)

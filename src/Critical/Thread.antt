-- ===== src/Critical/Thread.antt =====
-- The keyboard layouts of the threads that run executeCritical. Go may move a goroutine that is not
-- locked to a thread to another one between two operations.
use automationfleet.Base.{
  ℕ, ◌==◌, inl, inr, if◌then◌else◌, sym, ap, true, false, Bool-cases, ◌≡◌, ◌≢◌, refl, ◌∙◌, String,
  Bool, [], ◌∷◌, arith,
}
use automationfleet.Action.{Action}
use automationfleet.Driver.{BrowserHandle}
use automationfleet.Config.{Config}
use automationfleet.Winapi.Layout
use automationfleet.Winapi.Layout.{LayoutOs}
use automationfleet.Critical.{
  World, Trace, Op, force_en_us_layout, restore_layout, type_text, execute_critical, settle,
}
use automationfleet.Critical.Layout.{IsPlain, switches, restores, Leaves, Leaves-execute_critical}

module _ (os : LayoutOs) where
  -- What an operation does to the layout of the thread.
  abbrev pub layout_step : Op → ℕ → ℕ
  layout_step force_en_us_layout current = (Layout.force_en_us_layout os current).2
  layout_step (restore_layout layout) current = Layout.restore_layout os layout current
  layout_step _ current = current

  -- The layout after a run that has begun with `layout`.
  abbrev pub layout_after : ℕ → Trace → ℕ
  layout_after layout [] = layout
  layout_after layout (op ∷ t) = layout_step op (layout_after layout t)

  pub layout_step-plain : (op : Op) (current : ℕ) → IsPlain op → layout_step op current ≡ current
  unfolding switches restores
  layout_step-plain force_en_us_layout current p = absurd (omega (arith, p.0))
  layout_step-plain (restore_layout layout) current p = absurd (omega (arith, p.1))
  layout_step-plain _ current p = refl

  previous : (current : ℕ) → (Layout.force_en_us_layout os current).1 ≡ current
  unfolding Layout.force_en_us_layout
  previous current = ground arith

  restored-layout :
      (layout current : ℕ)
      → layout ≢ 0
      → os.activate layout current ≡ layout
      → Layout.restore_layout os layout current ≡ layout
  unfolding Layout.restore_layout
  restored-layout layout current set e = ground arith

  abbrev Keeps : ℕ → Trace → Type 0
  Keeps layout t = layout_after layout t ≡ layout

  Keeps-plain :
      (layout : ℕ) (op : Op) (t : Trace) → IsPlain op → Keeps layout t → Keeps layout (op ∷ t)
  Keeps-plain layout op t p k = layout_step-plain op _ p ∙ k

kept_on_one :
    (os : LayoutOs) (layout : ℕ) (w : World) (cfg : Config) (h : BrowserHandle) (a : Action)
    → layout ≢ 0
    → ((current : ℕ) → os.activate layout current ≡ layout)
    → ((t : Trace)
        → (w.answer t force_en_us_layout).layout
          ≡ (Layout.force_en_us_layout os (layout_after os layout t)).1)
    → layout_after os layout (execute_critical w cfg h a []).1 ≡ layout
unfolding type_text
kept_on_one os layout w cfg h a set back honest =
    let leaves = Leaves (Keeps os layout) (Keeps-plain os layout) in
    let types : (text : String) (clear_first : Bool) (t : Trace)
        → Keeps os layout t
        → leaves (type_text w text clear_first t) =
      λ text clear_first t k.
        let prev : (w.answer (settle ∷ t) force_en_us_layout).layout ≡ layout =
          honest (settle ∷ t) ∙ previous os _ ∙ k in
        record { holds = rw prev (restored-layout os layout _ set (back _)) } in
    (Leaves-execute_critical (Keeps os layout) (Keeps-plain os layout) w cfg h a types refl).holds

-- Each thread has a layout of its own. `thread` tells which one the goroutine is on after a trace.
abbrev pub layouts_after : LayoutOs → (Trace → ℕ) → (ℕ → ℕ) → Trace → ℕ → ℕ
layouts_after os thread layouts [] k = layouts k
layouts_after os thread layouts (op ∷ t) k =
    let before = layouts_after os thread layouts t k in
    if k == thread t then layout_step os op before else before

pub chosen : (b : Bool) (x y z : ℕ) → b ≡ true → x ≡ z → (if b then x else y) ≡ z
chosen b x y z e same = ground arith

pub skipped : (b : Bool) (x y z : ℕ) → b ≡ false → y ≡ z → (if b then x else y) ≡ z
skipped b x y z e same = ground arith

-- On one thread, its layout goes as before, and those of the others stay.
one_thread :
    (os : LayoutOs) (thread : Trace → ℕ) (layouts : ℕ → ℕ)
    → ((t : Trace) → thread t ≡ thread [])
    → (t : Trace)
    → layouts_after os thread layouts t (thread []) ≡ layout_after os (layouts (thread [])) t
one_thread os thread layouts stays [] = refl
one_thread os thread layouts stays (op ∷ t) =
    chosen (thread [] == thread t) _ _ _ (ground (arith, stays t))
      (ap (layout_step os op) (one_thread os thread layouts stays t))

other_threads :
    (os : LayoutOs) (thread : Trace → ℕ) (layouts : ℕ → ℕ)
    → ((t : Trace) → thread t ≡ thread [])
    → (t : Trace) (k : ℕ) → k ≢ thread []
    → layouts_after os thread layouts t k ≡ layouts k
other_threads os thread layouts stays [] k away = refl
other_threads os thread layouts stays (op ∷ t) k away =
    skipped (k == thread t) _ _ _ (ground (arith, stays t))
      (other_threads os thread layouts stays t k away)

-- Whatever the action, and whichever of its operations fail, if the goroutine stays on one thread
-- meanwhile, then every thread has the same keyboard layout after executeCritical as before; that of
-- its thread is not 0 and can always be activated again, and ForceENUSLayout returns the layout that the thread has when it is
-- called.
pub execute_critical-keeps_layout :
    (os : LayoutOs) (thread : Trace → ℕ) (layouts : ℕ → ℕ) (w : World) (cfg : Config)
    (h : BrowserHandle) (a : Action)
    → ((t : Trace) → thread t ≡ thread [])
    → layouts (thread []) ≢ 0
    → ((current : ℕ) → os.activate (layouts (thread [])) current ≡ layouts (thread []))
    → ((t : Trace)
        → (w.answer t force_en_us_layout).layout
          ≡ (Layout.force_en_us_layout os (layouts_after os thread layouts t (thread t))).1)
    → (k : ℕ) → layouts_after os thread layouts (execute_critical w cfg h a []).1 k ≡ layouts k
execute_critical-keeps_layout os thread layouts w cfg h a stays set back honest k =
    let own = kept_on_one os (layouts (thread [])) w cfg h a set back (λ t.
      honest t
      ∙ ap (λ l. (Layout.force_en_us_layout os l).1)
          (ap (layouts_after os thread layouts t) (stays t)
            ∙ one_thread os thread layouts stays t)) in
    let t : Trace = (execute_critical w cfg h a []).1 in
    elim (Bool-cases (k == thread [])) [
      | inl e ↦
          let here : k ≡ thread [] = ground arith in
          ap (layouts_after os thread layouts t) here
          ∙ one_thread os thread layouts stays t
          ∙ own
          ∙ ap layouts (sym here)
      | inr e ↦ other_threads os thread layouts stays t k (λ same. ground arith)
    ]

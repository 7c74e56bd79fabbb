-- ===== src/Winapi/Hook.antt =====
-- mouse_hook_windows.go: InstallMouseHook, its goroutine and the function that it returns, as one
-- state of the package and its atomic steps.
use automationfleet.Base.{◌≡◌, Bool, true, false, Option, none, some, List, [], ◌∷◌, ◌++◌}

-- A call of InstallMouseHook that has passed the flag, with the callback that it was given: its
-- goroutine launched, the callback set, the hook set and its messages pumped, the hook taken away or
-- never set, `done` closed; and after the caller has cleared the flag.
pub data Session (F : Type 0) : Type 0 where
  launched armed pumping leaving : F → Session F
  closed finished : Session F

-- The variables of the package, and the sessions.
pub record HookState (F : Type 0) : Type 0 where
  pub hook_installed : Bool
  pub real_move_callback : Option F
  pub sessions : List (Session F)

abbrev pub unhooked : {F : Type 0} → HookState F
unhooked = record { hook_installed = false; real_move_callback = none; sessions = [] }

abbrev pub moved :
    {F : Type 0} → HookState F → List (Session F) → Session F → List (Session F) → HookState F
moved s before x after = record s { sessions = before ++ x ∷ after }

infix 40 ◌⟶◌
pub data ◌⟶◌ {F : Type 0} (s : HookState F) : HookState F → Type 0 where
  -- CompareAndSwap finds the flag clear
  installs :
      (f : F)
      → s.hook_installed ≡ false
      → s ⟶ record s { hook_installed = true; sessions = launched f ∷ s.sessions }
  -- it finds the flag set, and the call ends with an error
  is_refused : s.hook_installed ≡ true → s ⟶ s
  arms :
      (before after : List (Session F)) (f : F)
      → s.sessions ≡ before ++ launched f ∷ after
      → s ⟶ record (moved s before (armed f) after) { real_move_callback = some f }
  hooks :
      (before after : List (Session F)) (f : F)
      → s.sessions ≡ before ++ armed f ∷ after
      → s ⟶ moved s before (pumping f) after
  -- SetWindowsHookExW fails
  fails :
      (before after : List (Session F)) (f : F)
      → s.sessions ≡ before ++ armed f ∷ after
      → s ⟶ moved s before (leaving f) after
  -- the pump ends, with WM_QUIT or an error, and the hook is taken away
  unhooks :
      (before after : List (Session F)) (f : F)
      → s.sessions ≡ before ++ pumping f ∷ after
      → s ⟶ moved s before (leaving f) after
  disarms :
      (before after : List (Session F)) (f : F)
      → s.sessions ≡ before ++ leaving f ∷ after
      → s ⟶ record (moved s before closed after) { real_move_callback = none }
  -- the caller of a failed installation, or of the function that uninstalls, which is called once
  releases :
      (before after : List (Session F))
      → s.sessions ≡ before ++ closed ∷ after
      → s ⟶ record (moved s before finished after) { hook_installed = false }

pub data Reach {F : Type 0} (s : HookState F) : HookState F → Type 0 where
  here : Reach s s
  next : {t u : HookState F} → Reach s t → t ⟶ u → Reach s u

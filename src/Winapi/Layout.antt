-- ===== src/Winapi/Layout.antt =====
-- keyboard_layout_windows.go and cursor_pos_windows.go: the keyboard layout of a thread, and the
-- position of the cursor.
use automationfleet.Base.{ℕ, String, Option, none, some, [], ◌∷◌, ℤ, pos, ◌==◌, if◌then◌else◌}
use automationfleet.Errors.{GoError, errorf, str}

-- What the system does, for a thread with the layout `current`: LoadKeyboardLayoutW, which may
-- activate what it loads, returns a handle, 0 if it fails; ActivateKeyboardLayout tries another
-- layout. Each comes with the layout after it. `errno` is the last error.
pub record LayoutOs : Type 0 where
  pub load : (current : ℕ) → ℕ × ℕ
  pub activate : (layout current : ℕ) → ℕ
  pub errno : String

-- The error, the previous layout, and the layout of the thread after the call. The name of the
-- layout has no NUL, so the conversion of it does not fail.
unfoldable pub force_en_us_layout : LayoutOs → ℕ → Option GoError × ℕ × ℕ
force_en_us_layout os current =
    let (hkl, loaded) = os.load current in
    if hkl == 0
    then (some (errorf "%v" (str os.errno ∷ [])), current, loaded)
    else (none, current, os.activate hkl loaded)

unfoldable pub restore_layout : LayoutOs → ℕ → ℕ → ℕ
restore_layout os prev current = if prev == 0 then current else os.activate prev current

-- GetCursorPos: the error of the system, or the point that it writes.
unfoldable pub get_cursor_pos : Option String → ℤ → ℤ → ℤ × ℤ × Option GoError
get_cursor_pos none x y = (x, y, none)
get_cursor_pos (some errno) x y = (pos 0, pos 0, some (errorf "%v" (str errno ∷ [])))

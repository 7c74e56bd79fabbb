-- ===== src/Winapi.antt =====
-- internal/winapi: what the package does around the calls of Windows.
pub mod Hook
pub mod Single
pub mod Layout
use automationfleet.Base.{
  ℕ, Bool, true, false, not, ◌&&◌, Option, none, some, ℤ, pos, ltb_ℤ, ◌==◌, ◌%◌, if◌then◌else◌,
}

-- LLMHFInjected is bit 0 of the flags.
unfoldable pub is_real_mouse_move : ℕ → Bool
is_real_mouse_move flags = flags % 2 == 0

-- The hook procedure: the callback that it makes, if any. `F` stands for callbacks; none is nil.
unfoldable pub mouse_proc : {F : Type 0} → Option F → ℤ → ℕ → Option F
unfolding is_real_mouse_move
mouse_proc callback n_code flags =
    if not (ltb_ℤ n_code (pos 0)) && is_real_mouse_move flags then callback else none

-- ===== src/Config.antt =====
-- fleet.go: the configuration of a fleet and the options of New.
-- A callback and a logger are numbers that name them; `none` is nil.
pub mod Sane
use automationfleet.Base.{
  ℕ, Bool, true, false, Option, none, some, List, [], ◌∷◌, ℤ, pos, ltb_ℤ, if◌then◌else◌,
}
use automationfleet.Action.{Duration}
use automationfleet.Hotkey.{Hotkey, mod_ctrl, key_f10, key_f11, default_stop_hotkey}

pub data Logger : Type 0 where
  noop_logger : Logger
  custom_logger : ℕ → Logger

pub record Config : Type 0 where
  pub logger : Logger
  pub default_timeout : Duration
  pub cdp_workers : ℤ
  pub stop_hotkey : Hotkey
  pub stop_enabled : Bool
  pub on_stop : Option ℕ
  pub pause_hotkey : Hotkey
  pub pause_enabled : Bool
  pub on_pause : Option ℕ
  pub resume_hotkey : Hotkey
  pub resume_enabled : Bool
  pub on_resume : Option ℕ
  pub drift_threshold : ℤ
  pub drift_retries : ℤ
  pub drift_retry_delay : Duration

abbrev pub default_pause_hotkey : Hotkey
default_pause_hotkey = record { mods = mod_ctrl; key = key_f10 }

abbrev pub default_resume_hotkey : Hotkey
default_resume_hotkey = record { mods = mod_ctrl; key = key_f11 }

-- Ten seconds, and a quarter of a second.
unfoldable pub default_config : Config
default_config = record {
  logger = noop_logger;
  default_timeout = pos 10000000000;
  cdp_workers = pos 4;
  stop_hotkey = default_stop_hotkey;
  stop_enabled = false;
  on_stop = none;
  pause_hotkey = default_pause_hotkey;
  pause_enabled = true;
  on_pause = none;
  resume_hotkey = default_resume_hotkey;
  resume_enabled = true;
  on_resume = none;
  drift_threshold = pos 5;
  drift_retries = pos 3;
  drift_retry_delay = pos 250000000;
}

-- The options, by the functions that make them.
pub data FleetOption : Type 0 where
  with_logger : Option Logger → FleetOption
  with_default_timeout : Duration → FleetOption
  with_cdp_workers : ℤ → FleetOption
  with_stop_hotkey : Hotkey → FleetOption
  with_stop_hotkey_disabled : FleetOption
  with_pause_hotkey : Hotkey → FleetOption
  with_pause_hotkey_disabled : FleetOption
  with_resume_hotkey : Hotkey → FleetOption
  with_resume_hotkey_disabled : FleetOption
  on_stop_call : Option ℕ → FleetOption
  on_pause_call : Option ℕ → FleetOption
  on_resume_call : Option ℕ → FleetOption
  with_drift_threshold_px : ℤ → FleetOption
  with_drift_retries : ℤ → FleetOption
  with_drift_retry_delay : Duration → FleetOption

-- What the function of an option does to the configuration.
unfoldable pub apply : FleetOption → Config → Config
apply (with_logger none) c = c
apply (with_logger (some l)) c = record c { logger = l }
apply (with_default_timeout d) c = if ltb_ℤ (pos 0) d then record c { default_timeout = d } else c
apply (with_cdp_workers n) c = if ltb_ℤ (pos 0) n then record c { cdp_workers = n } else c
apply (with_stop_hotkey h) c = record c { stop_hotkey = h; stop_enabled = true }
apply with_stop_hotkey_disabled c = record c { stop_enabled = false }
apply (with_pause_hotkey h) c = record c { pause_hotkey = h; pause_enabled = true }
apply with_pause_hotkey_disabled c = record c { pause_enabled = false }
apply (with_resume_hotkey h) c = record c { resume_hotkey = h; resume_enabled = true }
apply with_resume_hotkey_disabled c = record c { resume_enabled = false }
apply (on_stop_call cb) c = record c { on_stop = cb }
apply (on_pause_call cb) c = record c { on_pause = cb }
apply (on_resume_call cb) c = record c { on_resume = cb }
apply (with_drift_threshold_px px) c =
    if ltb_ℤ (pos 0) px then record c { drift_threshold = px } else c
apply (with_drift_retries n) c = if ltb_ℤ n (pos 0) then c else record c { drift_retries = n }
apply (with_drift_retry_delay d) c =
    if ltb_ℤ (pos 0) d then record c { drift_retry_delay = d } else c

-- The loop of New.
unfoldable pub configure : Config → List FleetOption → Config
unfolding apply
configure c [] = c
configure c (o ∷ os) = configure (apply o c) os

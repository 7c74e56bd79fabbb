-- ===== src/Config/Sane.antt =====
-- The numbers of a configuration stay in their ranges, whatever the options.
use automationfleet.Base.{true, false, ◌≡◌, refl, none, some, List, [], ◌∷◌, pos, ltb_ℤ, arith}
use automationfleet.Config.{
  Config, FleetOption, default_config, apply, configure, with_logger, with_default_timeout,
  with_cdp_workers, with_stop_hotkey, with_stop_hotkey_disabled, with_pause_hotkey,
  with_pause_hotkey_disabled, with_resume_hotkey, with_resume_hotkey_disabled, on_stop_call,
  on_pause_call, on_resume_call, with_drift_threshold_px, with_drift_retries,
  with_drift_retry_delay,
}

-- Times, workers and the threshold are positive, and the retries are not negative.
pub record IsSane (c : Config) : Type 0 where
  pub timeout : ltb_ℤ (pos 0) c.default_timeout ≡ true
  pub workers : ltb_ℤ (pos 0) c.cdp_workers ≡ true
  pub threshold : ltb_ℤ (pos 0) c.drift_threshold ≡ true
  pub retries : ltb_ℤ c.drift_retries (pos 0) ≡ false
  pub delay : ltb_ℤ (pos 0) c.drift_retry_delay ≡ true

default_config-IsSane : IsSane default_config
unfolding default_config
default_config-IsSane = record {
  timeout = refl;
  workers = refl;
  threshold = refl;
  retries = refl;
  delay = refl;
}

apply-IsSane : (o : FleetOption) (c : Config) → IsSane c → IsSane (apply o c)
unfolding apply
apply-IsSane (with_logger none) c s = s
apply-IsSane (with_logger (some l)) c s = ground arith
apply-IsSane (with_default_timeout d) c s = ground arith
apply-IsSane (with_cdp_workers n) c s = ground arith
apply-IsSane (with_stop_hotkey h) c s = ground arith
apply-IsSane with_stop_hotkey_disabled c s = ground arith
apply-IsSane (with_pause_hotkey h) c s = ground arith
apply-IsSane with_pause_hotkey_disabled c s = ground arith
apply-IsSane (with_resume_hotkey h) c s = ground arith
apply-IsSane with_resume_hotkey_disabled c s = ground arith
apply-IsSane (on_stop_call cb) c s = ground arith
apply-IsSane (on_pause_call cb) c s = ground arith
apply-IsSane (on_resume_call cb) c s = ground arith
apply-IsSane (with_drift_threshold_px px) c s = ground arith
apply-IsSane (with_drift_retries n) c s = ground arith
apply-IsSane (with_drift_retry_delay d) c s = ground arith

configure-IsSane' : (c : Config) (os : List FleetOption) → IsSane c → IsSane (configure c os)
unfolding configure
configure-IsSane' c [] s = s
configure-IsSane' c (o ∷ os) s = configure-IsSane' (apply o c) os (apply-IsSane o c s)

-- Whatever options New is given, the default timeout, the number of workers, the drift threshold
-- and the retry delay of the configuration are positive, and the number of retries is not negative.
pub configure-IsSane : (os : List FleetOption) → IsSane (configure default_config os)
configure-IsSane os = configure-IsSane' default_config os default_config-IsSane

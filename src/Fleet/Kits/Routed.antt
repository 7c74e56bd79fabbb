-- ===== src/Fleet/Kits/Routed.antt =====
-- Which browsers of the kits are registered, and how their jobs are routed.
use automationfleet.Base.{
  ℕ, ◌≡◌, refl, sym, ◌∙◌, ap, ◌↔◌, String, Bool, true, Option, none, some, ℤ, arith, ◌==◌,
  if◌then◌else◌, str_eq_refl,
}
use automationfleet.Action.{Float64, needs_native_critical_section}
use automationfleet.Errors.{GoError}
use automationfleet.Job.{QueuedJob}
use automationfleet.Driver
use automationfleet.Driver.{BrowserHandle, with_scale, is_native}
use automationfleet.Driver.Accepted.{validate_accepts_iff, validate_ok}
use automationfleet.Kit.{Kit, chromekit, firefoxkit, KitBrowser, input_backend}
use automationfleet.Dispatcher.System.{running, sending, route}
use automationfleet.Fleet.{Fleet, Schedule, handle, register}
use automationfleet.Fleet.Registry.{handle-register}
use automationfleet.Fleet.Kits.{wrapped, register_chrome, register_firefox}

-- A registration is accepted exactly when the handle is and its id is new.
register_accepts_iff :
    (f : Fleet) (h : BrowserHandle) (s : Schedule)
    → ((register f (some h) s).0 ≡ none)
      ↔ (((Driver.validate (some h)).0 ≡ none) × (handle f h.id ≡ none))
unfolding register
register_accepts_iff f h s =
    (λ e. ground (arith, validate_ok h), λ (v, new). (handle-register f h h.id s v new).0)

module _ (native_code : ℕ) (f : Fleet) (id : String) (native : Bool) (x y : ℤ) (scale : Float64)
    (s : Schedule) where
  abbrev pub register_kit : Kit → Option KitBrowser → Option GoError × Fleet
  register_kit chromekit b = register_chrome native_code f id b native x y scale s
  register_kit firefoxkit b = register_firefox native_code f id b native x y scale s

  kit-register :
      (k : Kit) (b : KitBrowser)
      → register_kit k (some b) ≡ register f (some (wrapped id native_code b native x y scale)) s
  unfolding register_chrome register_firefox
  kit-register chromekit b = refl
  kit-register firefoxkit b = refl

  native_backend :
      (b : KitBrowser) → is_native (input_backend native_code b) ≡ (b.backend == native_code)
  unfolding input_backend
  native_backend b = ground arith

  -- The jobs of a browser that RegisterChrome or RegisterFirefox has accepted are routed by what the
  -- kit says of it: an action that needs the native critical section runs in it if the kit's backend
  -- is the native one, and is else sent to the pool.
  pub register_kit-routes :
      (k : Kit) (b : KitBrowser) (qj : QueuedJob) (cdp_open : Bool)
      → (register_kit k (some b)).0 ≡ none
      → needs_native_critical_section qj.job.action ≡ true
      → route (handle (register_kit k (some b)).1 id) cdp_open qj
        ≡ (if b.backend == native_code then running qj else sending qj cdp_open)
  unfolding route
  register_kit-routes k b qj cdp_open e n =
      let h = wrapped id native_code b native x y scale in
      let (valid, new) =
        (register_accepts_iff f h s).0 (ap (λ r. r.0) (sym (kit-register k b)) ∙ e) in
      let (ok, found) = handle-register f h id s valid new in
      let (named, (d, driven, same)) = (validate_accepts_iff h).0 valid in
      let native_is : native ≡ (b.backend == native_code) =
        ground (arith, driven, same, native_backend b) in
      let kept : (with_scale h).native ≡ native = ground arith in
      let there : handle (register_kit k (some b)).1 id ≡ some (with_scale h) =
        ap (λ r. handle r.1 id) (kit-register k b) ∙ found ∙ ground (arith, str_eq_refl id) in
      rw (there, n, kept, native_is) refl

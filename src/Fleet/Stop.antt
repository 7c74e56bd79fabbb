-- ===== src/Fleet/Stop.antt =====
-- The end of a fleet: stopping happens once.
use automationfleet.Base.{
  ℕ, ◌≡◌, refl, ◌∙◌, String, true, Option, none, some, ◌>>=◌, arith, Bool-cases, inl, inr,
}
use automationfleet.Dispatcher
use automationfleet.Dispatcher.{Dispatcher}
use automationfleet.Fleet.{
  Fleet, Schedule, Callback, on_stop, callback, request_stop, reconcile_takeover,
}
use automationfleet.Fleet.Invariant.{reconcile_takeover-IsKept}

callback-once : (f : Fleet) (cb : Option ℕ) (c : ℕ → Callback) → (callback f cb c).once ≡ f.once
callback-once f none c = refl
callback-once f (some k) c = refl

ended_once :
    (told f' : Fleet) (o : Option Dispatcher)
    → told.once ≡ true
    → (o >>= λ d. some (record told { dispatcher = d; cancelled = true })) ≡ some f'
    → f'.once ≡ true
ended_once told f' none t e = absurd (ground arith)
ended_once told f' (some d) t e = ground arith

request_stop-once :
    (f f' : Fleet) (reason : String) (s : Schedule)
    → request_stop f reason s ≡ some f'
    → f'.once ≡ true
unfolding request_stop
request_stop-once f f' reason s e = elim (Bool-cases f.once) [
  | inl again ↦ ground arith
  | inr first ↦
      let halted : Fleet = record f { once = true; stopped = true } in
      let quiet : Fleet = reconcile_takeover halted s in
      let told : Fleet = callback quiet quiet.cfg.on_stop (λ cb. on_stop cb reason) in
      let ran =
        callback-once quiet quiet.cfg.on_stop (λ cb. on_stop cb reason)
        ∙ (reconcile_takeover-IsKept halted s).once in
      ended_once told f' (Dispatcher.abort_all told.dispatcher reason) ran (ground arith)
]

-- Stopping is idempotent: once a stop has returned, another, whatever its reason, changes nothing and
-- makes no callback.
pub request_stop-request_stop :
    (f f' : Fleet) (reason reason' : String) (s s' : Schedule)
    → request_stop f reason s ≡ some f'
    → request_stop f' reason' s' ≡ some f'
unfolding request_stop
request_stop-request_stop f f' reason reason' s s' e =
    let ran = request_stop-once f f' reason s e in rw (ran, request_stop) refl

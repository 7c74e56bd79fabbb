-- ===== src/Fleet/Preserved.antt =====
-- The calls that change the registry, take jobs or stop the fleet preserve the invariant.
use automationfleet.Base.{
  ℕ, ◌≡◌, refl, sym, ◌∙◌, ap, String, true, Option, none, some, ◌>>=◌, ◌⊎◌, arith, ℤ, Option-cases,
  if-intro, inl, inr,
}
use automationfleet.Errors.{GoError}
use automationfleet.Heap.Laws.{Yields}
use automationfleet.Job.{Job}
use automationfleet.Driver
use automationfleet.Driver.{BrowserHandle}
use automationfleet.Dispatcher
use automationfleet.Dispatcher.{Dispatcher, new_dispatcher}
use automationfleet.Watchdog.{Happening}
use automationfleet.Fleet.{
  Fleet, Schedule, register, unregister, submit, check_submit, request_stop, watch, handle, added,
  removed, reconcile_takeover, callback, Callback, on_stop,
}
use automationfleet.Fleet.Invariant.{
  IsSound, IsInStep, reconcile_takeover-IsSound, reconcile_takeover-IsKept, watch-IsSound,
  watch-IsKept,
}
use automationfleet.Fleet.Registry.{
  IsCounted, kept-IsCounted, register-IsCounted, unregister-IsCounted,
}
use automationfleet.Fleet.Pending.{
  Yields-bind, IsPending, enqueue-IsPending, abort_all-IsPending, IsStopped,
}
use automationfleet.Fleet.Good.{
  IsGood, IsAlike, alike-IsSound, alike-IsCounted, alike-IsGood, like-IsPending,
}

pub added-IsInStep : (f : Fleet) (h : BrowserHandle) → IsInStep f → IsInStep (added f h)
added-IsInStep f h i = ground arith

pub removed-IsInStep :
    (f : Fleet) (h : BrowserHandle) (id : String) → IsInStep f → IsInStep (removed f h id)
removed-IsInStep f h id i = ground arith

-- A reconciliation after a change of the registry.
pub reconciled :
    (f f' : Fleet) (s : Schedule)
    → f'.dispatcher ≡ f.dispatcher
    → f'.stopped ≡ f.stopped
    → IsInStep f'
    → IsCounted (reconcile_takeover f' s)
    → IsGood f
    → IsGood (reconcile_takeover f' s)
reconciled f f' s d e i c g =
    let kept = reconcile_takeover-IsKept f' s in
    record {
      sound = reconcile_takeover-IsSound f' s i;
      counted = c;
      pending =
          like-IsPending f.dispatcher (reconcile_takeover f' s).dispatcher
            (kept.queue ∙ ap (λ k. k.queue) d) (kept.inflight ∙ ap (λ k. k.inflight) d) g.pending;
      ended = kept.halted ∙ ap (λ k. k.stopped) d ∙ g.ended ∙ sym e ∙ sym kept.stopped;
    }

pub register-IsGood :
    (f : Fleet) (h : Option BrowserHandle) (s : Schedule) → IsGood f → IsGood (register f h s).1
unfolding register
register-IsGood f h s g =
    let counted = register-IsCounted f h s g.counted in
    elim (Option-cases (Driver.validate h).0) [
      | inr (e, v) ↦ rw (v, register) g
      | inl v ↦ elim (Option-cases (Driver.validate h).1) [
        | inl n ↦ rw (v, register) (rw (n, register) g)
        | inr (b, o) ↦ elim (Option-cases (handle f b.id)) [
          | inr (old, known) ↦ ground arith
          | inl fresh ↦
              let eq : (register f h s).1 ≡ reconcile_takeover (added f b) s = ground arith in
              rw eq (
                reconciled f (added f b) s refl refl (added-IsInStep f b g.sound.in_step)
                  (rw (← eq) counted) g)
        ]
      ]
    ]

pub unregister-IsGood :
    (f : Fleet) (id : String) (s : Schedule) → IsGood f → IsGood (unregister f id s).1
unfolding unregister
unregister-IsGood f id s g = elim (Option-cases (handle f id)) [
  | inl n ↦ ground arith
  | inr (h, known) ↦
      let eq : (unregister f id s).1 ≡ reconcile_takeover (removed f h id) s = ground arith in
      rw eq (
        reconciled f (removed f h id) s refl refl (removed-IsInStep f h id g.sound.in_step)
          (rw (← eq) (unregister-IsCounted f id s g.counted)) g)
]

pub submit-IsGood :
    (f : Fleet) (j : Job) (now : ℤ) → IsGood f → Yields (λ r. IsGood r.1) (submit f j now)
unfolding submit Dispatcher.has_reason
submit-IsGood f j now g =
    elim (check_submit f j)
      as (λ c.
        Yields {A = (GoError ⊎ ℕ) × Fleet} (λ r. IsGood r.1)
          (elim c [
            | inl e ↦ some (inl e, f)
            | inr j' ↦ Dispatcher.enqueue f.dispatcher j' now >>= λ (ch, d).
                some (inr ch, record f { dispatcher = d })
          ])) [
            | inl e ↦ ((inl e, f), refl, g)
            | inr j' ↦
                Yields-bind (λ r. IsGood r.1) (Dispatcher.enqueue f.dispatcher j' now) _
                  (enqueue-IsPending f.dispatcher j' now g.pending)
                  (λ (ch, d) (p, (st, pr)). (
                    (inr ch, record f { dispatcher = d }),
                    refl,
                    alike-IsGood f (record f { dispatcher = d })
                        (record {
                          handles = refl;
                          native_count = refl;
                          stopped = refl;
                          watchdog = refl;
                          hook = refl;
                          halted = st;
                          reason = rw pr refl;
                        })
                        p g,
                  ))
          ]

pub stopped-IsInStep :
    (f : Fleet) → IsInStep f → IsInStep (record f { once = true; stopped = true })
stopped-IsInStep f i = ground arith

pub callback-IsAlike : (f : Fleet) (cb : Option ℕ) (c : ℕ → Callback) → IsAlike f (callback f cb c)
callback-IsAlike f none c = ground arith
callback-IsAlike f (some k) c = ground arith

pub callback-dispatcher :
    (f : Fleet) (cb : Option ℕ) (c : ℕ → Callback) → (callback f cb c).dispatcher ≡ f.dispatcher
callback-dispatcher f none c = refl
callback-dispatcher f (some k) c = refl

pub ended-IsGood :
    (f : Fleet) (d : Dispatcher)
    → IsSound f
    → IsCounted f
    → f.stopped ≡ true
    → IsPending d
    → IsStopped f.dispatcher d
    → IsGood (record f { dispatcher = d; cancelled = true })
unfolding Dispatcher.has_reason
ended-IsGood f d s c e p (st, pr) = record {
  sound = record {
    in_step = record {
      hooked = s.in_step.hooked;
      held = rw pr s.in_step.held;
      alive = λ i. absurd (ground (arith, s.needed i));
      halted = λ h. e;
    };
    needed = s.needed;
  };
  counted = record { is_map = c.is_map; counted = c.counted };
  pending = p;
  ended = st ∙ sym e;
}

pub request_stop-IsGood :
    (f : Fleet) (reason : String) (s : Schedule)
    → IsGood f
    → Yields IsGood (request_stop f reason s)
unfolding request_stop
request_stop-IsGood f reason s g =
    let halted : Fleet = record f { once = true; stopped = true } in
    let quiet : Fleet = reconcile_takeover halted s in
    let kept = reconcile_takeover-IsKept halted s in
    let told : Fleet = callback quiet quiet.cfg.on_stop (λ cb. on_stop cb reason) in
    let alike = callback-IsAlike quiet quiet.cfg.on_stop (λ cb. on_stop cb reason) in
    let same = callback-dispatcher quiet quiet.cfg.on_stop (λ cb. on_stop cb reason) in
    let sound = reconcile_takeover-IsSound halted s (stopped-IsInStep f g.sound.in_step) in
    let counted =
      kept-IsCounted halted quiet kept
        (record { is_map = g.counted.is_map; counted = g.counted.counted }) in
    let pending = like-IsPending f.dispatcher quiet.dispatcher kept.queue kept.inflight g.pending in
    if-intro (Yields IsGood) f.once (f, refl, g)
      (Yields-bind IsGood (Dispatcher.abort_all told.dispatcher reason) _
        (abort_all-IsPending told.dispatcher reason (rw same pending))
        (λ d (p, st). (
          _,
          refl,
          ended-IsGood told d (alike-IsSound quiet told alike sound)
              (alike-IsCounted quiet told alike counted) (alike.stopped ∙ kept.stopped) p st,
        )))

pub watch-IsGood : (f : Fleet) (now : ℕ) (h : Happening) → IsGood f → IsGood (watch f now h)
watch-IsGood f now h g =
    let kept = watch-IsKept f now h in
    record {
      sound = watch-IsSound f now h g.sound;
      counted = kept-IsCounted f (watch f now h) kept g.counted;
      pending =
          like-IsPending f.dispatcher (watch f now h).dispatcher kept.queue kept.inflight g.pending;
      ended = kept.halted ∙ g.ended ∙ sym kept.stopped;
    }

-- ===== src/Fleet/Good.antt =====
-- The invariant of a whole fleet, and the calls that leave its registry alone.
use automationfleet.Base.{
  ℕ, ◌≡◌, refl, sym, ◌∙◌, ap, String, true, false, none, some, List, arith, str_eq,
}
use automationfleet.Config.{FleetOption}
use automationfleet.Queue.Order.{empty-IsValid}
use automationfleet.Dispatcher
use automationfleet.Dispatcher.{Dispatcher, new_dispatcher}
use automationfleet.Dispatcher.Pause.{has_reason-pause, has_reason-resume}
use automationfleet.Watchdog.{reason_user_takeover}
use automationfleet.Fleet.{Fleet, new, pause, resume, start}
use automationfleet.Fleet.Takeover.{
  auto_paused, pause-IsSameBut, pause-dispatcher, resume-IsSameBut, resume-dispatcher,
}
use automationfleet.Fleet.Invariant.{IsSound}
use automationfleet.Fleet.Registry.{IsCounted, empty, natives}
use automationfleet.Fleet.Pending.{IsPending}

-- The watchdog is in step, the native browsers are counted, the pending jobs are awaited, and the
-- fleet and its dispatcher stop together.
pub record IsGood (f : Fleet) : Type 0 where
  pub sound : IsSound f
  pub counted : IsCounted f
  pub pending : IsPending f.dispatcher
  pub ended : f.dispatcher.stopped ≡ f.stopped

pub new-IsGood : (opts : List FleetOption) (job_seq : ℕ) → IsGood (new opts job_seq)
unfolding new new_dispatcher natives Dispatcher.has_reason Dispatcher.contains
new-IsGood opts job_seq = record {
  sound = record {
    in_step = record { hooked = refl; held = refl; alive = λ e. refl; halted = λ e. e };
    needed = λ e. absurd (ground arith);
  };
  counted = record { is_map = empty; counted = refl };
  pending = record { valid = empty-IsValid; awaited = omega arith };
  ended = refl;
}

-- What the invariant reads of a fleet, apart from its queue.
pub record IsAlike (f f' : Fleet) : Type 0 where
  pub handles : f'.handles ≡ f.handles
  pub native_count : f'.native_count ≡ f.native_count
  pub stopped : f'.stopped ≡ f.stopped
  pub watchdog : f'.watchdog ≡ f.watchdog
  pub hook : f'.hook ≡ f.hook
  pub halted : f'.dispatcher.stopped ≡ f.dispatcher.stopped
  pub reason : auto_paused f' ≡ auto_paused f

pub alike-IsSound : (f f' : Fleet) → IsAlike f f' → IsSound f → IsSound f'
alike-IsSound f f' a s = record {
  in_step = record {
    hooked = a.hook ∙ s.in_step.hooked ∙ rw a.watchdog refl;
    held = a.reason ∙ s.in_step.held ∙ rw a.watchdog refl;
    alive = λ e.
        a.halted
        ∙ s.in_step.alive (ap (λ w. elim w [ none ↦ false | some k ↦ true ]) (sym a.watchdog) ∙ e);
    halted = λ e. a.stopped ∙ s.in_step.halted (sym a.halted ∙ e);
  };
  needed = λ e. rw a.native_count (
      rw a.stopped
        (s.needed (ap (λ w. elim w [ none ↦ false | some k ↦ true ]) (sym a.watchdog) ∙ e)));
}

pub alike-IsCounted : (f f' : Fleet) → IsAlike f f' → IsCounted f → IsCounted f'
alike-IsCounted f f' a c = record {
  is_map = rw a.handles c.is_map;
  counted = a.native_count ∙ rw a.handles c.counted;
}

pub alike-IsGood : (f f' : Fleet) → IsAlike f f' → IsPending f'.dispatcher → IsGood f → IsGood f'
alike-IsGood f f' a p g = record {
  sound = alike-IsSound f f' a g.sound;
  counted = alike-IsCounted f f' a g.counted;
  pending = p;
  ended = a.halted ∙ g.ended ∙ sym a.stopped;
}

pub like-IsPending :
    (d d' : Dispatcher) → d'.queue ≡ d.queue → d'.inflight ≡ d.inflight → IsPending d → IsPending d'
like-IsPending d d' q n p = record { valid = rw q p.valid; awaited = rw q (rw n p.awaited) }

pub pause-IsGood :
    (f : Fleet) (r : String) → str_eq r reason_user_takeover ≡ false → IsGood f → IsGood (pause f r)
pause-IsGood f r own g =
    let same = pause-IsSameBut f r in
    let d = pause-dispatcher f r in
    alike-IsGood f (pause f r)
      (record {
        handles = same.handles;
        native_count = same.native_count;
        stopped = same.stopped;
        watchdog = same.watchdog;
        hook = same.hook;
        halted = same.halted;
        reason = rw d (has_reason-pause f.dispatcher r reason_user_takeover ∙ ground arith);
      })
      (like-IsPending f.dispatcher (pause f r).dispatcher same.queue same.inflight g.pending) g

pub resume-IsGood :
    (f : Fleet) (r : String)
    → str_eq r reason_user_takeover ≡ false
    → IsGood f
    → IsGood (resume f r)
resume-IsGood f r own g =
    let same = resume-IsSameBut f r in
    let d = resume-dispatcher f r in
    alike-IsGood f (resume f r)
      (record {
        handles = same.handles;
        native_count = same.native_count;
        stopped = same.stopped;
        watchdog = same.watchdog;
        hook = same.hook;
        halted = same.halted;
        reason = rw d (has_reason-resume f.dispatcher r reason_user_takeover ∙ ground arith);
      })
      (like-IsPending f.dispatcher (resume f r).dispatcher same.queue same.inflight g.pending) g

pub start-IsGood : (f : Fleet) → IsGood f → IsGood (start f)
unfolding start Dispatcher.start Dispatcher.has_reason
start-IsGood f g =
    alike-IsGood f (start f) (ground arith)
      (like-IsPending f.dispatcher (start f).dispatcher (ground arith) (ground arith) g.pending) g

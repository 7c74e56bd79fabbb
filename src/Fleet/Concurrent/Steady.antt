-- ===== src/Fleet/Concurrent/Steady.antt =====
-- The concurrent calls never panic.
use automationfleet.Base.{ℕ, ◌≡◌, refl, String, false, List, arith}
use automationfleet.Heap.Laws.{Yields}
use automationfleet.Config.{FleetOption}
use automationfleet.Dispatcher
use automationfleet.Dispatcher.{Dispatcher}
use automationfleet.Watchdog.{Happening, loop, mouse_move}
use automationfleet.Fleet.{
  Fleet, on_stop, callback, watch, pause, resume, start_takeover, stop_end, stop_begin,
}
use automationfleet.Fleet.Takeover.{pause-IsSameBut, resume-IsSameBut}
use automationfleet.Fleet.Invariant.{watch-IsKept, start_takeover-IsKept}
use automationfleet.Fleet.Pending.{IsPending, Yields-bind, enqueue-IsPending, abort_all-IsPending}
use automationfleet.Fleet.Good.{new-IsGood, like-IsPending}
use automationfleet.Fleet.Preserved.{callback-dispatcher}
use automationfleet.Fleet.Concurrent.{
  Call, registers, unregisters, submits, stops, After, changes, enter, Calls, ask_to_stop, forget,
  Aside, mouse, pauses, unpauses, aside, ◌⟶◌, happens, begins, turns, calls_back, is_refused,
  enters, lets_in, enqueues, follows, locks, reads, installs, asks, joins, unlocks, ends, Reach,
  here, next, initial,
}

abbrev Pending : Fleet → Type 0
Pending f = IsPending f.dispatcher

enter-dispatcher :
    (f f' : Fleet) (c : Call) (a : After) → enter f c ≡ changes f' a → f'.dispatcher ≡ f.dispatcher
unfolding enter stop_begin
enter-dispatcher f f' (registers h) a e = ground arith
enter-dispatcher f f' (unregisters id) a e = ground arith
enter-dispatcher f f' (submits j) a e = ground arith
enter-dispatcher f f' (stops r) a e = ground arith

aside-Pending : (f : Fleet) (e : Aside) → Pending f → Pending (aside f e)
unfolding aside
aside-Pending f (mouse now) p =
    let k = watch-IsKept f now mouse_move in
    like-IsPending f.dispatcher (watch f now mouse_move).dispatcher k.queue k.inflight p
aside-Pending f (pauses r) p =
    let k = pause-IsSameBut f r in
    like-IsPending f.dispatcher (pause f r).dispatcher k.queue k.inflight p
aside-Pending f (unpauses r) p =
    let k = resume-IsSameBut f r in
    like-IsPending f.dispatcher (resume f r).dispatcher k.queue k.inflight p

ask_to_stop-dispatcher : (f : Fleet) → (ask_to_stop f).dispatcher ≡ f.dispatcher
unfolding ask_to_stop
ask_to_stop-dispatcher f = ground arith

stop_end-Pending : (f : Fleet) (r : String) → Pending f → Yields Pending (stop_end f r)
unfolding stop_end
stop_end-Pending f r p =
    let told : Fleet = callback f f.cfg.on_stop (λ cb. on_stop cb r) in
    let same = callback-dispatcher f f.cfg.on_stop (λ cb. on_stop cb r) in
    Yields-bind Pending (Dispatcher.abort_all told.dispatcher r) _
      (abort_all-IsPending told.dispatcher r (rw same p)) (λ d (q, st). (_, refl, q))

record Steady (s : Calls) : Type 0 where
  alive : s.crashed ≡ false
  pending : Pending s.fleet

watch-Steady : (s : Calls) (now : ℕ) (h : Happening) → Steady s → Pending (watch s.fleet now h)
watch-Steady s now h v =
    let k = watch-IsKept s.fleet now h in
    like-IsPending s.fleet.dispatcher (watch s.fleet now h).dispatcher k.queue k.inflight v.pending

step-Steady : {s t : Calls} → s ⟶ t → Steady s → Steady t
step-Steady (begins c) v = record { alive = v.alive; pending = v.pending }
step-Steady {s} (happens e) v = record {
  alive = v.alive;
  pending = aside-Pending s.fleet e v.pending;
}
step-Steady {s} (turns now c free) v = record {
  alive = v.alive;
  pending = watch-Steady s now (loop c) v;
}
step-Steady {s} (calls_back now case c free fires) v = record {
  alive = v.alive;
  pending = watch-Steady s now (loop case) v;
}
step-Steady (is_refused before after o c e at_ said) v = record {
  alive = v.alive;
  pending = v.pending;
}
step-Steady {s} (enters before after o c f a at_ said) v = record {
  alive = v.alive;
  pending = rw (enter-dispatcher s.fleet f c a said) v.pending;
}
step-Steady (lets_in before after o c j at_ said) v = record {
  alive = v.alive;
  pending = v.pending;
}
step-Steady {s} (enqueues before after o j now at_) v =
    let ((ch, d), e, (p, k)) = enqueue-IsPending s.fleet.dispatcher j now v.pending in
    rw e (record { alive = v.alive; pending = p })
step-Steady (follows before after o c at_ said over) v = record {
  alive = v.alive;
  pending = v.pending;
}
step-Steady (locks before after o a at_ free) v = record { alive = v.alive; pending = v.pending }
step-Steady (reads before after o a at_) v = record { alive = v.alive; pending = v.pending }
step-Steady {s} (installs before after o a sched at_) v =
    let k = start_takeover-IsKept s.fleet sched in
    record {
      alive = v.alive;
      pending =
          like-IsPending s.fleet.dispatcher (start_takeover s.fleet sched).dispatcher k.queue
            k.inflight v.pending;
    }
step-Steady {s} (asks before after o a at_) v = record {
  alive = v.alive;
  pending = rw (ask_to_stop-dispatcher s.fleet) v.pending;
}
step-Steady (joins before after o a at_ over free) v = record {
  alive = v.alive;
  pending = unfold forget in v.pending;
}
step-Steady (unlocks before after o a at_) v = record { alive = v.alive; pending = v.pending }
step-Steady {s} (ends before after o reason at_) v =
    let (f, e, p) = stop_end-Pending s.fleet reason v.pending in
    rw e (record { alive = v.alive; pending = p })

Reach-Steady :
    (opts : List FleetOption) (job_seq : ℕ) {s : Calls} → Reach (initial opts job_seq) s → Steady s
Reach-Steady opts job_seq here = record {
  alive = refl;
  pending = (new-IsGood opts job_seq).pending;
}
Reach-Steady opts job_seq (next r alive st) = step-Steady st (Reach-Steady opts job_seq r)

pub calls_never_panic :
    (opts : List FleetOption) (job_seq : ℕ) {s : Calls}
    → Reach (initial opts job_seq) s
    → s.crashed ≡ false
calls_never_panic opts job_seq r = (Reach-Steady opts job_seq r).alive

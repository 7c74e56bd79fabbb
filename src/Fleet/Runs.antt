-- ===== src/Fleet/Runs.antt =====
-- Sequences of calls of a fleet: no call panics, and the invariants of its parts hold throughout.
use automationfleet.Base.{
  ℕ, ◌≡◌, ap, sym, ◌∙◌, refl, String, true, false, Option, some, ◌>>=◌, List, [], ◌∷◌, arith, ℤ,
  Option-cases, inl, inr, str_eq,
}
use automationfleet.Heap.Laws.{Yields}
use automationfleet.Job.{Job}
use automationfleet.Driver.{BrowserHandle}
use automationfleet.Config.{FleetOption}
use automationfleet.Watchdog.{Happening, reason_user_takeover}
use automationfleet.Fleet.{
  Fleet, Schedule, new, register, unregister, pause, resume, submit, request_stop, start, watch,
  snapshot,
}
use automationfleet.Fleet.Pending.{Yields-bind}
use automationfleet.Fleet.Good.{IsGood, new-IsGood, pause-IsGood, resume-IsGood, start-IsGood}
use automationfleet.Fleet.Preserved.{
  register-IsGood, unregister-IsGood, submit-IsGood, request_stop-IsGood, watch-IsGood,
}

-- The calls of the public interface, and what happens to the installed watchdog.
pub data Call : Type 0 where
  registers : Option BrowserHandle → Schedule → Call
  unregisters : String → Schedule → Call
  submits : Job → ℤ → Call
  pauses_for resumes_for : String → Call
  stops : String → Schedule → Call
  starts : Call
  watches : ℕ → Happening → Call

pub call : Fleet → Call → Option Fleet
call f (registers h s) = some (register f h s).1
call f (unregisters id s) = some (unregister f id s).1
call f (submits j now) = submit f j now >>= λ r. some r.1
call f (pauses_for reason) = some (pause f reason)
call f (resumes_for reason) = some (resume f reason)
call f (stops reason s) = request_stop f reason s
call f starts = some (start f)
call f (watches now h) = some (watch f now h)

unfoldable pub run : Fleet → List Call → Option Fleet
unfolding call
run f [] = some f
run f (c ∷ cs) = call f c >>= λ f'. run f' cs

-- The reason of the watchdog is left to the watchdog.
abbrev pub IsOwn : Call → Type 0
IsOwn (pauses_for reason) = str_eq reason reason_user_takeover ≡ false
IsOwn (resumes_for reason) = str_eq reason reason_user_takeover ≡ false
IsOwn _ = Unit {0}

abbrev pub AreOwn : List Call → Type 0
AreOwn [] = Unit {0}
AreOwn (c ∷ cs) = IsOwn c × AreOwn cs

call-IsGood : (f : Fleet) (c : Call) → IsOwn c → IsGood f → Yields IsGood (call f c)
unfolding call
call-IsGood f (registers h s) own g = (_, refl, register-IsGood f h s g)
call-IsGood f (unregisters id s) own g = (_, refl, unregister-IsGood f id s g)
call-IsGood f (submits j now) own g =
    Yields-bind IsGood (submit f j now) (λ r. some r.1) (submit-IsGood f j now g)
      (λ r k. (r.1, refl, k))
call-IsGood f (pauses_for reason) own g = (_, refl, pause-IsGood f reason own g)
call-IsGood f (resumes_for reason) own g = (_, refl, resume-IsGood f reason own g)
call-IsGood f (stops reason s) own g = request_stop-IsGood f reason s g
call-IsGood f starts own g = (_, refl, start-IsGood f g)
call-IsGood f (watches now h) own g = (_, refl, watch-IsGood f now h g)

run-IsGood' : (f : Fleet) (cs : List Call) → AreOwn cs → IsGood f → Yields IsGood (run f cs)
unfolding run
run-IsGood' f [] own g = (f, refl, g)
run-IsGood' f (c ∷ cs) own g =
    Yields-bind IsGood (call f c) (λ f'. run f' cs) (call-IsGood f c own.0 g)
      (λ f' g'. run-IsGood' f' cs own.1 g')

-- No sequence of calls of a new fleet panics, whatever its options, if the calls leave the reason of
-- the watchdog to the watchdog. After it the watchdog is in step and is installed only if there is a
-- native browser and the fleet is not stopped, the registry is a map whose native browsers are
-- counted, the queue is valid and the wait group counts at least its jobs.
pub run-IsGood :
    (opts : List FleetOption) (job_seq : ℕ) (cs : List Call)
    → AreOwn cs
    → Yields IsGood (run (new opts job_seq) cs)
run-IsGood opts job_seq cs own = run-IsGood' (new opts job_seq) cs own (new-IsGood opts job_seq)

auto_paused_good :
    (f : Fleet)
    → IsGood f
    → (snapshot f).auto_paused ≡ true
    → ((snapshot f).has_native ≡ true) × (f.stopped ≡ false)
unfolding snapshot
auto_paused_good f g e = elim (Option-cases f.watchdog) [
  | inl n ↦ absurd (ground (arith, g.sound.in_step.held))
  | inr (w, o) ↦ let needed = g.sound.needed (ground arith) in ground arith
]

yielded : {A : Type 0} (P : A → Type 0) (o : Option A) (a : A) → o ≡ some a → Yields P o → P a
yielded P o a e (b, e', p) =
    let same : a ≡ b = ap (λ k. elim k [ some x ↦ x | _ ↦ a ]) (sym e ∙ e') in rw same p

-- After any sequence of calls that leaves the reason of the watchdog to the watchdog, a fleet that
-- reports a takeover pause also reports a native browser, and is not stopped.
pub auto_paused_needs_native :
    (opts : List FleetOption) (job_seq : ℕ) (cs : List Call) (f : Fleet)
    → AreOwn cs
    → run (new opts job_seq) cs ≡ some f
    → (snapshot f).auto_paused ≡ true
    → ((snapshot f).has_native ≡ true) × (f.stopped ≡ false)
auto_paused_needs_native opts job_seq cs f own e =
    auto_paused_good f
      (yielded IsGood (run (new opts job_seq) cs) f e (run-IsGood opts job_seq cs own))

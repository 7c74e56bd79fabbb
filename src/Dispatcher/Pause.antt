-- ===== src/Dispatcher/Pause.antt =====
-- The pause reasons of dispatcher.go: pause, resume, isPaused and hasReason.
use automationfleet.Base.{
  ◌<◌, ◌≡◌, refl, ◌↔◌, String, Bool, true, false, not, ◌&&◌, ◌||◌, List, [], ◌∷◌, arith, str_eq,
  str_eq_iff, str_eq_refl, length, Bool-cases, if◌then◌else◌, inl, inr,
}
use automationfleet.Dispatcher.{
  Dispatcher, contains, insert, delete, is_paused, has_reason, pause, resume,
}

contains-insert :
    (r q : String) (rs : List String) → contains q (insert r rs) ≡ (str_eq r q || contains q rs)
unfolding contains insert
contains-insert r q rs = elim (Bool-cases (contains r rs)) [
  | inl old ↦ rw old (present rs old)
  | inr new ↦ rw new refl
]
  where
    present :
        (rs : List String) → contains r rs ≡ true → contains q rs ≡ (str_eq r q || contains q rs)
    present [] h = ground arith
    present (s ∷ rs) h = ground (arith, str_eq_iff s r, str_eq_iff s q, str_eq_iff r q, present rs)

contains-delete :
    (r q : String) (rs : List String)
    → contains q (delete r rs) ≡ (contains q rs && not (str_eq r q))
unfolding contains delete
contains-delete r q [] = refl
contains-delete r q (s ∷ rs) =
    ground (arith, str_eq_iff s r, str_eq_iff s q, str_eq_iff r q, contains-delete r q rs)

-- Pausing adds exactly its reason, and changes no other; a stopped dispatcher ignores it.
pub has_reason-pause :
    (d : Dispatcher) (r q : String)
    → has_reason (pause d r).1 q
      ≡ (if d.stopped then has_reason d q else str_eq r q || has_reason d q)
unfolding has_reason pause
has_reason-pause d r q = ground (arith, contains-insert r q d.pause_reasons)

-- Resuming a dispatcher that is not stopped removes exactly its reason, whatever else holds it; a
-- stopped one keeps its reasons.
pub has_reason-resume :
    (d : Dispatcher) (r q : String)
    → has_reason (resume d r).1 q
      ≡ (if d.stopped then has_reason d q else has_reason d q && not (str_eq r q))
unfolding has_reason resume
has_reason-resume d r q = ground (arith, contains-delete r q d.pause_reasons, str_eq_iff r q)

some_contained : (rs : List String) → 0 < length rs → (r : String) × (contains r rs ≡ true)
unfolding contains
some_contained [] h = absurd (omega arith)
some_contained (s ∷ rs) h = (s, rw str_eq_refl)

contained_some : (r : String) (rs : List String) → contains r rs ≡ true → 0 < length rs
unfolding contains
contained_some r [] h = ground arith
contained_some r (s ∷ rs) h = omega arith

-- The dispatcher is paused exactly while some reason is active.
pub is_paused_iff :
    (d : Dispatcher) → (is_paused d ≡ true) ↔ ((r : String) × (has_reason d r ≡ true))
unfolding is_paused has_reason
is_paused_iff d = (
  λ h. some_contained d.pause_reasons (ground arith),
  λ (r, h). let some_left = contained_some r d.pause_reasons h in ground arith,
)

-- Neither call touches anything but the reasons.
pub pause-frame :
    (d : Dispatcher) (r : String)
    → (pause d r).1 ≡ record d { pause_reasons = (pause d r).1.pause_reasons }
unfolding pause
pause-frame d r = ground arith

pub resume-frame :
    (d : Dispatcher) (r : String)
    → (resume d r).1 ≡ record d { pause_reasons = (resume d r).1.pause_reasons }
unfolding resume
resume-frame d r = ground arith

-- What a call of pause or resume reports to the fleet.
pub data Event : Type 0 where
  on_pause on_resume : Event

pub data Call : Type 0 where
  pauses resumes : String → Call

pub call : Dispatcher → Call → Bool × Dispatcher
call d (pauses r) = pause d r
call d (resumes r) = resume d r

event_of : Call → Event
event_of (pauses r) = on_pause
event_of (resumes r) = on_resume

-- The events of a sequence of calls, in order, and the state after it.
unfoldable pub events : Dispatcher → List Call → List Event × Dispatcher
unfolding call event_of
events d [] = ([], d)
events d (c ∷ cs) =
    let (fired, d') = call d c in
    let rest = events d' cs in (if fired then event_of c ∷ rest.0 else rest.0, rest.1)

-- The events alternate, beginning with a pause if the dispatcher runs and with a resume if not,
-- and the last one says whether it is paused in the end.
pub data Alternates : Bool → List Event → Bool → Type 0 where
  quiet : {b : Bool} → Alternates b [] b
  paused : {es : List Event} {b : Bool} → Alternates true es b → Alternates false (on_pause ∷ es) b
  resumed :
      {es : List Event} {b : Bool} → Alternates false es b → Alternates true (on_resume ∷ es) b

insert_some : (r : String) (rs : List String) → 0 < length (insert r rs)
unfolding insert contains
insert_some r [] = omega arith
insert_some r (s ∷ rs) = ground arith

-- A pause is reported exactly when it is the one that stops the dispatcher from running.
pub pause_fires_iff :
    (d : Dispatcher) (r : String)
    → ((pause d r).0 ≡ true) ↔ ((is_paused d ≡ false) × (is_paused (pause d r).1 ≡ true))
unfolding pause insert
pause_fires_iff d r = ground (arith, insert_some r d.pause_reasons)

-- A resume is reported exactly when it is the one that lets the dispatcher run again.
pub resume_fires_iff :
    (d : Dispatcher) (r : String)
    → ((resume d r).0 ≡ true) ↔ ((is_paused d ≡ true) × (is_paused (resume d r).1 ≡ false))
unfolding resume
resume_fires_iff d r = ground (arith, contained_some r d.pause_reasons)

pause-silent :
    (d : Dispatcher) (r : String) → (pause d r).0 ≡ false → is_paused (pause d r).1 ≡ is_paused d
unfolding pause
pause-silent d r h = ground (arith, insert_some r d.pause_reasons)

resume-silent :
    (d : Dispatcher) (r : String) → (resume d r).0 ≡ false → is_paused (resume d r).1 ≡ is_paused d
unfolding resume
resume-silent d r h = ground (arith, contained_some r d.pause_reasons)

call-Alternates :
    (d : Dispatcher) (c : Call) {es : List Event} {b : Bool}
    → Alternates (is_paused (call d c).1) es b
    → Alternates (is_paused d) (if (call d c).0 then event_of c ∷ es else es) b
unfolding call event_of
call-Alternates d (pauses r) a = elim (Bool-cases (pause d r).0) [
  | inl fired ↦
      let change = (pause_fires_iff d r).0 fired in rw (fired, change.0) (paused (rw change.1 at a))
  | inr silent ↦ rw silent (rw (pause-silent d r silent) at a)
]
call-Alternates d (resumes r) a = elim (Bool-cases (resume d r).0) [
  | inl fired ↦
      let change = (resume_fires_iff d r).0 fired in
      rw (fired, change.0) (resumed (rw change.1 at a))
  | inr silent ↦ rw silent (rw (resume-silent d r silent) at a)
]

-- Whatever the calls of pause and resume and their reasons, the reports OnPause and OnResume
-- alternate, and the last of them tells whether the dispatcher is paused in the end.
pub events-Alternates :
    (d : Dispatcher) (cs : List Call)
    → Alternates (is_paused d) (events d cs).0 (is_paused (events d cs).1)
unfolding events
events-Alternates d [] = quiet
events-Alternates d (c ∷ cs) = call-Alternates d c (events-Alternates (call d c).1 cs)

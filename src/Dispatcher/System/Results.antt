-- ===== src/Dispatcher/System/Results.antt =====
-- The channels for the results: a delivery fills and closes one open channel, and changes no
-- channel that is closed.
use automationfleet.Base.{
  ℕ, zero, suc, ◌+◌, ◌≤◌, ◌<◌, ◌≡◌, refl, ap, inl, inr, Option-cases, true, false, none, some, List,
  [], ◌∷◌, ◌++◌, arith, ◌==◌, if◌then◌else◌, length, get_elem?,
}
use automationfleet.Job.{JobResult}
use automationfleet.Dispatcher.{ResultChan, deliver, deliver_to}

abbrev pub open_weight : ResultChan → ℕ
open_weight ch = if ch.closed then 0 else 1

-- 1 if there is an open channel at `c`.
abbrev pub open_at : List ResultChan → ℕ → ℕ
open_at [] c = 0
open_at (ch ∷ chs) zero = open_weight ch
open_at (ch ∷ chs) (suc c) = open_at chs c

-- A channel holds a result exactly when it is closed.
abbrev pub IsSettled : ResultChan → Type 0
IsSettled ch = elim ch.buffer [ none ↦ ch.closed ≡ false | some r ↦ ch.closed ≡ true ]

abbrev pub AllSettled : List ResultChan → Type 0
AllSettled [] = Unit {0}
AllSettled (ch ∷ chs) = IsSettled ch × AllSettled chs

abbrev pub new_chan : ResultChan
new_chan = record { buffer = none; closed = false }

pub open_at-le-one : (chs : List ResultChan) (c : ℕ) → open_at chs c ≤ 1
open_at-le-one [] c = omega arith
open_at-le-one (ch ∷ chs) zero = ground arith
open_at-le-one (ch ∷ chs) (suc c) = open_at-le-one chs c

pub open_at-beyond : (chs : List ResultChan) (c : ℕ) → length chs ≤ c → open_at chs c ≡ 0
open_at-beyond [] c h = refl
open_at-beyond (ch ∷ chs) zero h = absurd (omega arith)
open_at-beyond (ch ∷ chs) (suc c) h = open_at-beyond chs c (omega arith)

pub open_at-append :
    (chs : List ResultChan) (c : ℕ)
    → open_at (chs ++ new_chan ∷ []) c ≡ open_at chs c + (if c == length chs then 1 else 0)
open_at-append [] zero = refl
open_at-append [] (suc c) = ground arith
open_at-append (ch ∷ chs) zero = ground arith
open_at-append (ch ∷ chs) (suc c) = ground (arith, open_at-append chs c)

pub AllSettled-append : (chs : List ResultChan) → AllSettled chs → AllSettled (chs ++ new_chan ∷ [])
AllSettled-append [] a = (refl, tt)
AllSettled-append (ch ∷ chs) a = (a.0, AllSettled-append chs a.1)

pub deliver_to-tail :
    (ch : ResultChan) (chs : List ResultChan) (c : ℕ) (r : JobResult)
    → deliver_to (ch ∷ chs) (suc c) r ≡ ch ∷ deliver_to chs c r
unfolding deliver_to
deliver_to-tail ch chs c r = ground arith

-- Delivering to an open channel closes it and no other.
pub open_at-deliver_to :
    (chs : List ResultChan) (c k : ℕ) (r : JobResult)
    → open_at chs c ≡ 1
    → open_at (deliver_to chs c r) k + (if k == c then 1 else 0) ≡ open_at chs k
unfolding deliver_to
open_at-deliver_to [] c k r h = absurd (omega arith)
open_at-deliver_to (ch ∷ chs) zero zero r h = ground arith
open_at-deliver_to (ch ∷ chs) zero (suc k) r h = ground arith
open_at-deliver_to (ch ∷ chs) (suc c) zero r h = rw (deliver_to-tail ch chs c r) (ground arith)
open_at-deliver_to (ch ∷ chs) (suc c) (suc k) r h =
    rw (deliver_to-tail ch chs c r) (ground (arith, open_at-deliver_to chs c k r h))

deliver-IsSettled : (ch : ResultChan) (r : JobResult) → IsSettled ch → IsSettled (deliver ch r)
unfolding deliver
deliver-IsSettled ch r h = ground arith

settled_chan :
    (ch : ResultChan)
    → IsSettled ch
    → open_weight ch ≡ 0
    → (r : JobResult) × (ch ≡ record { buffer = some r; closed = true })
settled_chan ch h o = elim (Option-cases ch.buffer) [
  | inl empty ↦ absurd (ground arith)
  | inr (r, full) ↦ (r, ground arith)
]

pub AllSettled-deliver_to :
    (chs : List ResultChan) (c : ℕ) (r : JobResult)
    → AllSettled chs
    → AllSettled (deliver_to chs c r)
unfolding deliver_to
AllSettled-deliver_to [] c r a = tt
AllSettled-deliver_to (ch ∷ chs) zero r a = (deliver-IsSettled ch r a.0, a.1)
AllSettled-deliver_to (ch ∷ chs) (suc c) r a =
    rw (deliver_to-tail ch chs c r) (a.0, AllSettled-deliver_to chs c r a.1)

-- A result that has been delivered is never replaced.
pub get_elem?-deliver_to :
    (chs : List ResultChan) (c k : ℕ) (r : JobResult) {ch : ResultChan}
    → get_elem? chs k ≡ some ch
    → ch.closed ≡ true
    → get_elem? (deliver_to chs c r) k ≡ some ch
unfolding deliver_to
get_elem?-deliver_to [] c k r e h = ground arith
get_elem?-deliver_to (x ∷ chs) zero zero r e h = ground arith
get_elem?-deliver_to (x ∷ chs) zero (suc k) r e h = ground arith
get_elem?-deliver_to (x ∷ chs) (suc c) zero r e h = rw (deliver_to-tail x chs c r) e
get_elem?-deliver_to (x ∷ chs) (suc c) (suc k) r e h =
    rw (deliver_to-tail x chs c r) (get_elem?-deliver_to chs c k r e h)

pub get_elem?-append_one :
    (chs : List ResultChan) (k : ℕ) (x : ResultChan) {ch : ResultChan}
    → get_elem? chs k ≡ some ch
    → get_elem? (chs ++ x ∷ []) k ≡ some ch
get_elem?-append_one [] k x e = ground arith
get_elem?-append_one (y ∷ chs) zero x e = e
get_elem?-append_one (y ∷ chs) (suc k) x e = get_elem?-append_one chs k x e

-- In a settled store a channel that is there and not open holds its result.
pub settled_result :
    (chs : List ResultChan) (c : ℕ)
    → AllSettled chs
    → c < length chs
    → open_at chs c ≡ 0
    → (r : JobResult) × (get_elem? chs c ≡ some (record { buffer = some r; closed = true }))
settled_result [] c a h o = absurd (omega arith)
settled_result (ch ∷ chs) zero a h o = let (r, e) = settled_chan ch a.0 o in (r, ap some e)
settled_result (ch ∷ chs) (suc c) a h o = settled_result chs c a.1 (omega arith) o

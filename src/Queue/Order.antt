-- ===== src/Queue/Order.antt =====
-- The queue hands out its jobs in order: higher priority first, then in order of insertion.
use mathlib.Core.List.{Mem, Pairwise, mem-map_of_mem, mem-cons_of_mem}
use mathlib.Core.List.Perm
use automationfleet.Base.{
  ℕ, zero, suc, ◌≤◌, ◌<◌, ◌≡◌, refl, ◌⊎◌, inl, inr, true, false, Option, none, some, ◌>>=◌, List,
  [], ◌∷◌, map, Perm, arith, ◌==◌, ltb_ℤ, length, length-map, Bool-cases,
}
use automationfleet.Heap.Laws.{Yields}
use automationfleet.Heap.Order.{IsHeap}
use automationfleet.Heap.Array.{length-perm}
use automationfleet.Heap.Correct.{push_correct, pop_correct}
use automationfleet.Job.{QueuedJob, no_job}
use automationfleet.Queue.{PriorityQueue, precedes, heap_interface, push, pop, drain}
use automationfleet.Queue.Lawful.{jobs, unplaced, IsIndexed, queue-Lawful}

-- `a` may be handed out before `b`: its priority is higher, or equal and `a` is not younger.
abbrev pub Before : QueuedJob → QueuedJob → Type 0
Before a b =
    (ltb_ℤ b.job.priority a.job.priority ≡ true)
    ⊎ ((a.job.priority ≡ b.job.priority) × (a.insert_seq ≤ b.insert_seq))

pub record IsValid (pq : PriorityQueue) : Type 0 where
  pub heap : IsHeap no_job precedes (length (jobs pq)) (jobs pq)
  pub indexed : IsIndexed pq

pub empty-IsValid : IsValid (record { items = [] })
empty-IsValid = record {
  heap = λ c p q. absurd (omega arith);
  indexed = λ i p. absurd (omega arith);
}

precedes-Before : (a b : QueuedJob) → precedes b a ≡ false → Before a b
unfolding precedes
precedes-Before a b h = ground arith

-- A valid queue takes a job without panic, stays valid, and holds exactly one more job.
pub push-IsValid :
    (qj : QueuedJob) (pq : PriorityQueue)
    → IsValid pq
    → Yields (λ pq'. IsValid pq' × Perm (jobs pq') (unplaced qj ∷ jobs pq)) (push qj pq)
unfolding push
push-IsValid qj pq v =
    let (pq', e, (indexed, heap, perm)) =
      push_correct heap_interface IsIndexed jobs unplaced no_job precedes queue-Lawful qj pq
        v.indexed v.heap in
    (pq', e, (record { heap = heap; indexed = indexed }, perm))

-- What `pop` takes from a queue that is not empty.
abbrev pub Taken : PriorityQueue → Option QueuedJob × PriorityQueue → Type 0
Taken pq (o, rest) =
    (qj : QueuedJob) × (o ≡ some qj)
    × IsValid rest
    × Perm (unplaced qj ∷ jobs rest) (jobs pq)
    × ((other : QueuedJob) → Mem other (jobs pq) → Before qj other)

-- A pop from a valid queue that is not empty takes one job, which goes before all the others, and
-- leaves a valid queue of the others.
pub pop_first : (pq : PriorityQueue) → IsValid pq → 0 < length pq.items → Yields (Taken pq) (pop pq)
unfolding pop
pop_first pq v left =
    let size = length-map unplaced pq.items in
    let ((qj, rest), e, (indexed, heap, perm, first)) =
      pop_correct heap_interface IsIndexed jobs unplaced no_job precedes queue-Lawful pq v.indexed
        v.heap (omega (arith, size)) in
    let not_empty : (length pq.items == 0) ≡ false = ground arith in
    rw (not_empty, e)
      (
        (some qj, rest),
        refl,
        (
          qj,
          refl,
          record { heap = heap; indexed = indexed },
          perm,
          λ other m. precedes-Before (unplaced qj) other (first other m),
        ),
      )

pub pop-empty : (pq : PriorityQueue) → length pq.items ≡ 0 → pop pq ≡ some (none, pq)
unfolding pop
pop-empty pq h = ground arith

-- Pops until the queue is empty, as the dispatcher's worker does.
unfoldable pub pop_all : ℕ → PriorityQueue → Option (List QueuedJob)
pop_all zero pq = none
pop_all (suc k) pq = pop pq >>= λ (o, rest). elim o [
  | none ↦ some []
  | some qj ↦ pop_all k rest >>= λ out. some (qj ∷ out)
]

abbrev IsInOrder : List QueuedJob → Type 0
IsInOrder = Pairwise Before

pop_all-step :
    (k : ℕ) (pq rest : PriorityQueue) (o : Option QueuedJob) (qj : QueuedJob) (out : List QueuedJob)
    → pop pq ≡ some (o, rest)
    → o ≡ some qj
    → pop_all k rest ≡ some out
    → pop_all (suc k) pq ≡ some (qj ∷ out)
unfolding pop_all
pop_all-step k pq rest o qj out e taken e' = rw (e, pop_all) (rw (taken, pop_all) (rw e'))

abbrev pub Emptied : PriorityQueue → List QueuedJob → Type 0
Emptied pq out = Pairwise Before out × Perm (map unplaced out) (jobs pq)

-- Popping a valid queue until it is empty returns all its jobs, each once, in order: priority
-- descending, and jobs of one priority in the order of their insertion numbers.
pub pop_all-sorts :
    (k : ℕ) (pq : PriorityQueue)
    → IsValid pq
    → length pq.items < k
    → Yields (Emptied pq) (pop_all k pq)
unfolding pop_all
pop_all-sorts zero pq v f = absurd (omega arith)
pop_all-sorts (suc k) pq v f = elim (Bool-cases (length pq.items == 0)) [
  | inl none_left ↦
      let empty : pq.items ≡ [] = grind arith in
      rw (pop-empty pq (ground arith), pop_all) ([], refl, (Pairwise.nil, rw empty Perm.nil))
  | inr some_left ↦
      let ((o, rest), e, (qj, taken, v', perm, first)) = pop_first pq v (ground arith) in
      let size = length-perm perm in
      let (out, e', (sorted, all)) =
        pop_all-sorts k rest v'
          (omega (arith, size, length-map unplaced rest.items, length-map unplaced pq.items)) in
      (
        qj ∷ out,
        pop_all-step k pq rest o qj out e taken e',
        (
          Pairwise.cons
              (λ u m. first (unplaced u) (
                (Perm.mem_iff perm).0
                  (mem-cons_of_mem _ ((Perm.mem_iff all).0 (mem-map_of_mem unplaced m)))))
              sorted,
          Perm.trans (Perm.cons _ all) perm,
        ),
      )
]

-- `drain` hands over every job and leaves a valid, empty queue.
pub drain-empties :
    (pq : PriorityQueue)
    → ((drain pq).0 ≡ pq.items) × (jobs (drain pq).1 ≡ []) × IsValid (drain pq).1
unfolding drain
drain-empties pq = (refl, refl, empty-IsValid)

-- ===== src/Tests/Queues.antt =====
-- dispatcher_queue_test.go, and the theorems on the queue at its input.
use automationfleet.Base.{
  ℕ, zero, suc, ◌≡◌, refl, some, ◌>>=◌, Option, List, [], ◌∷◌, map, pos, arith,
}
use automationfleet.Heap.Order.{IsHeap}
use automationfleet.Heap.Laws.{Yields}
use automationfleet.Job.{QueuedJob, no_job}
use automationfleet.Heap
use automationfleet.Queue.{PriorityQueue, less, swap, append, take_last, precedes, push, pop}
use automationfleet.Queue.Lawful.{IsIndexed, jobs}
use automationfleet.Queue.Stable.{
  Request, pushed, popped, line_answers, queue_answers, queue-refines,
}
use automationfleet.Queue.Order.{IsValid, Emptied, pop_all, pop_all-sorts}

abbrev job : ℕ → ℕ → QueuedJob
job seq priority = record no_job {
  insert_seq = seq;
  job = record (no_job.job) { priority = pos priority };
}

abbrev empty : PriorityQueue
empty = record { items = [] }

abbrev filled : Option PriorityQueue
filled = push (job 1 5) empty >>= λ a.
    push (job 2 9) a >>= λ b. push (job 3 5) b >>= λ c. push (job 4 1) c >>= λ d. push (job 5 9) d

-- TestPriorityQueueOrder
order :
    (filled >>= λ pq. pop_all 6 pq >>= λ out. some (map (λ qj. qj.insert_seq) out))
    ≡ some (2 ∷ 5 ∷ 1 ∷ 3 ∷ 4 ∷ [])
unfolding push pop pop_all Heap.push Heap.pop less swap append take_last
order = refl

-- A queue with two jobs, in heap order.
abbrev two : PriorityQueue
two = record { items = job 2 9 ∷ record (job 1 5) { heap_idx = 1 } ∷ [] }

two-IsHeap : IsHeap no_job precedes 2 (jobs two)
unfolding precedes
two-IsHeap zero p q = absurd (omega arith)
two-IsHeap (suc zero) p q = refl
two-IsHeap (suc (suc c)) p q = absurd (omega arith)

two-IsIndexed : IsIndexed two
two-IsIndexed zero p = refl
two-IsIndexed (suc zero) p = refl
two-IsIndexed (suc (suc c)) p = absurd (omega arith)

two-IsValid : IsValid two
two-IsValid = record { heap = λ c p q. two-IsHeap c p q; indexed = λ i p. two-IsIndexed i p }

pop_all-sorts_example : Yields (Emptied two) (pop_all 3 two)
pop_all-sorts_example = pop_all-sorts 3 two two-IsValid (omega arith)

abbrev requests : List Request
requests = pushed (job 1 5) ∷ popped ∷ popped ∷ pushed (job 2 1) ∷ pushed (job 3 7) ∷ popped ∷ []

queue-refines_example : queue_answers requests empty ≡ some (line_answers requests [])
queue-refines_example = queue-refines requests (omega arith, (omega arith, (omega arith, tt)))

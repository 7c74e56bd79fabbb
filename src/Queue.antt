-- ===== src/Queue.antt =====
-- dispatcher_queue.go: the priority queue, as an implementation of heap.Interface.
-- An index out of range, a panic in Go, is `none`. The queue holds pointers to the jobs; no job is
-- in it twice, so a write to `heapIdx` is a write to the one entry.
pub mod Lawful
pub mod Order
pub mod Stable
use automationfleet.Base.{
  ℕ, ◌+◌, ◌-◌, Bool, not, Option, none, some, ◌>>=◌, List, [], ◌∷◌, ◌++◌, ltb, ◌==◌, ltb_ℤ, eqb_ℤ,
  if◌then◌else◌, length, get_elem?, set, take,
}
use automationfleet.Heap.{Interface}
use automationfleet.Heap
use automationfleet.Job.{QueuedJob}

pub record PriorityQueue : Type 0 where
  pub items : List QueuedJob

unfoldable pub len : PriorityQueue → ℕ
len pq = length pq.items

-- Priority descending, then insertion order.
unfoldable pub precedes : QueuedJob → QueuedJob → Bool
precedes a b =
    if not (eqb_ℤ a.job.priority b.job.priority)
    then ltb_ℤ b.job.priority a.job.priority
    else ltb a.insert_seq b.insert_seq

unfoldable pub less : PriorityQueue → ℕ → ℕ → Option Bool
unfolding precedes
less pq i j = get_elem? pq.items i >>= λ a. get_elem? pq.items j >>= λ b. some (precedes a b)

unfoldable pub swap : PriorityQueue → ℕ → ℕ → Option PriorityQueue
swap pq i j = get_elem? pq.items i >>= λ a. get_elem? pq.items j >>= λ b. some (record {
  items = set (set pq.items i (record b { heap_idx = i })) j (record a { heap_idx = j });
})

-- Push of heap.Interface
unfoldable pub append : QueuedJob → PriorityQueue → PriorityQueue
append qj pq = record { items = pq.items ++ record qj { heap_idx = length pq.items } ∷ [] }

-- Pop of heap.Interface
unfoldable pub take_last : PriorityQueue → Option (QueuedJob × PriorityQueue)
take_last pq =
    let n = length pq.items in
    get_elem? pq.items (n - 1) >>= λ last. some (last, record { items = take (n - 1) pq.items })

abbrev pub heap_interface : Interface PriorityQueue QueuedJob
heap_interface = record { len = len; less = less; swap = swap; push = append; pop = take_last }

unfoldable pub push : QueuedJob → PriorityQueue → Option PriorityQueue
push qj pq = Heap.push heap_interface qj pq

-- The job is none (nil) if the queue is empty.
unfoldable pub pop : PriorityQueue → Option (Option QueuedJob × PriorityQueue)
unfolding len
pop pq =
    if len pq == 0
    then some (none, pq)
    else Heap.pop heap_interface pq >>= λ (qj, rest). some (some qj, rest)

unfoldable pub drain : PriorityQueue → List QueuedJob × PriorityQueue
drain pq = (pq.items, record { items = [] })

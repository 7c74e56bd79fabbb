-- ===== src/Queue/Lawful.antt =====
-- The queue's methods satisfy what container/heap asks of them, over the jobs with their heap
-- index left out; and they keep each job's heap index equal to its place.
use automationfleet.Base.{
  ℕ, suc, ◌-◌, ◌<◌, ◌≡◌, refl, sym, ap, ◌∙◌, some, List, [], ◌∷◌, ◌++◌, map, arith, length, get_or,
  set, ◌==◌, ltb, Bool-cases, inl, inr, take, length-map, length-append, length-set, set-beyond,
  length-take_less, get_elem?-get_or, get_or-take, take-append_last, map-set, map-append_one,
  get_or-map,
}
use automationfleet.Heap.Array.{exchange, get_or-set, get_or-append, get_or-append_end}
use automationfleet.Heap.Laws.{Yields, StrictWeakOrder, Lawful}
use automationfleet.Job.{QueuedJob, no_job}
use automationfleet.Queue.{
  PriorityQueue, len, precedes, less, swap, append, take_last, heap_interface,
}

-- A job without its place in the heap.
abbrev pub unplaced : QueuedJob → QueuedJob
unplaced qj = record qj { heap_idx = 0 }

abbrev pub jobs : PriorityQueue → List QueuedJob
jobs pq = map unplaced pq.items

abbrev Indexed : List QueuedJob → Type 0
Indexed v = (i : ℕ) → i < length v → (get_or v i no_job).heap_idx ≡ i

-- Every job knows its place.
abbrev pub IsIndexed : PriorityQueue → Type 0
IsIndexed pq = Indexed pq.items

set-Indexed :
    (v : List QueuedJob) (i : ℕ) (x : QueuedJob) → x.heap_idx ≡ i → Indexed v → Indexed (set v i x)
set-Indexed v i x e g c p =
    let inside : c < length v = omega (arith, length-set v i x) in
    elim (Bool-cases (ltb i (length v))) [
      | inl fits ↦ rw (get_or-set no_job v i c x (ground arith)) (elim (Bool-cases (i == c)) [
        | inl here ↦ rw here (ground arith)
        | inr there ↦ rw there (g c inside)
      ])
      | inr misses ↦ rw (set-beyond v i x (ground arith)) (g c inside)
    ]

append-Indexed :
    (v : List QueuedJob) (x : QueuedJob) → x.heap_idx ≡ length v → Indexed v → Indexed (v ++ x ∷ [])
append-Indexed v x e g c p = elim (Bool-cases (c == length v)) [
  | inl end ↦ let same : c ≡ length v = ground arith in rw (same, get_or-append_end no_job v x) e
  | inr before ↦
      let inside : c < length v = ground (arith, length-append v (x ∷ [])) in
      rw (get_or-append no_job v (x ∷ []) c inside) (g c inside)
]

precedes-StrictWeakOrder : StrictWeakOrder QueuedJob precedes
unfolding precedes
precedes-StrictWeakOrder = record {
  asym = λ x y h. ground arith;
  not_lt_trans = λ x y z h k. ground arith;
}

jobs-len : (pq : PriorityQueue) → len pq ≡ length (jobs pq)
unfolding len
jobs-len pq = sym (length-map unplaced pq.items)

jobs-less :
    (pq : PriorityQueue) (i j : ℕ)
    → i < length (jobs pq)
    → j < length (jobs pq)
    → less pq i j ≡ some (precedes (get_or (jobs pq) i no_job) (get_or (jobs pq) j no_job))
unfolding less
jobs-less pq i j hi hj =
    let size = length-map unplaced pq.items in
    rw (
      get_elem?-get_or pq.items i no_job (omega (arith, size)),
      get_elem?-get_or pq.items j no_job (omega (arith, size)),
      get_or-map unplaced pq.items i no_job,
      get_or-map unplaced pq.items j no_job,
    )

-- The jobs at `i` and `j` of a list, exchanged, each with its new place.
abbrev swapped : List QueuedJob → ℕ → ℕ → List QueuedJob
swapped v i j =
    set (set v i (record (get_or v j no_job) { heap_idx = i })) j
      (record (get_or v i no_job) { heap_idx = j })

map-swapped :
    (v : List QueuedJob) (i j : ℕ)
    → map unplaced (swapped v i j) ≡ exchange no_job (map unplaced v) i j
map-swapped v i j =
    map-set unplaced _ j _
    ∙ ap (λ u. set u j (unplaced (get_or v i no_job))) (map-set unplaced v i _)
    ∙ rw (get_or-map unplaced v i no_job, get_or-map unplaced v j no_job)

jobs-swap :
    (pq : PriorityQueue) (i j : ℕ)
    → IsIndexed pq
    → i < length (jobs pq)
    → j < length (jobs pq)
    → Yields (λ pq'. (jobs pq' ≡ exchange no_job (jobs pq) i j) × IsIndexed pq') (swap pq i j)
unfolding swap
jobs-swap pq i j g hi hj =
    let size = length-map unplaced pq.items in
    let ri : i < length pq.items = omega (arith, size) in
    let rj : j < length pq.items = omega (arith, size) in
    rw (get_elem?-get_or pq.items i no_job ri, get_elem?-get_or pq.items j no_job rj)
      (
        record { items = swapped pq.items i j },
        refl,
        (map-swapped pq.items i j, set-Indexed _ j _ refl (set-Indexed pq.items i _ refl g)),
      )

jobs-append :
    (qj : QueuedJob) (pq : PriorityQueue) → jobs (append qj pq) ≡ jobs pq ++ unplaced qj ∷ []
unfolding append
jobs-append qj pq = map-append_one unplaced pq.items _

append-IsIndexed : (qj : QueuedJob) (pq : PriorityQueue) → IsIndexed pq → IsIndexed (append qj pq)
unfolding append
append-IsIndexed qj pq g = append-Indexed pq.items _ refl g

jobs-take_last :
    (pq : PriorityQueue)
    → IsIndexed pq
    → 0 < length (jobs pq)
    → Yields
        (λ (qj, rest). (jobs pq ≡ jobs rest ++ unplaced qj ∷ []) × IsIndexed rest)
        (take_last pq)
unfolding take_last
jobs-take_last pq g h =
    let v = pq.items in
    let n : ℕ = length v - 1 in
    let size : length v ≡ suc n = omega (arith, length-map unplaced v) in
    let last = get_or v n no_job in
    let kept = length-take_less n v (omega arith) in
    rw (get_elem?-get_or v n no_job (omega arith)) (
      (last, record { items = take n v }),
      refl,
      (
        ap (map unplaced) (take-append_last n v no_job size)
            ∙ map-append_one unplaced (take n v) last,
        λ c p.
            let inside : c < n = omega (arith, kept) in
            rw (get_or-take n v c no_job inside) (g c (omega arith)),
      ),
    )

pub queue-Lawful : Lawful heap_interface IsIndexed jobs unplaced no_job precedes
queue-Lawful = record {
  order = precedes-StrictWeakOrder;
  len-view = jobs-len;
  less-view = jobs-less;
  swap-view = jobs-swap;
  push-view = jobs-append;
  push-Good = append-IsIndexed;
  pop-view = jobs-take_last;
}

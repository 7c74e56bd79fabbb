-- ===== src/Queue/Stable.antt =====
-- The queue against what it is meant to be: a stable priority queue.
use mathlib.Core.List.{
  Mem, Pairwise, eq-or-mem_of_mem-cons, mem-cons_self, mem-cons_of_mem, not-mem-nil,
}
use mathlib.Core.List.Perm
use mathlib.Core.Logic.{∥∥₁_elim}
use mathlib.Core.Bool.{Bool-set}
use automationfleet.Base.{
  ℕ, ◌<◌, ◌≡◌, refl, ap, ◌∙◌, inl, inr, true, Option, none, some, ◌>>=◌, List, [], ◌∷◌, Perm, arith,
  ltb_ℤ, leb, if◌then◌else◌, length, length-map, Bool-cases,
}
use text.Mathlib.TextEquality.{IsScalar-prop}
use automationfleet.Heap.Laws.{Yields}
use automationfleet.Heap.Array.{length-perm}
use automationfleet.Job.{QueuedJob}
use automationfleet.Queue.{PriorityQueue, precedes, push, pop}
use automationfleet.Queue.Lawful.{jobs, unplaced}
use automationfleet.Queue.Order.{IsValid, Before, empty-IsValid, push-IsValid, pop_first, pop-empty}

QueuedJob-set : IsSet QueuedJob
QueuedJob-set = hlevel IsScalar-prop

-- What the callers of the queue ask of it.
pub data Request : Type 0 where
  pushed : QueuedJob → Request
  popped : Request

-- The specification: a line of jobs, in which a job stands before those of lower priority and
-- behind all others.
abbrev pub line_up : QueuedJob → List QueuedJob → List QueuedJob
line_up x [] = x ∷ []
line_up x (y ∷ ys) = if ltb_ℤ y.job.priority x.job.priority then x ∷ y ∷ ys else y ∷ line_up x ys

-- What the pops of a sequence of requests are to return, from a line on.
unfoldable pub line_answers : List Request → List QueuedJob → List (Option QueuedJob)
line_answers [] line = []
line_answers (pushed qj ∷ rs) line = line_answers rs (line_up (unplaced qj) line)
line_answers (popped ∷ rs) [] = none ∷ line_answers rs []
line_answers (popped ∷ rs) (x ∷ line) = some x ∷ line_answers rs line

abbrev pub unplaced_answer : Option QueuedJob → Option QueuedJob
unplaced_answer none = none
unplaced_answer (some qj) = some (unplaced qj)

-- What the pops of the queue do return, without the jobs' heap indexes; none is a panic.
unfoldable pub queue_answers : List Request → PriorityQueue → Option (List (Option QueuedJob))
queue_answers [] pq = some []
queue_answers (pushed qj ∷ rs) pq = push qj pq >>= λ pq'. queue_answers rs pq'
queue_answers (popped ∷ rs) pq =
    pop pq >>= λ (o, pq'). queue_answers rs pq' >>= λ out. some (unplaced_answer o ∷ out)

-- Every insertion number is larger than those before it.
abbrev pub Numbered : ℕ → List Request → Type 0
Numbered n [] = Unit
Numbered n (pushed qj ∷ rs) = (n < qj.insert_seq) × Numbered qj.insert_seq rs
Numbered n (popped ∷ rs) = Numbered n rs

abbrev Ahead : QueuedJob → QueuedJob → Type 0
Ahead a b = precedes a b ≡ true

-- The line holds the jobs of the queue, in order, with insertion numbers up to `n`.
record Agrees (n : ℕ) (pq : PriorityQueue) (line : List QueuedJob) : Type 0 where
  valid : IsValid pq
  same : Perm (jobs pq) line
  ordered : Pairwise Ahead line
  old : (x : QueuedJob) → Mem x line → leb x.insert_seq n ≡ true

line_up-perm : (x : QueuedJob) (line : List QueuedJob) → Perm (line_up x line) (x ∷ line)
line_up-perm x [] = Perm.refl _
line_up-perm x (y ∷ ys) = elim (Bool-cases (ltb_ℤ y.job.priority x.job.priority)) [
  | inl before ↦ rw before (Perm.refl _)
  | inr behind ↦ rw behind (Perm.trans (Perm.cons y (line_up-perm x ys)) (Perm.swap x y ys))
]

line_up-ordered :
    (x : QueuedJob) (line : List QueuedJob)
    → ((y : QueuedJob) → Mem y line → y.insert_seq < x.insert_seq)
    → Pairwise Ahead line
    → Pairwise Ahead (line_up x line)
unfolding precedes
line_up-ordered x [] young p = Pairwise.cons (λ u m. absurd (not-mem-nil m)) Pairwise.nil
line_up-ordered x (y ∷ ys) young (Pairwise.cons first p) =
    elim (Bool-cases (ltb_ℤ y.job.priority x.job.priority)) [
      | inl before ↦ rw before (
          Pairwise.cons
            (λ u m.
              ∥∥₁_elim (eq-or-mem_of_mem-cons m) (Bool-set _ _)
                (λ c. elim c [ inl e ↦ rw e (ground arith) | inr m' ↦ ground (arith, first u m') ]))
            (Pairwise.cons first p))
      | inr behind ↦ rw behind (
          Pairwise.cons
            (λ u m.
              ∥∥₁_elim (eq-or-mem_of_mem-cons ((Perm.mem_iff (line_up-perm x ys)).0 m))
                (Bool-set _ _)
                (λ c. elim c [
                  | inl e ↦ rw e (ground (arith, young y mem-cons_self))
                  | inr m' ↦ first u m'
                ]))
            (line_up-ordered x ys (λ u m. young u (mem-cons_of_mem y m)) p))
    ]

-- The first job of the line is the one that goes before all others.
first_unique :
    (x y : QueuedJob) (rest line : List QueuedJob)
    → Perm (x ∷ rest) (y ∷ line)
    → Pairwise Ahead (y ∷ line)
    → Before x y
    → x ≡ y
unfolding precedes
first_unique x y rest line p (Pairwise.cons first q) b =
    ∥∥₁_elim (eq-or-mem_of_mem-cons ((Perm.mem_iff p).0 mem-cons_self)) (QueuedJob-set _ _)
      (λ c. elim c [ inl e ↦ e | inr m ↦ absurd (ground (arith, first x m, b)) ])

push-Agrees :
    (n : ℕ) (qj : QueuedJob) (pq : PriorityQueue) (line : List QueuedJob)
    → n < qj.insert_seq
    → Agrees n pq line
    → Yields (λ pq'. Agrees qj.insert_seq pq' (line_up (unplaced qj) line)) (push qj pq)
push-Agrees n qj pq line young a =
    let (pq', e, (valid, perm)) = push-IsValid qj pq a.valid in
    let lined = line_up-perm (unplaced qj) line in
    (
      pq',
      e,
      record {
        valid = valid;
        same = Perm.trans perm (Perm.trans (Perm.cons _ a.same) (Perm.symm lined));
        ordered =
            line_up-ordered (unplaced qj) line (λ y m. ground (arith, a.old y m, young)) a.ordered;
        old = λ x m.
            ∥∥₁_elim (eq-or-mem_of_mem-cons ((Perm.mem_iff lined).0 m)) (Bool-set _ _) (λ c.
              elim c [
                | inl e ↦ ground (arith, ap (λ (j : QueuedJob). j.insert_seq) e)
                | inr m' ↦ ground (arith, a.old x m', young)
              ]);
      },
    )

pop-Agrees :
    (n : ℕ) (pq : PriorityQueue) (y : QueuedJob) (line : List QueuedJob)
    → Agrees n pq (y ∷ line)
    → Yields (λ (o, rest). (unplaced_answer o ≡ some y) × Agrees n rest line) (pop pq)
pop-Agrees n pq y line a =
    let some_left : 0 < length pq.items =
      omega (arith, length-perm a.same, length-map unplaced pq.items) in
    let ((o, rest), e, (qj, taken, valid, perm, first)) = pop_first pq a.valid some_left in
    let p = Perm.trans perm a.same in
    let same_job =
      first_unique (unplaced qj) y (jobs rest) line p a.ordered
        (first y ((Perm.mem_iff a.same).1 mem-cons_self)) in
    (
      (o, rest),
      e,
      (
        ap unplaced_answer taken ∙ ap some same_job,
        record {
          valid = valid;
          same = Perm.cons_inv (Perm.trans (rw same_job (Perm.refl _)) p);
          ordered = elim a.ordered [ Pairwise.cons f q ↦ q ];
          old = λ x m. a.old x (mem-cons_of_mem y m);
        },
      ),
    )

answers-agree :
    (n : ℕ) (rs : List Request) (pq : PriorityQueue) (line : List QueuedJob)
    → Numbered n rs
    → Agrees n pq line
    → queue_answers rs pq ≡ some (line_answers rs line)
unfolding queue_answers line_answers
answers-agree n [] pq line k a = refl
answers-agree n (pushed qj ∷ rs) pq line (young, k) a =
    let (pq', e, a') = push-Agrees n qj pq line young a in
    rw (e, queue_answers) (answers-agree qj.insert_seq rs pq' _ k a')
answers-agree n (popped ∷ rs) pq [] k a =
    let none_left : length pq.items ≡ 0 =
      omega (arith, length-perm a.same, length-map unplaced pq.items) in
    rw (pop-empty pq none_left, answers-agree n rs pq [] k a)
answers-agree n (popped ∷ rs) pq (y ∷ line) k a =
    let ((o, rest), e, (taken, a')) = pop-Agrees n pq y line a in
    rw (e, queue_answers) (rw (answers-agree n rs rest line k a', taken))

-- The queue refines the line: for every sequence of pushes and pops on an empty queue, in which each
-- job has a larger insertion number than those before it, no call panics and the pops return just
-- what the line's do.
pub queue-refines :
    (rs : List Request)
    → Numbered 0 rs
    → queue_answers rs (record { items = [] }) ≡ some (line_answers rs [])
queue-refines rs k = answers-agree 0 rs _ [] k (record {
  valid = empty-IsValid;
  same = Perm.nil;
  ordered = Pairwise.nil;
  old = λ x m. absurd (not-mem-nil m);
})

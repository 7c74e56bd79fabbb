-- ===== src/Dispatcher/System/Invariant.antt =====
-- What holds in every state that the dispatcher reaches.
use automationfleet.Base.{
  ℕ, zero, suc, ◌+◌, ◌-◌, ◌<◌, ◌≡◌, refl, sym, ap, ◌∙◌, false, some, List, [], ◌∷◌, ◌++◌, ℤ, String,
  arith, ◌==◌, if◌then◌else◌, length, total, total-append, if-intro, Perm,
}
use automationfleet.Job.{Job, JobResult, QueuedJob, next_job_id, u64}
use automationfleet.Queue.{PriorityQueue}
use automationfleet.Queue.Lawful.{jobs, unplaced}
use automationfleet.Queue.Order.{IsValid, push-IsValid}
use automationfleet.Dispatcher.{enqueue, deliver_to, wait_group_done, complete_job, cancel_one}
use automationfleet.Dispatcher.System.{
  NativeWorker, absent, CdpWorker, System, settle, settle_enqueue,
}
use automationfleet.Dispatcher.System.Ownership.{load, total-unplaced}
use automationfleet.Dispatcher.System.Results.{
  open_at, new_chan, AllSettled, open_at-le-one, open_at-append, AllSettled-append,
  open_at-deliver_to, AllSettled-deliver_to,
}

-- 1 for a job whose result goes to the channel `c`.
abbrev pub at : ℕ → ℕ → ℕ
at c k = if c == k then 1 else 0

abbrev pub one : ℕ → ℕ
one k = 1

abbrev pub rejected_at : ℕ → ℕ × JobResult → ℕ
rejected_at c (k, r) = at c k

pub record Inv (s : System) : Type 0 where
  pub valid : IsValid s.d.queue
  pub fresh : s.d.started ≡ false → (s.native ≡ absent) × (s.cdp ≡ [])
  pub counted : s.d.inflight ≡ load one s
  pub owned : (c : ℕ) → load (at c) s + total (rejected_at c) s.d.rejections ≡ open_at s.d.results c
  pub settled : AllSettled s.d.results

-- A step that only moves jobs from one holder to another.
pub move-Inv :
    (s t : System)
    → Inv s
    → IsValid t.d.queue
    → (t.d.started ≡ false → (t.native ≡ absent) × (t.cdp ≡ []))
    → t.d.inflight ≡ s.d.inflight
    → t.d.results ≡ s.d.results
    → t.d.rejections ≡ s.d.rejections
    → ((w : ℕ → ℕ) → load w t ≡ load w s)
    → Inv t
move-Inv s t v q f i r j l = record {
  valid = q;
  fresh = f;
  counted = i ∙ v.counted ∙ sym (l one);
  owned = λ c. rw (l (at c), r, j) (v.owned c);
  settled = rw r v.settled;
}

-- The channel of a job that somebody holds is open.
pub owned-open : (s : System) (c : ℕ) → Inv s → 0 < load (at c) s → open_at s.d.results c ≡ 1
owned-open s c v h = omega (arith, v.owned c, open_at-le-one s.d.results c)

-- A step that delivers the result of one accepted job.
deliver-Inv :
    (s t : System) (c : ℕ) (r : JobResult)
    → Inv s
    → IsValid t.d.queue
    → (t.d.started ≡ false → (t.native ≡ absent) × (t.cdp ≡ []))
    → suc t.d.inflight ≡ s.d.inflight
    → t.d.results ≡ deliver_to s.d.results c r
    → t.d.rejections ≡ s.d.rejections
    → ((w : ℕ → ℕ) → load w t + w c ≡ load w s)
    → Inv t
deliver-Inv s t c r v q f i e j l = record {
  valid = q;
  fresh = f;
  counted = omega (arith, v.counted, l one);
  owned = λ k.
      rw (e, j)
        (omega (
          arith,
          v.owned k,
          l (at k),
          open_at-deliver_to s.d.results c k r (owned-open s c v (ground (arith, l (at c)))),
        ));
  settled = rw e (AllSettled-deliver_to s.d.results c r v.settled);
}

pub done-some : (n : ℕ) → 0 < n → wait_group_done n ≡ some (n - 1)
unfolding wait_group_done
done-some zero h = absurd (omega arith)
done-some (suc n) h = ap some (omega arith)

-- The state in which the workers and abortAll hold the given jobs.
abbrev pub holding : System → NativeWorker → List CdpWorker → List QueuedJob → System
holding s n ws pending = record s { native = n; cdp = ws; aborting = pending }

abbrev pub Survives : System → Type 0
Survives t = Inv t × (t.crashed ≡ false)

module _ (s : System) (v : Inv s) (alive : s.crashed ≡ false) (n : NativeWorker)
    (ws : List CdpWorker) (pending : List QueuedJob) (qj : QueuedJob)
    (f : s.d.started ≡ false → (n ≡ absent) × (ws ≡ []))
    (l : (w : ℕ → ℕ) → load w (holding s n ws pending) + w qj.result ≡ load w s) where
  delivered :
      (r : JobResult)
      → Inv (record (holding s n ws pending) {
        d = record (s.d) {
          results = deliver_to s.d.results qj.result r;
          inflight = s.d.inflight - 1;
        };
      })
  delivered r =
      deliver-Inv s _ qj.result r v v.valid f (omega (arith, v.counted, l one)) refl refl l

  -- Finishing a job does not panic, and keeps the invariant.
  pub complete-Survives :
      (r : JobResult) (now : ℤ)
      → Survives (settle (holding s n ws pending) (complete_job s.d qj r now))
  unfolding complete_job
  complete-Survives r now =
      rw (done-some s.d.inflight (omega (arith, v.counted, l one))) (delivered _, alive)

  pub cancel-Survives :
      (reason : String) → Survives (settle (holding s n ws pending) (cancel_one s.d reason qj))
  unfolding cancel_one
  cancel-Survives reason =
      rw (done-some s.d.inflight (omega (arith, v.counted, l one))) (delivered _, alive)

module _ (s : System) (v : Inv s) (j : Job) (now : ℤ) where
  rejected-Inv :
      (r : JobResult)
      → Inv (record s {
        d = record (s.d) {
          results = s.d.results ++ new_chan ∷ [];
          rejections = s.d.rejections ++ (length s.d.results, r) ∷ [];
        };
      })
  rejected-Inv r = record {
    valid = v.valid;
    fresh = v.fresh;
    counted = v.counted;
    owned = λ c. omega (
      arith,
      v.owned c,
      total-append (rejected_at c) s.d.rejections ((length s.d.results, r) ∷ []),
      open_at-append s.d.results c,
    );
    settled = AllSettled-append s.d.results v.settled;
  }

  accepted-Inv :
      (qj : QueuedJob) (pq : PriorityQueue) (seq job_seq : ℕ)
      → qj.result ≡ length s.d.results
      → IsValid pq
      → Perm (jobs pq) (unplaced qj ∷ jobs s.d.queue)
      → Inv (record s {
        d = record (s.d) {
          queue = pq;
          insert_seq = seq;
          job_seq = job_seq;
          inflight = s.d.inflight + 1;
          results = s.d.results ++ new_chan ∷ [];
        };
      })
  accepted-Inv qj pq seq job_seq e valid perm = record {
    valid = valid;
    fresh = v.fresh;
    counted = omega (arith, v.counted, total-unplaced one s.d.queue pq qj perm);
    owned = λ c.
        let here : at c qj.result ≡ at c (length s.d.results) = ap (at c) e in
        omega (
          arith,
          here,
          v.owned c,
          total-unplaced (at c) s.d.queue pq qj perm,
          open_at-append s.d.results c,
        );
    settled = AllSettled-append s.d.results v.settled;
  }

  -- Submit, whether it is accepted or not.
  pub enqueue-Survives : s.crashed ≡ false → Survives (settle_enqueue s (enqueue s.d j now))
  unfolding enqueue
  enqueue-Survives alive =
      let qj : QueuedJob = record {
        id = next_job_id s.d.job_seq;
        insert_seq = u64 (s.d.insert_seq + 1);
        job = j;
        result = length s.d.results;
        enqueued = now;
        heap_idx = 0;
      } in
      let (pq, e, (valid, perm)) = push-IsValid qj s.d.queue v.valid in
      if-intro (λ o. Survives (settle_enqueue s o)) s.d.stopped (rejected-Inv _, alive)
        (rw e (accepted-Inv qj pq _ _ refl valid perm, alive))

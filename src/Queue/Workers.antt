-- ===== src/Queue/Workers.antt =====
-- internal/queue/queue.go: the workers that share the queue, as interleaved steps. The invariant
-- holds in every reachable state, and no worker sleeps through the arrival of a job.
use mathlib.Core.Bool.{false≢true}
use duvycrawl.Shared.{
  ℕ, ◌≤◌, ◌<◌, ◌≡◌, refl, subst, Bool, true, none, some, List, inl, inr, arith, ltb, Bool-cases,
}
use duvycrawl.Shared.Text.{Text, text_eq}
use duvycrawl.Shared.Int.{add64}
use duvycrawl.Queue.Defs.{ScoreOrder, Bloom, dedup_key, Job, Queue}
use duvycrawl.Queue.Ops.{dequeue}
use duvycrawl.Queue.Invariant.{IsValid}
use duvycrawl.Queue.Best.{dequeue-IsValid}
use duvycrawl.Queue.Invariant.{
  enqueue-IsValid, enqueue_batch-IsValid, enqueue_retry-IsValid, enqueue_batch_direct-IsValid,
  mark_seen-Booked, batch_loop-Booked, new-IsValid,
}
use duvycrawl.Queue.Ops.{
  broadcast, wake_waiters, suspend, resume, new, mark_seen, enqueue, enqueue_retry, enqueue_batch,
  enqueue_batch_direct, finish_batch, batch_loop, add_job,
}

module _ {F B S : Type 0} ⦃o : ScoreOrder F⦄ ⦃bl : Bloom B⦄ (ready : S → Text → S × Bool) where
  -- One atomic step of some goroutine. `waits` is an iteration of `DequeueWithWait` that found no
  -- job; `wakes` is a worker that runs again after a broadcast; `ticks` is `StartPeriodicWake`.
  pub data Step : Queue F B → Queue F B → Type 0 where
    enqueues : (q : Queue F B) (job : Job F) → Step q (enqueue q job).0
    retries : (q : Queue F B) (job : Job F) → Step q (enqueue_retry q job).0
    batches : (q : Queue F B) (jobs : List (Job F)) → Step q (enqueue_batch q jobs).0
    injects : (q : Queue F B) (jobs : List (Job F)) → Step q (enqueue_batch_direct q jobs).0
    marks : (q : Queue F B) (key : Text) → Step q (mark_seen q key)
    takes :
        (order : List (Text × List (Job F))) (s s' : S) (q q' : Queue F B) (job : Job F)
        → dequeue ready order s q ≡ some (q', s', some job)
        → Step q q'
    waits :
        (order : List (Text × List (Job F))) (s s' : S) (q q' : Queue F B)
        → dequeue ready order s q ≡ some (q', s', none)
        → Step q (suspend q')
    wakes : (q : Queue F B) → q.sleeping < q.worker_waiters → Step q (resume q)
    ticks : (q : Queue F B) → Step q (broadcast q)

  pub data Reach : Queue F B → Type 0 where
    start : Reach new
    next : {q q' : Queue F B} → Reach q → Step q q' → Reach q'

  broadcast-IsValid : (q : Queue F B) → IsValid q → IsValid (broadcast q)
  unfolding broadcast
  broadcast-IsValid q v = record {
    distinct = v.distinct;
    filed = v.filed;
    counted = v.counted;
    waiting = omega arith;
  }

  suspend-IsValid : (q : Queue F B) → IsValid q → IsValid (suspend q)
  unfolding suspend
  suspend-IsValid q v = record {
    distinct = v.distinct;
    filed = v.filed;
    counted = v.counted;
    waiting = omega (arith, v.waiting);
  }

  resume-IsValid : (q : Queue F B) → q.sleeping < q.worker_waiters → IsValid q → IsValid (resume q)
  unfolding resume
  resume-IsValid q h v = record {
    distinct = v.distinct;
    filed = v.filed;
    counted = v.counted;
    waiting = omega arith;
  }

  pub Step-IsValid : {q q' : Queue F B} → Step q q' → IsValid q → IsValid q'
  Step-IsValid (enqueues q job) v = enqueue-IsValid q job v
  Step-IsValid (retries q job) v = enqueue_retry-IsValid q job v
  Step-IsValid (batches q jobs) v = enqueue_batch-IsValid q jobs v
  Step-IsValid (injects q jobs) v = enqueue_batch_direct-IsValid q jobs v
  Step-IsValid (marks q key) v = mark_seen-Booked 0 q key v
  Step-IsValid (takes order s s' q q' job e) v = dequeue-IsValid ready order s s' q q' _ v e
  Step-IsValid (waits order s s' q q' e) v =
      suspend-IsValid q' (dequeue-IsValid ready order s s' q q' none v e)
  Step-IsValid (wakes q h) v = resume-IsValid q h v
  Step-IsValid (ticks q) v = broadcast-IsValid q v

  -- However the goroutines interleave, every state that the queue reaches from New is valid: its
  -- domains are distinct and their lists sorted, of that domain and not empty, the counters agree
  -- with the jobs held, and no more workers sleep than wait.
  pub Reach-IsValid : {q : Queue F B} → Reach q → IsValid q
  Reach-IsValid start = new-IsValid
  Reach-IsValid (next r st) = Step-IsValid st (Reach-IsValid r)

wake_waiters-sleeping :
    {F B : Type 0} (q : Queue F B) → q.sleeping ≤ q.worker_waiters → (wake_waiters q).sleeping ≡ 0
unfolding wake_waiters broadcast
wake_waiters-sleeping q h = ground arith

module _ {F B : Type 0} ⦃o : ScoreOrder F⦄ ⦃bl : Bloom B⦄ where
  -- No lost wake-up: when Enqueue accepts a job in a valid queue, no worker is left asleep.
  pub enqueue_wakes :
      (q : Queue F B) (job : Job F)
      → IsValid q
      → (enqueue q job).1 ≡ true
      → (enqueue q job).0.sleeping ≡ 0
  unfolding enqueue enqueue_retry
  enqueue_wakes q job v e = elim (Bool-cases (bl.test q.bloom (dedup_key job))) [
    | inl t ↦ absurd (false≢true (rw t at e))
    | inr t ↦ rw t (wake_waiters-sleeping _ (add_job-waiting v.waiting))
  ]
    where
      add_job-waiting :
          q.sleeping ≤ q.worker_waiters
          → (add_job (mark_seen q (dedup_key job)) job).sleeping
            ≤ (add_job (mark_seen q (dedup_key job)) job).worker_waiters
      add_job-waiting h = h

  finish_batch_wakes :
      (q : Queue F B) (added : ℕ)
      → q.sleeping ≤ q.worker_waiters
      → 0 < added
      → (finish_batch (q, added)).0.sleeping ≡ 0
  unfolding finish_batch
  finish_batch_wakes q added h k =
      rw (positive added k)
        (wake_waiters-sleeping (record q { enqueued = add64 q.enqueued added }) h)
    where
      positive : (n : ℕ) → 0 < n → ltb 0 n ≡ true
      positive n g = ground arith

  finish_batch-count : (q : Queue F B) (added : ℕ) → (finish_batch (q, added)).1 ≡ added
  unfolding finish_batch
  finish_batch-count q added = refl

  -- The same of a batch that adds at least one job.
  pub enqueue_batch_wakes :
      (q : Queue F B) (jobs : List (Job F))
      → IsValid q
      → 0 < (enqueue_batch q jobs).1
      → (enqueue_batch q jobs).0.sleeping ≡ 0
  unfolding enqueue_batch
  enqueue_batch_wakes q jobs v h =
      finish_batch_wakes (batch_loop jobs q 0).0 (batch_loop jobs q 0).1
        (batch_loop-Booked jobs q 0 v).waiting
        (subst (λ n. 0 < n) (finish_batch-count (batch_loop jobs q 0).0 (batch_loop jobs q 0).1) h)

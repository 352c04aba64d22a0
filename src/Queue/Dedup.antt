-- ===== src/Queue/Dedup.antt =====
-- internal/queue/queue.go: deduplication. A key that the Bloom filter has seen stays seen, so a job
-- is filed at most once for each key, whatever happens in between.
use duvycrawl.Shared.{
  ℕ, ◌+◌, ◌≡◌, refl, ap, ◌∙◌, Bool, true, false, Option, none, some, List, [], ◌∷◌, inl, inr, arith,
  In, Bool-cases,
}
use duvycrawl.Shared.Text.{Text, text_eq}
use duvycrawl.Queue.Defs.{ScoreOrder, Bloom, dedup_key, Job, Queue}
use duvycrawl.Queue.Ops.{dequeue}
use duvycrawl.Queue.Invariant.{pop_job_inv}
use duvycrawl.Queue.Dispatch.{Outcome, dequeue-Outcome}
use duvycrawl.Queue.Ops.{
  broadcast, suspend, resume, mark_seen, enqueue, enqueue_retry, enqueue_batch,
  enqueue_batch_direct, finish_batch, batch_loop, direct_loop, add_job,
}
use duvycrawl.Queue.Dispatch.{dequeue-Outcome, Outcome}
use duvycrawl.Queue.Workers.{
  Step, enqueues, retries, batches, injects, marks, takes, waits, wakes, ticks,
}

module _ {F B : Type 0} ⦃o : ScoreOrder F⦄ where
  add_job-bloom : (q : Queue F B) (job : Job F) → (add_job q job).bloom ≡ q.bloom
  unfolding add_job
  add_job-bloom q job = refl

  enqueue_retry-bloom : (q : Queue F B) (job : Job F) → (enqueue_retry q job).0.bloom ≡ q.bloom
  unfolding enqueue_retry broadcast
  enqueue_retry-bloom q job = ground arith

  direct_loop-bloom :
      (jobs : List (Job F)) (q : Queue F B) (n : ℕ) → (direct_loop jobs q n).0.bloom ≡ q.bloom
  unfolding direct_loop
  direct_loop-bloom [] q n = refl
  direct_loop-bloom (job ∷ jobs) q n =
      direct_loop-bloom jobs (add_job q job) (n + 1) ∙ add_job-bloom q job

  finish_batch-bloom : (q : Queue F B) (n : ℕ) → (finish_batch (q, n)).0.bloom ≡ q.bloom
  unfolding finish_batch broadcast
  finish_batch-bloom q n = ground arith

  module _ ⦃bl : Bloom B⦄ where
    abbrev pub IsSeen : Queue F B → Text → Type 0
    IsSeen q k = bl.test q.bloom k ≡ true

    batch_loop-IsSeen :
        (jobs : List (Job F)) (q : Queue F B) (n : ℕ) (k : Text)
        → IsSeen q k
        → IsSeen (batch_loop jobs q n).0 k
    unfolding batch_loop mark_seen add_job
    batch_loop-IsSeen [] q n k h = h
    batch_loop-IsSeen (job ∷ jobs) q n k h = elim (Bool-cases (bl.test q.bloom (dedup_key job))) [
      | inl t ↦ rw t (batch_loop-IsSeen jobs q n k h)
      | inr t ↦
          rw t (batch_loop-IsSeen jobs _ (n + 1) k (bl.test-add_mono q.bloom (dedup_key job) k h))
    ]

    -- After a batch, each of its jobs has its key in the filter.
    batch_loop-marks :
        (jobs : List (Job F)) (q : Queue F B) (n : ℕ) (j : Job F)
        → In j jobs
        → IsSeen (batch_loop jobs q n).0 (dedup_key j)
    unfolding batch_loop mark_seen add_job
    batch_loop-marks [] q n j m = absurd m
    batch_loop-marks (job ∷ jobs) q n j (inl e) =
        elim (Bool-cases (bl.test q.bloom (dedup_key job))) [
          | inl t ↦ rw (e, t) (batch_loop-IsSeen jobs q n (dedup_key job) t)
          | inr t ↦
              rw (e, t)
                (batch_loop-IsSeen jobs _ (n + 1) (dedup_key job)
                  (bl.test-add_self q.bloom (dedup_key job)))
        ]
    batch_loop-marks (job ∷ jobs) q n j (inr m) =
        elim (Bool-cases (bl.test q.bloom (dedup_key job))) [
          | inl t ↦ rw t (batch_loop-marks jobs q n j m)
          | inr t ↦ rw t (batch_loop-marks jobs _ (n + 1) j m)
        ]

    batch_loop_refused :
        (jobs : List (Job F)) (q : Queue F B) (n : ℕ)
        → ((j : Job F) → In j jobs → IsSeen q (dedup_key j))
        → batch_loop jobs q n ≡ (q, n)
    unfolding batch_loop
    batch_loop_refused [] q n h = refl
    batch_loop_refused (job ∷ jobs) q n h =
        rw (h job (inl refl)) (batch_loop_refused jobs q n (λ j m. h j (inr m)))

    enqueue-IsSeen :
        (q : Queue F B) (job : Job F) (k : Text) → IsSeen q k → IsSeen (enqueue q job).0 k
    unfolding enqueue mark_seen
    enqueue-IsSeen q job k h = elim (Bool-cases (bl.test q.bloom (dedup_key job))) [
      | inl t ↦ rw t h
      | inr t ↦
          rw (t, enqueue_retry-bloom (mark_seen q (dedup_key job)) job)
            (bl.test-add_mono q.bloom (dedup_key job) k h)
    ]

    pub enqueue-marks : (q : Queue F B) (job : Job F) → IsSeen (enqueue q job).0 (dedup_key job)
    unfolding enqueue mark_seen
    enqueue-marks q job = elim (Bool-cases (bl.test q.bloom (dedup_key job))) [
      | inl t ↦ rw t t
      | inr t ↦
          rw (t, enqueue_retry-bloom (mark_seen q (dedup_key job)) job)
            (bl.test-add_self q.bloom (dedup_key job))
    ]

    enqueue_batch-bloom :
        (q : Queue F B) (jobs : List (Job F))
        → (enqueue_batch q jobs).0.bloom ≡ (batch_loop jobs q 0).0.bloom
    unfolding enqueue_batch
    enqueue_batch-bloom q jobs = finish_batch-bloom (batch_loop jobs q 0).0 (batch_loop jobs q 0).1

  enqueue_batch_direct-bloom :
      (q : Queue F B) (jobs : List (Job F)) → (enqueue_batch_direct q jobs).0.bloom ≡ q.bloom
  unfolding enqueue_batch_direct
  enqueue_batch_direct-bloom q jobs =
      finish_batch-bloom (direct_loop jobs q 0).0 (direct_loop jobs q 0).1
      ∙ direct_loop-bloom jobs q 0

module _ {F B S : Type 0} ⦃o : ScoreOrder F⦄ ⦃bl : Bloom B⦄ (ready : S → Text → S × Bool) where
  dequeue-bloom :
      (order : List (Text × List (Job F))) (s s' : S) (q q' : Queue F B) (r : Option (Job F))
      → dequeue ready order s q ≡ some (q', s', r)
      → q'.bloom ≡ q.bloom
  dequeue-bloom order s s' q q' r e =
      let (p, same, out) = dequeue-Outcome ready order s s' q q' r e in go p r out ∙ same.bloom
    where
      go : (p : Queue F B) (r : Option (Job F)) → Outcome ready p q' s' r → q'.bloom ≡ p.bloom
      go p none out = ap (λ (x : Queue F B). x.bloom) out
      go p (some job) out =
          let (rest, head, after) = pop_job_inv p q' out.from job out.popped in
          ap (λ (x : Queue F B). x.bloom) after

  -- No step makes the filter forget a key.
  pub Step-IsSeen : (k : Text) {q q' : Queue F B} → Step ready q q' → IsSeen q k → IsSeen q' k
  unfolding mark_seen suspend resume broadcast
  Step-IsSeen k (enqueues q job) h = enqueue-IsSeen q job k h
  Step-IsSeen k (retries q job) h = rw (enqueue_retry-bloom q job) h
  Step-IsSeen k (batches q jobs) h =
      ap (λ b. bl.test b k) (enqueue_batch-bloom q jobs) ∙ batch_loop-IsSeen jobs q 0 k h
  Step-IsSeen k (injects q jobs) h = ap (λ b. bl.test b k) (enqueue_batch_direct-bloom q jobs) ∙ h
  Step-IsSeen k (marks q key) h = bl.test-add_mono q.bloom key k h
  Step-IsSeen k (takes order s s' q q' job e) h =
      ap (λ b. bl.test b k) (dequeue-bloom order s s' q q' (some job) e) ∙ h
  Step-IsSeen k (waits order s s' q q' e) h =
      ap (λ b. bl.test b k) (dequeue-bloom order s s' q q' none e) ∙ h
  Step-IsSeen k (wakes q g) h = h
  Step-IsSeen k (ticks q) h = h

  -- Any number of steps of any goroutines.
  pub data Run (q : Queue F B) : Queue F B → Type 0 where
    stays : Run q q
    continues : {r r' : Queue F B} → Run q r → Step ready r r' → Run q r'

  Run-IsSeen : (k : Text) {q r : Queue F B} → Run q r → IsSeen q k → IsSeen r k
  Run-IsSeen k stays h = h
  Run-IsSeen k (continues a st) h = Step-IsSeen k st (Run-IsSeen k a h)

  refuse_seen :
      (q : Queue F B) (job : Job F) → IsSeen q (dedup_key job) → enqueue q job ≡ (q, false)
  unfolding enqueue
  refuse_seen q job h = rw h

  -- Once Enqueue was called for a key, a later Enqueue of any job with that key, after any steps of
  -- any goroutines, is refused and leaves the queue as it is.
  pub enqueue_once :
      (q r : Queue F B) (job again : Job F)
      → dedup_key again ≡ dedup_key job
      → Run (enqueue q job).0 r
      → enqueue r again ≡ (r, false)
  enqueue_once q r job again same steps =
      refuse_seen r again (rw same (Run-IsSeen (dedup_key job) steps (enqueue-marks q job)))

  -- A batch that is submitted a second time adds nothing.
  pub enqueue_batch_once :
      (q r : Queue F B) (jobs : List (Job F))
      → Run (enqueue_batch q jobs).0 r
      → (enqueue_batch r jobs).1 ≡ 0
  unfolding enqueue_batch finish_batch
  enqueue_batch_once q r jobs steps =
      ap (λ x. (finish_batch x).1)
        (batch_loop_refused jobs r 0 (λ j m. Run-IsSeen (dedup_key j) steps (
          ap (λ b. bl.test b (dedup_key j)) (enqueue_batch-bloom q jobs)
          ∙ batch_loop-marks jobs q 0 j m)))

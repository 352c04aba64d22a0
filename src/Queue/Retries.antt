-- ===== src/Queue/Retries.antt =====
-- internal/queue/queue.go: a bound on the retries of the waiting jobs, kept by every operation.
use duvycrawl.Shared.{
  ℕ, zero, suc, ◌+◌, ◌≤◌, ◌≡◌, refl, sym, subst, Bool, Option, none, some, List, [], ◌∷◌, All,
  arith, inl, inr, Bool-cases,
}
use duvycrawl.Shared.Maps.{lookup, or_nil, Entries, Entries-insert, Entries-delete, Entries-lookup}
use duvycrawl.Shared.Text.{Text, text_eq}
use duvycrawl.Queue.Defs.{ScoreOrder, Bloom, Job, Queue, insert_sorted, insert_at, dedup_key}
use duvycrawl.Queue.Ops.{
  domain_jobs, set_jobs, pop_job, add_job, mark_seen, broadcast, enqueue_retry, direct_loop,
  enqueue_batch_direct, batch_loop, finish_batch, enqueue_batch, dequeue,
}
use duvycrawl.Queue.Invariant.{pop_job_inv}
use duvycrawl.Queue.Dispatch.{dequeue-Outcome}

-- Every job of the queue has at most `n` retries.
abbrev pub Within : {F : Type 0} → ℕ → List (Job F) → Type 0
Within n = All (λ j. j.retries ≤ n)

abbrev pub EntryWithin : {F : Type 0} → ℕ → Text → List (Job F) → Type 0
EntryWithin n d = Within n

abbrev pub QueueWithin : {F B : Type 0} → ℕ → Queue F B → Type 0
QueueWithin n q = Entries (EntryWithin n) q.domains

insert_at-All {ℓ} :
    {A : Type 0} (P : A → Type ℓ) (i : ℕ) (x : A) (xs : List A)
    → P x
    → All P xs
    → All P (insert_at i x xs)
unfolding insert_at
insert_at-All P zero x xs p h = (p, h)
insert_at-All P (suc i) x [] p h = (p, tt)
insert_at-All P (suc i) x (y ∷ ys) p h = (h.0, insert_at-All P i x ys p h.1)

module _ {F B : Type 0} where
  domain_jobs-Within :
      (n : ℕ) (d : Text) (q : Queue F B) → QueueWithin n q → Within n (domain_jobs q d)
  domain_jobs-Within n d q v = go (lookup d q.domains) refl
    where
      go : (r : Option (List (Job F))) → lookup d q.domains ≡ r → Within n (or_nil r)
      go none e = tt
      go (some jobs) e = Entries-lookup (EntryWithin n) d jobs q.domains v e

  pop_job-Within :
      ⦃o : ScoreOrder F⦄ (n : ℕ) (q q' : Queue F B) (d : Text) (job : Job F)
      → pop_job q d ≡ some (q', job)
      → QueueWithin n q
      → (job.retries ≤ n) × QueueWithin n q'
  pop_job-Within n q q' d job e v =
      let (rest, head, after) = pop_job_inv q q' d job e in
      let here : Within n (job ∷ rest) = subst (Within n) head (domain_jobs-Within n d q v) in
      (here.0, subst (QueueWithin n) (sym after) (set_jobs-Within rest here.1))
    where
      set_jobs-Within :
          (rest : List (Job F))
          → Within n rest
          → Entries (EntryWithin n) (set_jobs d rest q.domains)
      set_jobs-Within [] h = unfold set_jobs in Entries-delete (EntryWithin n) d q.domains v
      set_jobs-Within (j ∷ js) h =
          unfold set_jobs in Entries-insert (EntryWithin n) d (j ∷ js) q.domains h v

  pub dequeue-Within :
      ⦃o : ScoreOrder F⦄ {S : Type 0} (n : ℕ) (ready : S → Text → S × Bool)
      (order : List (Text × List (Job F))) (s s' : S) (q q' : Queue F B) (job : Job F)
      → dequeue ready order s q ≡ some (q', s', some job)
      → QueueWithin n q
      → (job.retries ≤ n) × QueueWithin n q'
  dequeue-Within n ready order s s' q q' job e v =
      let (p, same, took) = dequeue-Outcome ready order s s' q q' (some job) e in
      pop_job-Within n p q' took.from job took.popped (rw same.domains v)

  pub finish_batch-domains :
      ⦃o : ScoreOrder F⦄ (q : Queue F B) (added : ℕ)
      → (finish_batch (q, added)).0.domains ≡ q.domains
  unfolding finish_batch broadcast
  finish_batch-domains q added = ground arith

  module _ ⦃o : ScoreOrder F⦄ where
    add_job-Within :
        (n : ℕ) (q : Queue F B) (job : Job F)
        → job.retries ≤ n
        → QueueWithin n q
        → QueueWithin n (add_job q job)
    unfolding add_job insert_sorted
    add_job-Within n q job h v =
        Entries-insert (EntryWithin n) job.domain _ q.domains
          (insert_at-All (λ j. j.retries ≤ n) _ _ (domain_jobs q job.domain) h
            (domain_jobs-Within n job.domain q v))
          v

    enqueue_retry-domains :
        (q : Queue F B) (job : Job F) → (enqueue_retry q job).0.domains ≡ (add_job q job).domains
    unfolding enqueue_retry broadcast
    enqueue_retry-domains q job = ground arith

    pub enqueue_retry-Within :
        (n : ℕ) (q : Queue F B) (job : Job F)
        → job.retries ≤ n
        → QueueWithin n q
        → QueueWithin n (enqueue_retry q job).0
    enqueue_retry-Within n q job h v = rw (enqueue_retry-domains q job) (add_job-Within n q job h v)

    direct_loop-Within :
        (n : ℕ) (jobs : List (Job F)) (q : Queue F B) (added : ℕ)
        → Within n jobs
        → QueueWithin n q
        → QueueWithin n (direct_loop jobs q added).0
    unfolding direct_loop
    direct_loop-Within n [] q added h v = v
    direct_loop-Within n (job ∷ jobs) q added h v =
        direct_loop-Within n jobs (add_job q job) (added + 1) h.1 (add_job-Within n q job h.0 v)

    pub enqueue_batch_direct-Within :
        (n : ℕ) (jobs : List (Job F)) (q : Queue F B)
        → Within n jobs
        → QueueWithin n q
        → QueueWithin n (enqueue_batch_direct q jobs).0
    unfolding enqueue_batch_direct
    enqueue_batch_direct-Within n jobs q h v =
        rw (finish_batch-domains (direct_loop jobs q 0).0 (direct_loop jobs q 0).1)
          (direct_loop-Within n jobs q 0 h v)

    module _ ⦃bl : Bloom B⦄ where
      batch_loop-Within :
          (n : ℕ) (jobs : List (Job F)) (q : Queue F B) (added : ℕ)
          → Within n jobs
          → QueueWithin n q
          → QueueWithin n (batch_loop jobs q added).0
      unfolding batch_loop mark_seen
      batch_loop-Within n [] q added h v = v
      batch_loop-Within n (job ∷ jobs) q added h v =
          elim (Bool-cases (bl.test q.bloom (dedup_key job))) [
            | inl seen ↦ rw seen (batch_loop-Within n jobs q added h.1 v)
            | inr new ↦ rw new (
                batch_loop-Within n jobs (add_job (mark_seen q (dedup_key job)) job) (added + 1) h.1
                  (add_job-Within n (mark_seen q (dedup_key job)) job h.0 v))
          ]

      pub enqueue_batch-Within :
          (n : ℕ) (jobs : List (Job F)) (q : Queue F B)
          → Within n jobs
          → QueueWithin n q
          → QueueWithin n (enqueue_batch q jobs).0
      unfolding enqueue_batch
      enqueue_batch-Within n jobs q h v =
          rw (finish_batch-domains (batch_loop jobs q 0).0 (batch_loop jobs q 0).1)
            (batch_loop-Within n jobs q 0 h v)

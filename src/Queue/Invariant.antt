-- ===== src/Queue/Invariant.antt =====
-- internal/queue/queue.go: the invariant of the queue, kept by every operation.
use duvycrawl.Shared.{
  ℕ, ◌+◌, ◌%◌, ◌^◌, ◌≤◌, ◌≡◌, refl, sym, ap, subst, Option, none, some, List, [], ◌∷◌, inl, inr,
  arith, ltb, length, All, Bool-cases,
}
use duvycrawl.Shared.Maps.{
  or_nil, lookup, total, weight, Distinct, Distinct-insert, total-insert, Entries, Entries-insert,
  Entries-lookup,
}
use duvycrawl.Shared.Text.{Text, text_eq}
use duvycrawl.Shared.Int.{add64}
use duvycrawl.Queue.Defs.{ScoreOrder, Bloom, Job, Queue, insert_sorted, dedup_key}
use duvycrawl.Queue.Ops.{
  domain_jobs, set_jobs, pop_from, wake_waiters, pop_job, new, mark_seen, add_job, enqueue_retry,
  direct_loop, finish_batch, enqueue_batch_direct, enqueue, batch_loop, enqueue_batch,
}
use duvycrawl.Queue.Insert.{IsSorted, length-insert_sorted}
use duvycrawl.Queue.Filing.{
  IsFiled, insert_sorted-IsFiled, set_jobs-total, set_jobs-Distinct, set_jobs-IsFiled,
}

module _ {F : Type 0} ⦃o : ScoreOrder F⦄ where
  module _ {B : Type 0} where
    -- The invariant in the middle of a batch, when `k` jobs are filed that `enqueued` does not
    -- count yet. Both counters are 64 bits wide.
    pub record Booked (k : ℕ) (q : Queue F B) : Type 0 where
      pub distinct : Distinct q.domains
      pub filed : Entries IsFiled q.domains
      pub counted : (total length q.domains + q.dequeued) % 2 ^ 64 ≡ (q.enqueued + k) % 2 ^ 64
      pub waiting : q.sleeping ≤ q.worker_waiters

    abbrev pub IsValid : Queue F B → Type 0
    IsValid = Booked 0

    weight-domain_jobs :
        (q : Queue F B) (d : Text) → weight length (lookup d q.domains) ≡ length (domain_jobs q d)
    weight-domain_jobs q d = ground arith

    pub domain_jobs-IsSorted :
        (q : Queue F B) (d : Text)
        → Entries IsFiled q.domains
        → IsSorted (domain_jobs q d) × All (λ j. j.domain ≡ d) (domain_jobs q d)
    domain_jobs-IsSorted q d h = go (lookup d q.domains) refl
      where
        go :
            (r : Option (List (Job F)))
            → lookup d q.domains ≡ r
            → IsSorted (or_nil r) × All (λ j. j.domain ≡ d) (or_nil r)
        go none e = (tt, tt)
        go (some jobs) e =
            let f : IsFiled d jobs = Entries-lookup IsFiled d jobs q.domains h e in
            (f.sorted, f.own)

    pub add_job-Booked :
        (k : ℕ) (q : Queue F B) (job : Job F) → Booked k q → Booked (k + 1) (add_job q job)
    unfolding add_job
    add_job-Booked k q job v =
        let id : ℕ = add64 q.next_id 1 in
        let numbered : Job F = record job { id = id } in
        let old : List (Job F) = domain_jobs q job.domain in
        let new_jobs : List (Job F) = insert_sorted old numbered in
        let ordered = domain_jobs-IsSorted q job.domain v.filed in
        record {
          distinct = Distinct-insert job.domain new_jobs q.domains v.distinct;
          filed =
              Entries-insert IsFiled job.domain new_jobs q.domains
                (insert_sorted-IsFiled old numbered ordered.0 ordered.1) v.filed;
          counted = omega (
            arith,
            v.counted,
            total-insert length job.domain new_jobs q.domains,
            weight-domain_jobs q job.domain,
            length-insert_sorted old numbered ordered.0,
          );
          waiting = v.waiting;
        }

    pub wake_waiters-Booked : (k : ℕ) (q : Queue F B) → Booked k q → Booked k (wake_waiters q)
    unfolding wake_waiters
    wake_waiters-Booked k q v = ground (arith, v.distinct, v.filed, v.counted, v.waiting)

    pub finish_batch-IsValid :
        (q : Queue F B) (added : ℕ) → Booked added q → IsValid (finish_batch (q, added)).0
    unfolding finish_batch
    finish_batch-IsValid q added v =
        let counted' : Queue F B = record q { enqueued = add64 q.enqueued added } in
        let w : IsValid counted' = record {
          distinct = v.distinct;
          filed = v.filed;
          counted = omega (arith, v.counted);
          waiting = v.waiting;
        } in
        elim (Bool-cases (ltb 0 added)) [
          | inl e ↦ rw e (wake_waiters-Booked 0 counted' w)
          | inr e ↦ rw e w
        ]

    pub enqueue_retry-IsValid :
        (q : Queue F B) (job : Job F) → IsValid q → IsValid (enqueue_retry q job).0
    unfolding enqueue_retry
    enqueue_retry-IsValid q job v =
        let b = add_job-Booked 0 q job v in
        wake_waiters-Booked 0 _ (record {
          distinct = b.distinct;
          filed = b.filed;
          counted = omega (arith, b.counted);
          waiting = b.waiting;
        })

    pub direct_loop-Booked :
        (jobs : List (Job F)) (q : Queue F B) (k : ℕ)
        → Booked k q
        → Booked (direct_loop jobs q k).1 (direct_loop jobs q k).0
    unfolding direct_loop
    direct_loop-Booked [] q k v = v
    direct_loop-Booked (job ∷ jobs) q k v =
        direct_loop-Booked jobs (add_job q job) (k + 1) (add_job-Booked k q job v)

    pub enqueue_batch_direct-IsValid :
        (q : Queue F B) (jobs : List (Job F)) → IsValid q → IsValid (enqueue_batch_direct q jobs).0
    unfolding enqueue_batch_direct
    enqueue_batch_direct-IsValid q jobs v = finish_batch-IsValid _ _ (direct_loop-Booked jobs q 0 v)

    -- A call of `popJob` that returns took the head of the domain's list.
    pub pop_job_inv :
        (q q' : Queue F B) (d : Text) (job : Job F)
        → pop_job q d ≡ some (q', job)
        → (rest : List (Job F)) × (domain_jobs q d ≡ job ∷ rest)
          × (q' ≡ record q { domains = set_jobs d rest q.domains; dequeued = add64 q.dequeued 1 })
    unfolding pop_job
    pop_job_inv q q' d job e = go (domain_jobs q d) refl e
      where
        go :
            (jobs : List (Job F))
            → domain_jobs q d ≡ jobs
            → pop_from q d jobs ≡ some (q', job)
            → (rest : List (Job F)) × (domain_jobs q d ≡ job ∷ rest)
              × (q'
                  ≡ record q { domains = set_jobs d rest q.domains; dequeued = add64 q.dequeued 1 })
        go [] h e = absurd (cc)
        go (j ∷ rest) h e = (rest, ground arith, ground arith)

    pub pop_job-IsValid :
        (q q' : Queue F B) (d : Text) (job : Job F)
        → IsValid q
        → pop_job q d ≡ some (q', job)
        → IsValid q'
    pop_job-IsValid q q' d job v e =
        let (rest, head, after) = pop_job_inv q q' d job e in
        let ordered = domain_jobs-IsSorted q d v.filed in
        let sorted' : IsSorted (job ∷ rest) = subst IsSorted head ordered.0 in
        let own' : All (λ j. j.domain ≡ d) (job ∷ rest) =
          subst (All (λ j. j.domain ≡ d)) head ordered.1 in
        subst IsValid (sym after) (record {
          distinct = set_jobs-Distinct d rest q.domains v.distinct;
          filed = set_jobs-IsFiled d rest q.domains sorted'.1 own'.1 v.filed;
          counted = omega (
            arith,
            v.counted,
            set_jobs-total d rest q.domains v.distinct,
            weight-domain_jobs q d,
            ap length head,
          );
          waiting = v.waiting;
        })

  module _ {B : Type 0} ⦃bl : Bloom B⦄ where
    pub mark_seen-Booked :
        (k : ℕ) (q : Queue F B) (key : Text) → Booked k q → Booked k (mark_seen q key)
    unfolding mark_seen
    mark_seen-Booked k q key v = record {
      distinct = v.distinct;
      filed = v.filed;
      counted = v.counted;
      waiting = v.waiting;
    }

    pub enqueue-IsValid : (q : Queue F B) (job : Job F) → IsValid q → IsValid (enqueue q job).0
    unfolding enqueue
    enqueue-IsValid q job v = elim (Bool-cases (bl.test q.bloom (dedup_key job))) [
      | inl e ↦ rw e v
      | inr e ↦ rw e (enqueue_retry-IsValid _ job (mark_seen-Booked 0 q (dedup_key job) v))
    ]

    pub batch_loop-Booked :
        (jobs : List (Job F)) (q : Queue F B) (k : ℕ)
        → Booked k q
        → Booked (batch_loop jobs q k).1 (batch_loop jobs q k).0
    unfolding batch_loop
    batch_loop-Booked [] q k v = v
    batch_loop-Booked (job ∷ jobs) q k v = elim (Bool-cases (bl.test q.bloom (dedup_key job))) [
      | inl e ↦ rw e (batch_loop-Booked jobs q k v)
      | inr e ↦ rw e (
          batch_loop-Booked jobs _ (k + 1)
            (add_job-Booked k _ job (mark_seen-Booked k q (dedup_key job) v)))
    ]

    pub enqueue_batch-IsValid :
        (q : Queue F B) (jobs : List (Job F)) → IsValid q → IsValid (enqueue_batch q jobs).0
    unfolding enqueue_batch
    enqueue_batch-IsValid q jobs v = finish_batch-IsValid _ _ (batch_loop-Booked jobs q 0 v)

    pub new-IsValid : IsValid (new {F = F} {B = B})
    unfolding new
    new-IsValid = record { distinct = tt; filed = tt; counted = omega arith; waiting = omega arith }

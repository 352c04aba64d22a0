-- ===== src/Queue/Ops.antt =====
-- internal/queue/queue.go: the operations. Each call that takes the lock is one function from
-- state to state, and what `range q.domains` visits is an argument, since Go leaves the order open.
use mathlib.Core.Option
use duvycrawl.Shared.{
  ℕ, zero, suc, ◌==◌, ◌+◌, ◌-◌, Bool, true, false, Option, none, some, List, [], ◌∷◌, ltb,
  if◌then◌else◌, length, get_elem?,
}
use duvycrawl.Shared.Maps.{or_nil, lookup, insert, delete, total}
use duvycrawl.Shared.Text.{Text, text_eq}
use duvycrawl.Shared.Int.{ℤ, pos, negsuc, ◌+ℤ◌, rem, to_int, add64}
use duvycrawl.Queue.Defs.{
  ScoreOrder, Bloom, Job, Stats, Queue, dedup_key, insert_sorted, Candidate, candidates,
}

-- `q.domains[domain] = rest`, and the deletion of an empty list.
unfoldable pub set_jobs : {A : Type 0} → Text → List A → List (Text × List A) → List (Text × List A)
set_jobs d [] m = delete d m
set_jobs d (job ∷ rest) m = insert d (job ∷ rest) m

module _ {F B : Type 0} where
  abbrev pub domain_jobs : Queue F B → Text → List (Job F)
  domain_jobs q d = or_nil (lookup d q.domains)

  -- `q.cond.Broadcast()` wakes every suspended worker.
  unfoldable pub broadcast : Queue F B → Queue F B
  broadcast q = record q { sleeping = 0 }

  -- The guard that the enqueueing calls put before it.
  unfoldable pub wake_waiters : Queue F B → Queue F B
  unfolding broadcast
  wake_waiters q = if ltb 0 q.worker_waiters then broadcast q else q

  -- `popJob`; none stands for the panic of `jobs[0]`.
  unfoldable pub pop_from : Queue F B → Text → List (Job F) → Option (Queue F B × Job F)
  unfolding set_jobs
  pop_from q d [] = none
  pop_from q d (job ∷ rest) =
      some (record q { domains = set_jobs d rest q.domains; dequeued = add64 q.dequeued 1 }, job)

  unfoldable pub pop_job : Queue F B → Text → Option (Queue F B × Job F)
  unfolding pop_from
  pop_job q d = pop_from q d (domain_jobs q d)

  -- `Len`.
  unfoldable pub len : Queue F B → ℕ
  len q = total length q.domains

  -- `Stats`.
  unfoldable pub stats : Queue F B → Stats
  stats q = record {
    pending = total length q.domains;
    domains = length q.domains;
    enqueued = q.enqueued;
    dequeued = q.dequeued;
  }

  -- The end of an iteration of `DequeueWithWait` that found no job, up to the suspension in
  -- `Wait`, and what the worker does when it runs again.
  unfoldable pub suspend : Queue F B → Queue F B
  suspend q = record q { worker_waiters = q.worker_waiters + 1; sleeping = q.sleeping + 1 }

  unfoldable pub resume : Queue F B → Queue F B
  resume q = record q { worker_waiters = q.worker_waiters - 1 }

module _ {F B : Type 0} ⦃bl : Bloom B⦄ where
  -- `New`.
  unfoldable pub new : Queue F B
  new = record {
    domains = [];
    bloom = bl.empty;
    next_id = 0;
    round = 0;
    worker_waiters = 0;
    sleeping = 0;
    enqueued = 0;
    dequeued = 0;
  }

  -- `MarkSeen` and `HasSeen`.
  unfoldable pub mark_seen : Queue F B → Text → Queue F B
  mark_seen q key = record q { bloom = bl.add q.bloom key }

  unfoldable pub has_seen : Queue F B → Text → Bool
  has_seen q key = bl.test q.bloom key

module _ {F B : Type 0} ⦃o : ScoreOrder F⦄ where
  -- The lines that assign the next identifier and file the job under its domain.
  unfoldable pub add_job : Queue F B → Job F → Queue F B
  unfolding insert_sorted
  add_job q job =
      let id = add64 q.next_id 1 in
      record q {
        next_id = id;
        domains =
            insert job.domain (insert_sorted (domain_jobs q job.domain) (record job { id = id }))
              q.domains;
      }

  -- `EnqueueRetry`.
  unfoldable pub enqueue_retry : Queue F B → Job F → Queue F B × Bool
  unfolding add_job wake_waiters
  enqueue_retry q job =
      let q' = add_job q job in (wake_waiters (record q' { enqueued = add64 q'.enqueued 1 }), true)

  -- `EnqueueBatchDirect`.
  unfoldable pub direct_loop : List (Job F) → Queue F B → ℕ → Queue F B × ℕ
  unfolding add_job
  direct_loop [] q added = (q, added)
  direct_loop (job ∷ jobs) q added = direct_loop jobs (add_job q job) (added + 1)

  -- What both batch calls do after their loop.
  unfoldable pub finish_batch : Queue F B × ℕ → Queue F B × ℕ
  unfolding wake_waiters
  finish_batch (q, added) =
      let q' = record q { enqueued = add64 q.enqueued added } in
      (if ltb 0 added then wake_waiters q' else q', added)

  unfoldable pub enqueue_batch_direct : Queue F B → List (Job F) → Queue F B × ℕ
  unfolding direct_loop finish_batch
  enqueue_batch_direct q jobs = finish_batch (direct_loop jobs q 0)

  module _ ⦃bl : Bloom B⦄ where
    -- `Enqueue`.
    unfoldable pub enqueue : Queue F B → Job F → Queue F B × Bool
    unfolding enqueue_retry mark_seen
    enqueue q job =
        if bl.test q.bloom (dedup_key job)
        then (q, false)
        else enqueue_retry (mark_seen q (dedup_key job)) job

    -- `EnqueueBatch`.
    unfoldable pub batch_loop : List (Job F) → Queue F B → ℕ → Queue F B × ℕ
    unfolding add_job mark_seen
    batch_loop [] q added = (q, added)
    batch_loop (job ∷ jobs) q added =
        let key = dedup_key job in
        let skip = batch_loop jobs q added in
        let file = batch_loop jobs (add_job (mark_seen q key) job) (added + 1) in
        if bl.test q.bloom key then skip else file

    unfoldable pub enqueue_batch : Queue F B → List (Job F) → Queue F B × ℕ
    unfolding batch_loop finish_batch
    enqueue_batch q jobs = finish_batch (batch_loop jobs q 0)

-- An answer of `dequeueLocked`: the queue, the limiter and the job. None stands for a panic.
abbrev pub Answer : Type 0 → Type 0 → Type 0 → Type 0
Answer F B S = Option (Queue F B × S × Option (Job F))

-- The loop body, from the answer of `readyFn`, from the candidate, and from its index, which
-- may be below zero. `next` runs the rest of the loop.
unfoldable pub on_ready :
    {F B S : Type 0} → Queue F B → Text → (S → Answer F B S) → S × Bool → Answer F B S
unfolding pop_job
on_ready q d next (s, true) = Option.map (λ r. (r.0, s, some r.1)) (pop_job q d)
on_ready q d next (s, false) = next s

module _ {F B S : Type 0} (ready : S → Text → S × Bool) where
  unfoldable pub on_candidate :
      Queue F B → (S → Answer F B S) → S → Option (Candidate F) → Answer F B S
  unfolding on_ready
  on_candidate q next s none = none
  on_candidate q next s (some c) = on_ready q c.domain next (ready s c.domain)

  unfoldable pub on_index :
      List (Candidate F) → Queue F B → (S → Answer F B S) → S → ℤ → Answer F B S
  unfolding on_candidate
  on_index cs q next s (pos k) = on_candidate q next s (get_elem? cs k)
  on_index cs q next s (negsuc k) = none

  -- The loop of `dequeueLocked` from `i` on, with `rounds` candidates left to try.
  unfoldable pub try_domains : List (Candidate F) → ℤ → ℕ → ℕ → S → Queue F B → Answer F B S
  unfolding on_index
  try_domains cs offset i zero s q = some (q, s, none)
  try_domains cs offset i (suc rounds) s q =
      on_index cs q (λ s'. try_domains cs offset (i + 1) rounds s' q) s
        (rem (offset +ℤ pos i) (length cs))

  -- The rest of `dequeueLocked` once the candidates are collected.
  unfoldable pub rotate : List (Candidate F) → S → Queue F B → Answer F B S
  unfolding try_domains
  rotate [] s q = some (q, s, none)
  rotate (c ∷ cs) s q =
      let round = add64 q.round 1 in
      let n = length (c ∷ cs) in
      try_domains (c ∷ cs) (rem (to_int round) n) 0 n s (record q { round = round })

  -- `dequeueLocked` and `Dequeue`, for the entries in the order in which the map is visited.
  unfoldable pub dequeue : List (Text × List (Job F)) → S → Queue F B → Answer F B S
  unfolding rotate candidates
  dequeue order s q =
      if length q.domains == 0 then some (q, s, none) else rotate (candidates order) s q

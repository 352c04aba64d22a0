-- ===== src/Examples/Queues.antt =====
-- internal/queue/queue.go: the theorems on a queue of three jobs for two domains.
use duvycrawl.Shared.{
  ℕ, zero, suc, ◌+◌, ◌^◌, ◌<◌, ◌≡◌, refl, Bool, true, false, Option, none, some, List, [], ◌∷◌,
  arith, inl, inr, length, ap, In, ltb,
}
use duvycrawl.Shared.Maps.{lookup}
use duvycrawl.Shared.Int.{add64}
use duvycrawl.Shared.Text.{Text, text_beq, text_eq, member}
use duvycrawl.Queue.Defs.{Job, Queue, candidates, dedup_key, insert_sorted}
use duvycrawl.Queue.Ops.{new, enqueue, enqueue_batch, dequeue}
use duvycrawl.Queue.Insert.{insert_desc, insert_sorted-eq-insert_desc}
use duvycrawl.Queue.Invariant.{IsValid, new-IsValid, enqueue-IsValid}
use duvycrawl.Queue.Best.{Dispatched, dequeue-Dispatched}
use duvycrawl.Queue.Refusals.{AllRefused, dequeue-AllRefused, dequeue_total}
use duvycrawl.Queue.Workers.{start, next, enqueues, Reach-IsValid, enqueue_wakes}
use duvycrawl.Queue.Dedup.{stays, continues, enqueue_once}
use duvycrawl.Examples.Instances.{number_order, exact_filter, job_a, job_b, job_c}

abbrev Pending : Type 0
Pending = Queue ℕ (List Text)

abbrev empty_queue : Pending
empty_queue = new

abbrev one_job : Pending
one_job = (enqueue empty_queue job_a).0

abbrev two_jobs : Pending
two_jobs = (enqueue one_job job_b).0

abbrev three_jobs : Pending
three_jobs = (enqueue two_jobs job_c).0

two_jobs-IsValid : IsValid two_jobs
two_jobs-IsValid = enqueue-IsValid one_job job_b (enqueue-IsValid empty_queue job_a new-IsValid)

three_jobs-IsValid : IsValid three_jobs
three_jobs-IsValid = enqueue-IsValid two_jobs job_c two_jobs-IsValid

abbrev batched : Pending
batched = (enqueue_batch empty_queue (job_a ∷ job_b ∷ [])).0

-- A limiter that counts its questions, and lets all through or none.
abbrev answer : Bool → ℕ → Text → ℕ × Bool
answer b s d = (s + 1, b)

abbrev outcome : Option (Pending × ℕ × Option (Job ℕ)) → Pending × ℕ × Job ℕ
outcome none = (new, 0, job_a)
outcome (some (q, s, none)) = (q, s, job_a)
outcome (some (q, s, some job)) = (q, s, job)

abbrev taken : Pending × ℕ × Job ℕ
taken = outcome (dequeue (answer true) three_jobs.domains 0 three_jobs)

taken_lem :
    dequeue (answer true) three_jobs.domains 0 three_jobs ≡ some (taken.0, taken.1, some taken.2)
unfolding dequeue enqueue new member text_beq dedup_key duvycrawl.Shared.Maps.insert lookup
    duvycrawl.Shared.Int.rem duvycrawl.Shared.Int.◌+ℤ◌ duvycrawl.Shared.Int.to_int
taken_lem = refl

abbrev refused_one : Pending × ℕ × Job ℕ
refused_one = outcome (dequeue (answer false) ((job_c.domain, job_c ∷ []) ∷ []) 0 three_jobs)

refused_one_lem :
    dequeue (answer false) ((job_c.domain, job_c ∷ []) ∷ []) 0 three_jobs
    ≡ some (refused_one.0, refused_one.1, none)
unfolding dequeue enqueue new member text_beq dedup_key duvycrawl.Shared.Maps.insert lookup
    duvycrawl.Shared.Int.rem duvycrawl.Shared.Int.◌+ℤ◌ duvycrawl.Shared.Int.to_int
refused_one_lem = refl

round_lem : three_jobs.round ≡ 0
unfolding enqueue new member dedup_key
round_lem = refl

rounds_lem : add64 three_jobs.round 1 < 2 ^ 63
rounds_lem = rw round_lem (omega arith)

abbrev single : Pending
single = record empty_queue { domains = (job_a.domain, job_a ∷ []) ∷ [] }

single_round_lem : add64 single.round 1 < 2 ^ 63
unfolding new
single_round_lem = omega arith

domains_lem : length three_jobs.domains ≡ 2
unfolding enqueue new member dedup_key text_beq duvycrawl.Shared.Maps.insert lookup
domains_lem = refl

pending_lem : 0 < length three_jobs.domains
pending_lem = rw domains_lem (omega arith)

accepted_lem : (enqueue two_jobs job_c).1 ≡ true
unfolding enqueue new member dedup_key
accepted_lem = refl

dequeue-Dispatched_example : Dispatched (answer true) three_jobs taken.0 taken.1 taken.2
dequeue-Dispatched_example =
    dequeue-Dispatched (answer true) three_jobs.domains 0 taken.1 three_jobs taken.0 taken.2
      three_jobs-IsValid taken_lem

dequeue-AllRefused_example :
    AllRefused (answer false) (candidates ((job_c.domain, job_c ∷ []) ∷ [])) 0 refused_one.1
dequeue-AllRefused_example =
    dequeue-AllRefused (answer false) ((job_c.domain, job_c ∷ []) ∷ []) 0 refused_one.1 three_jobs
      refused_one.0 rounds_lem pending_lem refused_one_lem

Reach-IsValid_example : IsValid three_jobs
Reach-IsValid_example = Reach-IsValid (answer true) (
    next (next (next start (enqueues empty_queue job_a)) (enqueues one_job job_b))
      (enqueues two_jobs job_c))

enqueue_wakes_example : (enqueue two_jobs job_c).0.sleeping ≡ 0
enqueue_wakes_example = enqueue_wakes two_jobs job_c two_jobs-IsValid accepted_lem

enqueue_once_example : enqueue three_jobs job_a ≡ (three_jobs, false)
enqueue_once_example =
    enqueue_once (answer true) empty_queue three_jobs job_a job_a refl
      (continues (continues stays (enqueues one_job job_b)) (enqueues two_jobs job_c))

insert_sorted-eq-insert_desc_example :
    insert_sorted (job_b ∷ job_a ∷ []) job_c ≡ insert_desc (job_b ∷ job_a ∷ []) job_c
insert_sorted-eq-insert_desc_example =
    insert_sorted-eq-insert_desc (job_b ∷ job_a ∷ []) job_c ((refl, tt), (tt, tt))

-- The map as a visit of it shows it, when one domain has jobs.
visit_lem :
    (d : Text) (jobs : List (Job ℕ))
    → In {A = Text × List (Job ℕ)} (d, jobs) ((job_a.domain, job_a ∷ []) ∷ [])
    → lookup d ((job_a.domain, job_a ∷ []) ∷ []) ≡ some jobs
unfolding lookup text_beq
visit_lem d jobs (inl e) = rw (ap (λ x. x.0) e, ← ap (λ x. x.1) e) refl
visit_lem d jobs (inr m) = absurd m

dequeue_total_example :
    (r : Pending × ℕ × Option (Job ℕ)) × (dequeue (answer true) single.domains 0 single ≡ some r)
dequeue_total_example =
    dequeue_total (answer true) single.domains 0 single single_round_lem visit_lem

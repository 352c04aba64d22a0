-- ===== src/Queue/Best.antt =====
-- internal/queue/queue.go: what a successful `Dequeue` does to the queue.
use duvycrawl.Shared.{
  ◌≡◌, sym, ap, ◌∙◌, subst, Bool, true, false, Option, none, some, List, ◌∷◌, All,
}
use duvycrawl.Shared.Maps.{or_nil, lookup}
use duvycrawl.Shared.Text.{Text, text_eq, text_beq}
use duvycrawl.Queue.Defs.{ScoreOrder, Job, Queue}
use duvycrawl.Queue.Ops.{domain_jobs, set_jobs, dequeue}
use duvycrawl.Queue.Filing.{lookup-set_jobs_self, lookup-set_jobs_ne}
use duvycrawl.Queue.Invariant.{IsValid, pop_job_inv, pop_job-IsValid, domain_jobs-IsSorted}
use duvycrawl.Queue.Insert.{IsSorted}
use duvycrawl.Queue.Dispatch.{Took, SameJobs, Outcome, dequeue-Outcome}

module _ {F B S : Type 0} ⦃o : ScoreOrder F⦄ (ready : S → Text → S × Bool) where
  SameJobs-IsValid : (q p : Queue F B) → SameJobs q p → IsValid q → IsValid p
  SameJobs-IsValid q p e v = record {
    distinct = rw e.domains v.distinct;
    filed = rw e.domains v.filed;
    counted = rw (e.domains, e.dequeued, e.enqueued) v.counted;
    waiting = rw (e.sleeping, e.waiters) v.waiting;
  }

  -- Dequeue keeps the invariant, whether it returns a job or not.
  pub dequeue-IsValid :
      (order : List (Text × List (Job F))) (s s' : S) (q q' : Queue F B) (r : Option (Job F))
      → IsValid q
      → dequeue ready order s q ≡ some (q', s', r)
      → IsValid q'
  dequeue-IsValid order s s' q q' r v e =
      let (p, same, out) = dequeue-Outcome ready order s s' q q' r e in
      go p r (SameJobs-IsValid q p same v) out
    where
      go : (p : Queue F B) (r : Option (Job F)) → IsValid p → Outcome ready p q' s' r → IsValid q'
      go p none w out = rw out w
      go p (some job) w out = pop_job-IsValid p q' out.from job w out.popped

  -- The job is the head of the list of a domain that `readyFn` accepted, none of the others there
  -- has a higher score, that list loses its head, and the other domains' lists stay.
  pub record Dispatched (q q' : Queue F B) (s' : S) (job : Job F) : Type 0 where
    pub rest : List (Job F)
    pub before : S
    pub accepted : ready before job.domain ≡ (s', true)
    pub taken : domain_jobs q job.domain ≡ job ∷ rest
    pub left : domain_jobs q' job.domain ≡ rest
    pub best : All (λ y. o.lt job.score y.score ≡ false) rest
    pub others :
        (d : Text) → text_beq job.domain d ≡ false → lookup d q'.domains ≡ lookup d q.domains

  Took-Dispatched :
      (q p q' : Queue F B) (s' : S) (job : Job F)
      → SameJobs q p
      → IsValid p
      → Took ready p q' s' job
      → Dispatched q q' s' job
  Took-Dispatched q p q' s' job same v out =
      let (rest, head, after) = pop_job_inv p q' out.from job out.popped in
      let ordered = domain_jobs-IsSorted p out.from v.filed in
      let sorted' : IsSorted (job ∷ rest) = subst IsSorted head ordered.0 in
      let own' : All (λ j. j.domain ≡ out.from) (job ∷ rest) =
        subst (All (λ j. j.domain ≡ out.from)) head ordered.1 in
      let here : job.domain ≡ out.from = own'.0 in
      let domains' : q'.domains ≡ set_jobs job.domain rest q.domains =
        ap (λ (x : Queue F B). x.domains) after
        ∙ (ap (λ d. set_jobs d rest p.domains) (sym here)
            ∙ ap (set_jobs job.domain rest) same.domains) in
      record {
        rest = rest;
        before = out.before;
        accepted = ap (ready out.before) here ∙ out.accepted;
        taken =
            ap (λ d. or_nil (lookup d q.domains)) here
            ∙ (ap (λ m. or_nil (lookup out.from m)) (sym same.domains) ∙ head);
        left =
            ap (λ m. or_nil (lookup job.domain m)) domains'
            ∙ lookup-set_jobs_self job.domain rest q.domains;
        best = sorted'.0;
        others = λ d h. ap (lookup d) domains' ∙ lookup-set_jobs_ne job.domain d rest q.domains h;
      }

  -- In a valid queue, a job that Dequeue returns is the head of the list of a domain that `readyFn`
  -- accepted, no job left there has a higher score, that list loses its head, and the list of
  -- every other domain stays.
  pub dequeue-Dispatched :
      (order : List (Text × List (Job F))) (s s' : S) (q q' : Queue F B) (job : Job F)
      → IsValid q
      → dequeue ready order s q ≡ some (q', s', some job)
      → Dispatched q q' s' job
  dequeue-Dispatched order s s' q q' job v e =
      let (p, same, out) = dequeue-Outcome ready order s s' q q' (some job) e in
      Took-Dispatched q p q' s' job same (SameJobs-IsValid q p same v) out

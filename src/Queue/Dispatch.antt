-- ===== src/Queue/Dispatch.antt =====
-- internal/queue/queue.go: `dequeueLocked`. A job that it returns is the best of a domain that
-- `readyFn` accepted, and it gives up only after `readyFn` refused every pending domain.
use mathlib.Core.Option
use duvycrawl.Shared.{
  ℕ, zero, suc, ◌==◌, ◌+◌, ◌≡◌, refl, Bool, true, false, Option, none, some, List, [], ◌∷◌, inl,
  inr, arith, length, get_elem?, Bool-cases,
}
use duvycrawl.Shared.Text.{Text, text_eq}
use duvycrawl.Shared.Int.{ℤ, pos, negsuc, ◌+ℤ◌, rem, add64}
use duvycrawl.Queue.Defs.{Job, Queue, Candidate, candidates}
use duvycrawl.Queue.Ops.{
  pop_job, on_ready, on_candidate, on_index, try_domains, rotate, dequeue, Answer,
}

-- What `dequeueLocked` leaves alone when it only advances the round counter.
pub record SameJobs {F B : Type 0} (q p : Queue F B) : Type 0 where
  pub domains : p.domains ≡ q.domains
  pub dequeued : p.dequeued ≡ q.dequeued
  pub enqueued : p.enqueued ≡ q.enqueued
  pub waiters : p.worker_waiters ≡ q.worker_waiters
  pub sleeping : p.sleeping ≡ q.sleeping
  pub bloom : p.bloom ≡ q.bloom

module _ {F B S : Type 0} (ready : S → Text → S × Bool) where
  -- A domain was accepted in some state of the limiter, and its head was taken.
  pub record Took (q q' : Queue F B) (s' : S) (job : Job F) : Type 0 where
    pub from : Text
    pub before : S
    pub accepted : ready before from ≡ (s', true)
    pub popped : pop_job q from ≡ some (q', job)

  abbrev pub Outcome : Queue F B → Queue F B → S → Option (Job F) → Type 0
  Outcome q q' s' none = q' ≡ q
  Outcome q q' s' (some job) = Took q q' s' job

  on_ready-Outcome :
      (q q' : Queue F B) (d : Text) (next : S → Answer F B S) (s s' : S) (a : S × Bool)
      (r : Option (Job F))
      → ready s d ≡ a
      → ((t : S) → next t ≡ some (q', s', r) → Outcome q q' s' r)
      → on_ready q d next a ≡ some (q', s', r)
      → Outcome q q' s' r
  unfolding on_ready
  on_ready-Outcome q q' d next s s' (t, false) r h k e = k t e
  on_ready-Outcome q q' d next s s' (t, true) r h k e = popped (pop_job q d) refl r e
    where
      popped :
          (p : Option (Queue F B × Job F))
          → pop_job q d ≡ p
          → (r : Option (Job F))
          → Option.map {B = Queue F B × S × Option (Job F)} (λ x. (x.0, t, some x.1)) p
            ≡ some (q', s', r)
          → Outcome q q' s' r
      popped none f r e = absurd (cc)
      popped (some (p, j)) f none e = absurd (cc)
      popped (some (p, j)) f (some job) e = record {
        from = d;
        before = s;
        accepted = ground (arith, h);
        popped = ground (arith, f);
      }

  on_index-Outcome :
      (cs : List (Candidate F)) (q q' : Queue F B) (next : S → Answer F B S) (s s' : S) (z : ℤ)
      (r : Option (Job F))
      → ((t : S) → next t ≡ some (q', s', r) → Outcome q q' s' r)
      → on_index ready cs q next s z ≡ some (q', s', r)
      → Outcome q q' s' r
  unfolding on_index on_candidate
  on_index-Outcome cs q q' next s s' (negsuc k) r h e = absurd (cc)
  on_index-Outcome cs q q' next s s' (pos k) r h e = go (get_elem? cs k) e
    where
      go :
          (c : Option (Candidate F))
          → on_candidate ready q next s c ≡ some (q', s', r)
          → Outcome q q' s' r
      go none f = absurd (cc)
      go (some c) f = on_ready-Outcome q q' c.domain next s s' (ready s c.domain) r refl h f

  try_domains-Outcome :
      (cs : List (Candidate F)) (offset : ℤ) (i n : ℕ) (s s' : S) (q q' : Queue F B)
      (r : Option (Job F))
      → try_domains ready cs offset i n s q ≡ some (q', s', r)
      → Outcome q q' s' r
  unfolding try_domains
  try_domains-Outcome cs offset i zero s s' q q' none e = ground arith
  try_domains-Outcome cs offset i zero s s' q q' (some job) e = absurd (cc)
  try_domains-Outcome cs offset i (suc n) s s' q q' r e =
      on_index-Outcome cs q q' _ s s' (rem (offset +ℤ pos i) (length cs)) r
        (λ t. try_domains-Outcome cs offset (i + 1) n t s' q q' r) e

  pub dequeue-Outcome :
      (order : List (Text × List (Job F))) (s s' : S) (q q' : Queue F B) (r : Option (Job F))
      → dequeue ready order s q ≡ some (q', s', r)
      → (p : Queue F B) × SameJobs q p × Outcome p q' s' r
  unfolding dequeue rotate
  dequeue-Outcome order s s' q q' r e = elim (Bool-cases (length q.domains == 0)) [
    | inl z ↦ empty r (rw z at e)
    | inr z ↦ go (candidates order) (rw z at e)
  ]
    where
      same : SameJobs q q
      same = record {
        domains = refl;
        dequeued = refl;
        enqueued = refl;
        waiters = refl;
        sleeping = refl;
        bloom = refl;
      }

      empty :
          (r : Option (Job F))
          → ◌≡◌ {A = Answer F B S} (some (q, s, none)) (some (q', s', r))
          → (p : Queue F B) × SameJobs q p × Outcome p q' s' r
      empty none f = (q, same, ground arith)
      empty (some job) f = absurd (cc)

      go :
          (cs : List (Candidate F))
          → rotate ready cs s q ≡ some (q', s', r)
          → (p : Queue F B) × SameJobs q p × Outcome p q' s' r
      go [] f = empty r f
      go (c ∷ cs) f = (
        record q { round = add64 q.round 1 },
        record {
          domains = refl;
          dequeued = refl;
          enqueued = refl;
          waiters = refl;
          sleeping = refl;
          bloom = refl;
        },
        try_domains-Outcome (c ∷ cs) _ 0 (length (c ∷ cs)) s s' _ q' r f,
      )

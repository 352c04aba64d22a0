-- ===== src/Queue/Refusals.antt =====
-- internal/queue/queue.go: `Dequeue` does not panic while the round counter is below 2^63, and
-- gives up only after it asked `readyFn` for every pending domain and was refused.
use mathlib.Core.Option
use native.Mathlib.Decide.{ℕ_discrete}
use native.Mathlib.Nat.{mod-lt}
use mathlib.Core.Option.{some-injective}
use duvycrawl.Shared.{
  get_elem?_of_lt, ℕ, zero, suc, ◌==◌, ◌+◌, ◌%◌, ◌^◌, ◌≤◌, ◌<◌, ◌≡◌, refl, sym, ap, ◌∙◌, Bool, true,
  false, Option, none, some, List, [], ◌∷◌, inl, inr, arith, length, get_elem?, In, In-get_elem?,
  All, subst, Bool-cases,
}
use duvycrawl.Shared.Maps.{or_nil, lookup}
use duvycrawl.Shared.Text.{Text, text_eq}
use duvycrawl.Shared.Int.{pos, add64}
use duvycrawl.Queue.Defs.{Job, Queue, Candidate, candidates}
use duvycrawl.Queue.Ops.{
  set_jobs, pop_job, pop_from, on_ready, on_candidate, on_index, try_domains, rotate, dequeue,
  Answer,
}
use duvycrawl.Queue.Rotation.{rotation_hits, rem_nonneg, candidates-In, get_elem?-In, offset_nonneg}

-- From a state of the limiter, `readyFn` is asked for the domains one after the other, each question
-- in the state that the last one left, and refuses each.
pub data Refusing {S : Type 0} (ready : S → Text → S × Bool) : S → List Text → S → Type 0 where
  ends : (s : S) → Refusing ready s [] s
  asks :
      {s' : S} {ds : List Text} (s : S) (d : Text)
      → (ready s d).1 ≡ false
      → Refusing ready (ready s d).0 ds s'
      → Refusing ready s (d ∷ ds) s'

-- If the loop ends without a job, it asked for every candidate that it tried, and was refused.
record Trail {F S : Type 0} (ready : S → Text → S × Bool) (cs : List (Candidate F)) (o i n : ℕ)
    (s s' : S) : Type 0 where
  asked : List Text
  refusing : Refusing ready s asked s'
  as_many : length asked ≡ n
  covers :
      (j : ℕ)
      → i ≤ j
      → j < i + n
      → (c : Candidate F) → get_elem? cs ((o + j) % length cs) ≡ some c
      → In c.domain asked

-- The domains of all candidates were asked for, from the state s to the state s', with one
-- question for each candidate.
pub record AllRefused {F S : Type 0} (ready : S → Text → S × Bool) (cs : List (Candidate F))
    (s s' : S) : Type 0 where
  pub asked : List Text
  pub refusing : Refusing ready s asked s'
  pub as_many : length asked ≡ length cs
  pub complete : All (λ (c : Candidate F). In c.domain asked) cs

All-of-In :
    {F : Type 0} (P : Candidate F → Type 0) (cs : List (Candidate F))
    → ((c : Candidate F) → In c cs → P c)
    → All P cs
All-of-In P [] h = tt
All-of-In P (c ∷ cs) h = (h c (inl refl), All-of-In P cs (λ x m. h x (inr m)))

module _ {F B S : Type 0} (ready : S → Text → S × Bool) where
  on_ready-none :
      (q q' : Queue F B) (d : Text) (next : S → Answer F B S) (s' : S) (a : S × Bool)
      → on_ready q d next a ≡ some (q', s', none)
      → (a.1 ≡ false) × (next a.0 ≡ some (q', s', none))
  unfolding on_ready
  on_ready-none q q' d next s' (t, false) e = (refl, e)
  on_ready-none q q' d next s' (t, true) e = popped (pop_job q d) e
    where
      popped :
          (p : Option (Queue F B × Job F))
          → Option.map {B = Queue F B × S × Option (Job F)} (λ x. (x.0, t, some x.1)) p
            ≡ some (q', s', none)
          → (true ≡ false) × (next t ≡ some (q', s', none))
      popped none f = absurd (cc)
      popped (some (p, j)) f = absurd (cc)

  on_index-none :
      (cs : List (Candidate F)) (q q' : Queue F B) (next : S → Answer F B S) (s s' : S) (k : ℕ)
      → on_index ready cs q next s (pos k) ≡ some (q', s', none)
      → (c : Candidate F) × (get_elem? cs k ≡ some c)
        × ((ready s c.domain).1 ≡ false)
        × (next (ready s c.domain).0 ≡ some (q', s', none))
  unfolding on_index on_candidate
  on_index-none cs q q' next s s' k e = go (get_elem? cs k) refl e
    where
      go :
          (r : Option (Candidate F))
          → get_elem? cs k ≡ r
          → on_candidate ready q next s r ≡ some (q', s', none)
          → (c : Candidate F) × (get_elem? cs k ≡ some c)
            × ((ready s c.domain).1 ≡ false)
            × (next (ready s c.domain).0 ≡ some (q', s', none))
      go none h f = absurd (cc)
      go (some c) h f =
          let (no_slot, rest) = on_ready-none q q' c.domain next s' (ready s c.domain) f in
          (c, h, no_slot, rest)

  try_domains-Trail :
      (cs : List (Candidate F)) (o i n : ℕ) (s s' : S) (q q' : Queue F B)
      → try_domains ready cs (pos o) i n s q ≡ some (q', s', none)
      → Trail ready cs o i n s s'
  unfolding try_domains
  try_domains-Trail cs o i zero s s' q q' e =
      let same : s ≡ s' = ap (λ x. x.1) (some-injective (q, s, none) (q', s', none) e) in
      record {
        asked = [];
        refusing = subst (Refusing ready s []) same (ends s);
        as_many = refl;
        covers = λ j a b. absurd (omega arith);
      }
  try_domains-Trail cs o i (suc n) s s' q q' e =
      let (c', at, no_slot, rest) =
        on_index-none cs q q' (λ t. try_domains ready cs (pos o) (i + 1) n t q) s s'
          ((o + i) % length cs) (rw (rem_nonneg o i (length cs)) at e) in
      let later = try_domains-Trail cs o (i + 1) n (ready s c'.domain).0 s' q q' rest in
      record {
        asked = c'.domain ∷ later.asked;
        refusing = asks s c'.domain no_slot later.refusing;
        as_many = ap suc later.as_many;
        covers = λ j a b c h. elim (ℕ_discrete i j) [
          | yes same ↦
              let here : some c' ≡ some c = sym at ∙ rw same h in
              inl (ap (λ (x : Candidate F). x.domain) (sym (some-injective c' c here)))
          | no other ↦ inr (later.covers j (omega arith) (omega arith) c h)
        ];
      }

  on_ready_total :
      (q : Queue F B) (d : Text) (next : S → Answer F B S) (a : S × Bool) (r : Queue F B × Job F)
      → pop_job q d ≡ some r
      → ((t : S) → (x : Queue F B × S × Option (Job F)) × (next t ≡ some x))
      → (x : Queue F B × S × Option (Job F)) × (on_ready q d next a ≡ some x)
  unfolding on_ready
  on_ready_total q d next (t, true) r e k = ((r.0, t, some r.1), rw e)
  on_ready_total q d next (t, false) r e k = k t

  -- With an index in range and a job at hand for each candidate, the loop does not panic.
  try_domains_total :
      (cs : List (Candidate F)) (o i n : ℕ) (s : S) (q : Queue F B)
      → 0 < length cs
      → ((c : Candidate F) → In c cs → (r : Queue F B × Job F) × (pop_job q c.domain ≡ some r))
      → (r : Queue F B × S × Option (Job F)) × (try_domains ready cs (pos o) i n s q ≡ some r)
  unfolding try_domains on_index on_candidate
  try_domains_total cs o i zero s q h k = ((q, s, none), refl)
  try_domains_total cs o i (suc n) s q h k =
      let index : ℕ = (o + i) % length cs in
      let (c, at) = get_elem?_of_lt cs index (mod-lt (o + i) h) in
      let (r, popped) = k c (In-get_elem? cs index c at) in
      rw (rem_nonneg o i (length cs), at)
        (on_ready_total q c.domain (λ t. try_domains ready cs (pos o) (i + 1) n t q)
          (ready s c.domain) r popped (λ t. try_domains_total cs o (i + 1) n t q h k))

module _ {F B S : Type 0} (ready : S → Text → S × Bool) where
  abbrev turned : Queue F B → Queue F B
  turned q = record q { round = add64 q.round 1 }

  rotate-eq :
      (c : Candidate F) (cs : List (Candidate F)) (s : S) (q : Queue F B)
      → add64 q.round 1 < 2 ^ 63
      → rotate ready (c ∷ cs) s q
        ≡ try_domains ready
            (c ∷ cs)
            (pos (add64 q.round 1 % length (c ∷ cs)))
            0
            (length (c ∷ cs))
            s
            (turned q)
  unfolding rotate
  rotate-eq c cs s q h =
      ap (λ z. try_domains ready (c ∷ cs) z 0 (length (c ∷ cs)) s (turned q))
        (offset_nonneg (add64 q.round 1) (length (c ∷ cs)) h)

  rotate-AllRefused :
      (cs : List (Candidate F)) (s s' : S) (q q' : Queue F B)
      → add64 q.round 1 < 2 ^ 63
      → rotate ready cs s q ≡ some (q', s', none)
      → AllRefused ready cs s s'
  unfolding rotate
  rotate-AllRefused [] s s' q q' h e =
      let same : s ≡ s' = ap (λ x. x.1) (some-injective (q, s, none) (q', s', none) e) in
      record {
        asked = [];
        refusing = subst (Refusing ready s []) same (ends s);
        as_many = refl;
        complete = tt;
      }
  rotate-AllRefused (x ∷ xs) s s' q q' h e =
      let n : ℕ = length (x ∷ xs) in
      let o : ℕ = add64 q.round 1 % n in
      let trail =
        try_domains-Trail ready (x ∷ xs) o 0 n s s' (turned q) q'
          (sym (rotate-eq x xs s q h) ∙ e) in
      record {
        asked = trail.asked;
        refusing = trail.refusing;
        as_many = trail.as_many;
        complete =
            All-of-In (λ (c : Candidate F). In c.domain trail.asked) (x ∷ xs)
              (λ c m.
                let (k, k_lt, at) = get_elem?-In (x ∷ xs) c m in
                let (j, j_lt, hit) =
                  rotation_hits k n o k_lt (mod-lt (add64 q.round 1) (omega arith)) in
                trail.covers j (omega arith) (omega arith) c (ap (get_elem? (x ∷ xs)) hit ∙ at));
      }

  rotate_total :
      (cs : List (Candidate F)) (s : S) (q : Queue F B)
      → add64 q.round 1 < 2 ^ 63
      → ((c : Candidate F)
          → In c cs
          → (r : Queue F B × Job F) × (pop_job (turned q) c.domain ≡ some r))
      → (r : Queue F B × S × Option (Job F)) × (rotate ready cs s q ≡ some r)
  unfolding rotate
  rotate_total [] s q h k = ((q, s, none), refl)
  rotate_total (x ∷ xs) s q h k =
      let n : ℕ = length (x ∷ xs) in
      let o : ℕ = add64 q.round 1 % n in
      let (r, e) = try_domains_total ready (x ∷ xs) o 0 n s (turned q) (omega arith) k in
      (r, rotate-eq x xs s q h ∙ e)

  pop_job_of_pending :
      (q : Queue F B) (d : Text) (j : Job F) (jobs : List (Job F))
      → lookup d q.domains ≡ some (j ∷ jobs)
      → (r : Queue F B × Job F) × (pop_job q d ≡ some r)
  unfolding pop_job
  pop_job_of_pending q d j jobs e = (
    (record q { domains = set_jobs d jobs q.domains; dequeued = add64 q.dequeued 1 }, j),
    ap (λ r. pop_from q d (or_nil r)) e ∙ refl,
  )

  -- Below 2^63 dequeues, a Dequeue with pending jobs finds none only after it asked `readyFn`, from
  -- the limiter that it was given to the limiter that it leaves, once for each domain with a pending
  -- job that the visit of the map showed, and was refused each time.
  pub dequeue-AllRefused :
      (order : List (Text × List (Job F))) (s s' : S) (q q' : Queue F B)
      → add64 q.round 1 < 2 ^ 63
      → 0 < length q.domains
      → dequeue ready order s q ≡ some (q', s', none)
      → AllRefused ready (candidates order) s s'
  unfolding dequeue
  dequeue-AllRefused order s s' q q' h pending e =
      rotate-AllRefused (candidates order) s s' q q' h
        (rw (nonzero (length q.domains) pending) at e)
    where
      nonzero : (n : ℕ) → 0 < n → (n == 0) ≡ false
      nonzero n g = ground arith

  -- While the round counter is below 2^63, and the visit shows what the map holds, `Dequeue` does
  -- not panic.
  pub dequeue_total :
      (order : List (Text × List (Job F))) (s : S) (q : Queue F B)
      → add64 q.round 1 < 2 ^ 63
      → ((d : Text) (jobs : List (Job F)) → In (d, jobs) order → lookup d q.domains ≡ some jobs)
      → (r : Queue F B × S × Option (Job F)) × (dequeue ready order s q ≡ some r)
  unfolding dequeue
  dequeue_total order s q h visit = elim (Bool-cases (length q.domains == 0)) [
    | inl z ↦ ((q, s, none), rw z)
    | inr z ↦ rw z (
        rotate_total (candidates order) s q h (λ c m.
          let (j, jobs, i) = candidates-In order c m in
          pop_job_of_pending (turned q) c.domain j jobs (visit c.domain (j ∷ jobs) i)))
  ]

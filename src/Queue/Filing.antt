-- ===== src/Queue/Filing.antt =====
-- internal/queue/queue.go: the lists of the domains, and how insertions and removals
-- change them.
use duvycrawl.Shared.{◌+◌, ◌≡◌, refl, ap, ◌∙◌, ◌≢◌, false, List, [], ◌∷◌, arith, length, All}
use duvycrawl.Shared.Maps.{
  or_nil, lookup-insert, lookup-delete, lookup, total, weight, Distinct, Distinct-insert,
  Distinct-delete, total-insert, total-delete, Entries, Entries-insert, Entries-delete,
}
use duvycrawl.Shared.Text.{Text, text_eq, text_beq, text_beq_iff}
use duvycrawl.Queue.Defs.{ScoreOrder, Job, insert_sorted}
use duvycrawl.Queue.Ops.{set_jobs}
use duvycrawl.Queue.Insert.{
  IsSorted, insert_sorted-IsSorted, insert_sorted-All, length-insert_sorted,
}

pub lookup-set_jobs_self :
    {A : Type 0} (d : Text) (rest : List A) (m : List (Text × List A))
    → or_nil (lookup d (set_jobs d rest m)) ≡ rest
unfolding set_jobs
lookup-set_jobs_self d [] m = rw (lookup-delete d d m, (text_beq_iff d d).1 refl) refl
lookup-set_jobs_self d (x ∷ rest) m =
    rw (lookup-insert d d (x ∷ rest) m, (text_beq_iff d d).1 refl) refl

pub lookup-set_jobs_ne :
    {A : Type 0} (d c : Text) (rest : List A) (m : List (Text × List A))
    → text_beq d c ≡ false
    → lookup c (set_jobs d rest m) ≡ lookup c m
unfolding set_jobs
lookup-set_jobs_ne d c [] m h = lookup-delete d c m ∙ rw h
lookup-set_jobs_ne d c (x ∷ rest) m h = lookup-insert d c (x ∷ rest) m ∙ rw h

module _ {F : Type 0} ⦃o : ScoreOrder F⦄ where
  -- A domain's list has a job, falls in score, and holds that domain's jobs.
  pub record IsFiled (d : Text) (jobs : List (Job F)) : Type 0 where
    pub nonempty : jobs ≢ []
    pub sorted : IsSorted jobs
    pub own : All (λ j. j.domain ≡ d) jobs

  pub insert_sorted-IsFiled :
      (jobs : List (Job F)) (job : Job F)
      → IsSorted jobs
      → All (λ j. j.domain ≡ job.domain) jobs
      → IsFiled job.domain (insert_sorted jobs job)
  insert_sorted-IsFiled jobs job v own = record {
    nonempty = λ e. absurd (omega (arith, length-insert_sorted jobs job v, ap length e));
    sorted = insert_sorted-IsSorted jobs job v;
    own = insert_sorted-All (λ j. j.domain ≡ job.domain) jobs job v refl own;
  }

  pub set_jobs-total :
      (d : Text) (rest : List (Job F)) (m : List (Text × List (Job F)))
      → Distinct m
      → total length (set_jobs d rest m) + weight length (lookup d m) ≡ total length m + length rest
  unfolding set_jobs
  set_jobs-total d [] m v = omega (arith, total-delete length d m v)
  set_jobs-total d (job ∷ rest) m v = total-insert length d (job ∷ rest) m

  pub set_jobs-Distinct :
      (d : Text) (rest : List (Job F)) (m : List (Text × List (Job F)))
      → Distinct m
      → Distinct (set_jobs d rest m)
  unfolding set_jobs
  set_jobs-Distinct d [] m v = Distinct-delete d m v
  set_jobs-Distinct d (job ∷ rest) m v = Distinct-insert d (job ∷ rest) m v

  pub set_jobs-IsFiled :
      (d : Text) (rest : List (Job F)) (m : List (Text × List (Job F)))
      → IsSorted rest
      → All (λ j. j.domain ≡ d) rest
      → Entries IsFiled m
      → Entries IsFiled (set_jobs d rest m)
  unfolding set_jobs
  set_jobs-IsFiled d [] m s own f = Entries-delete IsFiled d m f
  set_jobs-IsFiled d (job ∷ rest) m s own f =
      Entries-insert IsFiled d (job ∷ rest) m
        (record { nonempty = λ e. absurd (cc); sorted = s; own = own }) f

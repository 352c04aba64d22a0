-- ===== src/Frontier/Retries.antt =====
-- internal/frontier/frontier.go: the jobs that Add and the batch calls make are new, with no retries, and
-- the bound on the retries of the waiting jobs is kept.
use duvycrawl.Shared.{
  ℕ, ◌≤◌, ◌≡◌, Bool, true, false, refl, ◌∙◌, Option, none, some, List, [], ◌∷◌, map, All-append,
  arith, inl, inr, Bool-cases,
}
use duvycrawl.Shared.Text.{Text, member}
use duvycrawl.Url.{Std}
use duvycrawl.Queue.Defs.{ScoreOrder, Bloom, Job, Queue, dedup_key}
use duvycrawl.Queue.Ops.{mark_seen, has_seen, enqueue}
use duvycrawl.Queue.Retries.{
  Within, QueueWithin, enqueue_retry-Within, enqueue_batch-Within, enqueue_batch_direct-Within,
}
use duvycrawl.Frontier.State.{
  Store, Scorer, Frontier, Candidate, LinkContext, reserve, admit, direct_job, direct_jobs,
  make_job, or_none_stored,
}
use duvycrawl.Frontier.Ops.{
  collect, collect_link, collect_reserved, build_jobs, submit, store_candidates, add_batch,
  enqueue_direct, add_batch_direct, add, add_admitted, add_reserved, add_unseen,
}
use duvycrawl.Frontier.Once.{reserve-queue}
use duvycrawl.Frontier.Fingerprint.{fingerprint_url}

direct_jobs-Within :
    {F : Type 0} ⦃std : Std⦄ (sc : Scorer F) (n : ℕ) (blacklist raws : List Text) (depth : ℕ)
    (base : F)
    → Within n (direct_jobs sc blacklist raws depth base)
unfolding direct_jobs
direct_jobs-Within sc n blacklist [] depth base = tt
direct_jobs-Within sc n blacklist (raw ∷ raws) depth base =
    All-append (λ j. j.retries ≤ n) _ _ (one (admit blacklist raw))
      (direct_jobs-Within sc n blacklist raws depth base)
  where
    one : (a : Option (Text × Text)) → Within n (direct_job sc a depth base)
    one none = unfold direct_job in tt
    one (some (url, domain)) = unfold direct_job in unfold make_job in (omega arith, tt)

module _ {F B : Type 0} ⦃std : Std⦄ ⦃o : ScoreOrder F⦄ ⦃bl : Bloom B⦄ (store : Store)
    (sc : Scorer F) where
  collect_reserved-queue :
      (r : Option (Frontier F B)) (f : Frontier F B) (c : Candidate)
      → ((g : Frontier F B) → r ≡ some g → g.queue ≡ f.queue)
      → (collect_reserved store sc r f c).0.queue ≡ f.queue
  unfolding collect_reserved
  collect_reserved-queue none f c h = refl
  collect_reserved-queue (some g) f c h = ground (arith, h g refl)

  collect_link-queue :
      (f : Frontier F B) (link : LinkContext) (a : Option (Text × Text))
      → (collect_link store sc f link a).0.queue ≡ f.queue
  unfolding collect_link
  collect_link-queue f link none = refl
  collect_link-queue f link (some (url, domain)) =
      collect_reserved-queue (reserve f (fingerprint_url url)) f _
        (λ g e. reserve-queue store sc f g (fingerprint_url url) e)

  collect-queue :
      (links : List LinkContext) (f : Frontier F B) → (collect store sc links f).0.queue ≡ f.queue
  unfolding collect
  collect-queue [] f = refl
  collect-queue (link ∷ links) f =
      collect-queue links (collect_link store sc f link (admit f.blacklisted_domains link.url)).0
      ∙ collect_link-queue f link (admit f.blacklisted_domains link.url)

  build_jobs-domains :
      (existing : List Text) (cs : List Candidate) (depth : ℕ) (base : F) (f : Frontier F B)
      → (build_jobs store sc existing cs depth base f).0.queue.domains ≡ f.queue.domains
  unfolding build_jobs mark_seen
  build_jobs-domains existing [] depth base f = refl
  build_jobs-domains existing (c ∷ cs) depth base f = ground (
    arith,
    build_jobs-domains existing cs depth base f,
    build_jobs-domains existing cs depth base
        (record f { queue = mark_seen f.queue c.fingerprint }),
  )

  build_jobs-Within :
      (n : ℕ) (existing : List Text) (cs : List Candidate) (depth : ℕ) (base : F) (f : Frontier F B)
      → Within n (build_jobs store sc existing cs depth base f).1
  unfolding build_jobs make_job
  build_jobs-Within n existing [] depth base f = tt
  build_jobs-Within n existing (c ∷ cs) depth base f =
      elim (Bool-cases (member c.normalized existing)) [
        | inl old ↦ rw old (build_jobs-Within n existing cs depth base _)
        | inr new ↦ rw new (omega arith, build_jobs-Within n existing cs depth base f)
      ]

  submit-Within :
      (n : ℕ) (f : Frontier F B) (jobs : List (Job F))
      → Within n jobs
      → QueueWithin n f.queue
      → QueueWithin n (submit store sc (f, jobs)).queue
  unfolding submit
  submit-Within n f [] h v = v
  submit-Within n f (job ∷ jobs) h v = enqueue_batch-Within n (job ∷ jobs) f.queue h v

  store_candidates-Within :
      (n : ℕ) (f : Frontier F B) (cs : List Candidate) (depth : ℕ) (base : F)
      → QueueWithin n f.queue
      → QueueWithin n (store_candidates store sc (f, cs) depth base).queue
  unfolding store_candidates
  store_candidates-Within n f [] depth base v = v
  store_candidates-Within n f (c ∷ cs) depth base v =
      let existing =
        or_none_stored
          (store.filter_existing_urls (map (λ (x : Candidate). x.normalized) (c ∷ cs))) in
      submit-Within n (build_jobs store sc existing (c ∷ cs) depth base f).0
        (build_jobs store sc existing (c ∷ cs) depth base f).1
        (build_jobs-Within n existing (c ∷ cs) depth base f)
        (rw (build_jobs-domains existing (c ∷ cs) depth base f) v)

  -- AddBatch keeps the bound.
  pub add_batch-Within :
      (n : ℕ) (f : Frontier F B) (links : List LinkContext) (depth : ℕ) (base : F)
      → QueueWithin n f.queue
      → QueueWithin n (add_batch store sc f links depth base).queue
  unfolding add_batch
  add_batch-Within n f links depth base v =
      store_candidates-Within n (collect store sc links f).0 (collect store sc links f).1 depth base
        (rw (collect-queue links f) v)

  -- So does AddBatchDirect.
  pub add_batch_direct-Within :
      (n : ℕ) (f : Frontier F B) (raws : List Text) (depth : ℕ) (base : F)
      → QueueWithin n f.queue
      → QueueWithin n (add_batch_direct store sc f raws depth base).0.queue
  unfolding add_batch_direct
  add_batch_direct-Within n f raws depth base v =
      go (direct_jobs sc f.blacklisted_domains raws depth base)
        (direct_jobs-Within sc n f.blacklisted_domains raws depth base)
    where
      go :
          (jobs : List (Job F))
          → Within n jobs
          → QueueWithin n (enqueue_direct store sc f jobs).0.queue
      go [] h = unfold enqueue_direct in v
      go (j ∷ js) h = unfold enqueue_direct in enqueue_batch_direct-Within n (j ∷ js) f.queue h v

  enqueue-Within :
      (n : ℕ) (q : Queue F B) (job : Job F)
      → job.retries ≤ n
      → QueueWithin n q
      → QueueWithin n (enqueue q job).0
  unfolding enqueue mark_seen
  enqueue-Within n q job h v = elim (Bool-cases (bl.test q.bloom (dedup_key job))) [
    | inl old ↦ rw old v
    | inr new ↦ rw new (enqueue_retry-Within n (mark_seen q (dedup_key job)) job h v)
  ]

  add_unseen-Within :
      (n : ℕ) (stored : Option Bool) (f : Frontier F B) (job : Job F)
      → job.retries ≤ n
      → QueueWithin n f.queue
      → QueueWithin n (add_unseen store sc stored f job).0.queue
  unfolding add_unseen mark_seen
  add_unseen-Within n none f job h v = v
  add_unseen-Within n (some true) f job h v = v
  add_unseen-Within n (some false) f job h v = enqueue-Within n f.queue job h v

  add_reserved-Within :
      (n : ℕ) (r : Option (Frontier F B)) (f : Frontier F B) (job : Job F)
      → ((g : Frontier F B) → r ≡ some g → g.queue ≡ f.queue)
      → job.retries ≤ n
      → QueueWithin n f.queue
      → QueueWithin n (add_reserved store sc r f job).0.queue
  unfolding add_reserved
  add_reserved-Within n none f job same h v = v
  add_reserved-Within n (some g) f job same h v =
      let w : QueueWithin n g.queue = rw (same g refl) v in
      elim (Bool-cases (has_seen g.queue job.fingerprint)) [
        | inl old ↦ rw old w
        | inr new ↦ rw new (add_unseen-Within n (store.get_page_by_url job.url) g job h w)
      ]

  -- And so does Add.
  pub add-Within :
      (n : ℕ) (f : Frontier F B) (raw : Text) (depth : ℕ) (base : F)
      → QueueWithin n f.queue
      → QueueWithin n (add store sc f raw depth base).0.queue
  unfolding add
  add-Within n f raw depth base v = go (admit f.blacklisted_domains raw)
    where
      go : (a : Option (Text × Text)) → QueueWithin n (add_admitted store sc a f depth base).0.queue
      go none = unfold add_admitted in v
      go (some (url, domain)) =
          unfold add_admitted in
          unfold make_job in
          add_reserved-Within n (reserve f (fingerprint_url url)) f _
            (λ g e. reserve-queue store sc f g (fingerprint_url url) e) (omega arith) v

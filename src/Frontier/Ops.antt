-- ===== src/Frontier/Ops.antt =====
-- internal/frontier/frontier.go: `Add`, `AddBatch` and `AddBatchDirect`.
use duvycrawl.Shared.{
  ℕ, Bool, true, false, Option, none, some, List, [], ◌∷◌, ◌++◌, map, if◌then◌else◌,
}
use duvycrawl.Shared.Text.{Text, member}
use duvycrawl.Url.{Std}
use duvycrawl.Queue.Defs.{ScoreOrder, Bloom, Job}
use duvycrawl.Queue.Ops.{has_seen, mark_seen, enqueue, enqueue_batch, enqueue_batch_direct}
use duvycrawl.Frontier.Fingerprint.{fingerprint_url}
use duvycrawl.Frontier.State.{
  Store, Scorer, LinkContext, Frontier, Candidate, reserve, admit, make_job, direct_jobs,
  no_context, or_none_stored,
}

module _ {F B : Type 0} ⦃std : Std⦄ ⦃o : ScoreOrder F⦄ ⦃bl : Bloom B⦄ (store : Store)
    (sc : Scorer F) where
  -- `Add` after the database lookup, whose answer is the first argument. The result is the error.
  unfoldable pub add_unseen : Option Bool → Frontier F B → Job F → Frontier F B × Bool
  unfolding mark_seen enqueue
  add_unseen none f job = (f, true)
  add_unseen (some true) f job = (record f { queue = mark_seen f.queue job.fingerprint }, false)
  add_unseen (some false) f job = (record f { queue = (enqueue f.queue job).0 }, false)

  -- `Add` after the reservation.
  unfoldable pub add_reserved : Option (Frontier F B) → Frontier F B → Job F → Frontier F B × Bool
  unfolding add_unseen has_seen
  add_reserved none f job = (f, false)
  add_reserved (some g) f job =
      if has_seen g.queue job.fingerprint
      then (g, false)
      else add_unseen (store.get_page_by_url job.url) g job

  unfoldable pub add_admitted : Option (Text × Text) → Frontier F B → ℕ → F → Frontier F B × Bool
  unfolding add_reserved reserve make_job fingerprint_url
  add_admitted none f depth base_score = (f, false)
  add_admitted (some (url, domain)) f depth base_score =
      add_reserved (reserve f (fingerprint_url url)) f
        (make_job sc url domain (fingerprint_url url) no_context depth base_score)

  -- `Add`.
  unfoldable pub add : Frontier F B → Text → ℕ → F → Frontier F B × Bool
  unfolding add_admitted admit
  add f raw depth base_score = add_admitted (admit f.blacklisted_domains raw) f depth base_score

  -- The first loop of `AddBatch` keeps the link as a candidate or skips it.
  unfoldable pub collect_reserved :
      Option (Frontier F B) → Frontier F B → Candidate → Frontier F B × List Candidate
  unfolding has_seen
  collect_reserved none f c = (f, [])
  collect_reserved (some g) f c = if has_seen g.queue c.fingerprint then (g, []) else (g, c ∷ [])

  unfoldable pub collect_link :
      Frontier F B → LinkContext → Option (Text × Text) → Frontier F B × List Candidate
  unfolding collect_reserved reserve fingerprint_url
  collect_link f link none = (f, [])
  collect_link f link (some (url, domain)) =
      let fp = fingerprint_url url in
      collect_reserved (reserve f fp) f
        (record { normalized = url; domain = domain; fingerprint = fp; context = link })

  unfoldable pub collect : List LinkContext → Frontier F B → Frontier F B × List Candidate
  unfolding collect_link admit
  collect [] f = (f, [])
  collect (link ∷ links) f =
      let (g, cs) = collect_link f link (admit f.blacklisted_domains link.url) in
      let (h, ds) = collect links g in (h, cs ++ ds)

  -- The second loop: candidates that the database knows are marked, the others become jobs.
  unfoldable pub build_jobs :
      List Text → List Candidate → ℕ → F → Frontier F B → Frontier F B × List (Job F)
  unfolding mark_seen make_job member
  build_jobs existing [] depth base_score f = (f, [])
  build_jobs existing (c ∷ cs) depth base_score f =
      let known =
        build_jobs existing cs depth base_score
          (record f { queue = mark_seen f.queue c.fingerprint }) in
      let fresh = build_jobs existing cs depth base_score f in
      if member c.normalized existing then known else (
        fresh.0,
        make_job sc c.normalized c.domain c.fingerprint c.context depth base_score ∷ fresh.1,
      )

  unfoldable pub submit : Frontier F B × List (Job F) → Frontier F B
  unfolding enqueue_batch
  submit (f, []) = f
  submit (f, job ∷ jobs) = record f { queue = (enqueue_batch f.queue (job ∷ jobs)).0 }

  unfoldable pub store_candidates : Frontier F B × List Candidate → ℕ → F → Frontier F B
  unfolding build_jobs submit or_none_stored
  store_candidates (f, []) depth base_score = f
  store_candidates (f, c ∷ cs) depth base_score = submit (
      build_jobs
        (or_none_stored
          (store.filter_existing_urls (map (λ (x : Candidate). x.normalized) (c ∷ cs))))
        (c ∷ cs) depth base_score f)

  -- `AddBatch`; it returns no error.
  unfoldable pub add_batch : Frontier F B → List LinkContext → ℕ → F → Frontier F B
  unfolding store_candidates collect
  add_batch f links depth base_score = store_candidates (collect links f) depth base_score

  -- `AddBatchDirect`, with the number of jobs added.
  unfoldable pub enqueue_direct : Frontier F B → List (Job F) → Frontier F B × ℕ
  unfolding enqueue_batch_direct
  enqueue_direct f [] = (f, 0)
  enqueue_direct f (job ∷ jobs) =
      let (q, added) = enqueue_batch_direct f.queue (job ∷ jobs) in (record f { queue = q }, added)

  unfoldable pub add_batch_direct : Frontier F B → List Text → ℕ → F → Frontier F B × ℕ
  unfolding enqueue_direct direct_jobs
  add_batch_direct f raws depth base_score =
      enqueue_direct f (direct_jobs sc f.blacklisted_domains raws depth base_score)

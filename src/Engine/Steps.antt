-- ===== src/Engine/Steps.antt =====
-- internal/crawler/engine.go: the workers of an engine as interleaved steps, over the queue, the rate
-- limiter and the backlog that they share, and the jobs that they have in hand. A round is cut at
-- its calls of the network: what a worker does between two of them is one step.
use duvycrawl.Shared.{
  ℕ, ◌<◌, ◌≡◌, refl, Bool, true, false, some, List, ◌∷◌, ◌++◌, if◌then◌else◌, inl, inr, Bool-cases,
}
use duvycrawl.UrlFilter.{is_non_indexable_document_url}
use duvycrawl.Robots.{is_allowed}
use duvycrawl.Frontier.Blacklist.{is_blacklisted_domain}
use duvycrawl.Shared.Text.{Text}
use duvycrawl.Url.{Std}
use duvycrawl.Queue.Defs.{ScoreOrder, Bloom, Job, Queue}
use duvycrawl.Queue.Ops.{dequeue, len}
use duvycrawl.Frontier.State.{Store, Scorer, LinkContext}
use duvycrawl.Frontier.Ops.{add, add_batch, add_batch_direct}
use duvycrawl.RateLimit.{DomainLimiter, try_wait}
use duvycrawl.Engine.State.{Config, BacklogItem, Backlog, Engine, Answers}
use duvycrawl.Engine.Backlog.{pop_render_backlog, push_render_backlog}
use duvycrawl.Engine.Process.{
  Penalty, process_job, process_allowed, process_fetched, process_rendered,
}

-- `readyFn` of a worker: the rate limiter reserves a slot.
abbrev pub ready : ℕ → DomainLimiter → Text → DomainLimiter × Bool
ready now limiter domain = try_wait now limiter domain

-- The engine and what its workers have in hand: jobs before their check, jobs in `Fetch`, items
-- that wait for their time, and items in the browser.
pub record Running (F B R : Type 0) : Type 0 where
  pub engine : Engine F B R
  pub taken : List (Job F)
  pub fetching : List (Job F)
  pub popped : List (BacklogItem F)
  pub rendering : List (BacklogItem F)

abbrev pub when : {A : Type 0} → Bool → A → List A → List A
when b x xs = if b then x ∷ xs else xs

module _ {F B R : Type 0} ⦃std : Std⦄ ⦃o : ScoreOrder F⦄ ⦃bl : Bloom B⦄ (pen : Penalty F)
    (cfg : Config) where
  -- The engine after a `Dequeue` that left this queue and this limiter.
  abbrev pub after_dequeue : Engine F B R → Queue F B → DomainLimiter → Engine F B R
  after_dequeue e q limiter = record e {
    frontier = record e.frontier { queue = q };
    limiter = limiter;
  }

  -- `processJob` up to the fetch: the engine after the look at robots.txt, and whether the job goes on.
  unfoldable pub check_job : Answers F R → Engine F B R → Job F → Engine F B R × Bool
  unfolding is_non_indexable_document_url is_blacklisted_domain is_allowed
  check_job env e job =
      let (cache, allowed) =
        is_allowed env.robots_parser env.robots_ttl env.now env.robots_result e.robots_cache job.url
          job.domain in
      if is_non_indexable_document_url job.url
      then (e, false)
      else if is_blacklisted_domain cfg.blacklisted_domains job.domain
      then (e, false)
      else if cfg.respect_robots
      then (record e { robots_cache = cache }, allowed)
      else (e, true)

  -- With nothing in between, the check and the handling of the answer are `processJob`.
  pub process_job-check_job :
      (env : Answers F R) (e : Engine F B R) (job : Job F)
      → process_job pen cfg env e job ≡ (
          if (check_job env e job).1
          then process_fetched pen cfg env (check_job env e job).0 job env.fetch
          else (check_job env e job).0)
  unfolding process_job process_allowed check_job
  process_job-check_job env e job = elim (Bool-cases (is_non_indexable_document_url job.url)) [
    | inl y ↦ rw y refl
    | inr n ↦ rw n (elim (Bool-cases (is_blacklisted_domain cfg.blacklisted_domains job.domain)) [
      | inl y ↦ rw y refl
      | inr m ↦
          rw m (elim (Bool-cases cfg.respect_robots) [ inl y ↦ rw y refl | inr k ↦ rw k refl ])
    ])
  ]

  -- A step of one worker, or a call from outside. A worker may pop an item whatever the queue holds
  -- by then, since it looks at the queue before.
  pub data Step : Running F B R → Running F B R → Type 0 where
    takes :
        (now : ℕ) (w : Running F B R) (order : List (Text × List (Job F))) (limiter : DomainLimiter)
        (q : Queue F B) (job : Job F)
        → dequeue (ready now) order w.engine.limiter w.engine.frontier.queue
          ≡ some (q, limiter, some job)
        → Step w (record w { engine = after_dequeue w.engine q limiter; taken = job ∷ w.taken })
    checks :
        (env : Answers F R) (w : Running F B R) (xs ys : List (Job F)) (job : Job F)
        → w.taken ≡ xs ++ job ∷ ys
        → Step w (record w {
          engine = (check_job env w.engine job).0;
          taken = xs ++ ys;
          fetching = when (check_job env w.engine job).1 job w.fetching;
        })
    handles :
        (env : Answers F R) (w : Running F B R) (xs ys : List (Job F)) (job : Job F)
        → w.fetching ≡ xs ++ job ∷ ys
        → Step w (record w {
          engine = process_fetched pen cfg env w.engine job env.fetch;
          fetching = xs ++ ys;
        })
    pops :
        (w : Running F B R) (b : Backlog F) (item : BacklogItem F)
        → pop_render_backlog w.engine.backlog ≡ (b, some item)
        → Step w (record w { engine = record w.engine { backlog = b }; popped = item ∷ w.popped })
    yields :
        (w : Running F B R) (xs ys : List (BacklogItem F)) (item : BacklogItem F)
        → w.popped ≡ xs ++ item ∷ ys
        → 0 < len w.engine.frontier.queue
        → Step w (record w {
          engine = record w.engine { backlog = push_render_backlog w.engine.backlog item };
          popped = xs ++ ys;
        })
    renders :
        (w : Running F B R) (xs ys : List (BacklogItem F)) (item : BacklogItem F)
        → w.popped ≡ xs ++ item ∷ ys
        → len w.engine.frontier.queue ≡ 0
        → Step w (record w { popped = xs ++ ys; rendering = item ∷ w.rendering })
    rendered :
        (env : Answers F R) (w : Running F B R) (xs ys : List (BacklogItem F))
        (item : BacklogItem F)
        → w.rendering ≡ xs ++ item ∷ ys
        → Step w (record w {
          engine = process_rendered pen cfg env w.engine item env.fetch;
          rendering = xs ++ ys;
        })
    adds :
        (store : Store) (sc : Scorer F) (w : Running F B R) (url : Text) (depth : ℕ) (base : F)
        → Step w (record w {
          engine = record w.engine { frontier = (add store sc w.engine.frontier url depth base).0 };
        })
    adds_batch :
        (store : Store) (sc : Scorer F) (w : Running F B R) (links : List LinkContext) (depth : ℕ)
        (base : F)
        → Step w (record w {
          engine = record w.engine {
            frontier = add_batch store sc w.engine.frontier links depth base;
          };
        })
    adds_direct :
        (store : Store) (sc : Scorer F) (w : Running F B R) (urls : List Text) (depth : ℕ)
        (base : F)
        → Step w (record w {
          engine = record w.engine {
            frontier = (add_batch_direct store sc w.engine.frontier urls depth base).0;
          };
        })

  pub data Reach (start : Running F B R) : Running F B R → Type 0 where
    stays : Reach start start
    continues : {w w' : Running F B R} → Reach start w → Step w w' → Reach start w'

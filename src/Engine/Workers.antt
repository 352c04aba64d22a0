-- ===== src/Engine/Workers.antt =====
-- internal/crawler/engine.go: no interleaving of the workers gives a job more retries than the limit.
use duvycrawl.Shared.{
  ℕ, ◌≤◌, ◌≡◌, subst, Bool, true, false, Option, none, some, List, [], ◌∷◌, ◌++◌, All, inl, inr,
  Bool-cases,
}
use duvycrawl.UrlFilter.{is_non_indexable_document_url}
use duvycrawl.Frontier.Blacklist.{is_blacklisted_domain}
use duvycrawl.Url.{Std}
use duvycrawl.Queue.Defs.{ScoreOrder, Bloom, Job}
use duvycrawl.Queue.Retries.{dequeue-Within, Within}
use duvycrawl.Frontier.Retries.{add-Within, add_batch-Within, add_batch_direct-Within}
use duvycrawl.Engine.Page.{Fetched, Parsed}
use duvycrawl.Engine.State.{
  Config, BacklogItem, Engine, FetchAnswer, unsupported, busy, failed, fetched, Answers,
}
use duvycrawl.Engine.Persist.{process_discovery_only}
use duvycrawl.Engine.Process.{Penalty, delay_item, process_rendered_page, process_rendered}
use duvycrawl.Engine.Retries.{
  IsWithin, push-Within, pop-Within, retry_or_fail-IsWithin, if-IsWithin, persist-IsWithin,
  discover-IsWithin, count_error-IsWithin, process_fetched-IsWithin,
}
use duvycrawl.Engine.Steps.{
  ready, check_job, Running, when, Step, takes, checks, handles, pops, yields, renders, rendered,
  adds, adds_batch, adds_direct, Reach, stays, continues,
}

All-remove :
    {A : Type 0} (P : A → Type 0) (xs ys : List A) (x : A)
    → All P (xs ++ x ∷ ys)
    → P x × All P (xs ++ ys)
All-remove P [] ys x h = h
All-remove P (z ∷ xs) ys x (h, hs) = let (a, b) = All-remove P xs ys x hs in (a, (h, b))

All-when :
    {A : Type 0} (P : A → Type 0) (b : Bool) (x : A) (xs : List A)
    → P x
    → All P xs
    → All P (when b x xs)
All-when P true x xs h hs = (h, hs)
All-when P false x xs h hs = hs

-- An item or a job in hand, taken out of its list.
job_in_hand :
    {F : Type 0} (n : ℕ) {jobs : List (Job F)} (xs ys : List (Job F)) (job : Job F)
    → jobs ≡ xs ++ job ∷ ys
    → Within n jobs
    → (job.retries ≤ n) × Within n (xs ++ ys)
job_in_hand {F = F} n xs ys job e h =
    All-remove (λ (j : Job F). j.retries ≤ n) xs ys job (subst (Within n) e h)

item_in_hand :
    {F : Type 0} (n : ℕ) {items : List (BacklogItem F)} (xs ys : List (BacklogItem F))
    (item : BacklogItem F)
    → items ≡ xs ++ item ∷ ys
    → All (λ (i : BacklogItem F). i.job.retries ≤ n) items
    → (item.job.retries ≤ n) × All (λ (i : BacklogItem F). i.job.retries ≤ n) (xs ++ ys)
item_in_hand {F = F} n xs ys item e h =
    All-remove (λ (i : BacklogItem F). i.job.retries ≤ n) xs ys item
      (subst (All (λ (i : BacklogItem F). i.job.retries ≤ n)) e h)

module _ {F B R : Type 0} ⦃std : Std⦄ ⦃o : ScoreOrder F⦄ ⦃bl : Bloom B⦄ (pen : Penalty F)
    (cfg : Config) where
  -- No job has more retries than the limit: in the queue, in the backlog, or in a worker's hand.
  pub record IsBounded (w : Running F B R) : Type 0 where
    pub shared : IsWithin cfg.max_retries w.engine
    pub taken : Within cfg.max_retries w.taken
    pub fetching : Within cfg.max_retries w.fetching
    pub popped : All (λ (i : BacklogItem F). i.job.retries ≤ cfg.max_retries) w.popped
    pub rendering : All (λ (i : BacklogItem F). i.job.retries ≤ cfg.max_retries) w.rendering

  process_rendered_page-IsWithin :
      (env : Answers F R) (e : Engine F B R) (job : Job F) (result : Fetched) (p : Option Parsed)
      → IsWithin cfg.max_retries e
      → IsWithin cfg.max_retries (process_rendered_page pen cfg env e job result p)
  unfolding process_rendered_page
  process_rendered_page-IsWithin env e job result none v = count_error-IsWithin cfg.max_retries e v
  process_rendered_page-IsWithin env e job result (some parsed) v =
      if-IsWithin cfg.max_retries _ _ _ (count_error-IsWithin cfg.max_retries e v)
        (persist-IsWithin cfg.max_retries pen.priority_normal cfg env e job result parsed v)

  process_rendered-IsWithin :
      (env : Answers F R) (e : Engine F B R) (item : BacklogItem F) (a : FetchAnswer)
      → item.job.retries ≤ cfg.max_retries
      → IsWithin cfg.max_retries e
      → IsWithin cfg.max_retries (process_rendered pen cfg env e item a)
  unfolding process_rendered process_discovery_only delay_item
  process_rendered-IsWithin env e item unsupported h v = retry_or_fail-IsWithin cfg e item.job v
  process_rendered-IsWithin env e item failed h v = retry_or_fail-IsWithin cfg e item.job v
  process_rendered-IsWithin env e item busy h v =
      if-IsWithin cfg.max_retries _ _ _
        (record {
          queued = v.queued;
          waiting = push-Within cfg.max_retries e.backlog (delay_item cfg env.now item) h v.waiting;
        })
        (retry_or_fail-IsWithin cfg e item.job v)
  process_rendered-IsWithin env e item (fetched result) h v =
      if-IsWithin cfg.max_retries _ _ _ (count_error-IsWithin cfg.max_retries e v) (
        if-IsWithin cfg.max_retries _ e _ v (
          if-IsWithin cfg.max_retries _ _ _
            (discover-IsWithin cfg.max_retries pen.priority_normal cfg env e item.job result
              (env.resource_links result) v)
            (process_rendered_page-IsWithin env e item.job result (env.parse result) v)))

  check_job-IsWithin :
      (env : Answers F R) (e : Engine F B R) (job : Job F)
      → IsWithin cfg.max_retries e
      → IsWithin cfg.max_retries (check_job pen cfg env e job).0
  unfolding check_job
  check_job-IsWithin env e job v = elim (Bool-cases (is_non_indexable_document_url job.url)) [
    | inl y ↦ rw y v
    | inr n ↦ rw n (elim (Bool-cases (is_blacklisted_domain cfg.blacklisted_domains job.domain)) [
      | inl y ↦ rw y v
      | inr m ↦ rw m (elim (Bool-cases cfg.respect_robots) [
        | inl y ↦ rw y (record { queued = v.queued; waiting = v.waiting })
        | inr k ↦ rw k v
      ])
    ])
  ]

  Step-IsBounded : {w w' : Running F B R} → Step pen cfg w w' → IsBounded w → IsBounded w'
  Step-IsBounded (takes now w order limiter q job f) v =
      let (few, left) =
        dequeue-Within cfg.max_retries (ready now) order w.engine.limiter limiter
          w.engine.frontier.queue q job f v.shared.queued in
      record {
        shared = record { queued = left; waiting = v.shared.waiting };
        taken = (few, v.taken);
        fetching = v.fetching;
        popped = v.popped;
        rendering = v.rendering;
      }
  Step-IsBounded (checks env w xs ys job e) v =
      let (few, left) = job_in_hand cfg.max_retries xs ys job e v.taken in
      record {
        shared = check_job-IsWithin env w.engine job v.shared;
        taken = left;
        fetching =
            All-when (λ (j : Job F). j.retries ≤ cfg.max_retries)
              (check_job pen cfg env w.engine job).1 job w.fetching few v.fetching;
        popped = v.popped;
        rendering = v.rendering;
      }
  Step-IsBounded (handles env w xs ys job e) v =
      let (few, left) = job_in_hand cfg.max_retries xs ys job e v.fetching in
      record {
        shared = process_fetched-IsWithin pen cfg env w.engine job env.fetch few v.shared;
        taken = v.taken;
        fetching = left;
        popped = v.popped;
        rendering = v.rendering;
      }
  Step-IsBounded (pops w b item f) v =
      let (few, left) = pop-Within cfg.max_retries w.engine.backlog b item f v.shared.waiting in
      record {
        shared = record { queued = v.shared.queued; waiting = left };
        taken = v.taken;
        fetching = v.fetching;
        popped = (few, v.popped);
        rendering = v.rendering;
      }
  Step-IsBounded (yields w xs ys item e f) v =
      let (few, left) = item_in_hand cfg.max_retries xs ys item e v.popped in
      record {
        shared = record {
          queued = v.shared.queued;
          waiting = push-Within cfg.max_retries w.engine.backlog item few v.shared.waiting;
        };
        taken = v.taken;
        fetching = v.fetching;
        popped = left;
        rendering = v.rendering;
      }
  Step-IsBounded (renders w xs ys item e f) v =
      let (few, left) = item_in_hand cfg.max_retries xs ys item e v.popped in
      record {
        shared = v.shared;
        taken = v.taken;
        fetching = v.fetching;
        popped = left;
        rendering = (few, v.rendering);
      }
  Step-IsBounded (rendered env w xs ys item e) v =
      let (few, left) = item_in_hand cfg.max_retries xs ys item e v.rendering in
      record {
        shared = process_rendered-IsWithin env w.engine item env.fetch few v.shared;
        taken = v.taken;
        fetching = v.fetching;
        popped = v.popped;
        rendering = left;
      }
  Step-IsBounded (adds store sc w url depth base) v = record {
    taken = v.taken;
    fetching = v.fetching;
    popped = v.popped;
    rendering = v.rendering;
    shared = record {
      queued = add-Within store sc cfg.max_retries w.engine.frontier url depth base v.shared.queued;
      waiting = v.shared.waiting;
    };
  }
  Step-IsBounded (adds_batch store sc w links depth base) v = record {
    taken = v.taken;
    fetching = v.fetching;
    popped = v.popped;
    rendering = v.rendering;
    shared = record {
      queued =
          add_batch-Within store sc cfg.max_retries w.engine.frontier links depth base
            v.shared.queued;
      waiting = v.shared.waiting;
    };
  }
  Step-IsBounded (adds_direct store sc w urls depth base) v = record {
    taken = v.taken;
    fetching = v.fetching;
    popped = v.popped;
    rendering = v.rendering;
    shared = record {
      queued =
          add_batch_direct-Within store sc cfg.max_retries w.engine.frontier urls depth base
            v.shared.queued;
      waiting = v.shared.waiting;
    };
  }

  -- Whatever the network answers, and however the workers interleave at their calls of the network
  -- with each other and with Add, AddBatch and AddBatchDirect from outside, no job in the queue, in
  -- the backlog or in a worker's hand has more retries than `max_retries`, if none had at the start.
  pub Reach-IsBounded :
      {start w : Running F B R} → Reach pen cfg start w → IsBounded start → IsBounded w
  Reach-IsBounded stays v = v
  Reach-IsBounded (continues r st) v = Step-IsBounded st (Reach-IsBounded r v)

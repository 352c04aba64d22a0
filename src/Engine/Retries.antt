-- ===== src/Engine/Retries.antt =====
-- internal/crawler/engine.go: how often a job is tried. What the engine does with an answer gives no
-- waiting job more retries than the limit.
use mathlib.Core.Option.{some-injective}
use duvycrawl.Shared.{
  ℕ, ◌+◌, ◌≤◌, ◌≡◌, ap, subst, Bool, true, false, not, ◌||◌, Option, none, some, List, [], ◌∷◌, ltb,
  if◌then◌else◌, All, All-append, arith, inl, inr, Bool-cases,
}
use duvycrawl.Shared.Text.{Text, member}
use duvycrawl.Url.{Std}
use duvycrawl.UrlFilter.{is_non_indexable_document_url}
use duvycrawl.Queue.Defs.{ScoreOrder, Bloom, Job}
use duvycrawl.Queue.Retries.{QueueWithin, enqueue_retry-Within}
use duvycrawl.Frontier.State.{LinkContext, retry}
use duvycrawl.Frontier.Retries.{add_batch-Within}
use duvycrawl.Render.{Decision, Reason, rendering_enabled}
use duvycrawl.Engine.Page.{Fetched, Parsed, Page, LinkAnchor, is_success, is_permanent_error}
use duvycrawl.Engine.State.{
  Config, BacklogItem, Backlog, Engine, FetchAnswer, unsupported, busy, failed, fetched, Answers,
}
use duvycrawl.Engine.Backlog.{
  key_of, push_render_backlog, enqueue_render_backlog, pop_items, pop_render_backlog,
}
use duvycrawl.Engine.Persist.{
  add_links, enqueue_discovered_links, follow_links, write_parsed, make_page, persist_parsed_page,
  own_anchors, discover, process_discovery_only,
}
use duvycrawl.Engine.Process.{
  Penalty, count_error, retry_or_fail, demote, process_bad_status, render_or, index_page,
  process_parsed, process_success, process_fetched,
}

abbrev pub BacklogWithin : {F : Type 0} → ℕ → Backlog F → Type 0
BacklogWithin {F} n b = All (λ (i : BacklogItem F). i.job.retries ≤ n) b.items

-- No waiting job, in the queue or in the backlog, has more than `n` retries.
pub record IsWithin {F B R : Type 0} (n : ℕ) (e : Engine F B R) : Type 0 where
  pub queued : QueueWithin n e.frontier.queue
  pub waiting : BacklogWithin n e.backlog

module _ {F : Type 0} ⦃std : Std⦄ where
  pub push-Within :
      (n : ℕ) (b : Backlog F) (item : BacklogItem F)
      → item.job.retries ≤ n
      → BacklogWithin n b
      → BacklogWithin n (push_render_backlog b item)
  unfolding push_render_backlog
  push-Within n b item h v = elim (Bool-cases (member (key_of item) b.queued)) [
    | inl old ↦ rw old v
    | inr new ↦
        rw new (All-append (λ (i : BacklogItem F). i.job.retries ≤ n) b.items (item ∷ []) v (h, tt))
  ]

  if-Within :
      (n : ℕ) (c : Bool) (x y : Backlog F × Bool)
      → BacklogWithin n x.0
      → BacklogWithin n y.0
      → BacklogWithin n (if c then x else y).0
  if-Within n true x y v w = v
  if-Within n false x y v w = w

  enqueue-Within :
      (n : ℕ) (cfg : Config) (now : ℕ) (b : Backlog F) (job : Job F) (target : Text)
      (reason : Reason)
      → job.retries ≤ n
      → BacklogWithin n b
      → BacklogWithin n (enqueue_render_backlog cfg now b job target reason).0
  unfolding enqueue_render_backlog
  enqueue-Within n cfg now b job target reason h v =
      if-Within n (not cfg.has_renderer || not (rendering_enabled cfg.rendering_cfg)) (b, false) _ v
        (if-Within n (is_non_indexable_document_url target) (b, false) _ v (push-Within n b _ h v))

  pub pop-Within :
      (n : ℕ) (b b' : Backlog F) (item : BacklogItem F)
      → pop_render_backlog b ≡ (b', some item)
      → BacklogWithin n b
      → (item.job.retries ≤ n) × BacklogWithin n b'
  unfolding pop_render_backlog
  pop-Within n b b' item e v = go b.items e v
    where
      go :
          (is : List (BacklogItem F))
          → pop_items is b ≡ (b', some item)
          → All (λ (i : BacklogItem F). i.job.retries ≤ n) is
          → (item.job.retries ≤ n) × BacklogWithin n b'
      go [] e h = absurd (unfold pop_items in cc e)
      go (i ∷ is) e h = (
        subst (λ (j : BacklogItem F). j.job.retries ≤ n)
            (some-injective i item
              (ap (λ (x : Backlog F × Option (BacklogItem F)). x.1) (unfold pop_items in e)))
            h.0,
        subst (BacklogWithin n)
            (ap (λ (x : Backlog F × Option (BacklogItem F)). x.0) (unfold pop_items in e)) h.1,
      )

module _ {F B R : Type 0} ⦃std : Std⦄ ⦃o : ScoreOrder F⦄ ⦃bl : Bloom B⦄ where
  pub retry_or_fail-IsWithin :
      (cfg : Config) (e : Engine F B R) (job : Job F)
      → IsWithin cfg.max_retries e
      → IsWithin cfg.max_retries (retry_or_fail cfg e job)
  unfolding retry_or_fail retry count_error
  retry_or_fail-IsWithin cfg e job v = elim (Bool-cases (ltb job.retries cfg.max_retries)) [
    | inl more ↦ rw more (record {
      queued =
          enqueue_retry-Within cfg.max_retries e.frontier.queue
            (record job { retries = job.retries + 1 }) (ground arith) v.queued;
      waiting = v.waiting;
    })
    | inr no_more ↦ rw no_more (record { queued = v.queued; waiting = v.waiting })
  ]

  add_links-IsWithin :
      (n : ℕ) (p : F) (env : Answers F R) (e : Engine F B R) (links : List LinkContext) (depth : ℕ)
      → IsWithin n e
      → IsWithin n (add_links p env e links depth)
  unfolding add_links
  add_links-IsWithin n p env e [] depth v = v
  add_links-IsWithin n p env e (l ∷ ls) depth v = record {
    queued = add_batch-Within env.store env.scorer n e.frontier (l ∷ ls) depth p v.queued;
    waiting = v.waiting;
  }

  pub if-IsWithin :
      (n : ℕ) (c : Bool) (x y : Engine F B R)
      → IsWithin n x
      → IsWithin n y
      → IsWithin n (if c then x else y)
  if-IsWithin n true x y v w = v
  if-IsWithin n false x y v w = w

  follow_links-IsWithin :
      (n : ℕ) (p : F) (cfg : Config) (env : Answers F R) (e : Engine F B R) (job : Job F)
      (anchors : List LinkAnchor) (page : Option Page)
      → IsWithin n e
      → IsWithin n (follow_links p cfg env e job anchors page)
  unfolding follow_links enqueue_discovered_links
  follow_links-IsWithin n p cfg env e job anchors page v =
      if-IsWithin n _ _ e (add_links-IsWithin n p env e _ (job.depth + 1) v) v

  pub persist-IsWithin :
      (n : ℕ) (p : F) (cfg : Config) (env : Answers F R) (e : Engine F B R) (job : Job F)
      (result : Fetched) (parsed : Parsed)
      → IsWithin n e
      → IsWithin n (persist_parsed_page p cfg env e job result parsed)
  unfolding persist_parsed_page write_parsed
  persist-IsWithin n p cfg env e job result parsed v =
      let page = make_page env.sha256 env.now job result parsed in
      let w =
        follow_links-IsWithin n p cfg env (write_parsed p env e page parsed) job parsed.anchors
          (some page) (record { queued = v.queued; waiting = v.waiting }) in
      record { queued = w.queued; waiting = w.waiting }

  pub discover-IsWithin :
      (n : ℕ) (p : F) (cfg : Config) (env : Answers F R) (e : Engine F B R) (job : Job F)
      (result : Fetched) (links : List Text)
      → IsWithin n e
      → IsWithin n (discover p cfg env e job result links)
  unfolding discover
  discover-IsWithin n p cfg env e job result [] v = v
  discover-IsWithin n p cfg env e job result (l ∷ ls) v =
      let w = follow_links-IsWithin n p cfg env e job (own_anchors job.domain (l ∷ ls)) none v in
      record { queued = w.queued; waiting = w.waiting }

  render_or-IsWithin :
      (n : ℕ) (pen : Penalty F) (cfg : Config) (env : Answers F R) (e : Engine F B R) (job : Job F)
      (target : Text) (d : Decision) (rest : Engine F B R)
      → job.retries ≤ n
      → IsWithin n e
      → IsWithin n rest
      → IsWithin n (render_or pen cfg env e job target d rest)
  unfolding render_or
  render_or-IsWithin n pen cfg env e job target none rest h v w = w
  render_or-IsWithin n pen cfg env e job target (some reason) rest h v w =
      if-IsWithin n (enqueue_render_backlog cfg env.now e.backlog job target reason).1 _ rest
        (record {
          queued = v.queued;
          waiting = enqueue-Within n cfg env.now e.backlog job target reason h v.waiting;
        })
        w

  pub count_error-IsWithin : (n : ℕ) (e : Engine F B R) → IsWithin n e → IsWithin n (count_error e)
  unfolding count_error
  count_error-IsWithin n e v = record { queued = v.queued; waiting = v.waiting }

  module _ (pen : Penalty F) (cfg : Config) (env : Answers F R) where
    abbrev Fine : Engine F B R → Type 0
    Fine = IsWithin cfg.max_retries

    process_bad_status-IsWithin :
        (e : Engine F B R) (job : Job F) (code : ℕ)
        → Fine e
        → Fine (process_bad_status pen cfg env.now e job code)
    unfolding process_bad_status
    process_bad_status-IsWithin e job code v =
        if-IsWithin cfg.max_retries (is_permanent_error code) (count_error e) _
          (count_error-IsWithin cfg.max_retries e v)
          (if-IsWithin cfg.max_retries _ _ _
            (retry_or_fail-IsWithin cfg _ (demote pen job)
              (record { queued = v.queued; waiting = v.waiting }))
            (retry_or_fail-IsWithin cfg e job v))

    index_page-IsWithin :
        (e : Engine F B R) (job : Job F) (result : Fetched) (parsed : Parsed)
        → Fine e
        → Fine (index_page pen cfg env e job result parsed)
    unfolding index_page
    index_page-IsWithin e job result parsed v = if-IsWithin cfg.max_retries _ e _ v (
        if-IsWithin cfg.max_retries _ (count_error e) _ (count_error-IsWithin cfg.max_retries e v)
          (persist-IsWithin cfg.max_retries pen.priority_normal cfg env e job result parsed v))

    process_parsed-IsWithin :
        (e : Engine F B R) (job : Job F) (result : Fetched) (parsed : Option Parsed)
        → job.retries ≤ cfg.max_retries
        → Fine e
        → Fine (process_parsed pen cfg env e job result parsed)
    unfolding process_parsed
    process_parsed-IsWithin e job result none h v = retry_or_fail-IsWithin cfg e job v
    process_parsed-IsWithin e job result (some parsed) h v =
        render_or-IsWithin cfg.max_retries pen cfg env e job result.final_url _ _ h v
          (index_page-IsWithin e job result parsed v)

    process_success-IsWithin :
        (e : Engine F B R) (job : Job F) (result : Fetched)
        → job.retries ≤ cfg.max_retries
        → Fine e
        → Fine (process_success pen cfg env e job result)
    unfolding process_success process_discovery_only
    process_success-IsWithin e job result h v = if-IsWithin cfg.max_retries _ e _ v (
        if-IsWithin cfg.max_retries _ _ _
          (discover-IsWithin cfg.max_retries pen.priority_normal cfg env e job result
            (env.resource_links result) v)
          (process_parsed-IsWithin e job result (env.parse result) h v))

    -- The handling of a fetched page keeps the bound.
    pub process_fetched-IsWithin :
        (e : Engine F B R) (job : Job F) (a : FetchAnswer)
        → job.retries ≤ cfg.max_retries
        → Fine e
        → Fine (process_fetched pen cfg env e job a)
    unfolding process_fetched
    process_fetched-IsWithin e job unsupported h v = v
    process_fetched-IsWithin e job busy h v = retry_or_fail-IsWithin cfg e job v
    process_fetched-IsWithin e job failed h v = retry_or_fail-IsWithin cfg e job v
    process_fetched-IsWithin e job (fetched result) h v =
        if-IsWithin cfg.max_retries (is_success result.status_code) _ _
          (process_success-IsWithin e job result h v)
          (render_or-IsWithin cfg.max_retries pen cfg env e job job.url _ _ h v
            (process_bad_status-IsWithin e job result.status_code v))

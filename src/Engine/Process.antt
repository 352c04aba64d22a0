-- ===== src/Engine/Process.antt =====
-- internal/crawler/engine.go: `processJob`, `retryOrFail`, the items of the browser's backlog, and
-- one round of a worker.
pub mod Laws
use duvycrawl.Shared.{
  ℕ, ◌+◌, ◌*◌, ◌==◌, Bool, true, false, not, ◌&&◌, ◌||◌, Option, none, some, List, [], ◌∷◌,
  if◌then◌else◌, ltb,
}
use duvycrawl.Shared.Text.{Text}
use duvycrawl.Url.{Std}
use duvycrawl.UrlFilter.{is_non_indexable_document_url}
use duvycrawl.Queue.Defs.{ScoreOrder, Bloom, Job}
use duvycrawl.Queue.Ops.{len}
use duvycrawl.Frontier.State.{retry}
use duvycrawl.Frontier.Blacklist.{is_blacklisted_domain}
use duvycrawl.RateLimit.{mark_throttled}
use duvycrawl.Robots.{is_allowed}
use duvycrawl.Render.{
  Decision, should_render_status, should_render_parsed, contains_known_interstitial,
  lower_body_sample,
}
use duvycrawl.Engine.Page.{
  Fetched, Parsed, to_read, is_success, is_permanent_error, is_html_content_type,
}
use duvycrawl.Engine.State.{
  Config, BacklogItem, Engine, FetchAnswer, unsupported, busy, failed, fetched, Answers,
}
use duvycrawl.Engine.Backlog.{enqueue_render_backlog, push_render_backlog, pop_render_backlog}
use duvycrawl.Engine.Persist.{persist_parsed_page, process_discovery_only}

-- The float64 operations on a job's score after a 429, and `storage.PriorityNormal`.
pub record Penalty (F : Type 0) : Type 0 where
  pub quarter_of : F → F
  pub one : F
  pub priority_normal : F

module _ {F : Type 0} where
  -- The score of a job after a 429.
  unfoldable pub demote : ⦃o : ScoreOrder F⦄ → Penalty F → Job F → Job F
  demote ⦃o⦄ pen job =
      let s = pen.quarter_of job.score in
      record job { score = if o.lt s pen.one then pen.one else s }

  -- `item.attempts++`, the delay with its bound, and the new time.
  unfoldable pub delay_item : Config → ℕ → BacklogItem F → BacklogItem F
  delay_item cfg now item =
      let attempts = item.attempts + 1 in
      let delay = attempts * cfg.busy_retry_base_delay in
      record item {
        attempts = attempts;
        available =
            now + (if ltb cfg.busy_retry_max_delay delay then cfg.busy_retry_max_delay else delay);
      }

module _ {F B R : Type 0} where
  -- `e.pagesErrored.Add(1)`.
  unfoldable pub count_error : Engine F B R → Engine F B R
  count_error e = record e { pages_errored = e.pages_errored + 1 }

  -- `retryOrFail`.
  unfoldable pub retry_or_fail : ⦃o : ScoreOrder F⦄ → Config → Engine F B R → Job F → Engine F B R
  unfolding retry count_error
  retry_or_fail cfg e job =
      if ltb job.retries cfg.max_retries
      then record e { frontier = retry e.frontier (record job { retries = job.retries + 1 }) }
      else count_error e

module _ {F B R : Type 0} ⦃std : Std⦄ ⦃o : ScoreOrder F⦄ ⦃bl : Bloom B⦄ (pen : Penalty F) where
  -- A status outside of 2xx that is not left to the browser.
  unfoldable pub process_bad_status : Config → ℕ → Engine F B R → Job F → ℕ → Engine F B R
  unfolding is_permanent_error count_error retry_or_fail mark_throttled demote
  process_bad_status cfg now e job code =
      if is_permanent_error code
      then count_error e
      else if code == 429
      then retry_or_fail cfg (record e { limiter = mark_throttled now e.limiter job.domain })
          (demote pen job)
      else retry_or_fail cfg e job

  -- A decision to render puts the page in the backlog, where that is possible.
  unfoldable pub render_or :
      Config → Answers F R → Engine F B R → Job F → Text → Decision → Engine F B R → Engine F B R
  unfolding enqueue_render_backlog
  render_or cfg env e job target none rest = rest
  render_or cfg env e job target (some reason) rest =
      let (backlog, taken) = enqueue_render_backlog cfg env.now e.backlog job target reason in
      if taken then record e { backlog = backlog } else rest

  -- After the decision to render; the final URL has been checked before the parse.
  unfoldable pub index_page :
      Config → Answers F R → Engine F B R → Job F → Fetched → Parsed → Engine F B R
  unfolding contains_known_interstitial lower_body_sample count_error persist_parsed_page
  index_page cfg env e job result parsed =
      if is_non_indexable_document_url result.final_url
      then e
      else if contains_known_interstitial (lower_body_sample result.body)
      then count_error e
      else persist_parsed_page pen.priority_normal cfg env e job result parsed

  unfoldable pub process_parsed :
      Config → Answers F R → Engine F B R → Job F → Fetched → Option Parsed → Engine F B R
  unfolding retry_or_fail render_or should_render_parsed index_page
  process_parsed cfg env e job result none = retry_or_fail cfg e job
  process_parsed cfg env e job result (some parsed) =
      render_or cfg env e job result.final_url
        (should_render_parsed cfg.rendering_cfg result.result (to_read parsed))
        (index_page cfg env e job result parsed)

  unfoldable pub process_success :
      Config → Answers F R → Engine F B R → Job F → Fetched → Engine F B R
  unfolding is_non_indexable_document_url is_html_content_type process_discovery_only process_parsed
  process_success cfg env e job result =
      if is_non_indexable_document_url result.final_url
      then e
      else if not (is_html_content_type result.content_type)
      then process_discovery_only pen.priority_normal cfg env e job result
      else process_parsed cfg env e job result (env.parse result)

  unfoldable pub process_fetched :
      Config → Answers F R → Engine F B R → Job F → FetchAnswer → Engine F B R
  unfolding retry_or_fail is_success render_or should_render_status process_bad_status
      process_success
  process_fetched cfg env e job unsupported = e
  process_fetched cfg env e job busy = retry_or_fail cfg e job
  process_fetched cfg env e job failed = retry_or_fail cfg e job
  process_fetched cfg env e job (fetched result) =
      if is_success result.status_code
      then process_success cfg env e job result
      else render_or cfg env e job job.url
          (should_render_status is_html_content_type cfg.rendering_cfg (some result.result))
          (process_bad_status cfg env.now e job result.status_code)

  -- The check of robots.txt, which fills its cache, and what follows it.
  unfoldable pub process_allowed : Config → Answers F R → Engine F B R → Job F → Engine F B R
  unfolding is_allowed process_fetched
  process_allowed cfg env e job =
      let (cache, allowed) =
        is_allowed env.robots_parser env.robots_ttl env.now env.robots_result e.robots_cache job.url
          job.domain in
      let e' = record e { robots_cache = cache } in
      if cfg.respect_robots
      then (if allowed then process_fetched cfg env e' job env.fetch else e')
      else process_fetched cfg env e job env.fetch

  -- `processJob`.
  unfoldable pub process_job : Config → Answers F R → Engine F B R → Job F → Engine F B R
  unfolding is_non_indexable_document_url is_blacklisted_domain process_allowed
  process_job cfg env e job =
      if is_non_indexable_document_url job.url
      then e
      else if is_blacklisted_domain cfg.blacklisted_domains job.domain
      then e
      else process_allowed cfg env e job

  -- `processRenderBacklogItem` from the answer of the browser on.
  unfoldable pub process_rendered_page :
      Config → Answers F R → Engine F B R → Job F → Fetched → Option Parsed → Engine F B R
  unfolding count_error persist_parsed_page contains_known_interstitial lower_body_sample
  process_rendered_page cfg env e job result none = count_error e
  process_rendered_page cfg env e job result (some parsed) =
      if contains_known_interstitial (lower_body_sample result.body)
      then count_error e
      else persist_parsed_page pen.priority_normal cfg env e job result parsed

  unfoldable pub process_rendered :
      Config → Answers F R → Engine F B R → BacklogItem F → FetchAnswer → Engine F B R
  unfolding retry_or_fail count_error is_success is_html_content_type process_discovery_only
      process_rendered_page push_render_backlog delay_item is_non_indexable_document_url
  process_rendered cfg env e item unsupported = retry_or_fail cfg e item.job
  process_rendered cfg env e item failed = retry_or_fail cfg e item.job
  process_rendered cfg env e item busy =
      if ltb item.attempts cfg.busy_retry_max_attempts
      then record e { backlog = push_render_backlog e.backlog (delay_item cfg env.now item) }
      else retry_or_fail cfg e item.job
  process_rendered cfg env e item (fetched result) =
      if not (is_success result.status_code)
      then count_error e
      else if is_non_indexable_document_url result.final_url
      then e
      else if not (is_html_content_type result.content_type)
      then process_discovery_only pen.priority_normal cfg env e item.job result
      else process_rendered_page cfg env e item.job result (env.parse result)

  -- `processRenderBacklogItem` after its wait; jobs that have come in meanwhile go first.
  unfoldable pub process_render_backlog_item :
      Config → Answers F R → Engine F B R → BacklogItem F → Engine F B R
  unfolding process_rendered push_render_backlog len
  process_render_backlog_item cfg env e item =
      if ltb 0 (len e.frontier.queue)
      then record e { backlog = push_render_backlog e.backlog item }
      else process_rendered cfg env e item env.fetch

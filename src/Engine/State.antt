-- ===== src/Engine/State.antt =====
-- internal/crawler/engine.go: the state that the workers share, the settings, and the answers of
-- the network and of the parsers for one job.
use duvycrawl.Shared.{ℕ, Bool, Option, List}
use duvycrawl.Shared.Text.{Text}
use duvycrawl.Queue.Defs.{Job}
use duvycrawl.Frontier.State.{Store, Scorer, Frontier}
use duvycrawl.RateLimit.{DomainLimiter}
use duvycrawl.BatchWriter.{Batch, BatchWriter}
use duvycrawl.Robots as robots
use duvycrawl.Render as rendering
use duvycrawl.DomainStats.{Pending}
use duvycrawl.Engine.Page.{Fetched, Parsed, Page, OutgoingLink, ImageRecord, DiscoveredResource}

-- The settings of `config.CrawlerConfig` and `config.RenderingConfig` that the engine reads.
pub record Config : Type 0 where
  pub respect_robots : Bool
  pub max_retries : ℕ
  pub max_depth : ℕ
  pub no_follow_domains : List Text
  pub blacklisted_domains : List Text
  pub rendering_cfg : rendering.RenderingConfig
  pub has_renderer : Bool
  pub busy_retry_max_attempts : ℕ
  pub busy_retry_base_delay : ℕ
  pub busy_retry_max_delay : ℕ

-- `renderBacklogItem`.
pub record BacklogItem (F : Type 0) : Type 0 where
  pub job : Job F
  pub target_url : Text
  pub reason : rendering.Reason
  pub attempts : ℕ
  pub available : ℕ

-- `renderBacklog` and the keys of `renderQueued`.
pub record Backlog (F : Type 0) : Type 0 where
  pub items : List (BacklogItem F)
  pub queued : List Text

-- `Engine`, with what it shares with the other parts. `resources` are the resources that it
-- asked the store to upsert, and the counters do not overflow.
pub record Engine (F B R : Type 0) : Type 0 where
  pub frontier : Frontier F B
  pub limiter : DomainLimiter
  pub robots_cache : List (Text × robots.RobotsEntry R)
  pub writer : BatchWriter Page OutgoingLink ImageRecord
  pub backlog : Backlog F
  pub domain_stats : Pending
  pub resources : List DiscoveredResource
  pub pages_crawled : ℕ
  pub pages_errored : ℕ

-- What `Fetch` or `Render` came back with.
pub data FetchAnswer : Type 0 where
  unsupported busy failed : FetchAnswer
  fetched : Fetched → FetchAnswer

-- The answers while one job is processed: the time, robots.txt and its parser, the fetch, the HTML
-- parser, the links in a resource, the databases and SHA-256.
pub record Answers (F R : Type 0) : Type 0 where
  pub now : ℕ
  pub robots_ttl : ℕ
  pub robots_result : robots.FetchResult R
  pub robots_parser : robots.Parser R
  pub fetch : FetchAnswer
  pub parse : Fetched → Option Parsed
  pub resource_links : Fetched → List Text
  pub commit : Batch Page OutgoingLink ImageRecord → Bool
  pub store : Store
  pub scorer : Scorer F
  pub sha256 : Text → Text

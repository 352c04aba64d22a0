-- ===== src/Config/Laws.antt =====
-- internal/config/config.go: what a configuration that `validate` accepts guarantees.
use duvycrawl.Shared.{ℕ, ◌≡◌, ◌≤◌, ◌⊎◌, [], All}
use duvycrawl.Shared.Int.{ℤ, pos}
use duvycrawl.Shared.Text.{Text}
use duvycrawl.Config.{RenderingConfig, CrawlerConfig, SeedUrlConfig, Config, milliseconds, seconds}

-- The integer is a natural number that is at least n.
abbrev pub AtLeast : ℕ → ℤ → Type 0
AtLeast n z = (k : ℕ) × (z ≡ pos k) × (n ≤ k)

abbrev pub Between : ℕ → ℕ → ℤ → Type 0
Between m n z = (k : ℕ) × (z ≡ pos k) × (m ≤ k) × (k ≤ n)

-- The bounds on the numbers that are checked, section by section.
pub record SoundCrawler {F : Type 0} (c : CrawlerConfig F) : Type 0 where
  pub workers : Between 1 10000 c.workers
  pub max_depth : AtLeast 0 c.max_depth
  pub api_max_depth : AtLeast 0 c.api_max_depth
  pub request_timeout : AtLeast (seconds 1) c.request_timeout
  pub politeness_delay : AtLeast (milliseconds 100) c.politeness_delay
  pub max_retries : AtLeast 0 c.max_retries
  pub max_page_size_kb : AtLeast 1 c.max_page_size_kb
  pub parallelism_per_domain : AtLeast 1 c.parallelism_per_domain
  pub max_idle_conns_per_host : AtLeast 1 c.max_idle_conns_per_host
  pub proxy_check_interval : (c.proxy_urls ≡ []) ⊎ AtLeast (seconds 1) c.proxy_check_interval

pub record SoundRendering (r : RenderingConfig) : Type 0 where
  pub max_concurrency : AtLeast 1 r.max_concurrency
  pub acquire_timeout : AtLeast 0 r.acquire_timeout
  pub timeout : AtLeast (seconds 1) r.timeout
  pub busy_retry_max_attempts : AtLeast 0 r.busy_retry_max_attempts
  pub busy_retry_base_delay : AtLeast 0 r.busy_retry_base_delay
  pub busy_retry_max_delay : AtLeast 0 r.busy_retry_max_delay
  pub busy_retry_base_delay_positive :
      (r.busy_retry_max_attempts ≡ pos 0) ⊎ AtLeast 1 r.busy_retry_base_delay
  pub busy_retry_max_delay_positive :
      (r.busy_retry_max_attempts ≡ pos 0) ⊎ AtLeast 1 r.busy_retry_max_delay
  pub wait_after_load : AtLeast 0 r.wait_after_load
  pub max_html_size_kb : AtLeast 1 r.max_html_size_kb
  pub min_text_chars : AtLeast 0 r.min_text_chars
  pub min_links : AtLeast 0 r.min_links
  pub render_on_status_codes : All (Between 100 599) r.render_on_status_codes

pub record SoundScheduler {F : Type 0} (c : CrawlerConfig F) : Type 0 where
  pub tick_interval : AtLeast (seconds 60) c.scheduler.tick_interval
  pub seed_recrawl_interval : AtLeast (seconds 60) c.scheduler.seed_recrawl_interval
  pub domain_recrawl_interval :
      (c.scheduler.domain_recrawl_interval ≡ pos 0)
      ⊎ AtLeast (seconds 3600) c.scheduler.domain_recrawl_interval
  pub domain_recrawl_min_pages : AtLeast 0 c.scheduler.domain_recrawl_min_pages
  pub domain_recrawl_batch_limit : AtLeast 0 c.scheduler.domain_recrawl_batch_limit
  pub domain_recrawl_depth : AtLeast 0 c.scheduler.domain_recrawl_depth
  pub max_pages_per_fingerprint : AtLeast 0 c.max_pages_per_fingerprint

pub record SoundConfig {F : Type 0} (c : Config F) : Type 0 where
  pub crawler : SoundCrawler c.crawler
  pub rendering : SoundRendering c.rendering
  pub port : Between 1 65535 c.port
  pub scheduler : SoundScheduler c.crawler
  pub seeds : All (λ (s : SeedUrlConfig). AtLeast 0 s.recrawl_interval) c.seeds

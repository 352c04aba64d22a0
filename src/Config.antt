-- ===== src/Config.antt =====
-- internal/config/config.go: the settings and their defaults. An int and a `time.Duration`, in
-- nanoseconds, are integers; a float64 is a parameter. The lists of words for the intents of a search
-- (`SearchIntents`) are left out: validate does not read them.
pub mod Checks
pub mod Laws
use duvycrawl.Shared.{ℕ, Bool, true, false, ◌*◌, List, [], ◌∷◌}
use duvycrawl.Shared.Int.{ℤ, pos}
use duvycrawl.Shared.Text.{Text, codes}

pub record RenderingConfig : Type 0 where
  pub enabled : Bool
  pub mode : Text
  pub browser_ws_url : Text
  pub executable_path : Text
  pub max_concurrency : ℤ
  pub acquire_timeout : ℤ
  pub timeout : ℤ
  pub busy_retry_max_attempts : ℤ
  pub busy_retry_base_delay : ℤ
  pub busy_retry_max_delay : ℤ
  pub wait_after_load : ℤ
  pub max_html_size_kb : ℤ
  pub min_text_chars : ℤ
  pub min_links : ℤ
  pub render_on_status_codes : List ℤ
  pub block_images : Bool

pub record SchedulerConfig : Type 0 where
  pub tick_interval : ℤ
  pub seed_recrawl_interval : ℤ
  pub domain_recrawl_interval : ℤ
  pub domain_recrawl_min_pages : ℤ
  pub domain_recrawl_batch_limit : ℤ
  pub domain_recrawl_depth : ℤ

pub record InterestConfig (F : Type 0) : Type 0 where
  pub term : Text
  pub weight : F

pub record AdaptiveConfig (F : Type 0) : Type 0 where
  pub min_queries_before_boost : ℤ
  pub depth_penalty_k : F
  pub profile_refresh_interval : ℤ
  pub seed_bonus : F
  pub anchor_weight : F
  pub url_path_weight : F
  pub source_title_weight : F
  pub domain_reputation_weight : F
  pub language_match_bonus : F
  pub interests : List (InterestConfig F)

pub record CrawlerConfig (F : Type 0) : Type 0 where
  pub workers : ℤ
  pub max_depth : ℤ
  pub api_max_depth : ℤ
  pub request_timeout : ℤ
  pub politeness_delay : ℤ
  pub random_delay : ℤ
  pub max_retries : ℤ
  pub user_agent : Text
  pub max_page_size_kb : ℤ
  pub respect_robots : Bool
  pub parallelism_per_domain : ℤ
  pub disable_cookies : Bool
  pub max_idle_conns_per_host : ℤ
  pub proxy_urls : List Text
  pub proxy_check_interval : ℤ
  pub domain_stats_flush_interval : ℤ
  pub auto_start : Bool
  pub no_follow_domains : List Text
  pub blacklisted_domains : List Text
  pub scoring_strategy : Text
  pub adaptive : AdaptiveConfig F
  pub max_pages_per_fingerprint : ℤ
  pub scheduler : SchedulerConfig

pub record SeedUrlConfig : Type 0 where
  pub url : Text
  pub recrawl_interval : ℤ

pub record ScoringConfig (F : Type 0) : Type 0 where
  pub language_boost : F
  pub secondary_language_boost : F
  pub secondary_language : Text

-- The settings of the sections for storage, API and logging are fields of this record.
pub record Config (F : Type 0) : Type 0 where
  pub crawler : CrawlerConfig F
  pub rendering : RenderingConfig
  pub scoring : ScoringConfig F
  pub db_path : Text
  pub host : Text
  pub port : ℤ
  pub level : Text
  pub format : Text
  pub seeds : List SeedUrlConfig

abbrev pub milliseconds : ℕ → ℕ
milliseconds n = n * 1000000

abbrev pub seconds : ℕ → ℕ
seconds n = n * 1000000000

-- `DefaultConfig`; `float` reads a whole number.
unfoldable pub default_config : {F : Type 0} → (ℕ → F) → Config F
default_config float = record {
  crawler = record {
    workers = pos 100;
    max_depth = pos 3;
    api_max_depth = pos 2;
    request_timeout = pos (seconds 15);
    politeness_delay = pos (seconds 1);
    random_delay = pos 0;
    max_retries = pos 3;
    user_agent =
        codes
          "Mozilla/5.0 (Windows NT 10.0; Win64; x64) AppleWebKit/537.36 (KHTML, like Gecko) Chrome/148.0.0.0 Safari/537.36";
    max_page_size_kb = pos 512;
    respect_robots = false;
    parallelism_per_domain = pos 4;
    disable_cookies = false;
    max_idle_conns_per_host = pos 100;
    proxy_urls = [];
    proxy_check_interval = pos (seconds 60);
    domain_stats_flush_interval = pos (seconds 30);
    auto_start = true;
    no_follow_domains = codes "wikipedia.org" ∷ [];
    blacklisted_domains = [];
    scoring_strategy = codes "adaptive";
    adaptive = record {
      min_queries_before_boost = pos 3;
      depth_penalty_k = float 12;
      profile_refresh_interval = pos (seconds 60);
      seed_bonus = float 50;
      anchor_weight = float 40;
      url_path_weight = float 30;
      source_title_weight = float 20;
      domain_reputation_weight = float 15;
      language_match_bonus = float 35;
      interests = [];
    };
    max_pages_per_fingerprint = pos 10000;
    scheduler = record {
      tick_interval = pos (seconds 600);
      seed_recrawl_interval = pos (seconds 86400);
      domain_recrawl_interval = pos (seconds 259200);
      domain_recrawl_min_pages = pos 10;
      domain_recrawl_batch_limit = pos 50;
      domain_recrawl_depth = pos 2;
    };
  };
  rendering = record {
    enabled = false;
    mode = codes "auto";
    browser_ws_url = [];
    executable_path = [];
    max_concurrency = pos 2;
    acquire_timeout = pos (milliseconds 500);
    timeout = pos (seconds 20);
    busy_retry_max_attempts = pos 3;
    busy_retry_base_delay = pos (seconds 2);
    busy_retry_max_delay = pos (seconds 15);
    wait_after_load = pos (milliseconds 1200);
    max_html_size_kb = pos 2048;
    min_text_chars = pos 200;
    min_links = pos 1;
    render_on_status_codes = pos 403 ∷ pos 503 ∷ [];
    block_images = true;
  };
  scoring = record {
    language_boost = float 3000;
    secondary_language_boost = float 1500;
    secondary_language = codes "en";
  };
  db_path = codes "./data/duvycrawl.db";
  host = codes "0.0.0.0";
  port = pos 8080;
  level = codes "info";
  format = codes "text";
  seeds = [];
}

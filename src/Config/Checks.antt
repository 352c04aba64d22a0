-- ===== src/Config/Checks.antt =====
-- internal/config/config.go: `validate`. A check is a condition that is refused, with the fixed part
-- of its message.
use duvycrawl.Shared.{
  ℕ, Bool, true, false, not, ◌&&◌, ◌||◌, Option, none, some, List, [], ◌∷◌, if◌then◌else◌, ltb,
  length, any, ◌==◌,
}
use duvycrawl.Shared.Int.{ℤ, pos, negsuc}
use duvycrawl.Shared.Text.{Text, codes, member}
use duvycrawl.Url.{Std}
use duvycrawl.Config.{
  RenderingConfig, InterestConfig, CrawlerConfig, SeedUrlConfig, Config, milliseconds, seconds,
}

-- `z < n` and `z > n`.
unfoldable pub below : ℤ → ℕ → Bool
below (pos k) n = ltb k n
below (negsuc k) n = true

unfoldable pub above : ℤ → ℕ → Bool
above (pos k) n = ltb n k
above (negsuc k) n = false

unfoldable pub is_zero_int : ℤ → Bool
is_zero_int (pos k) = k == 0
is_zero_int (negsuc k) = false

abbrev pub is_blank : Text → Bool
is_blank [] = true
is_blank (c ∷ s) = false

abbrev pub Check : Type 0
Check = Bool × Text

-- The checks stand one after the other, and the first one that refuses returns.
unfoldable pub first_error : List Check → Option Text
first_error [] = none
first_error ((bad, message) ∷ checks) =
    let later = first_error checks in if bad then some message else later

unfoldable pub or_else : Option Text → Option Text → Option Text
or_else none later = later
or_else (some e) later = some e

unfoldable pub crawler_checks : {F : Type 0} → CrawlerConfig F → List Check
unfolding below above
crawler_checks c =
    (below c.workers 1, codes "crawler.workers must be >= 1")
    ∷ (above c.workers 10000, codes "crawler.workers must be <= 10000")
    ∷ (below c.max_depth 0, codes "crawler.max_depth must be >= 0")
    ∷ (below c.api_max_depth 0, codes "crawler.api_max_depth must be >= 0")
    ∷ (below c.request_timeout (seconds 1), codes "crawler.request_timeout must be >= 1s")
    ∷ (
      below c.politeness_delay (milliseconds 100),
      codes "crawler.politeness_delay must be >= 100ms",
    )
    ∷ (below c.max_retries 0, codes "crawler.max_retries must be >= 0")
    ∷ (is_blank c.user_agent, codes "crawler.user_agent must not be empty")
    ∷ (below c.max_page_size_kb 1, codes "crawler.max_page_size_kb must be >= 1")
    ∷ (below c.parallelism_per_domain 1, codes "crawler.parallelism_per_domain must be >= 1")
    ∷ (below c.max_idle_conns_per_host 1, codes "crawler.max_idle_conns_per_host must be >= 1")
    ∷ (
      ltb 0 (length c.proxy_urls) && below c.proxy_check_interval (seconds 1),
      codes "crawler.proxy_check_interval must be >= 1s",
    )
    ∷ []

unfoldable pub is_invalid_status : ℤ → Bool
unfolding below above
is_invalid_status status_code = below status_code 100 || above status_code 599

unfoldable pub rendering_checks : RenderingConfig → List Check
unfolding below above is_zero_int member is_invalid_status
rendering_checks r =
    (
      not (member r.mode (codes "auto" ∷ codes "force" ∷ codes "disabled" ∷ [])),
      codes "rendering.mode must be one of [auto, force, disabled]",
    )
    ∷ (below r.max_concurrency 1, codes "rendering.max_concurrency must be >= 1")
    ∷ (below r.acquire_timeout 0, codes "rendering.acquire_timeout must be >= 0")
    ∷ (below r.timeout (seconds 1), codes "rendering.timeout must be >= 1s")
    ∷ (below r.busy_retry_max_attempts 0, codes "rendering.busy_retry_max_attempts must be >= 0")
    ∷ (below r.busy_retry_base_delay 0, codes "rendering.busy_retry_base_delay must be >= 0")
    ∷ (below r.busy_retry_max_delay 0, codes "rendering.busy_retry_max_delay must be >= 0")
    ∷ (
      above r.busy_retry_max_attempts 0 && is_zero_int r.busy_retry_base_delay,
      codes "rendering.busy_retry_base_delay must be > 0 when busy_retry_max_attempts > 0",
    )
    ∷ (
      above r.busy_retry_max_attempts 0 && is_zero_int r.busy_retry_max_delay,
      codes "rendering.busy_retry_max_delay must be > 0 when busy_retry_max_attempts > 0",
    )
    ∷ (below r.wait_after_load 0, codes "rendering.wait_after_load must be >= 0")
    ∷ (below r.max_html_size_kb 1, codes "rendering.max_html_size_kb must be >= 1")
    ∷ (below r.min_text_chars 0, codes "rendering.min_text_chars must be >= 0")
    ∷ (below r.min_links 0, codes "rendering.min_links must be >= 0")
    ∷ (
      any is_invalid_status r.render_on_status_codes,
      codes "rendering.render_on_status_codes contains invalid HTTP status",
    )
    ∷ []

unfoldable pub server_checks : {F : Type 0} → Config F → List Check
unfolding below above member
server_checks c =
    (is_blank c.db_path, codes "storage.db_path must not be empty")
    ∷ (below c.port 1 || above c.port 65535, codes "api.port must be between 1 and 65535")
    ∷ (
      not (member c.level (codes "debug" ∷ codes "info" ∷ codes "warn" ∷ codes "error" ∷ [])),
      codes "logging.level must be one of [debug, info, warn, error]",
    )
    ∷ (
      not (member c.format (codes "text" ∷ codes "json" ∷ [])),
      codes "logging.format must be one of [text, json]",
    )
    ∷ []

-- `ic.Weight <= 0` is a test of floats, and a parameter.
unfoldable pub interest_checks :
    {F : Type 0} → ⦃std : Std⦄ → (F → Bool) → List (InterestConfig F) → List Check
interest_checks at_most_zero [] = []
interest_checks ⦃std⦄ at_most_zero (ic ∷ ics) =
    (is_blank (std.trim_space ic.term), codes "crawler.adaptive.interests.term must not be empty")
    ∷ (at_most_zero ic.weight, codes "crawler.adaptive.interests.weight must be > 0")
    ∷ interest_checks at_most_zero ics

unfoldable pub scheduler_checks : {F : Type 0} → CrawlerConfig F → List Check
unfolding below above
scheduler_checks c =
    let s = c.scheduler in
    (below s.tick_interval (seconds 60), codes "crawler.scheduler.tick_interval must be >= 1m")
    ∷ (
      below s.seed_recrawl_interval (seconds 60),
      codes "crawler.scheduler.seed_recrawl_interval must be >= 1m",
    )
    ∷ (
      below s.domain_recrawl_interval 0,
      codes "crawler.scheduler.domain_recrawl_interval must be >= 0",
    )
    ∷ (
      above s.domain_recrawl_interval 0 && below s.domain_recrawl_interval (seconds 3600),
      codes "crawler.scheduler.domain_recrawl_interval must be >= 1h when enabled",
    )
    ∷ (
      below s.domain_recrawl_min_pages 0,
      codes "crawler.scheduler.domain_recrawl_min_pages must be >= 0",
    )
    ∷ (
      below s.domain_recrawl_batch_limit 0,
      codes "crawler.scheduler.domain_recrawl_batch_limit must be >= 0",
    )
    ∷ (below s.domain_recrawl_depth 0, codes "crawler.scheduler.domain_recrawl_depth must be >= 0")
    ∷ (below c.max_pages_per_fingerprint 0, codes "crawler.max_pages_per_fingerprint must be >= 0")
    ∷ []

unfoldable pub seed_checks : ⦃std : Std⦄ → List SeedUrlConfig → List Check
unfolding below
seed_checks [] = []
seed_checks ⦃std⦄ (s ∷ seeds) =
    (is_blank (std.trim_space s.url), codes "seeds.url must not be empty")
    ∷ (below s.recrawl_interval 0, codes "seeds.recrawl_interval must be >= 0")
    ∷ seed_checks seeds

-- `validate`; the result is the error, if there is one.
unfoldable pub validate : {F : Type 0} → ⦃std : Std⦄ → (F → Bool) → Config F → Option Text
unfolding first_error or_else crawler_checks rendering_checks server_checks interest_checks
    scheduler_checks seed_checks
validate at_most_zero c = or_else (first_error (crawler_checks c.crawler)) (
    or_else (first_error (rendering_checks c.rendering)) (
      or_else (first_error (server_checks c)) (
        or_else (first_error (interest_checks at_most_zero c.crawler.adaptive.interests)) (
          or_else (first_error (scheduler_checks c.crawler)) (first_error (seed_checks c.seeds))))))

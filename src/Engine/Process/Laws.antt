-- ===== src/Engine/Process/Laws.antt =====
-- internal/crawler/engine.go: when a page is stored.
use duvycrawl.Shared.{
  ℕ, ◌≡◌, ◌≢◌, refl, true, false, Option, none, some, List, [], ◌∷◌, take, ◌+◌, inl, inr, arith,
  Bool-cases,
}
use duvycrawl.Shared.Text.{Text}
use duvycrawl.Url.{Std}
use duvycrawl.UrlFilter.{is_non_indexable_document_url}
use duvycrawl.Queue.Defs.{ScoreOrder, Bloom, Job}
use duvycrawl.Frontier.Blacklist.{is_blacklisted_domain}
use duvycrawl.Frontier.State.{LinkContext}
use duvycrawl.Robots.{is_allowed}
use duvycrawl.Render.{
  Decision, should_render_status, should_render_parsed, contains_known_interstitial,
  lower_body_sample,
}
use duvycrawl.Engine.Page.{
  Fetched, Parsed, Page, LinkAnchor, to_read, is_success, is_html_content_type,
}
use duvycrawl.Engine.State.{
  Config, Engine, FetchAnswer, unsupported, busy, failed, fetched, Answers,
}
use duvycrawl.Engine.Backlog.{enqueue_render_backlog}
use duvycrawl.Engine.Persist.{
  follow_links, discover, process_discovery_only, enqueue_discovered_links, add_links,
  link_contexts, own_anchors,
}
use duvycrawl.Engine.Process.{
  Penalty, count_error, retry_or_fail, process_bad_status, render_or, index_page, process_parsed,
  process_success, process_fetched, process_allowed, process_job,
}

-- What a step leaves to the batch writer is what it found there.
abbrev pub Unwritten : {F B R : Type 0} → Engine F B R → Engine F B R → Type 0
Unwritten e e' = e'.writer ≡ e.writer

-- The part of `Stored` that is about the answer of the fetch.
record Readable {F R : Type 0} ⦃std : Std⦄ (env : Answers F R) (result : Fetched) : Type 0 where
  page : Parsed
  html : is_html_content_type result.content_type ≡ true
  final_indexable : is_non_indexable_document_url result.final_url ≡ false
  parsed : env.parse result ≡ some page
  no_interstitial : contains_known_interstitial (lower_body_sample result.body) ≡ false

module _ {F B R : Type 0} where
  retry_or_fail-Unwritten :
      ⦃o : ScoreOrder F⦄ (cfg : Config) (e : Engine F B R) (job : Job F)
      → Unwritten e (retry_or_fail cfg e job)
  unfolding retry_or_fail
  retry_or_fail-Unwritten cfg e job = ground arith

module _ {F B R : Type 0} ⦃std : Std⦄ ⦃o : ScoreOrder F⦄ ⦃bl : Bloom B⦄ (pen : Penalty F) where
  add_links-Unwritten :
      (p : F) (env : Answers F R) (e : Engine F B R) (links : List LinkContext) (depth : ℕ)
      → Unwritten e (add_links p env e links depth)
  unfolding add_links
  add_links-Unwritten p env e [] depth = refl
  add_links-Unwritten p env e (l ∷ ls) depth = refl

  follow_links-Unwritten :
      (p : F) (cfg : Config) (env : Answers F R) (e : Engine F B R) (job : Job F)
      (anchors : List LinkAnchor) (page : Option Page)
      → Unwritten e (follow_links p cfg env e job anchors page)
  unfolding follow_links enqueue_discovered_links
  follow_links-Unwritten p cfg env e job anchors page =
      ground
        (arith, add_links-Unwritten p env e (take 100 (link_contexts page anchors)) (job.depth + 1))

  discover-Unwritten :
      (p : F) (cfg : Config) (env : Answers F R) (e : Engine F B R) (job : Job F) (result : Fetched)
      (links : List Text)
      → Unwritten e (discover p cfg env e job result links)
  unfolding discover
  discover-Unwritten p cfg env e job result [] = refl
  discover-Unwritten p cfg env e job result (l ∷ ls) =
      follow_links-Unwritten p cfg env e job (own_anchors job.domain (l ∷ ls)) none

  process_bad_status-Unwritten :
      (cfg : Config) (now : ℕ) (e : Engine F B R) (job : Job F) (code : ℕ)
      → Unwritten e (process_bad_status pen cfg now e job code)
  unfolding process_bad_status retry_or_fail
  process_bad_status-Unwritten cfg now e job code = ground arith

  -- What holds of a job whose page is stored: its URL and its domain may be crawled, robots.txt
  -- allows it where that is respected, and the fetch came back with a 2xx answer, HTML that
  -- parses, at a final URL that may be indexed, and no interstitial.
  pub record Stored (cfg : Config) (env : Answers F R) (e : Engine F B R) (job : Job F)
      : Type 0 where
    pub result : Fetched
    pub page : Parsed
    pub indexable : is_non_indexable_document_url job.url ≡ false
    pub not_blocked : is_blacklisted_domain cfg.blacklisted_domains job.domain ≡ false
    pub allowed :
        cfg.respect_robots ≡ true
        → (is_allowed env.robots_parser env.robots_ttl env.now env.robots_result e.robots_cache
            job.url job.domain).1
          ≡ true
    pub answered : env.fetch ≡ fetched result
    pub success : is_success result.status_code ≡ true
    pub html : is_html_content_type result.content_type ≡ true
    pub final_indexable : is_non_indexable_document_url result.final_url ≡ false
    pub parsed : env.parse result ≡ some page
    pub no_interstitial : contains_known_interstitial (lower_body_sample result.body) ≡ false

  render_or-writes :
      (cfg : Config) (env : Answers F R) (e : Engine F B R) (job : Job F) (target : Text)
      (d : Decision) (rest : Engine F B R)
      → (render_or pen cfg env e job target d rest).writer ≢ e.writer
      → rest.writer ≢ e.writer
  unfolding render_or
  render_or-writes cfg env e job target none rest h = h
  render_or-writes cfg env e job target (some reason) rest h =
      elim (Bool-cases (enqueue_render_backlog cfg env.now e.backlog job target reason).1) [
        | inl t ↦ absurd (rw t at h refl)
        | inr f ↦ rw f at h
      ]

  index_page-writes :
      (cfg : Config) (env : Answers F R) (e : Engine F B R) (job : Job F) (result : Fetched)
      (parsed : Parsed)
      → (index_page pen cfg env e job result parsed).writer ≢ e.writer
      → contains_known_interstitial (lower_body_sample result.body) ≡ false
  unfolding index_page count_error
  index_page-writes cfg env e job result parsed h =
      elim (Bool-cases (is_non_indexable_document_url result.final_url)) [
        | inl t ↦ absurd (rw t at h refl)
        | inr f ↦ elim (Bool-cases (contains_known_interstitial (lower_body_sample result.body))) [
          | inl t ↦ absurd (rw (f, t) at h refl)
          | inr n ↦ n
        ]
      ]

  process_parsed-writes :
      (cfg : Config) (env : Answers F R) (e : Engine F B R) (job : Job F) (result : Fetched)
      (p : Option Parsed)
      → (process_parsed pen cfg env e job result p).writer ≢ e.writer
      → (page : Parsed) × (p ≡ some page)
        × (contains_known_interstitial (lower_body_sample result.body) ≡ false)
  unfolding process_parsed
  process_parsed-writes cfg env e job result none h = absurd (h (retry_or_fail-Unwritten cfg e job))
  process_parsed-writes cfg env e job result (some page) h = (
    page,
    refl,
    index_page-writes cfg env e job result page (
        render_or-writes cfg env e job result.final_url
          (should_render_parsed cfg.rendering_cfg result.result (to_read page))
          (index_page pen cfg env e job result page) h),
  )

  process_success-Readable :
      (cfg : Config) (env : Answers F R) (e : Engine F B R) (job : Job F) (result : Fetched)
      → (process_success pen cfg env e job result).writer ≢ e.writer
      → Readable env result
  unfolding process_success process_discovery_only
  process_success-Readable cfg env e job result h =
      elim (Bool-cases (is_non_indexable_document_url result.final_url)) [
        | inl t ↦ absurd (rw t at h refl)
        | inr f ↦ elim (Bool-cases (is_html_content_type result.content_type)) [
          | inr n ↦ absurd (
              rw (f, n) at h
                (discover-Unwritten pen.priority_normal cfg env e job result
                  (env.resource_links result)))
          | inl y ↦
              let (page, at, clean) =
                process_parsed-writes cfg env e job result (env.parse result) (rw (f, y) at h) in
              record {
                page = page;
                html = y;
                final_indexable = f;
                parsed = at;
                no_interstitial = clean;
              }
        ]
      ]

  process_fetched-writes :
      (cfg : Config) (env : Answers F R) (e : Engine F B R) (job : Job F) (a : FetchAnswer)
      → (process_fetched pen cfg env e job a).writer ≢ e.writer
      → (result : Fetched) × (a ≡ fetched result)
        × (is_success result.status_code ≡ true)
        × Readable env result
  unfolding process_fetched
  process_fetched-writes cfg env e job unsupported h = absurd (h refl)
  process_fetched-writes cfg env e job busy h = absurd (h (retry_or_fail-Unwritten cfg e job))
  process_fetched-writes cfg env e job failed h = absurd (h (retry_or_fail-Unwritten cfg e job))
  process_fetched-writes cfg env e job (fetched result) h =
      elim (Bool-cases (is_success result.status_code)) [
        | inl t ↦ (result, refl, t, process_success-Readable cfg env e job result (rw t at h))
        | inr f ↦ absurd (
            render_or-writes cfg env e job job.url
              (should_render_status is_html_content_type cfg.rendering_cfg (some result.result))
              (process_bad_status pen cfg env.now e job result.status_code) (rw f at h)
              (process_bad_status-Unwritten cfg env.now e job result.status_code))
      ]

  process_allowed-writes :
      (cfg : Config) (env : Answers F R) (e : Engine F B R) (job : Job F)
      → (process_allowed pen cfg env e job).writer ≢ e.writer
      → (cfg.respect_robots ≡ true
          → (is_allowed env.robots_parser env.robots_ttl env.now env.robots_result e.robots_cache
              job.url job.domain).1
            ≡ true)
        × ((result : Fetched) × (env.fetch ≡ fetched result)
            × (is_success result.status_code ≡ true)
            × Readable env result)
  unfolding process_allowed
  process_allowed-writes cfg env e job h = elim (Bool-cases cfg.respect_robots) [
    | inr n ↦ (λ y. cc, process_fetched-writes cfg env e job env.fetch (rw n at h))
    | inl y ↦
        elim (Bool-cases
          (is_allowed env.robots_parser env.robots_ttl env.now env.robots_result e.robots_cache
            job.url job.domain).1) [
              | inr n ↦ absurd (rw (y, n) at h refl)
              | inl t ↦ (λ _. t, process_fetched-writes cfg env _ job env.fetch (rw (y, t) at h))
            ]
  ]

  -- If processJob changes what the batch writer holds, then the job's URL and the final URL are
  -- indexable, the domain is not blocked, robots.txt, where it is obeyed, allows the URL, and the
  -- fetch gave a page of status 2xx and an HTML type that parses and shows no interstitial.
  pub process_job-Stored :
      (cfg : Config) (env : Answers F R) (e : Engine F B R) (job : Job F)
      → (process_job pen cfg env e job).writer ≢ e.writer
      → Stored cfg env e job
  unfolding process_job
  process_job-Stored cfg env e job h = elim (Bool-cases (is_non_indexable_document_url job.url)) [
    | inl t ↦ absurd (rw t at h refl)
    | inr f ↦ elim (Bool-cases (is_blacklisted_domain cfg.blacklisted_domains job.domain)) [
      | inl t ↦ absurd (rw (f, t) at h refl)
      | inr g ↦
          let (asked, (result, at, success, r)) =
            process_allowed-writes cfg env e job (rw (f, g) at h) in
          record {
            result = result;
            page = r.page;
            indexable = f;
            not_blocked = g;
            allowed = asked;
            answered = at;
            success = success;
            html = r.html;
            final_indexable = r.final_indexable;
            parsed = r.parsed;
            no_interstitial = r.no_interstitial;
          }
    ]
  ]

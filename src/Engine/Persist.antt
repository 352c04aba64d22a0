-- ===== src/Engine/Persist.antt =====
-- internal/crawler/engine.go: a parsed page is stored, its links become jobs, and a resource that
-- is not HTML is only searched for links.
use duvycrawl.Shared.{
  ℕ, ◌+◌, not, ◌&&◌, Option, none, some, List, [], ◌∷◌, map, filter, if◌then◌else◌, ltb, take,
  length,
}
use duvycrawl.Shared.Text.{Text, text_beq}
use duvycrawl.Url.{Std}
use duvycrawl.UrlFilter.{is_non_indexable_document_url}
use duvycrawl.Queue.Defs.{ScoreOrder, Bloom, Job}
use duvycrawl.Frontier.Canonical.{Canonical, ok, err, canonicalize_url, extract_domain}
use duvycrawl.Frontier.Fingerprint.{fingerprint_url}
use duvycrawl.Frontier.Blacklist.{is_blacklisted_domain}
use duvycrawl.Frontier.State.{LinkContext}
use duvycrawl.Frontier.Ops.{add_batch}
use duvycrawl.BatchWriter.{write_page, write_links, write_images}
use duvycrawl.DomainStats.{record_crawl}
use duvycrawl.Engine.Page.{
  Fetched, LinkAnchor, ImageMeta, Parsed, Page, OutgoingLink, ImageRecord, truncate_string,
  kind_from_content_type, infer_region,
}
use duvycrawl.Engine.State.{Config, Engine, Answers}
use duvycrawl.Engine.Backlog.{canonical_or}

-- The canonical link of a page counts if it names a page of the same domain.
unfoldable pub same_domain_or : Canonical → Text → Text → Text
unfolding text_beq
same_domain_or (ok url domain) job_domain final = if text_beq domain job_domain then url else final
same_domain_or (err e) job_domain final = final

module _ ⦃std : Std⦄ where
  -- The URL that a page is stored under.
  unfoldable pub page_url : Text → Text → Text → Text
  unfolding canonicalize_url same_domain_or canonical_or
  page_url canonical job_domain final =
      let chosen =
        if ltb 0 (length canonical)
        then same_domain_or (canonicalize_url canonical) job_domain final
        else final in
      canonical_or (canonicalize_url chosen) chosen

  -- The `storage.Page` literal.
  unfoldable pub make_page : {F : Type 0} → (Text → Text) → ℕ → Job F → Fetched → Parsed → Page
  unfolding page_url fingerprint_url truncate_string infer_region
  make_page sha256 now job result parsed = record {
    url = page_url parsed.canonical job.domain result.final_url;
    domain = job.domain;
    title = truncate_string parsed.title 500;
    h1 = truncate_string parsed.h1 1000;
    h2 = truncate_string parsed.h2 2000;
    description = truncate_string parsed.description 1000;
    content = parsed.content;
    language = parsed.language;
    region = infer_region job.domain;
    status_code = result.status_code;
    content_hash = sha256 parsed.content;
    url_fingerprint = fingerprint_url (page_url parsed.canonical job.domain result.final_url);
    fetch_mode = result.mode;
    render_reason = result.render_reason;
    published_at = parsed.published_at;
    crawled_at = now;
    schema_type = parsed.schema_type;
    schema_title = truncate_string parsed.schema_title 500;
    schema_description = truncate_string parsed.schema_description 1000;
    schema_image = truncate_string parsed.schema_image 2000;
    schema_author = truncate_string parsed.schema_author 500;
    schema_keywords = truncate_string parsed.schema_keywords 1000;
    schema_rating = parsed.schema_rating;
  }

  -- The links to other domains.
  unfoldable pub outgoing_links : Text → List LinkAnchor → List OutgoingLink
  unfolding extract_domain text_beq
  outgoing_links domain anchors =
      map (λ (a : LinkAnchor). record { target_url = a.url; anchor_text = a.anchor })
        (filter (λ (a : LinkAnchor). not (text_beq (extract_domain a.url) domain)) anchors)

  unfoldable pub image_records : ℕ → Text → Text → List ImageMeta → List ImageRecord
  unfolding truncate_string
  image_records now url domain images =
      map
        (λ (i : ImageMeta). record {
          url = i.url;
          page_url = url;
          domain = domain;
          alt_text = truncate_string i.alt 500;
          title = truncate_string i.title 500;
          context = truncate_string i.context 500;
          width = i.width;
          height = i.height;
          crawled_at = now;
        })
        images

  -- The contexts that `enqueueDiscoveredLinks` builds; with no page the last three are empty.
  unfoldable pub link_contexts : Option Page → List LinkAnchor → List LinkContext
  unfolding is_non_indexable_document_url
  link_contexts page anchors =
      map
        (λ (a : LinkAnchor). record {
          url = a.url;
          anchor_text = a.anchor;
          source_page_title = elim page [ none ↦ [] | some p ↦ p.title ];
          source_schema_type = elim page [ none ↦ [] | some p ↦ p.schema_type ];
          source_language = elim page [ none ↦ [] | some p ↦ p.language ];
        })
        (filter (λ (a : LinkAnchor). not (is_non_indexable_document_url a.url)) anchors)

  -- The links of a resource to its own domain.
  unfoldable pub own_anchors : Text → List Text → List LinkAnchor
  unfolding is_non_indexable_document_url extract_domain text_beq
  own_anchors domain links =
      map (λ (l : Text). record { url = l; anchor = [] })
        (filter
          (λ (l : Text).
            not (is_non_indexable_document_url l) && text_beq (extract_domain l) domain)
          links)

module _ {F B R : Type 0} ⦃std : Std⦄ ⦃o : ScoreOrder F⦄ ⦃bl : Bloom B⦄ (priority_normal : F) where
  -- `enqueueDiscoveredLinks`: at most 100 links of a page.
  unfoldable pub add_links : Answers F R → Engine F B R → List LinkContext → ℕ → Engine F B R
  unfolding add_batch
  add_links env e [] depth = e
  add_links env e (link ∷ links) depth = record e {
    frontier = add_batch env.store env.scorer e.frontier (link ∷ links) depth priority_normal;
  }

  unfoldable pub enqueue_discovered_links :
      Answers F R → Engine F B R → List LinkAnchor → ℕ → Option Page → Engine F B R
  unfolding add_links link_contexts
  enqueue_discovered_links env e anchors depth page =
      add_links env e (take 100 (link_contexts page anchors)) depth

  -- The guard before it; `isNoFollowDomain` walks over the parent domains as the blacklist does.
  unfoldable pub follow_links :
      Config → Answers F R → Engine F B R → Job F → List LinkAnchor → Option Page → Engine F B R
  unfolding enqueue_discovered_links is_blacklisted_domain
  follow_links cfg env e job anchors page =
      if ltb job.depth cfg.max_depth
        && ltb 0 (length anchors)
        && not (is_blacklisted_domain cfg.no_follow_domains job.domain)
      then enqueue_discovered_links env e anchors (job.depth + 1) page
      else e

  -- The calls of the batch writer in `persistParsedPage`.
  unfoldable pub write_parsed : Answers F R → Engine F B R → Page → Parsed → Engine F B R
  unfolding write_page write_links write_images outgoing_links image_records
  write_parsed env e page parsed =
      let w = write_page env.commit e.writer page in
      let w' =
        if ltb 0 (length parsed.anchors)
        then write_links env.commit w page.url (outgoing_links page.domain parsed.anchors)
        else w in
      record e {
        writer =
            write_images env.commit w' (image_records env.now page.url page.domain parsed.images);
        pages_crawled = e.pages_crawled + 1;
      }

  -- `persistParsedPage`.
  unfoldable pub persist_parsed_page :
      Config → Answers F R → Engine F B R → Job F → Fetched → Parsed → Engine F B R
  unfolding make_page write_parsed follow_links record_crawl
  persist_parsed_page cfg env e job result parsed =
      let page = make_page env.sha256 env.now job result parsed in
      let e' =
        follow_links cfg env (write_parsed env e page parsed) job parsed.anchors (some page) in
      record e' { domain_stats = record_crawl env.now e'.domain_stats job.domain result.duration }

  -- `processDiscoveryOnly`; with no links it returns at once.
  unfoldable pub discover :
      Config → Answers F R → Engine F B R → Job F → Fetched → List Text → Engine F B R
  unfolding own_anchors follow_links fingerprint_url kind_from_content_type
  discover cfg env e job result [] = e
  discover cfg env e job result (link ∷ links) =
      let e' = follow_links cfg env e job (own_anchors job.domain (link ∷ links)) none in
      record e' {
        resources =
            record {
              url = job.url;
              url_fingerprint = fingerprint_url job.url;
              kind = kind_from_content_type result.content_type;
              status_code = result.status_code;
              last_crawled = env.now;
            }
            ∷ e'.resources;
      }

  unfoldable pub process_discovery_only :
      Config → Answers F R → Engine F B R → Job F → Fetched → Engine F B R
  unfolding discover
  process_discovery_only cfg env e job result =
      discover cfg env e job result (env.resource_links result)

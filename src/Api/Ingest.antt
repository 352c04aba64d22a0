-- ===== src/Api/Ingest.antt =====
-- internal/api/handlers.go: the ingestion of pages that the browser extension extracted, one at a
-- time and in batches. The database, the digest and Go's `time`
-- are parameters. The node has a frontier, and the body of the request is already decoded.
pub mod Handlers
pub mod Laws
pub mod Safety
use duvycrawl.Shared.{
  ℕ, suc, ◌-◌, Bool, true, false, not, ◌&&◌, Option, none, some, List, [], ◌∷◌, ◌++◌, map,
  if◌then◌else◌, ltb, leb, take, length,
}
use duvycrawl.Shared.Text.{Text, codes}
use duvycrawl.Url.{Std}
use duvycrawl.Queue.Defs.{ScoreOrder, Bloom}
use duvycrawl.Frontier.Canonical.{Canonical, ok, err, canonicalize_url}
use duvycrawl.Frontier.Fingerprint.{fingerprint_url}
use duvycrawl.Frontier.State.{Store, Scorer, Frontier, LinkContext}
use duvycrawl.Frontier.Ops.{add_batch}
use duvycrawl.Api.Results.{is_search_results_page_url}

-- Times: `time.Time{}`, `IsZero`, `Year` and `time.Parse` of a layout and a value.
pub record Times (T : Type 0) : Type 0 where
  pub zero_time : T
  pub is_zero : T → Bool
  pub year : T → ℕ
  pub parse_time : Text → Text → Option T

-- `storage.IngestPageRequest`, without the user that no handler reads.
pub record IngestPageRequest : Type 0 where
  pub url : Text
  pub title : Text
  pub description : Text
  pub h1 : Text
  pub content : Text
  pub language : Text
  pub outlinks : List Text
  pub schema_type : Text
  pub schema_title : Text
  pub schema_description : Text
  pub schema_image : Text
  pub schema_author : Text
  pub schema_keywords : Text
  pub published_at : Text
  pub crawled_at : Text

-- The fields of `storage.Page` that the handlers set.
pub record IngestedPage (T : Type 0) : Type 0 where
  pub url : Text
  pub domain : Text
  pub title : Text
  pub h1 : Text
  pub description : Text
  pub content : Text
  pub language : Text
  pub status_code : ℕ
  pub content_hash : Text
  pub url_fingerprint : Text
  pub fetch_mode : Text
  pub render_reason : Text
  pub ingest_hits : ℕ
  pub last_seen_at : T
  pub crawled_at : T
  pub published_at : T
  pub schema_type : Text
  pub schema_title : Text
  pub schema_description : Text
  pub schema_image : Text
  pub schema_author : Text
  pub schema_keywords : Text

-- `Storage.IngestPage`: the identifier of the page, or the error's text.
pub data Stored : Type 0 where
  saved : ℕ → Stored
  failed : Text → Stored

pub record IngestStore (S T : Type 0) : Type 0 where
  pub ingest_page : S → IngestedPage T → List Text → S × Stored
  pub pages : S → Store

-- The responses of `IngestPage`.
pub data PageResponse : Type 0 where
  bad_request : Text → PageResponse
  internal_error : Text → PageResponse
  not_indexed : Text → PageResponse
  indexed : ℕ → Text → ℕ → PageResponse

-- The local `result` of `IngestBatch`: a page that is indexed, or its URL with an error.
pub data PageResult : Type 0 where
  accepted : Text → ℕ → ℕ → PageResult
  rejected : Text → Text → PageResult

pub data BatchResponse : Type 0 where
  refused : Text → BatchResponse
  report : ℕ → ℕ → List PageResult → BatchResponse

-- `processed++` when the page was accepted.
abbrev pub add_processed : PageResult → ℕ → ℕ
add_processed (accepted url id queued) n = suc n
add_processed (rejected url e) n = n

abbrev pub max_ingest_outlinks : ℕ
max_ingest_outlinks = 3

unfoldable pub clamp_ingest_outlinks : List Text → List Text
clamp_ingest_outlinks outlinks =
    if leb (length outlinks) max_ingest_outlinks
    then outlinks
    else take max_ingest_outlinks outlinks

abbrev pub ingest_formats : List Text
ingest_formats = map codes (
    "2006-01-02T15:04:05.999999999Z07:00" ∷ "2006-01-02T15:04:05Z07:00"
    ∷ "2006-01-02T15:04:05Z07:00" ∷ "2006-01-02T15:04:05" ∷ "2006-01-02 15:04:05" ∷ "2006-01-02"
    ∷ [])

unfoldable pub outlink_context : IngestPageRequest → Text → LinkContext
outlink_context req raw = record {
  url = raw;
  anchor_text = [];
  source_page_title = req.title;
  source_schema_type = req.schema_type;
  source_language = req.language;
}

module _ {T : Type 0} ⦃std : Std⦄ (times : Times T) (content_hash : Text → Text) where
  -- The first argument is the time at which the code reads the clock.
  unfoldable pub is_sane_ingest_time : T → T → Bool
  is_sane_ingest_time now t =
      not (times.is_zero t)
      && (leb 1990 (times.year t) && leb (times.year t) (suc (times.year now)))

  unfoldable pub first_format : T → Text → List Text → T
  unfolding is_sane_ingest_time
  first_format now value [] = times.zero_time
  first_format now value (f ∷ fs) =
      let later = first_format now value fs in
      elim (times.parse_time f value) [
        | none ↦ later
        | some t ↦ if is_sane_ingest_time now t then t else later
      ]

  unfoldable pub parse_trimmed : T → Text → T
  unfolding first_format
  parse_trimmed now [] = times.zero_time
  parse_trimmed now (c ∷ value) = first_format now (c ∷ value) ingest_formats

  unfoldable pub parse_ingest_time : T → Text → T
  unfolding parse_trimmed
  parse_ingest_time now value = parse_trimmed now (std.trim_space value)

  -- The two times of a request; the empty text is not parsed.
  unfoldable pub crawled_time : T → Text → T
  unfolding parse_ingest_time
  crawled_time now [] = now
  crawled_time now (c ∷ s) =
      let t = parse_ingest_time now (c ∷ s) in if times.is_zero t then now else t

  unfoldable pub published_time : T → Text → T
  unfolding parse_ingest_time
  published_time now [] = times.zero_time
  published_time now (c ∷ s) = parse_ingest_time now (c ∷ s)

  unfoldable pub build_page : T → Text → Text → IngestPageRequest → IngestedPage T
  unfolding crawled_time published_time fingerprint_url
  build_page now normalized domain req = record {
    url = normalized;
    domain = domain;
    title = req.title;
    h1 = req.h1;
    description = req.description;
    content = req.content;
    language = req.language;
    status_code = 200;
    content_hash = content_hash req.content;
    url_fingerprint = fingerprint_url normalized;
    fetch_mode = codes "extension";
    render_reason = codes "submitted_by_extension";
    ingest_hits = 1;
    last_seen_at = crawled_time now req.crawled_at;
    crawled_at = crawled_time now req.crawled_at;
    published_at = published_time now req.published_at;
    schema_type = req.schema_type;
    schema_title = req.schema_title;
    schema_description = req.schema_description;
    schema_image = req.schema_image;
    schema_author = req.schema_author;
    schema_keywords = req.schema_keywords;
  }

-- ===== src/Engine/Page.antt =====
-- internal/crawler/engine.go and fetcher.go: the page that is stored, and the pure functions on
-- content types and domains. SHA-256 is a parameter, and times are numbers.
use duvycrawl.Shared.{
  ℕ, ◌==◌, Bool, true, false, not, ◌&&◌, ◌||◌, Option, List, [], ◌∷◌, map, any, length, take, leb,
  ltb, if◌then◌else◌,
}
use mathlib.Core.List.{reverse}
use duvycrawl.Shared.Text.{Text, codes, text_beq, contains, split}
use duvycrawl.Url.{Std}
use duvycrawl.Render as rendering

-- `FetchResult`, with what the render decider reads of it in one part.
pub record Fetched : Type 0 where
  pub result : rendering.FetchResult
  pub open result use *
  pub final_url : Text
  pub duration : ℕ
  pub mode : Text
  pub render_reason : Option rendering.Reason

-- `LinkAnchor` and `ImageMeta`.
pub record LinkAnchor : Type 0 where
  pub url : Text
  pub anchor : Text

pub record ImageMeta : Type 0 where
  pub url : Text
  pub alt : Text
  pub title : Text
  pub context : Text
  pub width : ℕ
  pub height : ℕ

-- `ParseResult`; a rating is kept as the parser gives it.
pub record Parsed : Type 0 where
  pub title : Text
  pub h1 : Text
  pub h2 : Text
  pub description : Text
  pub content : Text
  pub language : Text
  pub canonical : Text
  pub anchors : List LinkAnchor
  pub images : List ImageMeta
  pub published_at : ℕ
  pub schema_type : Text
  pub schema_title : Text
  pub schema_description : Text
  pub schema_image : Text
  pub schema_author : Text
  pub schema_keywords : Text
  pub schema_rating : ℕ

-- What the render decider reads of a parse.
abbrev pub to_read : Parsed → rendering.ParseResult
to_read p = record { content = p.content; anchors = map (λ (a : LinkAnchor). a.url) p.anchors }

-- `storage.Page`, `OutgoingLink`, `ImageRecord` and `DiscoveredResource`.
pub record Page : Type 0 where
  pub url : Text
  pub domain : Text
  pub title : Text
  pub h1 : Text
  pub h2 : Text
  pub description : Text
  pub content : Text
  pub language : Text
  pub region : Text
  pub status_code : ℕ
  pub content_hash : Text
  pub url_fingerprint : Text
  pub fetch_mode : Text
  pub render_reason : Option rendering.Reason
  pub published_at : ℕ
  pub crawled_at : ℕ
  pub schema_type : Text
  pub schema_title : Text
  pub schema_description : Text
  pub schema_image : Text
  pub schema_author : Text
  pub schema_keywords : Text
  pub schema_rating : ℕ

pub record OutgoingLink : Type 0 where
  pub target_url : Text
  pub anchor_text : Text

pub record ImageRecord : Type 0 where
  pub url : Text
  pub page_url : Text
  pub domain : Text
  pub alt_text : Text
  pub title : Text
  pub context : Text
  pub width : ℕ
  pub height : ℕ
  pub crawled_at : ℕ

pub record DiscoveredResource : Type 0 where
  pub url : Text
  pub url_fingerprint : Text
  pub kind : Text
  pub status_code : ℕ
  pub last_crawled : ℕ

-- `truncateString`: the first bytes.
unfoldable pub truncate_string : Text → ℕ → Text
truncate_string s max_len = if leb (length s) max_len then s else take max_len s

-- `result.StatusCode < 200 || result.StatusCode >= 300`, negated.
unfoldable pub is_success : ℕ → Bool
is_success code = leb 200 code && ltb code 300

-- The 4xx codes but 429, which are not tried again.
unfoldable pub is_permanent_error : ℕ → Bool
is_permanent_error code = leb 400 code && ltb code 500 && not (code == 429)

abbrev discovery_types : List Text
discovery_types = map codes (
    "text/css" ∷ "application/javascript" ∷ "text/javascript" ∷ "application/x-javascript"
    ∷ "application/ecmascript" ∷ "application/json" ∷ "application/ld+json" ∷ "application/xml"
    ∷ "text/xml" ∷ "application/rss+xml" ∷ "application/atom+xml" ∷ [])

module _ ⦃std : Std⦄ where
  -- `isHTMLContentType`.
  unfoldable pub is_html_content_type : Text → Bool
  unfolding contains
  is_html_content_type ct =
      contains (std.to_lower ct) (codes "text/html")
      || contains (std.to_lower ct) (codes "application/xhtml+xml")

  -- `isAllowedContentType`: whether it is HTML, and whether links may be discovered in it.
  unfoldable pub is_allowed_content_type : Text → Bool × Bool
  unfolding is_html_content_type contains
  is_allowed_content_type ct =
      if is_html_content_type ct
      then (true, true)
      else (false, any (contains (std.to_lower ct)) discovery_types)

  -- `kindFromContentType`.
  unfoldable pub kind_of_lower : Text → Text
  unfolding contains
  kind_of_lower ct =
      if contains ct (codes "text/css")
      then codes "css"
      else if contains ct (codes "javascript") || contains ct (codes "ecmascript")
      then codes "js"
      else if contains ct (codes "json")
      then codes "json"
      else if contains ct (codes "rss")
      then codes "rss"
      else if contains ct (codes "atom")
      then codes "atom"
      else if contains ct (codes "xml")
      then codes "xml"
      else codes "other"

  unfoldable pub kind_from_content_type : Text → Text
  unfolding kind_of_lower
  kind_from_content_type ct = kind_of_lower (std.to_lower ct)

  -- `inferRegion`: the last label of a domain with at least two, if it is a country's.
  unfoldable pub region_of_labels : List Text → Text
  unfolding text_beq
  region_of_labels [] = []
  region_of_labels (tld ∷ []) = []
  region_of_labels (tld ∷ label ∷ labels) =
      if length tld == 2
        && not (text_beq tld (codes "io"))
        && not (text_beq tld (codes "tv"))
        && not (text_beq tld (codes "co"))
        && not (text_beq tld (codes "me"))
      then std.to_lower tld
      else []

  unfoldable pub infer_region : Text → Text
  unfolding region_of_labels split
  infer_region domain = region_of_labels (reverse (split b'.' domain))

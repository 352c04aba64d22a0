-- ===== src/Render.antt =====
-- internal/crawler/render_decider.go: when a page is fetched again with a browser.
pub mod Laws
use duvycrawl.Shared.{
  ℕ, ◌==◌, ◌*◌, Bool, true, false, not, ◌&&◌, ◌||◌, Option, none, some, List, [], ◌∷◌, map,
  if◌then◌else◌, ltb, leb, length, take, any,
}
use duvycrawl.Shared.Text.{Text, codes, contains, text_beq}
use duvycrawl.Url.{Std}

-- The fields of `config.RenderingConfig`, `FetchResult` and `ParseResult` that are read; an anchor
-- counts, and its content does not matter.
pub record RenderingConfig : Type 0 where
  pub enabled : Bool
  pub mode : Text
  pub render_on_status_codes : List ℕ
  pub min_text_chars : ℕ
  pub min_links : ℕ

pub record FetchResult : Type 0 where
  pub status_code : ℕ
  pub content_type : Text
  pub body : Text

pub record ParseResult : Type 0 where
  pub content : Text
  pub anchors : List Text

-- The reasons; `status` carries the number in `status_%d`.
pub data Reason : Type 0 where
  force javascript_required_message browser_interstitial empty_spa_shell weak_http_parse : Reason
  status : ℕ → Reason

-- A decision: none for `false` with the empty reason.
abbrev pub Decision : Type 0
Decision = Option Reason

-- `renderingEnabled`.
unfoldable pub rendering_enabled : RenderingConfig → Bool
unfolding text_beq
rendering_enabled cfg = cfg.enabled && not (text_beq cfg.mode (codes "disabled"))

-- The loop over `RenderOnStatusCodes`.
unfoldable pub status_decision : List ℕ → ℕ → Decision
status_decision [] code = none
status_decision (c ∷ cs) code = if code == c then some (status code) else status_decision cs code

-- `shouldRenderStatus`; `is_html` is `isHTMLContentType`, and a missing result is none.
unfoldable pub should_render_status :
    (Text → Bool) → RenderingConfig → Option FetchResult → Decision
unfolding rendering_enabled status_decision text_beq
should_render_status is_html cfg none = none
should_render_status is_html cfg (some result) =
    if not (rendering_enabled cfg)
    then none
    else (if text_beq cfg.mode (codes "force") && is_html result.content_type
        then some force
        else status_decision cfg.render_on_status_codes result.status_code)

-- `containsJavaScriptRequiredMessage` and `containsKnownInterstitial`.
unfoldable pub javascript_markers : List Text
javascript_markers = map codes (
    "enable javascript" ∷ "javascript is required" ∷ "requires javascript" ∷ "please enable js"
    ∷ "please enable javascript" ∷ "necesitas activar javascript" ∷ "necesita activar javascript"
    ∷ "habilita javascript" ∷ "active javascript" ∷ [])

unfoldable pub contains_javascript_required_message : Text → Bool
unfolding javascript_markers contains
contains_javascript_required_message body = any (contains body) javascript_markers

unfoldable pub interstitial_markers : List Text
interstitial_markers = map codes (
    "just a moment" ∷ "checking your browser" ∷ "verify you are human" ∷ "ddos-guard"
    ∷ "cf-browser-verification" ∷ "cf-challenge" ∷ [])

unfoldable pub contains_known_interstitial : Text → Bool
unfolding interstitial_markers contains
contains_known_interstitial body = any (contains body) interstitial_markers

unfoldable pub spa_markers : List Text
spa_markers = map codes (
    "id=\"root\"" ∷ "id=\"app\"" ∷ "id=\"__next\"" ∷ "id=\"__nuxt\"" ∷ "data-reactroot"
    ∷ "ng-version" ∷ [])

module _ ⦃std : Std⦄ where
  -- `lowerBodySample`; `bytes.ToLower` maps as `strings.ToLower` does.
  unfoldable pub lower_body_sample : Text → Text
  lower_body_sample body = std.to_lower (take (128 * 1024) body)

  -- `looksLikeEmptySPA`.
  unfoldable pub looks_like_empty_spa : Text → ParseResult → Bool
  unfolding spa_markers contains
  looks_like_empty_spa body parsed =
      if leb 200 (length (std.trim_space parsed.content)) || ltb 0 (length parsed.anchors)
      then false
      else any (contains body) spa_markers

  -- The tests of `shouldRenderParsed` on the sample of the body, in order.
  unfoldable pub body_decision : RenderingConfig → Text → ParseResult → Decision
  unfolding contains_javascript_required_message contains_known_interstitial looks_like_empty_spa
  body_decision cfg body parsed =
      if contains_javascript_required_message body
      then some javascript_required_message
      else (if contains_known_interstitial body
          then some browser_interstitial
          else (if looks_like_empty_spa body parsed
              then some empty_spa_shell
              else (if ltb (length (std.trim_space parsed.content)) cfg.min_text_chars
                    && ltb (length parsed.anchors) cfg.min_links
                  then some weak_http_parse
                  else none)))

  -- `shouldRenderParsed`, for a result and a parse that are there.
  unfoldable pub should_render_parsed : RenderingConfig → FetchResult → ParseResult → Decision
  unfolding rendering_enabled body_decision lower_body_sample text_beq
  should_render_parsed cfg result parsed =
      if not (rendering_enabled cfg)
      then none
      else (if text_beq cfg.mode (codes "force")
          then some force
          else body_decision cfg (lower_body_sample result.body) parsed)

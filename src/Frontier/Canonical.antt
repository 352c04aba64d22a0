-- ===== src/Frontier/Canonical.antt =====
-- internal/frontier/frontier.go: `CanonicalizeURL` and `ExtractDomain`.
use duvycrawl.Shared.{
  Bool, not, ◌&&◌, ◌||◌, Option, none, some, List, [], ◌∷◌, ◌++◌, map, if◌then◌else◌, filter,
}
use duvycrawl.Shared.Text.{Text, codes, text_beq, trim_right, trim_prefix, sort_texts}
use duvycrawl.Url.{Url, Std}
use duvycrawl.Frontier.Params.{should_drop_query_param}

-- The errors of `CanonicalizeURL`.
pub data UrlError : Type 0 where
  empty_url : UrlError
  parse_error : UrlError
  unsupported_scheme : Text → UrlError

pub data Canonical : Type 0 where
  ok : Text → Text → Canonical
  err : UrlError → Canonical

module _ ⦃std : Std⦄ where
  unfoldable pub is_http : Text → Bool
  unfolding text_beq
  is_http scheme = text_beq scheme (codes "http") || text_beq scheme (codes "https")

  -- The port, unless it is the default of the scheme.
  unfoldable pub kept_port : Text → Text → Text
  unfolding text_beq
  kept_port scheme port =
      if text_beq scheme (codes "http") && text_beq port (codes "80")
        || text_beq scheme (codes "https") && text_beq port (codes "443")
      then []
      else port

  unfoldable pub join_port : Text → Text → Text
  join_port hostname [] = hostname
  join_port hostname (c ∷ port) = hostname ++ b':' ∷ c ∷ port

  -- The path without trailing slashes, and `/` for the empty one.
  unfoldable pub or_root : Text → Text
  or_root [] = b'/' ∷ []
  or_root (c ∷ s) = c ∷ s

  unfoldable pub canonical_path : Text → Text
  unfolding trim_right or_root
  canonical_path path = or_root (trim_right b'/' path)

  -- The entries of the query that are kept, and then the sort of each one's values.
  unfoldable pub kept_params : List (Text × List Text) → List (Text × List Text)
  kept_params = filter (λ p. not (should_drop_query_param p.0))

  unfoldable pub sort_values : List (Text × List Text) → List (Text × List Text)
  unfolding sort_texts
  sort_values = map (λ p. (p.0, sort_texts p.1))

  -- The new value of `RawQuery`: an unparsed query without entries stays as it is.
  unfoldable pub encode_kept : List (Text × List Text) → Text
  unfolding sort_values
  encode_kept [] = []
  encode_kept (p ∷ ps) = std.encode (sort_values (p ∷ ps))

  unfoldable pub canonical_query : Text → List (Text × List Text) → Text
  unfolding encode_kept kept_params
  canonical_query raw [] = raw
  canonical_query raw (p ∷ ps) = encode_kept (kept_params (p ∷ ps))

  -- The normalised parts of an accepted URL.
  unfoldable pub canonical_parts : Url → Url
  unfolding kept_port join_port canonical_path canonical_query
  canonical_parts u =
      let scheme = std.to_lower u.scheme in
      record u {
        scheme = scheme;
        host = join_port (std.to_lower (std.hostname u.host)) (kept_port scheme (std.port u.host));
        path = canonical_path u.path;
        fragment = [];
        raw_query = canonical_query u.raw_query (std.query u.raw_query);
      }

  -- The code after `url.Parse`.
  unfoldable pub canonicalize_parsed : Option Url → Canonical
  unfolding is_http canonical_parts trim_prefix
  canonicalize_parsed none = err parse_error
  canonicalize_parsed (some u) =
      if is_http (std.to_lower u.scheme)
      then ok (std.to_text (canonical_parts u))
          (trim_prefix (std.hostname (canonical_parts u).host) (codes "www."))
      else err (unsupported_scheme (std.to_lower u.scheme))

  -- `CanonicalizeURL`.
  unfoldable pub canonicalize_url : Text → Canonical
  unfolding canonicalize_parsed
  canonicalize_url raw = elim (std.trim_space raw) [
    | [] ↦ err empty_url
    | c ∷ s ↦ canonicalize_parsed (std.parse (c ∷ s))
  ]

  -- `ExtractDomain`.
  unfoldable pub extract_domain : Text → Text
  unfolding trim_prefix
  extract_domain raw = elim (std.parse raw) [
    | none ↦ []
    | some u ↦ trim_prefix (std.to_lower (std.hostname u.host)) (codes "www.")
  ]

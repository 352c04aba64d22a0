-- ===== src/Url.antt =====
-- Go's `net/url` and the Unicode parts of `strings`, as the other modules call them: parameters,
-- with the documented behaviour that the proofs rely on.
use duvycrawl.Shared.{◌≡◌, Bool, Option, List}
use duvycrawl.Shared.Text.{Text}

-- `url.URL`, its user part as text.
pub record Url : Type 0 where
  pub scheme : Text
  pub opaque : Text
  pub user : Text
  pub host : Text
  pub path : Text
  pub raw_path : Text
  pub omit_host : Bool
  pub force_query : Bool
  pub fragment : Text
  pub raw_fragment : Text
  pub raw_query : Text

pub record Std : Type 0 where
  -- `strings.ToLower` and `strings.TrimSpace`.
  pub to_lower : Text → Text
  pub trim_space : Text → Text
  pub to_lower-idem : (s : Text) → to_lower (to_lower s) ≡ to_lower s
  -- `url.Parse`, `URL.String`, `URL.Hostname` and `URL.Port` of a host part.
  pub parse : Text → Option Url
  pub to_text : Url → Text
  pub hostname : Text → Text
  pub port : Text → Text
  -- `url.Values` as the entries of the map, in the order of a visit: `Query` and `Encode`.
  pub query : Text → List (Text × List Text)
  pub encode : List (Text × List Text) → Text

-- ===== src/UrlFilter.antt =====
-- internal/urlfilter/urlfilter.go: which URLs are never fetched or stored as pages.
pub mod Tables
pub mod Laws
use mathlib.Core.List.{reverse}
use duvycrawl.Shared.{
  ℕ, ◌==◌, ◌≡◌, Bool, true, false, ◌||◌, Option, none, some, List, [], ◌∷◌, ◌++◌, if◌then◌else◌,
  any,
}
use duvycrawl.Shared.Text.{Text, codes, has_prefix, contains, member}
use duvycrawl.Url.{Url, Std}
use Tables.{
  binary_extensions, discovery_extensions, chrome_blocked_extensions, image_extensions,
  disallowed_path_prefixes, challenge_path_markers,
}

-- `path.Ext` of the standard library: from the last dot of the last element, over the reversed
-- path.
unfoldable pub ext_scan : Text → Text → Text
ext_scan [] acc = []
ext_scan (c ∷ s) acc =
    if c == b'/' then [] else (if c == b'.' then c ∷ acc else ext_scan s (c ∷ acc))

unfoldable pub path_ext : Text → Text
unfolding ext_scan
path_ext p = ext_scan (reverse p) []

module _ ⦃std : Std⦄ where
  -- `extension`.
  unfoldable pub extension : Text → Text
  unfolding path_ext
  extension raw = elim (std.parse raw) [ none ↦ [] | some u ↦ std.to_lower (path_ext u.path) ]

  -- `IsBinaryExtension`, `IsAssetExtension` and `IsImageExtension`.
  unfoldable pub is_binary_extension : Text → Bool
  unfolding extension member
  is_binary_extension raw = member (extension raw) binary_extensions

  unfoldable pub is_asset_extension : Text → Bool
  unfolding extension member
  is_asset_extension raw = member (extension raw) discovery_extensions

  unfoldable pub is_image_extension : Text → Bool
  unfolding extension member
  is_image_extension raw = elim (extension raw) [
    | [] ↦ true
    | c ∷ s ↦ member (c ∷ s) image_extensions
  ]

  -- `IsChallengePath`.
  unfoldable pub is_challenge_path : Text → Bool
  unfolding contains
  is_challenge_path raw = any (contains (std.to_lower raw)) challenge_path_markers

  -- `IsDisallowedPath`.
  unfoldable pub is_disallowed_path : Text → Bool
  unfolding is_challenge_path has_prefix
  is_disallowed_path raw =
      any (has_prefix (std.to_lower raw)) disallowed_path_prefixes
      || is_challenge_path (std.to_lower raw)

  -- `IsNonIndexableDocumentURL`.
  unfoldable pub is_non_indexable_document_url : Text → Bool
  unfolding is_binary_extension is_asset_extension is_disallowed_path
  is_non_indexable_document_url raw =
      if is_binary_extension raw || is_asset_extension raw
      then true
      else elim (std.parse raw) [ none ↦ true | some u ↦ is_disallowed_path u.path ]

-- `BrowserBlockedURLPatterns`, the sets in the order of the tables.
unfoldable pub patterns_of : List Text → List Text
patterns_of [] = []
patterns_of (ext ∷ exts) =
    (codes "*://*/*" ++ ext)
    ∷ (codes "*://*/*" ++ ext ++ codes "?*")
    ∷ (codes "*://*:*/*" ++ ext)
    ∷ (codes "*://*:*/*" ++ ext ++ codes "?*")
    ∷ patterns_of exts

unfoldable pub browser_blocked_url_patterns : Bool → List Text
unfolding patterns_of
browser_blocked_url_patterns block_images = patterns_of (
    if block_images
    then chrome_blocked_extensions ++ image_extensions
    else chrome_blocked_extensions)

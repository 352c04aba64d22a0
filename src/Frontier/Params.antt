-- ===== src/Frontier/Params.antt =====
-- internal/frontier/frontier.go and fingerprint.go: which query parameters are dropped. The two
-- functions are written separately in the code, each with its own tests and its own `switch`.
use duvycrawl.Shared.{
  ◌≡◌, refl, ap, ◌∙◌, ◌++◌, Bool, true, false, ◌||◌, List, [], ◌∷◌, map, if◌then◌else◌, arith,
}
use duvycrawl.Shared.Text.{Text, codes, has_prefix, contains, member}
use duvycrawl.Url.{Std}

-- The cases of the `switch` of `ShouldDropParam`.
unfoldable pub tracking_keys : List Text
tracking_keys = map codes (
    "fbclid" ∷ "gclid" ∷ "dclid" ∷ "msclkid" ∷ "yclid" ∷ "igshid" ∷ "mc_cid" ∷ "mc_eid" ∷ "zanpid"
    ∷ "_gl" ∷ "auth" ∷ "sid" ∷ "phpsessid" ∷ "jsessionid" ∷ "expires" ∷ "expiry" ∷ "exp" ∷ [])

-- The cases of the `switch` of `shouldDropQueryParam`.
unfoldable pub dropped_keys : List Text
dropped_keys = map codes (
    "fbclid" ∷ "gclid" ∷ "dclid" ∷ "msclkid" ∷ "yclid" ∷ "igshid" ∷ "mc_cid" ∷ "mc_eid" ∷ "zanpid"
    ∷ "_gl" ∷ "auth" ∷ "sid" ∷ "phpsessid" ∷ "jsessionid" ∷ "expires" ∷ "expiry" ∷ "exp" ∷ "f"
    ∷ "filter" ∷ "sort" ∷ "order" ∷ "view" ∷ "layout" ∷ "theme" ∷ "feedviewtype" ∷ "feedsort"
    ∷ "sort_by" ∷ "sort_order" ∷ "dir" ∷ "direction" ∷ "mode" ∷ "type" ∷ "q" ∷ "query" ∷ "s"
    ∷ "search" ∷ "action" ∷ "diff" ∷ "oldid" ∷ "printable" ∷ "ref" ∷ "source" ∷ "t" ∷ "ref_src"
    ∷ "ref_url" ∷ "referer" ∷ "referrer" ∷ "context" ∷ [])

-- The tests of `ShouldDropParam` and of `shouldDropQueryParam`, on the key in lower case.
unfoldable pub is_dropped_param : Text → Bool
unfolding has_prefix contains member tracking_keys
is_dropped_param [] = true
is_dropped_param (c ∷ k) =
    if has_prefix (c ∷ k) (codes "utm_")
    then true
    else if has_prefix (c ∷ k) (codes "_hs") || has_prefix (c ∷ k) (codes "mkt_")
    then true
    else if contains (c ∷ k) (codes "token")
        || (contains (c ∷ k) (codes "session") || contains (c ∷ k) (codes "signature"))
    then true
    else if has_prefix (c ∷ k) (codes "x-amz-")
    then true
    else member (c ∷ k) tracking_keys

unfoldable pub is_dropped_query_param : Text → Bool
unfolding has_prefix contains member dropped_keys
is_dropped_query_param [] = true
is_dropped_query_param (c ∷ k) =
    if has_prefix (c ∷ k) (codes "utm_")
    then true
    else if has_prefix (c ∷ k) (codes "_hs") || has_prefix (c ∷ k) (codes "mkt_")
    then true
    else if contains (c ∷ k) (codes "token")
        || (contains (c ∷ k) (codes "session") || contains (c ∷ k) (codes "signature"))
    then true
    else if has_prefix (c ∷ k) (codes "x-amz-")
    then true
    else member (c ∷ k) dropped_keys

module _ ⦃std : Std⦄ where
  -- `ShouldDropParam`.
  unfoldable pub should_drop_param : Text → Bool
  unfolding is_dropped_param
  should_drop_param key = is_dropped_param (std.to_lower (std.trim_space key))

  -- `shouldDropQueryParam`.
  unfoldable pub should_drop_query_param : Text → Bool
  unfolding is_dropped_query_param
  should_drop_query_param key = is_dropped_query_param (std.to_lower (std.trim_space key))

-- The keys on which the two functions differ: the view of a page, searches and referrers.
unfoldable pub view_keys : List Text
view_keys = map codes (
    "f" ∷ "filter" ∷ "sort" ∷ "order" ∷ "view" ∷ "layout" ∷ "theme" ∷ "feedviewtype" ∷ "feedsort"
    ∷ "sort_by" ∷ "sort_order" ∷ "dir" ∷ "direction" ∷ "mode" ∷ "type" ∷ "q" ∷ "query" ∷ "s"
    ∷ "search" ∷ "action" ∷ "diff" ∷ "oldid" ∷ "printable" ∷ "ref" ∷ "source" ∷ "t" ∷ "ref_src"
    ∷ "ref_url" ∷ "referer" ∷ "referrer" ∷ "context" ∷ [])

member-append : (k : Text) (xs ys : List Text) → member k (xs ++ ys) ≡ (member k xs || member k ys)
unfolding member
member-append k [] ys = refl
member-append k (x ∷ xs) ys = ground (arith, member-append k xs ys)

dropped_keys-append : dropped_keys ≡ tracking_keys ++ view_keys
unfolding dropped_keys tracking_keys view_keys
dropped_keys-append = refl

member-dropped_keys :
    (k : Text) → member k dropped_keys ≡ (member k tracking_keys || member k view_keys)
member-dropped_keys k = ap (member k) dropped_keys-append ∙ member-append k tracking_keys view_keys

-- Four tests, and then the `switch`.
abbrev tests : Bool → Bool → Bool → Bool → Bool → Bool
tests a b c d last =
    if a then true else if b then true else if c then true else if d then true else last

tests-or : (a b c d m v w : Bool) → w ≡ (m || v) → tests a b c d w ≡ (tests a b c d m || v)
tests-or true b c d m v w h = refl
tests-or false true c d m v w h = refl
tests-or false false true d m v w h = refl
tests-or false false false true m v w h = refl
tests-or false false false false m v w h = h

is_dropped_query_param_lem :
    (k : Text) → is_dropped_query_param k ≡ (is_dropped_param k || member k view_keys)
unfolding is_dropped_query_param is_dropped_param
is_dropped_query_param_lem [] = refl
is_dropped_query_param_lem (c ∷ k) =
    tests-or (has_prefix (c ∷ k) (codes "utm_"))
      (has_prefix (c ∷ k) (codes "_hs") || has_prefix (c ∷ k) (codes "mkt_"))
      (contains (c ∷ k) (codes "token")
        || (contains (c ∷ k) (codes "session") || contains (c ∷ k) (codes "signature")))
      (has_prefix (c ∷ k) (codes "x-amz-")) (member (c ∷ k) tracking_keys)
      (member (c ∷ k) view_keys) (member (c ∷ k) dropped_keys) (member-dropped_keys (c ∷ k))

module _ ⦃std : Std⦄ where
  -- shouldDropQueryParam, which canonicalisation calls, drops what ShouldDropParam calls cosmetic
  -- and the keys of views, searches and referrers, and nothing else.
  pub should_drop_query_param_lem :
      (key : Text)
      → should_drop_query_param key
        ≡ (should_drop_param key || member (std.to_lower (std.trim_space key)) view_keys)
  unfolding should_drop_param should_drop_query_param
  should_drop_query_param_lem key = is_dropped_query_param_lem (std.to_lower (std.trim_space key))

-- ===== src/Api/Results.antt =====
-- internal/api/handlers.go: `isSearchResultsPageURL`, the filter of result pages of search engines.
use duvycrawl.Shared.{Bool, false, ◌&&◌, ◌||◌, none, some, List, [], ◌∷◌, if◌then◌else◌, any}
use duvycrawl.Shared.Text.{Text, codes, text_beq, has_prefix, contains}
use duvycrawl.Url.{Std}

-- `query.Has(key)`, on the entries of the query.
unfoldable pub has_key : List (Text × List Text) → Text → Bool
unfolding text_beq
has_key query key = any (λ (p : Text × List Text). text_beq p.0 key) query

unfoldable pub has_any : List (Text × List Text) → List Text → Bool
unfolding has_key
has_any query keys = any (λ (key : Text). has_key query key) keys

unfoldable pub is_one_of : Text → List Text → Bool
unfolding text_beq
is_one_of s names = any (λ (n : Text). text_beq s n) names

unfoldable pub has_search_term : List (Text × List Text) → Bool
unfolding has_any
has_search_term query =
    has_any query (codes "q" ∷ codes "query" ∷ codes "p" ∷ codes "text" ∷ codes "s" ∷ [])

unfoldable pub looks_like_searx_instance : Text → List (Text × List Text) → Bool
unfolding has_any has_key text_beq
looks_like_searx_instance path query =
    (text_beq path (codes "/search") && has_key query (codes "q"))
    && has_any query (
        codes "categories"
        ∷ codes "language"
        ∷ codes "engines"
        ∷ codes "theme"
        ∷ codes "time_range"
        ∷ codes "safesearch"
        ∷ [])

unfoldable pub looks_like_whoogle_instance : Text → List (Text × List Text) → Bool
unfolding has_any has_key text_beq
looks_like_whoogle_instance path query =
    ((text_beq path (codes "/search") || text_beq path (codes "/")) && has_key query (codes "q"))
    && has_any query
        (codes "safe" ∷ codes "tbm" ∷ codes "start" ∷ codes "region" ∷ codes "near" ∷ [])

-- The chain of tests, in its order, on the host and the path in lower case.
unfoldable pub is_results_page : Text → Text → List (Text × List Text) → Bool
unfolding text_beq has_prefix contains is_one_of has_search_term has_key looks_like_searx_instance
    looks_like_whoogle_instance
is_results_page host path query =
    if has_prefix host (codes "www.google.") || has_prefix host (codes "google.")
    then text_beq path (codes "/search")
      || (has_prefix path (codes "/search/")
          || (text_beq path (codes "/imgres") || has_prefix path (codes "/sorry/")))
    else if is_one_of host (codes "www.bing.com" ∷ codes "bing.com" ∷ [])
    then text_beq path (codes "/search")
    else if is_one_of host (codes "duckduckgo.com" ∷ codes "www.duckduckgo.com" ∷ [])
    then (text_beq path (codes "/") && has_search_term query) || text_beq path (codes "/html")
    else if text_beq host (codes "search.yahoo.com")
    then text_beq path (codes "/search")
    else if has_prefix host (codes "www.yandex.") || has_prefix host (codes "yandex.")
    then text_beq path (codes "/search")
    else if is_one_of host (codes "www.baidu.com" ∷ codes "baidu.com" ∷ [])
    then text_beq path (codes "/s")
    else if is_one_of host (codes "www.ecosia.org" ∷ codes "ecosia.org" ∷ [])
    then text_beq path (codes "/search")
    else if is_one_of host (codes "www.mojeek.com" ∷ codes "mojeek.com" ∷ [])
    then text_beq path (codes "/search")
    else if text_beq host (codes "search.brave.com")
    then text_beq path (codes "/search")
    else if is_one_of host (codes "www.metager.org" ∷ codes "metager.org" ∷ [])
    then has_prefix path (codes "/meta/") || text_beq path (codes "/")
    else if is_one_of host (codes "www.stract.com" ∷ codes "stract.com" ∷ [])
    then text_beq path (codes "/search")
    else if is_one_of host (codes "www.mwmbl.org" ∷ codes "mwmbl.org" ∷ [])
    then text_beq path (codes "/") && has_search_term query
    else if contains host (codes "yacy")
    then text_beq path (codes "/yacysearch.html") || text_beq path (codes "/solr/select")
    else if is_one_of host (codes "www.startpage.com" ∷ codes "startpage.com" ∷ [])
    then text_beq path (codes "/sp/search") || (text_beq path (codes "/") && has_search_term query)
    else if contains host (codes "searx") || looks_like_searx_instance path query
    then text_beq path (codes "/search")
    else if contains host (codes "whoogle") || looks_like_whoogle_instance path query
    then (text_beq path (codes "/search") || text_beq path (codes "/")) && has_key query (codes "q")
    else false

module _ ⦃std : Std⦄ where
  unfoldable pub is_search_results_page_url : Text → Bool
  unfolding is_results_page
  is_search_results_page_url raw = elim (std.parse raw) [
    | none ↦ false
    | some u ↦
        is_results_page (std.to_lower (std.hostname u.host)) (std.to_lower u.path)
          (std.query u.raw_query)
  ]

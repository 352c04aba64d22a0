-- ===== src/Robots.antt =====
-- internal/crawler/robots.go: the cache of robots.txt files. The HTTP client and the parser
-- (github.com/temoto/robotstxt) are parameters: what a fetch met, and how a file answers.
pub mod Laws
use duvycrawl.Shared.{
  ℕ, ◌==◌, ◌-◌, Bool, true, false, ◌&&◌, Option, none, some, List, [], ◌∷◌, if◌then◌else◌, ltb,
}
use duvycrawl.Shared.Maps.{lookup, insert, delete}
use duvycrawl.Shared.Text.{Text, text_eq}

-- `robotsEntry`.
pub record RobotsEntry (R : Type 0) : Type 0 where
  pub content : Option R
  pub fetched_at : ℕ
  pub failed : Bool

-- What the steps of `fetch` can meet, in the order of the code.
pub data FetchResult (R : Type 0) : Type 0 where
  bad_request unreachable : FetchResult R
  status : ℕ → FetchResult R
  unreadable unparsable : FetchResult R
  parsed : R → FetchResult R

-- The test of a file for a URL: `FindGroup` may find no group.
pub record Parser (R : Type 0) : Type 0 where
  pub find_group : R → Option (Text → Bool)

module _ {R : Type 0} where
  -- The entry that `fetch` stores and returns; the body of a status other than 200 is not read.
  unfoldable pub fetch_entry : ℕ → FetchResult R → RobotsEntry R
  fetch_entry now bad_request = record { content = none; fetched_at = now; failed = true }
  fetch_entry now unreachable = record { content = none; fetched_at = now; failed = true }
  fetch_entry now (status code) = record { content = none; fetched_at = now; failed = false }
  fetch_entry now unreadable = record { content = none; fetched_at = now; failed = true }
  fetch_entry now unparsable = record { content = none; fetched_at = now; failed = true }
  fetch_entry now (parsed r) = record { content = some r; fetched_at = now; failed = false }

  -- `fetch`, with `storeEntry`.
  unfoldable pub fetch :
      ℕ
      → FetchResult R
      → List (Text × RobotsEntry R)
      → Text
      → List (Text × RobotsEntry R) × RobotsEntry R
  unfolding fetch_entry
  fetch now result cache domain =
      let entry = fetch_entry now result in (insert domain entry cache, entry)

  -- `exists && time.Since(entry.fetchedAt) < rc.ttl`.
  unfoldable pub fresh : ℕ → ℕ → Option (RobotsEntry R) → Option (RobotsEntry R)
  fresh ttl now none = none
  fresh ttl now (some entry) = if ltb (now - entry.fetched_at) ttl then some entry else none

  unfoldable pub or_fetch :
      Option (RobotsEntry R)
      → List (Text × RobotsEntry R) × RobotsEntry R
      → List (Text × RobotsEntry R)
      → List (Text × RobotsEntry R) × RobotsEntry R
  or_fetch (some entry) fetched cache = (cache, entry)
  or_fetch none fetched cache = fetched

  -- `getOrFetch` by one worker at one time; the second look at the cache, behind the lock of the
  -- domain, then sees what the first one saw.
  unfoldable pub get_or_fetch :
      ℕ
      → ℕ
      → FetchResult R
      → List (Text × RobotsEntry R)
      → Text
      → List (Text × RobotsEntry R) × RobotsEntry R
  unfolding fetch fresh or_fetch
  get_or_fetch ttl now result cache domain =
      or_fetch (fresh ttl now (lookup domain cache)) (fetch now result cache domain) cache

  -- `ClearDomain`.
  unfoldable pub clear_domain : List (Text × RobotsEntry R) → Text → List (Text × RobotsEntry R)
  clear_domain cache domain = delete domain cache

  -- `GetCrawlDelay`: it fills the cache, and every branch returns zero.
  unfoldable pub get_crawl_delay :
      ℕ → ℕ → FetchResult R → List (Text × RobotsEntry R) → Text → List (Text × RobotsEntry R) × ℕ
  unfolding get_or_fetch
  get_crawl_delay ttl now result cache domain = ((get_or_fetch ttl now result cache domain).0, 0)

  module _ (parser : Parser R) where
    unfoldable pub group_allows : Option (Text → Bool) → Text → Bool
    group_allows none url = true
    group_allows (some test) url = test url

    unfoldable pub entry_allows : Option R → Text → Bool
    unfolding group_allows
    entry_allows none url = true
    entry_allows (some r) url = group_allows (parser.find_group r) url

    -- `IsAllowed`.
    unfoldable pub is_allowed :
        ℕ
        → ℕ
        → FetchResult R
        → List (Text × RobotsEntry R)
        → Text
        → Text
        → List (Text × RobotsEntry R) × Bool
    unfolding get_or_fetch entry_allows
    is_allowed ttl now result cache url domain =
        let (cache', entry) = get_or_fetch ttl now result cache domain in
        (cache', entry_allows entry.content url)

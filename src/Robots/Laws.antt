-- ===== src/Robots/Laws.antt =====
-- internal/crawler/robots.go: fail-open, and one fetch for each domain and lifetime.
use duvycrawl.Shared.{ℕ, ◌-◌, ◌<◌, ◌≡◌, ◌≢◌, refl, true, none, some, List, arith, ltb}
use duvycrawl.Shared.Maps.{lookup, insert, lookup-insert, lookup-delete}
use duvycrawl.Shared.Text.{Text, text_eq, text_beq_iff}
use duvycrawl.Robots.{
  RobotsEntry, FetchResult, bad_request, unreachable, status, unreadable, unparsable, parsed,
  Parser, fetch_entry, fetch, fresh, or_fetch, get_or_fetch, clear_domain, entry_allows, is_allowed,
}

module _ {R : Type 0} (parser : Parser R) where
  fetch_entry-open :
      (now : ℕ) (result : FetchResult R) (url : Text)
      → ((r : R) → result ≢ parsed r)
      → entry_allows parser (fetch_entry now result).content url ≡ true
  unfolding fetch_entry entry_allows
  fetch_entry-open now bad_request url h = refl
  fetch_entry-open now unreachable url h = refl
  fetch_entry-open now (status code) url h = refl
  fetch_entry-open now unreadable url h = refl
  fetch_entry-open now unparsable url h = refl
  fetch_entry-open now (parsed r) url h = absurd (h r refl)

  -- Fail-open: with no live entry in the cache, a fetch that ends in anything but a parsed file
  -- allows every URL.
  pub is_allowed_open :
      (ttl now : ℕ) (result : FetchResult R) (cache : List (Text × RobotsEntry R))
      (url domain : Text)
      → fresh ttl now (lookup domain cache) ≡ none
      → ((r : R) → result ≢ parsed r)
      → (is_allowed parser ttl now result cache url domain).1 ≡ true
  unfolding is_allowed get_or_fetch or_fetch fetch
  is_allowed_open ttl now result cache url domain e h = rw e (fetch_entry-open now result url h)

module _ {R : Type 0} where
  lookup_fetched :
      (now : ℕ) (result : FetchResult R) (cache : List (Text × RobotsEntry R)) (domain : Text)
      → lookup domain (insert domain (fetch_entry now result) cache) ≡ some (fetch_entry now result)
  lookup_fetched now result cache domain =
      rw
        (
          lookup-insert domain domain (fetch_entry now result) cache,
          (text_beq_iff domain domain).1 refl,
        )
        refl

  fetched_at-fetch : (now : ℕ) (result : FetchResult R) → (fetch_entry now result).fetched_at ≡ now
  unfolding fetch_entry
  fetched_at-fetch now bad_request = refl
  fetched_at-fetch now unreachable = refl
  fetched_at-fetch now (status code) = refl
  fetched_at-fetch now unreadable = refl
  fetched_at-fetch now unparsable = refl
  fetched_at-fetch now (parsed r) = refl

  -- For the lifetime of an entry after its fetch, failed fetches included, the answer comes from
  -- it: what another fetch would meet does not matter, and the cache stays.
  pub get_or_fetch_cached :
      (ttl now later : ℕ) (result other : FetchResult R) (cache : List (Text × RobotsEntry R))
      (domain : Text)
      → later - now < ttl
      → get_or_fetch ttl later other (fetch now result cache domain).0 domain
        ≡ ((fetch now result cache domain).0, fetch_entry now result)
  unfolding get_or_fetch fetch fresh or_fetch
  get_or_fetch_cached ttl now later result other cache domain h =
      rw
        (
          lookup_fetched now result cache domain,
          fetched_at-fetch now result,
          live (later - now) ttl h,
        )
        refl
    where
      live : (a b : ℕ) → a < b → ltb a b ≡ true
      live a b k = ground arith

  -- After `ClearDomain` the next answer comes from a new fetch.
  pub get_or_fetch-clear :
      (ttl now : ℕ) (result : FetchResult R) (cache : List (Text × RobotsEntry R)) (domain : Text)
      → get_or_fetch ttl now result (clear_domain cache domain) domain
        ≡ fetch now result (clear_domain cache domain) domain
  unfolding get_or_fetch clear_domain fresh or_fetch
  get_or_fetch-clear ttl now result cache domain =
      rw (lookup-delete domain domain cache, (text_beq_iff domain domain).1 refl) refl

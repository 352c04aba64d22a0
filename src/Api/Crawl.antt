-- ===== src/Api/Crawl.antt =====
-- internal/api/handlers.go: the handlers that enqueue URLs, keep the seeds and keep the manual
-- interests. The database is a parameter; the body of the request is already decoded.
pub mod Laws
use duvycrawl.Shared.{
  ℕ, zero, suc, ◌+◌, ◌-◌, Bool, true, false, not, ◌&&◌, ◌||◌, Option, none, some, List, [], ◌∷◌,
  ◌++◌, map, filter, if◌then◌else◌, ltb, leb, length,
}
use duvycrawl.Shared.Int.{ℤ, pos, negsuc}
use duvycrawl.Shared.Text.{Text, codes, member}
use duvycrawl.Url.{Std}
use duvycrawl.Queue.Defs.{ScoreOrder, Bloom}
use duvycrawl.Frontier.Canonical.{extract_domain}
use duvycrawl.Frontier.State.{Store, Scorer, Frontier}
use duvycrawl.Frontier.Ops.{add, add_batch_direct}

-- `crawlRequest`.
pub record CrawlRequest : Type 0 where
  pub urls : List Text
  pub priority : ℤ
  pub force : Bool

pub data CrawlResponse : Type 0 where
  bad_request : Text → CrawlResponse
  accepted : ℕ → ℕ → CrawlResponse

-- The URLs to enqueue and the number of those that are skipped, for the answer of `GetFreshURLs`.
unfoldable pub drop_fresh : List Text → List Text → List Text × ℕ
unfolding member
drop_fresh fresh [] = ([], 0)
drop_fresh fresh (u ∷ urls) =
    let (filtered, skipped) = drop_fresh fresh urls in
    if member u fresh then (filtered, suc skipped) else (u ∷ filtered, skipped)

unfoldable pub without_fresh : Option (List Text) → List Text → List Text × ℕ
unfolding drop_fresh
without_fresh none urls = (urls, 0)
without_fresh (some []) urls = (urls, 0)
without_fresh (some (u ∷ fresh)) urls = drop_fresh (u ∷ fresh) urls

abbrev pub urls_to_enqueue : (List Text → Option (List Text)) → CrawlRequest → List Text × ℕ
urls_to_enqueue get_fresh_urls req =
    if req.force then (req.urls, 0) else without_fresh (get_fresh_urls req.urls) req.urls

-- The base score: `float64` of a priority, or the default.
unfoldable pub score_of_priority : {F : Type 0} → (ℕ → F) → F → ℤ → F
score_of_priority to_float priority_normal (pos zero) = priority_normal
score_of_priority to_float priority_normal (pos (suc n)) = to_float (suc n)
score_of_priority to_float priority_normal (negsuc n) = priority_normal

abbrev pub starting_depth : ℕ → ℕ → ℕ
starting_depth max_depth api_max_depth =
    if ltb api_max_depth max_depth then max_depth - api_max_depth else 0

module _ {F B : Type 0} ⦃std : Std⦄ ⦃o : ScoreOrder F⦄ ⦃bl : Bloom B⦄ (pages : Store)
    (sc : Scorer F) where
  unfoldable pub enqueue_urls : Frontier F B → List Text → ℕ → F → Frontier F B × ℕ
  unfolding add_batch_direct
  enqueue_urls f [] depth score = (f, 0)
  enqueue_urls f (u ∷ urls) depth score = add_batch_direct pages sc f (u ∷ urls) depth score

  -- `CrawlURLs`; `AddBatchDirect` returns no error.
  unfoldable pub crawl_urls :
      (List Text → Option (List Text))
      → (ℕ → F)
      → F
      → ℕ
      → ℕ
      → Frontier F B
      → CrawlRequest
      → Frontier F B × CrawlResponse
  unfolding enqueue_urls without_fresh score_of_priority
  crawl_urls get_fresh_urls to_float priority_normal max_depth api_max_depth f req =
      let chosen = urls_to_enqueue get_fresh_urls req in
      let (g, queued) =
        enqueue_urls f chosen.0 (starting_depth max_depth api_max_depth)
          (score_of_priority to_float priority_normal req.priority) in
      if leb (length req.urls) 0
      then (f, bad_request (codes "at least one URL is required"))
      else if ltb 1000 (length req.urls)
      then (f, bad_request (codes "maximum 1000 URLs per request"))
      else (g, accepted queued chosen.1)

-- `seedURLRequest`, its interval in whole seconds.
pub record SeedUrlRequest : Type 0 where
  pub url : Text
  pub recrawl_interval_seconds : ℕ

-- `UpsertSeedURL` of a URL, its domain and its interval, and `DeleteSeedURL`; none is an error.
pub record SeedStore (S : Type 0) : Type 0 where
  pub upsert_seed_url : S → Text → Text → ℕ → Option S
  pub delete_seed_url : S → Text → Option S

pub data SeedResponse : Type 0 where
  seed_refused : Text → SeedResponse
  seed_failed : Text → SeedResponse
  seed_added : Text → SeedResponse
  seed_removed : Text → SeedResponse

module _ {S F B : Type 0} ⦃std : Std⦄ ⦃o : ScoreOrder F⦄ ⦃bl : Bloom B⦄ (db : SeedStore S)
    (pages : Store) (sc : Scorer F) (priority_seed : F) where
  -- `AddSeed` after the database's answer; an error of `Add` is only logged.
  unfoldable pub finish_seed :
      Option S → S → Frontier F B → SeedUrlRequest → S × Frontier F B × SeedResponse
  unfolding add
  finish_seed none s f req = (s, f, seed_failed (codes "failed to add seed"))
  finish_seed (some t) s f req = (t, (add pages sc f req.url 0 priority_seed).0, seed_added req.url)

  unfoldable pub add_seed_domain :
      Text → S → Frontier F B → SeedUrlRequest → S × Frontier F B × SeedResponse
  unfolding finish_seed
  add_seed_domain [] s f req = (s, f, seed_refused (codes "invalid url"))
  add_seed_domain (c ∷ domain) s f req =
      finish_seed (db.upsert_seed_url s req.url (c ∷ domain) req.recrawl_interval_seconds) s f req

  unfoldable pub add_seed : S → Frontier F B → SeedUrlRequest → S × Frontier F B × SeedResponse
  unfolding add_seed_domain extract_domain
  add_seed s f req = elim req.url [
    | [] ↦ (s, f, seed_refused (codes "url is required"))
    | c ∷ url ↦ add_seed_domain (extract_domain (c ∷ url)) s f req
  ]

-- `DeleteSeed`.
unfoldable pub delete_seed : {S : Type 0} → SeedStore S → S → Text → S × SeedResponse
delete_seed db s [] = (s, seed_refused (codes "url is required"))
delete_seed db s (c ∷ url) = elim (db.delete_seed_url s (c ∷ url)) [
  | none ↦ (s, seed_failed (codes "failed to delete seed"))
  | some t ↦ (t, seed_removed (c ∷ url))
]

-- ===== src/Api/Crawl/Laws.antt =====
-- internal/api/handlers.go: laws of the enqueueing of URLs and of the seeds.
use duvycrawl.Shared.{
  ℕ, ◌≡◌, ◌⊎◌, refl, sym, Bool, true, false, Option, none, some, List, [], ◌∷◌, ltb, leb, length,
  In, inl, inr, arith, Bool-cases,
}
use duvycrawl.Shared.Text.{Text, member}
use duvycrawl.Url.{Std}
use duvycrawl.Queue.Defs.{ScoreOrder, Bloom}
use duvycrawl.Queue.Waiting.{Waits}
use duvycrawl.Frontier.State.{Store, Scorer, Frontier, admit}
use duvycrawl.Frontier.Direct.{add_batch_direct-adds}
use duvycrawl.Api.Crawl.{
  CrawlRequest, drop_fresh, without_fresh, urls_to_enqueue, score_of_priority, starting_depth,
  enqueue_urls, crawl_urls,
}

drop_fresh-In :
    (fresh urls : List Text) (raw : Text)
    → member raw fresh ≡ false
    → In raw urls
    → In raw (drop_fresh fresh urls).0
unfolding drop_fresh
drop_fresh-In fresh [] raw stale i = absurd i
drop_fresh-In fresh (u ∷ urls) raw stale (inl e) = rw (sym e) (rw stale (inl refl))
drop_fresh-In fresh (u ∷ urls) raw stale (inr i) = elim (Bool-cases (member u fresh)) [
  | inl y ↦ rw y (drop_fresh-In fresh urls raw stale i)
  | inr n ↦ rw n (inr (drop_fresh-In fresh urls raw stale i))
]

-- The answer, if there is one, names the URL.
abbrev pub is_fresh : Option (List Text) → Text → Bool
is_fresh none raw = false
is_fresh (some fresh) raw = member raw fresh

without_fresh-In :
    (answer : Option (List Text)) (urls : List Text) (raw : Text)
    → is_fresh answer raw ≡ false
    → In raw urls
    → In raw (without_fresh answer urls).0
unfolding without_fresh
without_fresh-In none urls raw stale i = i
without_fresh-In (some []) urls raw stale i = i
without_fresh-In (some (u ∷ fresh)) urls raw stale i = drop_fresh-In (u ∷ fresh) urls raw stale i

urls_to_enqueue-In :
    (get_fresh_urls : List Text → Option (List Text)) (req : CrawlRequest) (raw : Text)
    → (req.force ≡ true) ⊎ (is_fresh (get_fresh_urls req.urls) raw ≡ false)
    → In raw req.urls
    → In raw (urls_to_enqueue get_fresh_urls req).0
urls_to_enqueue-In get_fresh_urls req raw (inl forced) i = rw forced i
urls_to_enqueue-In get_fresh_urls req raw (inr stale) i = elim (Bool-cases req.force) [
  | inl y ↦ rw y i
  | inr n ↦ rw n (without_fresh-In (get_fresh_urls req.urls) req.urls raw stale i)
]

In-nonempty : {A : Type 0} (a : A) (xs : List A) → In a xs → leb (length xs) 0 ≡ false
In-nonempty a [] i = absurd i
In-nonempty a (x ∷ xs) i = ground arith

module _ {F B : Type 0} ⦃std : Std⦄ ⦃o : ScoreOrder F⦄ ⦃bl : Bloom B⦄ (pages : Store)
    (sc : Scorer F) where
  enqueue_urls-adds :
      (f : Frontier F B) (urls : List Text) (depth : ℕ) (score : F) (raw url domain : Text)
      → In raw urls
      → admit f.blacklisted_domains raw ≡ some (url, domain)
      → Waits (enqueue_urls pages sc f urls depth score).0.queue domain url
  unfolding enqueue_urls
  enqueue_urls-adds f [] depth score raw url domain i h = absurd i
  enqueue_urls-adds f (u ∷ urls) depth score raw url domain i h =
      add_batch_direct-adds pages sc f (u ∷ urls) depth score raw url domain i h

  -- After a request of at most 1,000 URLs, a job waits for every URL of the request that the
  -- frontier admits and that is not named as fresh; with `force`, for every one that it admits.
  pub crawl_urls-Waits :
      (get_fresh_urls : List Text → Option (List Text)) (to_float : ℕ → F) (priority_normal : F)
      (max_depth api_max_depth : ℕ) (f : Frontier F B) (req : CrawlRequest) (raw url domain : Text)
      → ltb 1000 (length req.urls) ≡ false
      → In raw req.urls
      → admit f.blacklisted_domains raw ≡ some (url, domain)
      → (req.force ≡ true) ⊎ (is_fresh (get_fresh_urls req.urls) raw ≡ false)
      → Waits
          (crawl_urls pages sc get_fresh_urls to_float priority_normal max_depth api_max_depth f
            req).0.queue
          domain
          url
  unfolding crawl_urls
  crawl_urls-Waits get_fresh_urls to_float priority_normal max_depth api_max_depth f req raw url
        domain small i h wanted =
      rw (In-nonempty raw req.urls i) (
        rw small (
          enqueue_urls-adds f (urls_to_enqueue get_fresh_urls req).0
            (starting_depth max_depth api_max_depth)
            (score_of_priority to_float priority_normal req.priority) raw url domain
            (urls_to_enqueue-In get_fresh_urls req raw wanted i) h))

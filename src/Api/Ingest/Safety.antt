-- ===== src/Api/Ingest/Safety.antt =====
-- internal/api/handlers.go: what `IngestBatch` may do to the database.
use duvycrawl.Shared.{
  ℕ, ◌≤◌, ◌≡◌, refl, false, List, [], ◌∷◌, ltb, length, arith, inl, inr, Bool-cases,
}
use duvycrawl.Shared.Text.{Text}
use duvycrawl.Url.{Std}
use duvycrawl.Queue.Defs.{ScoreOrder, Bloom}
use duvycrawl.Frontier.Canonical.{Canonical, ok, err, canonicalize_url}
use duvycrawl.Frontier.State.{Scorer, Frontier}
use duvycrawl.Api.Results.{is_search_results_page_url}
use duvycrawl.Api.Ingest.{
  Times, IngestPageRequest, IngestedPage, IngestStore, Stored, saved, failed, clamp_ingest_outlinks,
  build_page,
}
use duvycrawl.Api.Ingest.Handlers.{
  finish_batch_page, batch_canonical, batch_page, batch_url, page_loop, ingest_batch,
}

clamp_ingest_outlinks-length : (links : List Text) → length (clamp_ingest_outlinks links) ≤ 3
unfolding clamp_ingest_outlinks
clamp_ingest_outlinks-length [] = omega arith
clamp_ingest_outlinks-length (a ∷ []) = omega arith
clamp_ingest_outlinks-length (a ∷ b ∷ []) = omega arith
clamp_ingest_outlinks-length (a ∷ b ∷ c ∷ []) = omega arith
clamp_ingest_outlinks-length (a ∷ b ∷ c ∷ d ∷ links) = ground arith

-- The property survives what the handlers may store: a page under the canonical URL and the domain
-- of a URL that is no search result page.
abbrev Keeps : {S T : Type 0} → ⦃std : Std⦄ → IngestStore S T → (S → Type 0) → Type 0
Keeps {S = S} {T = T} db P =
    (s : S) (raw url domain : Text) (page : IngestedPage T) (links : List Text)
    → canonicalize_url raw ≡ ok url domain
    → is_search_results_page_url raw ≡ false
    → page.url ≡ url
    → page.domain ≡ domain
    → length links ≤ 3
    → P s
    → P (db.ingest_page s page links).0

module _ {T : Type 0} ⦃std : Std⦄ (times : Times T) (content_hash : Text → Text) {S F B : Type 0}
    ⦃o : ScoreOrder F⦄ ⦃bl : Bloom B⦄ (db : IngestStore S T) (sc : Scorer F) (max_depth : ℕ)
    (priority_discovery : F) where
  finish_batch_page-state :
      (answer : S × Stored) (f : Frontier F B) (req : IngestPageRequest) (url : Text)
      → (finish_batch_page times content_hash db sc max_depth priority_discovery answer f req
          url).0.0
        ≡ answer.0
  unfolding finish_batch_page
  finish_batch_page-state (s, failed e) f req url = refl
  finish_batch_page-state (s, saved id) f req url = refl

  module _ (P : S → Type 0) (keeps : Keeps db P) where
    batch_canonical-keeps :
        (now : T) (s : S) (f : Frontier F B) (req : IngestPageRequest) (raw : Text) (c : Canonical)
        → canonicalize_url raw ≡ c
        → is_search_results_page_url raw ≡ false
        → P s
        → P
            (batch_canonical times content_hash db sc max_depth priority_discovery now s f req
              c).0.0
    unfolding batch_canonical
    batch_canonical-keeps now s f req raw (err e) canonical other p = p
    batch_canonical-keeps now s f req raw (ok url domain) canonical other p =
        rw
          (finish_batch_page-state
            (db.ingest_page s (build_page times content_hash now url domain req)
              (clamp_ingest_outlinks req.outlinks))
            f req url)
          (keeps s raw url domain (build_page times content_hash now url domain req)
            (clamp_ingest_outlinks req.outlinks) canonical other (unfold build_page in refl)
            (unfold build_page in refl) (clamp_ingest_outlinks-length req.outlinks) p)

    batch_url-keeps :
        (now : T) (s : S) (f : Frontier F B) (req : IngestPageRequest) (url : Text)
        → P s
        → P (batch_url times content_hash db sc max_depth priority_discovery now s f req url).0.0
    unfolding batch_url
    batch_url-keeps now s f req [] p = p
    batch_url-keeps now s f req (c ∷ url) p =
        elim (Bool-cases (is_search_results_page_url (c ∷ url))) [
          | inl y ↦ rw y p
          | inr n ↦ rw n (batch_canonical-keeps now s f req (c ∷ url) _ refl n p)
        ]

    page_loop-keeps :
        (reqs : List (T × IngestPageRequest)) (sf : S × Frontier F B)
        → P sf.0
        → P (page_loop times content_hash db sc max_depth priority_discovery sf reqs).0.0
    unfolding page_loop batch_page
    page_loop-keeps [] sf p = p
    page_loop-keeps ((now, req) ∷ reqs) (s, f) p =
        page_loop-keeps reqs _ (batch_url-keeps now s f req req.url p)

  -- A property of the database that survives the storing of any page under the canonical URL and the
  -- domain of a URL that is no search result page, with at most three outlinks, survives a batch.
  pub ingest_batch-keeps :
      (P : S → Type 0) (sf : S × Frontier F B) (reqs : List (T × IngestPageRequest))
      → ((s : S) (raw url domain : Text) (page : IngestedPage T) (links : List Text)
          → canonicalize_url raw ≡ ok url domain
          → is_search_results_page_url raw ≡ false
          → page.url ≡ url
          → page.domain ≡ domain
          → length links ≤ 3
          → P s
          → P (db.ingest_page s page links).0)
      → P sf.0
      → P (ingest_batch times content_hash db sc max_depth priority_discovery sf reqs).0.0
  unfolding ingest_batch
  ingest_batch-keeps P sf [] keeps p = p
  ingest_batch-keeps P sf (req ∷ reqs) keeps p =
      elim (Bool-cases (ltb 1000 (length (req ∷ reqs)))) [
        | inl y ↦ rw y p
        | inr n ↦ rw n (page_loop-keeps P keeps (req ∷ reqs) sf p)
      ]

-- ===== src/Api/Ingest/Handlers.antt =====
-- internal/api/handlers.go: `IngestPage` and `IngestBatch`, from the request to the response.
use duvycrawl.Shared.{ℕ, ◌-◌, List, [], ◌∷◌, map, if◌then◌else◌, ltb, length}
use duvycrawl.Shared.Text.{Text, codes}
use duvycrawl.Url.{Std}
use duvycrawl.Queue.Defs.{ScoreOrder, Bloom}
use duvycrawl.Frontier.Canonical.{Canonical, ok, err, canonicalize_url}
use duvycrawl.Frontier.State.{Scorer, Frontier}
use duvycrawl.Frontier.Ops.{add_batch}
use duvycrawl.Api.Results.{is_search_results_page_url}
use duvycrawl.Api.Ingest.{
  Times, IngestPageRequest, IngestStore, Stored, saved, failed, PageResponse, bad_request,
  internal_error, not_indexed, indexed, PageResult, accepted, rejected, BatchResponse, refused,
  report, add_processed, clamp_ingest_outlinks, build_page, outlink_context,
}

module _ {T : Type 0} ⦃std : Std⦄ (times : Times T) (content_hash : Text → Text) {S F B : Type 0}
    ⦃o : ScoreOrder F⦄ ⦃bl : Bloom B⦄ (db : IngestStore S T) (sc : Scorer F) (max_depth : ℕ)
    (priority_discovery : F) where
  -- The enqueueing of the outlinks, with their number; `AddBatch` returns no error.
  unfoldable pub queue_outlinks :
      S → Frontier F B → IngestPageRequest → List Text → Frontier F B × ℕ
  unfolding add_batch outlink_context
  queue_outlinks s f req [] = (f, 0)
  queue_outlinks s f req (l ∷ links) = (
    add_batch (db.pages s) sc f (map (outlink_context req) (l ∷ links)) max_depth
        priority_discovery,
    length (l ∷ links),
  )

  -- `IngestPage` after the database's answer.
  unfoldable pub finish_page :
      S × Stored → Frontier F B → IngestPageRequest → Text → (S × Frontier F B) × PageResponse
  unfolding queue_outlinks clamp_ingest_outlinks
  finish_page (s, failed e) f req normalized =
      ((s, f), internal_error (codes "failed to ingest page"))
  finish_page (s, saved id) f req normalized =
      let (g, queued) = queue_outlinks s f req (clamp_ingest_outlinks req.outlinks) in
      ((s, g), indexed id normalized queued)

  unfoldable pub ingest_canonical :
      T → S → Frontier F B → IngestPageRequest → Canonical → (S × Frontier F B) × PageResponse
  unfolding finish_page build_page clamp_ingest_outlinks
  ingest_canonical now s f req (err e) = ((s, f), bad_request (codes "invalid url"))
  ingest_canonical now s f req (ok normalized domain) =
      finish_page
        (db.ingest_page s (build_page times content_hash now normalized domain req)
          (clamp_ingest_outlinks req.outlinks))
        f req normalized

  -- `IngestPage`, with its guards on the URL.
  unfoldable pub ingest_url :
      T → S → Frontier F B → IngestPageRequest → Text → (S × Frontier F B) × PageResponse
  unfolding ingest_canonical is_search_results_page_url canonicalize_url
  ingest_url now s f req [] = ((s, f), bad_request (codes "url is required"))
  ingest_url now s f req (c ∷ url) =
      if is_search_results_page_url (c ∷ url)
      then ((s, f), not_indexed (c ∷ url))
      else ingest_canonical now s f req (canonicalize_url (c ∷ url))

  unfoldable pub ingest_page :
      T → S × Frontier F B → IngestPageRequest → (S × Frontier F B) × PageResponse
  unfolding ingest_url
  ingest_page now (s, f) req = ingest_url now s f req req.url

  -- The body of the loop of `IngestBatch`, from the database's answer on, and as a whole.
  unfoldable pub finish_batch_page :
      S × Stored → Frontier F B → IngestPageRequest → Text → (S × Frontier F B) × PageResult
  unfolding queue_outlinks clamp_ingest_outlinks
  finish_batch_page (s, failed e) f req normalized = ((s, f), rejected normalized e)
  finish_batch_page (s, saved id) f req normalized =
      let (g, queued) = queue_outlinks s f req (clamp_ingest_outlinks req.outlinks) in
      ((s, g), accepted normalized id queued)

  unfoldable pub batch_canonical :
      T → S → Frontier F B → IngestPageRequest → Canonical → (S × Frontier F B) × PageResult
  unfolding finish_batch_page build_page clamp_ingest_outlinks
  batch_canonical now s f req (err e) = ((s, f), rejected req.url (codes "invalid url"))
  batch_canonical now s f req (ok normalized domain) =
      finish_batch_page
        (db.ingest_page s (build_page times content_hash now normalized domain req)
          (clamp_ingest_outlinks req.outlinks))
        f req normalized

  unfoldable pub batch_url :
      T → S → Frontier F B → IngestPageRequest → Text → (S × Frontier F B) × PageResult
  unfolding batch_canonical is_search_results_page_url canonicalize_url
  batch_url now s f req [] = ((s, f), rejected [] (codes "url is required"))
  batch_url now s f req (c ∷ url) =
      if is_search_results_page_url (c ∷ url)
      then ((s, f), rejected (c ∷ url) (codes "search_results_page"))
      else batch_canonical now s f req (canonicalize_url (c ∷ url))

  unfoldable pub batch_page :
      T → S × Frontier F B → IngestPageRequest → (S × Frontier F B) × PageResult
  unfolding batch_url
  batch_page now (s, f) req = batch_url now s f req req.url

  -- The loop, each page with the time at which it is reached.
  unfoldable pub page_loop :
      S × Frontier F B → List (T × IngestPageRequest) → (S × Frontier F B) × ℕ × List PageResult
  unfolding batch_page
  page_loop sf [] = (sf, 0, [])
  page_loop sf ((now, req) ∷ reqs) =
      let (next, r) = batch_page now sf req in
      let (last, processed, results) = page_loop next reqs in
      (last, add_processed r processed, r ∷ results)

  -- `IngestBatch`.
  unfoldable pub ingest_batch :
      S × Frontier F B → List (T × IngestPageRequest) → (S × Frontier F B) × BatchResponse
  unfolding page_loop
  ingest_batch sf [] = (sf, refused (codes "at least one page is required"))
  ingest_batch sf (p ∷ ps) =
      let (last, processed, results) = page_loop sf (p ∷ ps) in
      if ltb 1000 (length (p ∷ ps))
      then (sf, refused (codes "maximum 1000 pages per batch request"))
      else (last, report processed (length (p ∷ ps) - processed) results)

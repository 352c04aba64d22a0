-- ===== src/Api/Ingest/Laws.antt =====
-- internal/api/handlers.go: laws of the ingestion.
use duvycrawl.Shared.{
  ℕ, suc, ◌+◌, ◌-◌, ◌≡◌, refl, sym, ap, ◌∙◌, Bool, true, false, List, [], ◌∷◌, if◌then◌else◌, ltb,
  length, arith, inl, inr, Bool-cases,
}
use duvycrawl.Shared.Text.{Text}
use duvycrawl.Url.{Std}
use duvycrawl.Queue.Defs.{ScoreOrder, Bloom}
use duvycrawl.Frontier.Canonical.{Canonical, ok, err, canonicalize_url}
use duvycrawl.Frontier.State.{Scorer, Frontier}
use duvycrawl.Api.Results.{is_search_results_page_url}
use duvycrawl.Api.Ingest.{
  Times, IngestPageRequest, IngestStore, Stored, saved, failed, PageResponse, bad_request,
  internal_error, not_indexed, indexed, PageResult, report, add_processed,
}
use duvycrawl.Api.Ingest.Handlers.{
  finish_page, ingest_canonical, ingest_page, finish_batch_page, batch_canonical, batch_page,
  ingest_url, batch_url, page_loop, ingest_batch,
}

abbrev pub is_indexed : PageResponse → Bool
is_indexed (bad_request e) = false
is_indexed (internal_error e) = false
is_indexed (not_indexed url) = false
is_indexed (indexed id url queued) = true

unfoldable pub count_indexed : List PageResponse → ℕ
count_indexed [] = 0
count_indexed (r ∷ rs) = if is_indexed r then suc (count_indexed rs) else count_indexed rs

unfoldable pub count_others : List PageResponse → ℕ
count_others [] = 0
count_others (r ∷ rs) = if is_indexed r then count_others rs else suc (count_others rs)

count_indexed-count_others :
    (rs : List PageResponse) → count_indexed rs + count_others rs ≡ length rs
unfolding count_indexed count_others
count_indexed-count_others [] = refl
count_indexed-count_others (r ∷ rs) = elim (Bool-cases (is_indexed r)) [
  | inl y ↦ rw y (grind (arith, count_indexed-count_others rs))
  | inr n ↦ rw n (grind (arith, count_indexed-count_others rs))
]

module _ {T : Type 0} ⦃std : Std⦄ (times : Times T) (content_hash : Text → Text) {S F B : Type 0}
    ⦃o : ScoreOrder F⦄ ⦃bl : Bloom B⦄ (db : IngestStore S T) (sc : Scorer F) (max_depth : ℕ)
    (priority_discovery : F) where
  -- The same pages, sent one request after the other.
  unfoldable pub one_by_one :
      S × Frontier F B → List (T × IngestPageRequest) → (S × Frontier F B) × List PageResponse
  unfolding ingest_page
  one_by_one sf [] = (sf, [])
  one_by_one sf ((now, req) ∷ reqs) =
      let (next, r) =
        ingest_page times content_hash db sc max_depth priority_discovery now sf req in
      let (last, rs) = one_by_one next reqs in (last, r ∷ rs)

  -- A step of the batch does what a request does, and counts as processed if that is indexed.
  Same : (S × Frontier F B) × PageResponse → (S × Frontier F B) × PageResult → Type 0
  Same x y = (x.0 ≡ y.0) × ((n : ℕ) → add_processed y.1 n ≡ (if is_indexed x.1 then suc n else n))

  finish_page-finish_batch_page :
      (answer : S × Stored) (f : Frontier F B) (req : IngestPageRequest) (url : Text)
      → Same
          (finish_page times content_hash db sc max_depth priority_discovery answer f req url)
          (finish_batch_page times content_hash db sc max_depth priority_discovery answer f req url)
  unfolding Same finish_page finish_batch_page
  finish_page-finish_batch_page (s, failed e) f req url = (refl, λ n. refl)
  finish_page-finish_batch_page (s, saved id) f req url = (refl, λ n. refl)

  ingest_canonical-batch_canonical :
      (now : T) (s : S) (f : Frontier F B) (req : IngestPageRequest) (c : Canonical)
      → Same
          (ingest_canonical times content_hash db sc max_depth priority_discovery now s f req c)
          (batch_canonical times content_hash db sc max_depth priority_discovery now s f req c)
  unfolding Same ingest_canonical batch_canonical
  ingest_canonical-batch_canonical now s f req (err e) = (refl, λ n. refl)
  ingest_canonical-batch_canonical now s f req (ok url domain) =
      finish_page-finish_batch_page _ f req url

  ingest_url-batch_url :
      (now : T) (s : S) (f : Frontier F B) (req : IngestPageRequest) (url : Text)
      → Same
          (ingest_url times content_hash db sc max_depth priority_discovery now s f req url)
          (batch_url times content_hash db sc max_depth priority_discovery now s f req url)
  unfolding Same ingest_url batch_url
  ingest_url-batch_url now s f req [] = (refl, λ n. refl)
  ingest_url-batch_url now s f req (c ∷ url) =
      elim (Bool-cases (is_search_results_page_url (c ∷ url))) [
        | inl y ↦ rw y (refl, λ n. refl)
        | inr n ↦ rw n (ingest_canonical-batch_canonical now s f req (canonicalize_url (c ∷ url)))
      ]

  ingest_page-batch_page :
      (now : T) (sf : S × Frontier F B) (req : IngestPageRequest)
      → Same
          (ingest_page times content_hash db sc max_depth priority_discovery now sf req)
          (batch_page times content_hash db sc max_depth priority_discovery now sf req)
  unfolding ingest_page batch_page
  ingest_page-batch_page now (s, f) req = ingest_url-batch_url now s f req req.url

  page_loop-one_by_one :
      (sf : S × Frontier F B) (reqs : List (T × IngestPageRequest))
      → let x = one_by_one sf reqs in
        let y = page_loop times content_hash db sc max_depth priority_discovery sf reqs in
        (x.0 ≡ y.0)
        × (y.1 ≡ count_indexed x.1)
        × (length y.2 ≡ length reqs)
        × (length x.1 ≡ length reqs)
  unfolding Same one_by_one page_loop count_indexed
  page_loop-one_by_one sf [] = (refl, refl, refl, refl)
  page_loop-one_by_one sf ((now, req) ∷ reqs) =
      let (same, counted) = ingest_page-batch_page now sf req in
      let (a, b, c, d) =
        page_loop-one_by_one
          (ingest_page times content_hash db sc max_depth priority_discovery now sf req).0 reqs in
      rw (sym same) (
        a,
        counted _
            ∙ ap
                (λ n.
                  if is_indexed
                    (ingest_page times content_hash db sc max_depth priority_discovery now sf req).1
                  then suc n
                  else n)
                b,
        ap suc c,
        ap suc d,
      )

  -- A batch of at most 1,000 pages leaves the database and the frontier as the same pages would, one
  -- request after the other; it reports how many of those requests index their page and how many
  -- do not, with one result for each page.
  pub ingest_batch-one_by_one :
      (sf : S × Frontier F B) (req : T × IngestPageRequest) (reqs : List (T × IngestPageRequest))
      → ltb 1000 (length (req ∷ reqs)) ≡ false
      → (results : List PageResult) × (ingest_batch times content_hash db sc max_depth
            priority_discovery sf
            (req ∷ reqs)
          ≡ (
            (one_by_one sf (req ∷ reqs)).0,
            report
                (count_indexed (one_by_one sf (req ∷ reqs)).1)
                (count_others (one_by_one sf (req ∷ reqs)).1)
                results,
          ))
        × (length results ≡ length (req ∷ reqs))
  unfolding ingest_batch
  ingest_batch-one_by_one sf req reqs small =
      let (a, b, c, d) = page_loop-one_by_one sf (req ∷ reqs) in
      let failed_count : length (req ∷ reqs) - count_indexed (one_by_one sf (req ∷ reqs)).1
          ≡ count_others (one_by_one sf (req ∷ reqs)).1 =
        omega (arith, count_indexed-count_others (one_by_one sf (req ∷ reqs)).1, b, d) in
      (
        (page_loop times content_hash db sc max_depth priority_discovery sf (req ∷ reqs)).2,
        rw (small) (rw b (rw failed_count (rw a refl))),
        c,
      )

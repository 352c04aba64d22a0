-- ===== src/Frontier/State.antt =====
-- internal/frontier/frontier.go: the state, the guards of the three
-- ways in, and the jobs that they build. The page store is an SQL database
-- and the scorer an interface: both are parameters. Counts of fingerprints do not overflow.
use duvycrawl.Shared.{
  ℕ, ◌+◌, Bool, ◌&&◌, ◌||◌, Option, none, some, List, [], ◌∷◌, ◌++◌, if◌then◌else◌, ltb, leb,
}
use duvycrawl.Shared.Maps.{or_zero, lookup, insert}
use duvycrawl.Shared.Text.{Text, text_eq}
use duvycrawl.Url.{Std}
use duvycrawl.UrlFilter.{is_non_indexable_document_url}
use duvycrawl.Queue.Defs.{ScoreOrder, Job, Queue}
use duvycrawl.Queue.Ops.{enqueue_retry}
use duvycrawl.Frontier.Canonical.{Canonical, ok, err, canonicalize_url}
use duvycrawl.Frontier.Fingerprint.{fingerprint_url}
use duvycrawl.Frontier.Blacklist.{is_blacklisted_domain}

-- `GetPageByURL` (none is an error, `some true` a page) and `FilterExistingURLs`.
pub record Store : Type 0 where
  pub get_page_by_url : Text → Option Bool
  pub filter_existing_urls : List Text → Option (List Text)

-- `scorer.Scorer`, and the float64 zero that a new job holds before it is scored.
pub record Scorer (F : Type 0) : Type 0 where
  pub zero_score : F
  pub score : Job F → F

-- `LinkContext`.
pub record LinkContext : Type 0 where
  pub url : Text
  pub anchor_text : Text
  pub source_page_title : Text
  pub source_schema_type : Text
  pub source_language : Text

-- `Frontier`; a limit of zero is none, as in the code.
pub record Frontier (F B : Type 0) : Type 0 where
  pub queue : Queue F B
  pub blacklisted_domains : List Text
  pub fp_counts : List (Text × ℕ)
  pub max_pages_per_fingerprint : ℕ

-- The local `candidate` of `AddBatch`.
pub record Candidate : Type 0 where
  pub normalized : Text
  pub domain : Text
  pub fingerprint : Text
  pub context : LinkContext

-- A missing key of a `map[string]int` reads as zero.
-- `f.fpCounts[fp]++`.
unfoldable pub count_up : Text → List (Text × ℕ) → List (Text × ℕ)
count_up fp counts = insert fp (or_zero (lookup fp counts) + 1) counts

module _ {F B : Type 0} where
  -- `SeedFingerprintCounts`.
  unfoldable pub seed_fingerprint_counts : List Text → Frontier F B → Frontier F B
  unfolding count_up
  seed_fingerprint_counts [] f = f
  seed_fingerprint_counts (fp ∷ fps) f =
      seed_fingerprint_counts fps (record f { fp_counts = count_up fp f.fp_counts })

  -- The section under `fpMutex`: none when the fingerprint has reached its limit.
  unfoldable pub reserve : Frontier F B → Text → Option (Frontier F B)
  unfolding count_up
  reserve f fp =
      if ltb 0 f.max_pages_per_fingerprint
        && leb f.max_pages_per_fingerprint (or_zero (lookup fp f.fp_counts))
      then none
      else some (record f { fp_counts = count_up fp f.fp_counts })

  -- `Retry`.
  unfoldable pub retry : ⦃o : ScoreOrder F⦄ → Frontier F B → Job F → Frontier F B
  unfolding enqueue_retry
  retry f job = record f { queue = (enqueue_retry f.queue job).0 }

module _ ⦃std : Std⦄ where
  -- The guards that all three ways in share: the canonical URL and its domain, if it is accepted.
  unfoldable pub admit_canonical : List Text → Canonical → Option (Text × Text)
  unfolding is_non_indexable_document_url is_blacklisted_domain
  admit_canonical blacklist (err e) = none
  admit_canonical blacklist (ok normalized domain) =
      if is_non_indexable_document_url normalized || is_blacklisted_domain blacklist domain
      then none
      else some (normalized, domain)

  unfoldable pub admit : List Text → Text → Option (Text × Text)
  unfolding admit_canonical canonicalize_url
  admit blacklist raw = admit_canonical blacklist (canonicalize_url raw)

-- After an error of the lookup the batch goes on as if no URL were stored.
unfoldable pub or_none_stored : Option (List Text) → List Text
or_none_stored none = []
or_none_stored (some urls) = urls

-- `Add` and `AddBatchDirect` leave the context of a job empty.
abbrev pub no_context : LinkContext
no_context = record {
  url = [];
  anchor_text = [];
  source_page_title = [];
  source_schema_type = [];
  source_language = [];
}

module _ {F : Type 0} ⦃std : Std⦄ (sc : Scorer F) where
  -- The `queue.Job` literals, and the score that is put in afterwards.
  unfoldable pub make_job : Text → Text → Text → LinkContext → ℕ → F → Job F
  make_job url domain fingerprint ctx depth base_score =
      let job : Job F = record {
        id = 0;
        url = url;
        domain = domain;
        depth = depth;
        score = sc.zero_score;
        base_score = base_score;
        fingerprint = fingerprint;
        retries = 0;
        anchor_text = ctx.anchor_text;
        source_page_title = ctx.source_page_title;
        source_schema_type = ctx.source_schema_type;
        source_language = ctx.source_language;
      } in
      record job { score = sc.score job }

  -- The loop of `AddBatchDirect`.
  unfoldable pub direct_job : Option (Text × Text) → ℕ → F → List (Job F)
  unfolding make_job fingerprint_url
  direct_job none depth base_score = []
  direct_job (some (url, domain)) depth base_score =
      make_job url domain (fingerprint_url url) no_context depth base_score ∷ []

  unfoldable pub direct_jobs : List Text → List Text → ℕ → F → List (Job F)
  unfolding direct_job admit
  direct_jobs blacklist [] depth base_score = []
  direct_jobs blacklist (raw ∷ raws) depth base_score =
      direct_job (admit blacklist raw) depth base_score
      ++ direct_jobs blacklist raws depth base_score

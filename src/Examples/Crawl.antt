-- ===== src/Examples/Crawl.antt =====
-- internal/frontier, internal/urlfilter and internal/scorer: the theorems at concrete inputs.
use duvycrawl.Shared.{
  ℕ, ◌+◌, ◌≡◌, ◌≢◌, refl, sym, ap, ◌∙◌, Bool, true, false, Option, none, some, List, [], ◌∷◌, ◌↔◌,
  arith, ltb, ◌==◌, ◌-◌, ◌*◌, ◌||◌,
}
use duvycrawl.Shared.Text.{Text, codes, text_beq, member}
use duvycrawl.Queue.Defs.{Queue, dedup_key}
use duvycrawl.Queue.Ops.{new, enqueue}
use duvycrawl.Frontier.State.{Store, Scorer, Frontier, admit}
use duvycrawl.Frontier.Fingerprint.{normalize_segment, fingerprint_url}
use duvycrawl.Frontier.Ops.{add}
use duvycrawl.Frontier.Once.{add_once_per_fingerprint}
use duvycrawl.Frontier.Blacklist.{is_blacklisted_domain, IsParent, is_blacklisted_domain_iff}
use duvycrawl.Frontier.Segments.{normalize_segment_idem}
use duvycrawl.Frontier.Params.{
  should_drop_param, should_drop_query_param, view_keys, should_drop_query_param_lem,
}
use duvycrawl.UrlFilter.{is_non_indexable_document_url, is_challenge_path}
use duvycrawl.UrlFilter.Tables.{
  binary_extensions, discovery_extensions, disallowed_path_prefixes, challenge_path_markers,
}
use duvycrawl.Shared.Maps.{lookup, insert}
use duvycrawl.UrlFilter.Laws.{Indexable, Indexable-inv}
use duvycrawl.Scoring.{
  Float, Unicode, AdaptiveConfig, InterestProfile, adaptive_score, normalize_tokens,
}
use duvycrawl.Scoring.Laws.{AllLong, adaptive_score_nonneg, normalize_tokens-AllLong}
use duvycrawl.Examples.Instances.{number_order, exact_filter, plain_std, job_a}

-- No page is stored yet, and a job keeps its base score.
abbrev no_pages : Store
no_pages = record { get_page_by_url = λ url. some false; filter_existing_urls = λ urls. some [] }

abbrev base_scorer : Scorer ℕ
base_scorer = record { zero_score = 0; score = λ job. job.base_score }

abbrev frontier : Frontier ℕ (List Text)
frontier = record {
  queue = new;
  blacklisted_domains = [];
  fp_counts = [];
  max_pages_per_fingerprint = 3;
}

abbrev grown : Frontier ℕ (List Text)
grown = (add no_pages base_scorer frontier (codes "/p/12") 1 10).0

abbrev accepted : Option (Text × Text) → Text × Text
accepted none = ([], [])
accepted (some a) = a

abbrev first_page : Text × Text
first_page = accepted (admit [] (codes "/p/12"))

abbrev second_page : Text × Text
second_page = accepted (admit [] (codes "/p/34"))

first_admitted : admit [] (codes "/p/12") ≡ some (first_page.0, first_page.1)
unfolding admit add new lookup binary_extensions discovery_extensions disallowed_path_prefixes
    challenge_path_markers
first_admitted = refl

grown-blacklist : grown.blacklisted_domains ≡ []
unfolding admit add new lookup binary_extensions discovery_extensions disallowed_path_prefixes
    challenge_path_markers
grown-blacklist = refl

second_admitted :
    admit grown.blacklisted_domains (codes "/p/34") ≡ some (second_page.0, second_page.1)
unfolding admit add new lookup binary_extensions discovery_extensions disallowed_path_prefixes
    challenge_path_markers
second_admitted = refl

same_fingerprint : fingerprint_url second_page.0 ≡ fingerprint_url first_page.0
unfolding admit fingerprint_url binary_extensions discovery_extensions disallowed_path_prefixes
    challenge_path_markers
same_fingerprint = refl

has_fingerprint : fingerprint_url first_page.0 ≢ []
unfolding admit fingerprint_url binary_extensions discovery_extensions disallowed_path_prefixes
    challenge_path_markers
has_fingerprint e = cc

grown-enqueued : grown.queue.enqueued ≡ 1
unfolding admit add new enqueue dedup_key member text_beq lookup insert binary_extensions
    discovery_extensions disallowed_path_prefixes challenge_path_markers
grown-enqueued = refl

empty-enqueued : frontier.queue.enqueued ≡ 0
unfolding new
empty-enqueued = refl

grown-queue : grown.queue ≢ frontier.queue
grown-queue e =
    ground (
      arith,
      sym grown-enqueued ∙ (ap (λ (q : Queue ℕ (List Text)). q.enqueued) e ∙ empty-enqueued),
    )

add_once_per_fingerprint_example :
    (add no_pages base_scorer grown (codes "/p/34") 1 10).0.queue ≡ grown.queue
add_once_per_fingerprint_example =
    add_once_per_fingerprint no_pages base_scorer frontier (codes "/p/12") (codes "/p/34")
      first_page.0 first_page.1 second_page.0 second_page.1 1 1 10 10 first_admitted second_admitted
      same_fingerprint has_fingerprint grown-queue

-- The blacklist holds the domain 2.3, of which 1.2.3 is a subdomain.
is_blacklisted_domain_iff_example :
    (is_blacklisted_domain ((2 ∷ b'.' ∷ 3 ∷ []) ∷ []) (1 ∷ b'.' ∷ 2 ∷ b'.' ∷ 3 ∷ []) ≡ true) ↔ (
      (x : Text) × (member x ((2 ∷ b'.' ∷ 3 ∷ []) ∷ []) ≡ true)
      × IsParent x (1 ∷ b'.' ∷ 2 ∷ b'.' ∷ 3 ∷ []))
is_blacklisted_domain_iff_example =
    is_blacklisted_domain_iff ((2 ∷ b'.' ∷ 3 ∷ []) ∷ []) (1 ∷ b'.' ∷ 2 ∷ b'.' ∷ 3 ∷ [])

normalize_segment_idem_example :
    normalize_segment (normalize_segment (b'4' ∷ b'2' ∷ [])).0
    ≡ ((normalize_segment (b'4' ∷ b'2' ∷ [])).0, false)
normalize_segment_idem_example = normalize_segment_idem (b'4' ∷ b'2' ∷ [])

should_drop_query_param_lem_example :
    should_drop_query_param (codes "sort")
    ≡ (should_drop_param (codes "sort") || member (codes "sort") view_keys)
should_drop_query_param_lem_example = should_drop_query_param_lem (codes "sort")

indexable_page : is_non_indexable_document_url (codes "/about") ≡ false
unfolding is_non_indexable_document_url binary_extensions discovery_extensions
    disallowed_path_prefixes challenge_path_markers
indexable_page = refl

Indexable-inv_example : Indexable (codes "/about")
Indexable-inv_example = Indexable-inv (codes "/about") indexable_page

challenge_page : is_challenge_path (codes "/cdn-cgi/challenge-platform") ≡ true
unfolding is_challenge_path challenge_path_markers
challenge_page = refl

-- Whole numbers in place of floats, with a difference that stops at zero.
instance abbrev whole : Float ℕ
whole = record {
  zero_f = 0;
  ten = 10;
  half = 1;
  add = λ x y. x + y;
  sub = λ x y. x - y;
  mul = λ x y. x * y;
  lt = ltb;
  is_zero = λ x. x == 0;
  log1p = λ n. n;
  lt-irrefl_zero = refl;
}

-- A text is its bytes, and a space ends a word.
abbrev bytes : Text → List Text
bytes [] = []
bytes (c ∷ s) = (c ∷ []) ∷ bytes s

abbrev is_letter : Text → Bool
is_letter [] = false
is_letter (c ∷ s) = ltb 32 c

instance abbrev ascii : Unicode
ascii = record { to_lower = λ s. s; runes = bytes; is_word = is_letter }

abbrev config : AdaptiveConfig ℕ
config = record {
  min_queries_before_boost = 5;
  domain_reputation_weight = 2;
  language_match_bonus = 3;
  depth_penalty_k = 1;
  anchor_weight = 1;
  url_path_weight = 1;
  source_title_weight = 1;
}

abbrev profile : InterestProfile ℕ
profile = record {
  terms = (codes "golang", 4) ∷ [];
  domains = (job_a.domain, 6) ∷ [];
  languages = [];
  query_count = 2;
}

adaptive_score_nonneg_example : ltb (adaptive_score config (some profile) job_a) 0 ≡ false
adaptive_score_nonneg_example = adaptive_score_nonneg config (some profile) job_a

normalize_tokens-AllLong_example : AllLong (normalize_tokens (codes "go golang crawler"))
normalize_tokens-AllLong_example = normalize_tokens-AllLong (codes "go golang crawler")

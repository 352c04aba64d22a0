-- ===== src/Examples/Handlers.antt =====
-- internal/scheduler, internal/api and internal/config: the theorems at concrete inputs.
use duvycrawl.Shared.{
  ℕ, ◌≡◌, refl, true, false, Option, none, some, List, [], ◌∷◌, inl, length, leb, ◌≤◌, arith,
}
use duvycrawl.Shared.Int.{pos}
use duvycrawl.Shared.Text.{Text, codes}
use duvycrawl.Queue.Ops.{new}
use duvycrawl.Queue.Waiting.{Waits}
use duvycrawl.Frontier.State.{Store, Scorer, Frontier, admit}
use duvycrawl.UrlFilter.Tables.{
  binary_extensions, discovery_extensions, disallowed_path_prefixes, challenge_path_markers,
}
use duvycrawl.Scheduler.{SchedulerStore, SchedulerConfig, tick}
use duvycrawl.Scheduler.Laws.{tick-seeds}
use duvycrawl.Api.Crawl.{CrawlRequest, crawl_urls}
use duvycrawl.Api.Crawl.Laws.{crawl_urls-Waits}
use duvycrawl.Api.Ingest.{Times, IngestPageRequest, IngestStore, saved, PageResult, report}
use duvycrawl.Api.Ingest.Handlers.{ingest_batch}
use duvycrawl.Api.Ingest.Laws.{one_by_one, count_indexed, count_others, ingest_batch-one_by_one}
use duvycrawl.Api.Ingest.Safety.{ingest_batch-keeps}
use duvycrawl.Examples.Instances.{number_order, exact_filter, plain_std}

abbrev no_pages : Store
no_pages = record { get_page_by_url = λ url. some false; filter_existing_urls = λ urls. some [] }

abbrev base_scorer : Scorer ℕ
base_scorer = record { zero_score = 0; score = λ job. job.base_score }

abbrev frontier : Frontier ℕ (List Text)
frontier = record {
  queue = new;
  blacklisted_domains = [];
  fp_counts = [];
  max_pages_per_fingerprint = 3;
}

-- One seed is stale, and nothing else can be read.
abbrev one_seed : SchedulerStore ℕ
one_seed = record {
  get_stale_seed_urls = λ s limit. some (codes "/p/12" ∷ []);
  update_seed_url_last_enqueued = λ s url now. some now;
  reset_stalled_jobs = λ s age. none;
  get_stale_domains_for_recrawl = λ s pages interval limit. none;
  update_domain_homepage_recrawl = λ s domain now. none;
  dequeue_urls = λ s limit. (s, none);
  complete_job = λ s id. none;
}

abbrev scheduler_config : SchedulerConfig ℕ
scheduler_config = record {
  domain_recrawl_interval = 5;
  domain_recrawl_min_pages = 0;
  domain_recrawl_batch_limit = 0;
  domain_recrawl_depth = 2;
  priority_seed_recrawl = 35;
  priority_recrawl = 30;
  priority_normal = 10;
}

abbrev given : Option (Text × Text) → Text × Text
given none = ([], [])
given (some a) = a

abbrev page : Text × Text
page = given (admit [] (codes "/p/12"))

page-admitted : admit frontier.blacklisted_domains (codes "/p/12") ≡ some (page.0, page.1)
unfolding admit binary_extensions discovery_extensions disallowed_path_prefixes
    challenge_path_markers
page-admitted = refl

tick-seeds_example :
    Waits
      (tick one_seed no_pages base_scorer scheduler_config 7 (0, frontier)).1.queue
      page.1
      page.0
tick-seeds_example =
    tick-seeds one_seed no_pages base_scorer scheduler_config 7 0 frontier (codes "/p/12" ∷ [])
      (codes "/p/12") page.0 page.1 refl (inl refl) page-admitted

abbrev crawl_request : CrawlRequest
crawl_request = record { urls = codes "/p/12" ∷ []; priority = pos 20; force = true }

crawl_urls-Waits_example :
    Waits
      (crawl_urls no_pages base_scorer
        (λ urls. some urls)
        (λ n. n)
        10
        3
        2
        frontier
        crawl_request).0.queue
      page.1
      page.0
crawl_urls-Waits_example =
    crawl_urls-Waits no_pages base_scorer (λ urls. some urls) (λ n. n) 10 3 2 frontier crawl_request
      (codes "/p/12") page.0 page.1 refl (inl refl) page-admitted (inl refl)

-- Times are numbers, and nothing parses as one.
abbrev number_times : Times ℕ
number_times = record {
  zero_time = 0;
  is_zero = λ t. leb t 0;
  year = λ t. t;
  parse_time = λ layout value. none;
}

-- A database that counts its pages, as long as they answer with their number.
abbrev counting : IngestStore ℕ ℕ
counting = record { ingest_page = λ n page links. (n, saved n); pages = λ n. no_pages }

abbrev request : Text → IngestPageRequest
request url = record {
  url = url;
  title = codes "t";
  description = [];
  h1 = [];
  content = codes "c";
  language = codes "en";
  outlinks = codes "/q" ∷ [];
  schema_type = [];
  schema_title = [];
  schema_description = [];
  schema_image = [];
  schema_author = [];
  schema_keywords = [];
  published_at = [];
  crawled_at = [];
}

ingest_batch-one_by_one_example :
    (results : List PageResult) × (ingest_batch number_times
        (λ s. s)
        counting
        base_scorer
        3
        5
        (0, frontier)
        ((2026, request (codes "/p/12")) ∷ (2026, request []) ∷ [])
      ≡ (
        (one_by_one number_times
            (λ s. s)
            counting
            base_scorer
            3
            5
            (0, frontier)
            ((2026, request (codes "/p/12")) ∷ (2026, request []) ∷ [])).0,
        report
            (count_indexed
              (one_by_one number_times
                (λ s. s)
                counting
                base_scorer
                3
                5
                (0, frontier)
                ((2026, request (codes "/p/12")) ∷ (2026, request []) ∷ [])).1)
            (count_others
              (one_by_one number_times
                (λ s. s)
                counting
                base_scorer
                3
                5
                (0, frontier)
                ((2026, request (codes "/p/12")) ∷ (2026, request []) ∷ [])).1)
            results,
      ))
    × (length results ≡ 2)
ingest_batch-one_by_one_example =
    ingest_batch-one_by_one number_times (λ s. s) counting base_scorer 3 5 (0, frontier)
      (2026, request (codes "/p/12")) ((2026, request []) ∷ []) refl

ingest_batch-keeps_example :
    (ingest_batch number_times
      (λ s. s)
      counting
      base_scorer
      3
      5
      (0, frontier)
      ((2026, request (codes "/p/12")) ∷ [])).0.0
    ≤ 9
ingest_batch-keeps_example =
    ingest_batch-keeps number_times (λ s. s) counting base_scorer 3 5 (λ n. n ≤ 9) (0, frontier)
      ((2026, request (codes "/p/12")) ∷ []) (λ s raw url domain page links c n u d l p. p)
      (omega arith)

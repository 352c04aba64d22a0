-- ===== src/Examples/Engines.antt =====
-- internal/crawler/engine.go, fetcher.go and domainstats.go: the theorems at concrete inputs.
use duvycrawl.Fetcher.{Attempt, dropped, response, fetch_url}
use duvycrawl.Fetcher.Laws.{settles, Goes, fetch_url-settles}
use duvycrawl.Shared.{
  zero, suc, ◌≤◌, ◌<◌, ℕ, ◌+◌, ◌≡◌, ◌≢◌, refl, sym, ap, Bool, true, false, Option, none, some, List,
  [], ◌∷◌, arith, length, if◌then◌else◌, Bool-cases, inl, inr,
}
use duvycrawl.Shared.Maps.{lookup, insert, lookup-insert}
use duvycrawl.Shared.Text.{Text, codes, text_beq, text_beq_iff, text_eq, member}
use duvycrawl.Queue.Defs.{Job, Queue, dedup_key}
use duvycrawl.Queue.Ops.{new, enqueue, dequeue}
use duvycrawl.RateLimit.{DomainLimiter, new_domain_limiter}
use duvycrawl.BatchWriter.{new_batch_writer}
use duvycrawl.Render as rendering
use duvycrawl.Robots as robots
use duvycrawl.DomainStats.{Row, DomainStore, stored_row}
use duvycrawl.DomainStats.Laws as statistics
use duvycrawl.DomainStats.Laws.{run-pages}
use duvycrawl.Engine.Page.{Fetched, Parsed}
use duvycrawl.Engine.State.{Config, Engine, fetched, Answers}
use duvycrawl.Engine.Backlog.Laws as backlogs
use duvycrawl.Engine.Process.{Penalty, process_job}
use duvycrawl.Engine.Process.Laws.{Stored, process_job-Stored}
use duvycrawl.Engine.Retries.{IsWithin}
use duvycrawl.Frontier.Ops.{add}
use duvycrawl.Engine.Steps.{
  ready, after_dequeue, check_job, Running, when, takes, checks, adds, stays, continues,
}
use duvycrawl.Engine.Workers.{IsBounded, Reach-IsBounded}
use duvycrawl.Examples.Instances.{number_order, exact_filter, plain_std, job_a, job_b}

-- Rows under their domains, merged as UpsertDomain does.
abbrev table : DomainStore (List (Text × Row))
table = record {
  get_domain = λ s d. some (lookup d s);
  upsert_domain = λ s r. some (insert r.domain (stored_row r (lookup r.domain s)) s);
}

put_lem :
    (s : List (Text × Row)) (r : Row) (d : Text)
    → lookup d (insert r.domain (stored_row r (lookup r.domain s)) s)
      ≡ (if text_beq r.domain d then some (stored_row r (lookup d s)) else lookup d s)
put_lem s r d = elim (Bool-cases (text_beq r.domain d)) [
  | inl same ↦
      let e : r.domain ≡ d = (text_beq_iff r.domain d).0 same in
      rw (lookup-insert r.domain d (stored_row r (lookup r.domain s)) s, same, e) refl
  | inr other ↦ rw (lookup-insert r.domain d (stored_row r (lookup r.domain s)) s, other) refl
]

table_reliable : statistics.Reliable table
table_reliable = record {
  rows = λ s d. lookup d s;
  gets = λ s d. refl;
  put = λ s r. insert r.domain (stored_row r (lookup r.domain s)) s;
  puts = λ s r. refl;
  rows-put = λ s r d. put_lem s r d;
}

abbrev crawled : List statistics.Call
crawled = statistics.crawl 5 (10 ∷ []) 40 ∷ statistics.tick ∷ statistics.crawl 9 (10 ∷ []) 60 ∷ []

run-pages_example :
    statistics.pages_in (lookup (10 ∷ []) (statistics.run table (λ a b. b) ([], []) crawled).0)
      + statistics.pages_of (lookup (10 ∷ []) (statistics.run table (λ a b. b) ([], []) crawled).1)
    ≡ 2
unfolding lookup table_reliable text_beq
run-pages_example = run-pages table (λ a b. b) table_reliable [] [] crawled (10 ∷ []) tt

abbrev settings : Config
settings = record {
  respect_robots = true;
  max_retries = 2;
  max_depth = 3;
  no_follow_domains = [];
  blacklisted_domains = (12 ∷ []) ∷ [];
  rendering_cfg = record {
    enabled = true;
    mode = codes "auto";
    render_on_status_codes = 403 ∷ [];
    min_text_chars = 3;
    min_links = 1;
  };
  has_renderer = true;
  busy_retry_max_attempts = 2;
  busy_retry_base_delay = 5;
  busy_retry_max_delay = 8;
}

abbrev waits : List (backlogs.Call ℕ)
waits =
    backlogs.enqueues settings 5 job_a (10 ∷ 1 ∷ []) rendering.empty_spa_shell
    ∷ backlogs.enqueues settings 6 job_b (10 ∷ 1 ∷ []) rendering.empty_spa_shell
    ∷ backlogs.pops
    ∷ []

run-backlog-IsValid_example :
    backlogs.IsValid (backlogs.run (record { items = []; queued = [] }) waits)
run-backlog-IsValid_example = backlogs.run-IsValid waits

abbrev Crawler : Type 0
Crawler = Engine ℕ (List Text) (List Text)

abbrev idle : Crawler
idle = record {
  frontier = record {
    queue = new;
    blacklisted_domains = [];
    fp_counts = [];
    max_pages_per_fingerprint = 3;
  };
  limiter = new_domain_limiter 2;
  robots_cache = [];
  writer = new_batch_writer;
  backlog = record { items = []; queued = [] };
  domain_stats = [];
  resources = [];
  pages_crawled = 0;
  pages_errored = 0;
}

abbrev reply : Fetched
reply = record {
  result = record { status_code = 200; content_type = codes "text/html"; body = 7 ∷ 8 ∷ [] };
  final_url = codes "/a";
  duration = 30;
  mode = codes "http";
  render_reason = none;
}

-- The first attempt is a timeout, all others get the response.
abbrev attempts : ℕ → Attempt
attempts zero = record { cancelled = false; now = 0; random = 7; once = dropped }
attempts (suc i) = record { cancelled = false; now = 9; random = 7; once = response reply }

first_pending : (i : ℕ) → i < 1 → settles (attempts i).once ≡ none
unfolding settles
first_pending zero l = refl
first_pending (suc i) l = absurd (omega (arith, l))

none_cancelled : (i : ℕ) → i ≤ 1 → Goes attempts i
none_cancelled zero l = refl
none_cancelled (suc i) l = refl

second_settles : settles (attempts 1).once ≡ some (fetched reply)
unfolding settles
second_settles = refl

fetch_url-settles_example :
    (fetch_url 2 (codes "a") attempts (record { host_backoff = []; proxies = [] })).1
    ≡ fetched reply
fetch_url-settles_example =
    fetch_url-settles 2 1 (codes "a") attempts (record { host_backoff = []; proxies = [] })
      (fetched reply) (omega arith) first_pending none_cancelled second_settles

abbrev read : Parsed
read = record {
  title = 1 ∷ [];
  h1 = [];
  h2 = [];
  description = [];
  content = 1 ∷ 2 ∷ 3 ∷ [];
  language = [];
  canonical = [];
  anchors = record { url = codes "/b"; anchor = 4 ∷ [] } ∷ [];
  images = [];
  published_at = 0;
  schema_type = [];
  schema_title = [];
  schema_description = [];
  schema_image = [];
  schema_author = [];
  schema_keywords = [];
  schema_rating = 0;
}

abbrev world : Answers ℕ (List Text)
world = record {
  now = 5;
  robots_ttl = 60;
  robots_result = robots.status 404;
  robots_parser = record { find_group = λ r. none };
  fetch = fetched reply;
  parse = λ r. some read;
  resource_links = λ r. [];
  commit = λ b. true;
  store = record { get_page_by_url = λ url. some false; filter_existing_urls = λ urls. some [] };
  scorer = record { zero_score = 0; score = λ job. job.base_score };
  sha256 = λ t. t;
}

abbrev penalty : Penalty ℕ
penalty = record { quarter_of = λ n. n; one = 1; priority_normal = 10 }

written : length (process_job penalty settings world idle job_a).writer.pages ≡ 1
unfolding process_job duvycrawl.UrlFilter.Tables.binary_extensions
    duvycrawl.UrlFilter.Tables.discovery_extensions
    duvycrawl.UrlFilter.Tables.disallowed_path_prefixes
    duvycrawl.UrlFilter.Tables.challenge_path_markers lookup new_batch_writer
written = refl

nothing_written : length idle.writer.pages ≡ 0
unfolding new_batch_writer
nothing_written = refl

process_job-Stored_example : Stored penalty settings world idle job_a
process_job-Stored_example =
    process_job-Stored penalty settings world idle job_a
      (λ e. omega (arith, written, nothing_written, ap (λ w. length w.pages) e))

-- One job waits.
abbrev waiting_one : Crawler
waiting_one = record idle {
  frontier = record idle.frontier { queue = (enqueue idle.frontier.queue job_a).0 };
}

abbrev outcome :
    Option (Queue ℕ (List Text) × DomainLimiter × Option (Job ℕ))
    → Queue ℕ (List Text) × DomainLimiter × Job ℕ
outcome none = (new, new_domain_limiter 2, job_a)
outcome (some (q, l, none)) = (q, l, job_a)
outcome (some (q, l, some job)) = (q, l, job)

abbrev taken : Queue ℕ (List Text) × DomainLimiter × Job ℕ
taken = outcome (
    dequeue (ready world.now) waiting_one.frontier.queue.domains waiting_one.limiter
      waiting_one.frontier.queue)

taken_lem :
    dequeue
      (ready world.now)
      waiting_one.frontier.queue.domains
      waiting_one.limiter
      waiting_one.frontier.queue
    ≡ some (taken.0, taken.1, some taken.2)
unfolding dequeue enqueue new member text_beq dedup_key insert lookup duvycrawl.Shared.Int.rem
    duvycrawl.Shared.Int.◌+ℤ◌ duvycrawl.Shared.Int.to_int duvycrawl.RateLimit.try_wait
    new_domain_limiter
taken_lem = refl

waiting_one-IsWithin : IsWithin 2 waiting_one
unfolding enqueue new member insert lookup
waiting_one-IsWithin = record { queued = ((omega arith, tt), tt); waiting = tt }

abbrev at_rest : Running ℕ (List Text) (List Text)
at_rest = record { engine = waiting_one; taken = []; fetching = []; popped = []; rendering = [] }

at_rest-IsBounded : IsBounded penalty settings at_rest
at_rest-IsBounded = record {
  shared = waiting_one-IsWithin;
  taken = tt;
  fetching = tt;
  popped = tt;
  rendering = tt;
}

-- One worker takes the job, a URL comes from outside, and the worker looks at robots.txt.
abbrev with_job : Running ℕ (List Text) (List Text)
with_job = record at_rest {
  engine = after_dequeue penalty settings waiting_one taken.0 taken.1;
  taken = taken.2 ∷ [];
}

abbrev with_url : Running ℕ (List Text) (List Text)
with_url = record with_job {
  engine = record with_job.engine {
    frontier = (add world.store world.scorer with_job.engine.frontier (codes "/p/12") 0 7).0;
  };
}

abbrev checked : Running ℕ (List Text) (List Text)
checked = record with_url {
  engine = (check_job penalty settings world with_url.engine taken.2).0;
  taken = [];
  fetching = when (check_job penalty settings world with_url.engine taken.2).1 taken.2 [];
}

Reach-IsBounded_example : IsBounded penalty settings checked
Reach-IsBounded_example =
    Reach-IsBounded penalty settings
      (continues
        (continues
          (continues stays (
            takes world.now at_rest waiting_one.frontier.queue.domains taken.1 taken.0 taken.2
              taken_lem))
          (adds world.store world.scorer with_job (codes "/p/12") 0 7))
        (checks world with_url [] [] taken.2 refl))
      at_rest-IsBounded

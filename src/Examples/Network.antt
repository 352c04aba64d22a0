-- ===== src/Examples/Network.antt =====
-- internal/ratelimit, internal/crawler and internal/storage: the theorems at concrete inputs.
use duvycrawl.Shared.{
  ℕ, ◌<◌, ◌≡◌, ◌≢◌, ◌↔◌, refl, Bool, true, false, none, some, List, [], ◌∷◌, arith, ltb,
}
use duvycrawl.Shared.Maps.{lookup, Distinct}
use duvycrawl.Shared.Text.{Text, text_eq, text_beq}
use duvycrawl.RateLimit.{
  new_domain_limiter, get_or_create_domain, cooling, try_wait, mark_throttled_for,
}
use duvycrawl.RateLimit.Laws as limits
use duvycrawl.RateLimit.Cooldown.{cooldown_holds}
use duvycrawl.BatchWriter.{Batch, new_batch_writer}
use duvycrawl.BatchWriter.Laws as writes
use duvycrawl.Proxy.{ProxyClient, healthy, down, is_healthy}
use duvycrawl.Proxy.Laws.{mark_down_times, mark_down_threshold}
use duvycrawl.Robots as robots
use duvycrawl.Robots.Laws.{is_allowed_open}
use duvycrawl.DnsCache.{DnsEntry, Entries, resolve}
use duvycrawl.Render as rendering
use duvycrawl.Examples.Instances.{plain_std}

abbrev host : Text
host = 10 ∷ []

abbrev calls : List (ℕ × limits.Call)
calls = (3, limits.try_waits host) ∷ (4, limits.waits host) ∷ (9, limits.cool_checks host) ∷ []

run-new-IsValid_example : limits.IsValid (limits.run (new_domain_limiter 2) calls)
run-new-IsValid_example = limits.run-new-IsValid 2 calls

cooldown_holds_example :
    (try_wait 20 (limits.run (mark_throttled_for 2 (new_domain_limiter 2) host 30) calls) host).1
    ≡ false
cooldown_holds_example =
    cooldown_holds 2 20 30 (new_domain_limiter 2) host calls
      (omega arith, (omega arith, (omega arith, tt))) (omega arith)

try_wait_iff_example : ((try_wait 5 (new_domain_limiter 1) host).1 ≡ true) ↔ (
    (cooling 5 (get_or_create_domain (new_domain_limiter 1) host) ≡ false)
    × ((get_or_create_domain (new_domain_limiter 1) host).held
        < (new_domain_limiter 1).parallelism_per_domain))
try_wait_iff_example = limits.try_wait_iff 5 (new_domain_limiter 1) host

-- The first flush fails and later ones succeed.
abbrev commits : ℕ → Batch ℕ ℕ ℕ → Bool
commits n b = ltb 1 n

abbrev hand_overs : List (writes.Call ℕ ℕ ℕ)
hand_overs = writes.page 7 ∷ writes.tick ∷ writes.page 8 ∷ writes.tick ∷ writes.page 9 ∷ []

run-new-pages_example :
    writes.all_pages (writes.run commits 0 new_batch_writer hand_overs)
    ≡ writes.submitted_pages hand_overs
run-new-pages_example = writes.run-new-pages commits hand_overs

abbrev proxy : ProxyClient
proxy = record { url = host; is_direct = false; status = healthy; failures = 0 }

abbrev broken : ProxyClient
broken = record { url = host; is_direct = false; status = down; failures = 4 }

mark_down_threshold_example : is_healthy (mark_down_times 3 proxy) ≡ ltb 3 3
mark_down_threshold_example = mark_down_threshold 3 proxy refl refl refl (omega arith)

abbrev page_rules : robots.Parser (List Text)
page_rules = record { find_group = λ r. some (λ url. false) }

abbrev fetched : robots.FetchResult (List Text)
fetched = robots.status 404

not_parsed : (r : List Text) → fetched ≢ robots.parsed r
not_parsed r e = cc

nothing_fresh : robots.fresh {R = List Text} 60 5 (lookup host []) ≡ none
unfolding robots.fresh lookup
nothing_fresh = refl

is_allowed_open_example : (robots.is_allowed page_rules 60 5 fetched [] (1 ∷ []) host).1 ≡ true
is_allowed_open_example =
    is_allowed_open page_rules 60 5 fetched [] (1 ∷ []) host nothing_fresh not_parsed

abbrev fresh_entry : DnsEntry
fresh_entry = record { ips = []; expires = 0 }

abbrev resolved : Entries
resolved = (resolve 60 5 (some (host ∷ [])) [] host fresh_entry).0

abbrev entries : Entries
entries =
    (host, record { ips = host ∷ []; expires = 9 })
    ∷ (12 ∷ [], record { ips = []; expires = 3 })
    ∷ []

entries-Distinct : Distinct entries
unfolding lookup text_beq
entries-Distinct = (refl, (refl, tt))

abbrev config : rendering.RenderingConfig
config = record {
  enabled = true;
  mode = [];
  render_on_status_codes = 403 ∷ [];
  min_text_chars = 3;
  min_links = 1;
}

abbrev answer : rendering.FetchResult
answer = record { status_code = 200; content_type = []; body = 1 ∷ [] }

abbrev page_read : rendering.ParseResult
page_read = record { content = 1 ∷ 2 ∷ 3 ∷ []; anchors = [] }

rendering_on : rendering.rendering_enabled config ≡ true
unfolding rendering.rendering_enabled
rendering_on = refl

left_alone : rendering.should_render_parsed config answer page_read ≡ none
unfolding rendering.should_render_parsed
left_alone = refl

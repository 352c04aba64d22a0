-- ===== src/Fetcher.antt =====
-- internal/crawler/fetcher.go: the retries of `Fetch`, with the backoff of the hosts and the proxies'
-- failures. What `fetchOnce` comes back with, the cancellation, the time and the random number of an
-- attempt are given. Times are in nanoseconds, and 0 is the zero time.
pub mod Laws
use duvycrawl.Shared.{
  ℕ, zero, suc, ◌==◌, ◌+◌, ◌-◌, ◌*◌, ◌^◌, min, Bool, ◌&&◌, ◌||◌, Option, none, some, List, [], ◌∷◌,
  if◌then◌else◌, ltb,
}
use duvycrawl.Shared.Maps.{lookup, insert}
use duvycrawl.Shared.Text.{Text, text_eq}
use duvycrawl.Proxy.{ProxyClient, is_healthy, mark_down, reset_failures}
use duvycrawl.Engine.Page.{Fetched}
use duvycrawl.Engine.State.{FetchAnswer, unsupported, failed, fetched}

-- `hostBackoffEntry`.
pub record HostBackoff : Type 0 where
  pub consecutive4xx : ℕ
  pub next_allowed : ℕ

-- The fetcher's `hostBackoff`, and the list of its proxy manager.
pub record Fetcher : Type 0 where
  pub host_backoff : List (Text × HostBackoff)
  pub proxies : List ProxyClient

abbrev pub or_new_backoff : Option HostBackoff → HostBackoff
or_new_backoff none = record { consecutive4xx = 0; next_allowed = 0 }
or_new_backoff (some entry) = entry

-- `getHostBackoff` adds the entry of a host that has none.
unfoldable pub get_host_backoff : Text → Fetcher → Fetcher
get_host_backoff host f = record f {
  host_backoff = insert host (or_new_backoff (lookup host f.host_backoff)) f.host_backoff;
}

unfoldable pub record_success : Text → Fetcher → Fetcher
record_success host f = elim (lookup host f.host_backoff) [
  | none ↦ f
  | some entry ↦ record f {
    host_backoff = insert host (record entry { consecutive4xx = 0 }) f.host_backoff;
  }
]

-- The delay after so many throttled answers; `random` is `rand.Int63n` of a second.
unfoldable pub throttle_delay : ℕ → ℕ → ℕ
throttle_delay count random =
    let delay = 2000000000 * 2 ^ min count 5 + random - 500000000 in
    if ltb 60000000000 delay then 60000000000 else delay

unfoldable pub record_throttle : ℕ → ℕ → Text → Fetcher → Fetcher
unfolding throttle_delay
record_throttle now random host f =
    let count = (or_new_backoff (lookup host f.host_backoff)).consecutive4xx + 1 in
    record f {
      host_backoff =
          insert host
            (record { consecutive4xx = count; next_allowed = now + throttle_delay count random })
            f.host_backoff;
    }

-- A change of the client that `GetClient` gave: the first healthy one, or the first of all.
unfoldable pub on_healthy :
    (ProxyClient → ProxyClient) → List ProxyClient → Option (List ProxyClient)
unfolding is_healthy
on_healthy g [] = none
on_healthy g (p ∷ ps) =
    let rest = on_healthy g ps in
    if is_healthy p then some (g p ∷ ps) else elim rest [ none ↦ none | some qs ↦ some (p ∷ qs) ]

unfoldable pub on_client : (ProxyClient → ProxyClient) → Fetcher → Fetcher
unfolding on_healthy
on_client g f = elim (on_healthy g f.proxies) [
  | some ps ↦ record f { proxies = ps }
  | none ↦ record f { proxies = elim f.proxies [ [] ↦ [] | p ∷ ps ↦ g p ∷ ps ] }
]

-- What `fetchOnce` came back with: an unsupported type, a timeout, a cancellation or a drop by the
-- target, another error of the network, or a response.
pub data Once : Type 0 where
  refused_type dropped broken : Once
  response : Fetched → Once

pub record Attempt : Type 0 where
  pub cancelled : Bool
  pub now : ℕ
  pub random : ℕ
  pub once : Once

abbrev pub is_throttled : ℕ → Bool
is_throttled code = code == 429 || code == 503

-- The body of the loop from `GetClient` on; none is another round.
unfoldable pub try_once : Bool → Text → Attempt → Once → Fetcher → Fetcher × Option FetchAnswer
unfolding record_success record_throttle on_client reset_failures mark_down
try_once last host a refused_type f =
    (record_success host (on_client reset_failures f), some unsupported)
try_once last host a dropped f = (f, none)
try_once last host a broken f = (on_client mark_down f, none)
try_once last host a (response r) f =
    if is_throttled r.status_code
    then (if last
        then (on_client reset_failures f, some (fetched r))
        else (record_throttle a.now a.random host f, none))
    else (record_success host (on_client reset_failures f), some (fetched r))

-- The loop, for the number of rounds that are left and that of the attempt.
unfoldable pub fetch_loop : ℕ → ℕ → Text → (ℕ → Attempt) → Fetcher → Fetcher × FetchAnswer
unfolding get_host_backoff try_once
fetch_loop zero attempt host met f = (f, failed)
fetch_loop (suc left) attempt host met f =
    let f' = if ltb 0 attempt then get_host_backoff host f else f in
    let tried = try_once (left == 0) host (met attempt) (met attempt).once f' in
    let rest = fetch_loop left (attempt + 1) host met tried.0 in
    if ltb 0 attempt && (met attempt).cancelled
    then (f', failed)
    else elim tried.1 [ none ↦ rest | some answer ↦ (tried.0, answer) ]

-- `Fetch` for a URL with this host.
unfoldable pub fetch_url : ℕ → Text → (ℕ → Attempt) → Fetcher → Fetcher × FetchAnswer
unfolding fetch_loop
fetch_url max_retries host met f = fetch_loop (max_retries + 1) 0 host met f

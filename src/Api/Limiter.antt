-- ===== src/Api/Limiter.antt =====
-- internal/api/middleware.go: the limit on requests of one address, and the address of a request.
-- Times are instants on a scale of ℕ, as `time.Now()` gives them to each call.
pub mod Laws
use duvycrawl.Shared.{
  ℕ, ◌+◌, ◌-◌, Bool, true, false, not, ◌||◌, Option, none, some, List, [], ◌∷◌, if◌then◌else◌, ltb,
  ◌==◌,
}
use duvycrawl.Shared.Maps.{lookup, insert}
use duvycrawl.Shared.Text.{Text, text_eq}

pub record Bucket : Type 0 where
  pub tokens : ℕ
  pub reset : ℕ

pub record RateLimiter : Type 0 where
  pub buckets : List (Text × Bucket)
  pub limit : ℕ
  pub window : ℕ

unfoldable pub new_rate_limiter : ℕ → ℕ → RateLimiter
new_rate_limiter limit window = record { buckets = []; limit = limit; window = window }

-- A first request, or one after the end of the window. For the limit 0 the code keeps -1 tokens,
-- and this model 0: neither is more than 0.
abbrev pub fresh_bucket : Text → ℕ → RateLimiter → RateLimiter × Bool
fresh_bucket ip now rl = (
  record rl {
    buckets = insert ip (record { tokens = rl.limit - 1; reset = now + rl.window }) rl.buckets;
  },
  true,
)

unfoldable pub allow_with : Option Bucket → Text → ℕ → RateLimiter → RateLimiter × Bool
allow_with none ip now rl = fresh_bucket ip now rl
allow_with (some b) ip now rl =
    if ltb b.reset now
    then fresh_bucket ip now rl
    else if ltb 0 b.tokens
    then (record rl { buckets = insert ip (record b { tokens = b.tokens - 1 }) rl.buckets }, true)
    else (rl, false)

unfoldable pub allow : Text → ℕ → RateLimiter → RateLimiter × Bool
unfolding allow_with
allow ip now rl = allow_with (lookup ip rl.buckets) ip now rl

unfoldable pub drop_old : ℕ → List (Text × Bucket) → List (Text × Bucket)
drop_old now [] = []
drop_old now ((ip, b) ∷ bs) = if ltb b.reset now then drop_old now bs else (ip, b) ∷ drop_old now bs

unfoldable pub cleanup : ℕ → RateLimiter → RateLimiter
unfolding drop_old
cleanup now rl = record rl { buckets = drop_old now rl.buckets }

-- What the handlers and the ticker do: a request of an address, or a cleanup, at an instant.
pub data Event : Type 0 where
  request : Text → ℕ → Event
  sweep : ℕ → Event

-- The numbers of the requests of `ip` that are let through.
unfoldable pub allowed_of : Text → List Event → RateLimiter → ℕ
unfolding allow cleanup
allowed_of ip [] rl = 0
allowed_of ip (sweep now ∷ es) rl = allowed_of ip es (cleanup now rl)
allowed_of ip (request other now ∷ es) rl =
    let (next, ok) = allow other now rl in
    let rest = allowed_of ip es next in
    if text_eq.beq other ip then if ok then rest + 1 else rest else rest

-- `clientIP`: the headers, the remote address, and `net.SplitHostPort`, none for its error.
unfoldable pub before_comma : Text → Text
before_comma [] = []
before_comma (c ∷ s) = if c == 44 then [] else c ∷ before_comma s

abbrev pub or_text : Text → Text → Text
or_text [] other = other
or_text (c ∷ s) other = c ∷ s

unfoldable pub client_ip : (Text → Text) → (Text → Option Text) → Text → Text → Text → Text
unfolding before_comma
client_ip trim_space split_host forwarded real_ip remote =
    or_text (elim forwarded [ [] ↦ [] | c ∷ s ↦ trim_space (before_comma (c ∷ s)) ])
      (elim real_ip [
        | [] ↦ elim (split_host remote) [ none ↦ remote | some host ↦ host ]
        | c ∷ s ↦ trim_space (c ∷ s)
      ])

-- ===== src/RateLimit.antt =====
-- internal/ratelimit/ratelimit.go: slots for each domain, and the cooldown after a 429. A channel
-- of capacity n is the number of its filled places; times are numbers and an argument of each
-- call; the goroutine that gives a slot back after the delay is the step `release`.
pub mod Laws
pub mod Cooldown
use duvycrawl.Shared.{
  ℕ, ◌+◌, ◌-◌, ◌≤◌, ◌<◌, ◌≡◌, Bool, true, false, ◌&&◌, Option, none, some, List, [], ◌∷◌,
  if◌then◌else◌, ltb,
}
use duvycrawl.Shared.Maps.{lookup, insert}
use duvycrawl.Shared.Text.{Text, text_eq}

-- `domainState`; the zero time is none.
pub record DomainState : Type 0 where
  pub held : ℕ
  pub throttled_until : Option ℕ

-- `DomainLimiter`; the delays only decide when the releases come.
pub record DomainLimiter : Type 0 where
  pub domains : List (Text × DomainState)
  pub parallelism_per_domain : ℕ

-- `NewDomainLimiter` and its `max`.
unfoldable pub max_int : ℕ → ℕ → ℕ
max_int a b = if ltb b a then a else b

unfoldable pub new_domain_limiter : ℕ → DomainLimiter
unfolding max_int
new_domain_limiter parallelism = record {
  domains = [];
  parallelism_per_domain = max_int parallelism 1;
}

-- `getOrCreateDomain`.
unfoldable pub or_fresh : Option DomainState → DomainState
or_fresh none = record { held = 0; throttled_until = none }
or_fresh (some ds) = ds

unfoldable pub get_or_create_domain : DomainLimiter → Text → DomainState
unfolding or_fresh
get_or_create_domain dl domain = or_fresh (lookup domain dl.domains)

unfoldable pub put : DomainLimiter → Text → DomainState → DomainLimiter
put dl domain ds = record dl { domains = insert domain ds dl.domains }

-- `!IsZero() && now.Before(throttledUntil)`.
unfoldable pub cooling : ℕ → DomainState → Bool
cooling now ds = elim ds.throttled_until [ none ↦ false | some t ↦ ltb now t ]

-- `TryWait`.
unfoldable pub try_wait : ℕ → DomainLimiter → Text → DomainLimiter × Bool
unfolding get_or_create_domain put cooling
try_wait now dl domain =
    let ds = get_or_create_domain dl domain in
    if cooling now ds
    then (put dl domain ds, false)
    else (if ltb ds.held dl.parallelism_per_domain
        then (put dl domain (record { held = ds.held + 1; throttled_until = none }), true)
        else (put dl domain (record ds { throttled_until = none }), false))

-- `Wait` when it gets past the channel; it blocks while every slot is held.
unfoldable pub wait : DomainLimiter → Text → Option DomainLimiter
unfolding get_or_create_domain put
wait dl domain =
    let ds = get_or_create_domain dl domain in
    if ltb ds.held dl.parallelism_per_domain
    then some (put dl domain (record ds { held = ds.held + 1 }))
    else none

-- The receive from the channel at the end of the delay.
unfoldable pub release : DomainLimiter → Text → DomainLimiter
unfolding get_or_create_domain put
release dl domain =
    let ds = get_or_create_domain dl domain in put dl domain (record ds { held = ds.held - 1 })

-- `MarkThrottledFor`, and `MarkThrottled` with its 30 seconds, here in seconds.
unfoldable pub mark_throttled_for : ℕ → DomainLimiter → Text → ℕ → DomainLimiter
unfolding get_or_create_domain put
mark_throttled_for now dl domain cooldown =
    put dl domain
      (record (get_or_create_domain dl domain) { throttled_until = some (now + cooldown) })

unfoldable pub mark_throttled : ℕ → DomainLimiter → Text → DomainLimiter
unfolding mark_throttled_for
mark_throttled now dl domain = mark_throttled_for now dl domain 30

-- `IsCoolingDown`.
unfoldable pub is_cooling_down : ℕ → DomainLimiter → Text → DomainLimiter × Bool
unfolding get_or_create_domain put cooling
is_cooling_down now dl domain =
    let ds = get_or_create_domain dl domain in
    if cooling now ds
    then (put dl domain ds, true)
    else (put dl domain (record ds { throttled_until = none }), false)

-- ===== src/RateLimit/Laws.antt =====
-- internal/ratelimit/ratelimit.go: the calls as steps, and the bound on the slots.
use duvycrawl.Shared.{
  ℕ, ◌≤◌, ◌<◌, ◌≡◌, true, false, Option, none, some, List, [], ◌∷◌, ltb, inl, inr, arith,
  Bool-cases, Option-cases, ◌↔◌,
}
use duvycrawl.Shared.Maps.{lookup, Entries, Entries-insert, Entries-lookup}
use duvycrawl.Shared.Text.{Text, text_eq}
use duvycrawl.RateLimit.{
  DomainState, DomainLimiter, new_domain_limiter, or_fresh, get_or_create_domain, put, cooling,
  try_wait, wait, release, mark_throttled_for, is_cooling_down,
}

-- One call, or the end of one delay. `blocks` until there is a slot is not a step.
pub data Call : Type 0 where
  try_waits waits releases cool_checks : Text → Call
  throttles : Text → ℕ → Call

unfoldable pub or_same : DomainLimiter → Option DomainLimiter → DomainLimiter
or_same dl none = dl
or_same dl (some dl') = dl'

unfoldable pub step : DomainLimiter → ℕ × Call → DomainLimiter
unfolding try_wait wait release mark_throttled_for is_cooling_down or_same
step dl (now, try_waits d) = (try_wait now dl d).0
step dl (now, waits d) = or_same dl (wait dl d)
step dl (now, releases d) = release dl d
step dl (now, cool_checks d) = (is_cooling_down now dl d).0
step dl (now, throttles d c) = mark_throttled_for now dl d c

unfoldable pub run : DomainLimiter → List (ℕ × Call) → DomainLimiter
unfolding step
run dl [] = dl
run dl (c ∷ cs) = run (step dl c) cs

-- No domain holds more slots than the limit.
abbrev pub WithinLimit : ℕ → List (Text × DomainState) → Type 0
WithinLimit n = Entries (λ (d : Text) (ds : DomainState). ds.held ≤ n)

pub record IsValid (dl : DomainLimiter) : Type 0 where
  pub some_slot : 1 ≤ dl.parallelism_per_domain
  pub within : WithinLimit dl.parallelism_per_domain dl.domains

held-get_or_create :
    (dl : DomainLimiter) (d : Text)
    → IsValid dl
    → (get_or_create_domain dl d).held ≤ dl.parallelism_per_domain
unfolding get_or_create_domain or_fresh
held-get_or_create dl d v = elim (Option-cases (lookup d dl.domains)) [
  | inl e ↦ rw e (omega arith)
  | inr (ds, e) ↦
      rw e (Entries-lookup (λ d ds. ds.held ≤ dl.parallelism_per_domain) d ds dl.domains v.within e)
]

put-IsValid :
    (dl : DomainLimiter) (d : Text) (ds : DomainState)
    → IsValid dl
    → ds.held ≤ dl.parallelism_per_domain
    → IsValid (put dl d ds)
unfolding put
put-IsValid dl d ds v h = record {
  some_slot = v.some_slot;
  within = Entries-insert (λ d ds. ds.held ≤ dl.parallelism_per_domain) d ds dl.domains h v.within;
}

try_wait-IsValid :
    (now : ℕ) (dl : DomainLimiter) (d : Text) → IsValid dl → IsValid (try_wait now dl d).0
unfolding try_wait
try_wait-IsValid now dl d v =
    let h = held-get_or_create dl d v in
    elim (Bool-cases (cooling now (get_or_create_domain dl d))) [
      | inl e ↦ rw e (put-IsValid dl d _ v h)
      | inr e ↦ elim (Bool-cases (ltb (get_or_create_domain dl d).held dl.parallelism_per_domain)) [
        | inl f ↦ rw (e, f) (put-IsValid dl d _ v (ground arith))
        | inr f ↦ rw (e, f) (put-IsValid dl d _ v h)
      ]
    ]

is_cooling_down-IsValid :
    (now : ℕ) (dl : DomainLimiter) (d : Text) → IsValid dl → IsValid (is_cooling_down now dl d).0
unfolding is_cooling_down
is_cooling_down-IsValid now dl d v =
    let h = held-get_or_create dl d v in
    elim (Bool-cases (cooling now (get_or_create_domain dl d))) [
      | inl e ↦ rw e (put-IsValid dl d _ v h)
      | inr e ↦ rw e (put-IsValid dl d _ v h)
    ]

wait-IsValid : (dl : DomainLimiter) (d : Text) → IsValid dl → IsValid (or_same dl (wait dl d))
unfolding wait
wait-IsValid dl d v =
    elim (Bool-cases (ltb (get_or_create_domain dl d).held dl.parallelism_per_domain)) [
      | inl f ↦ rw f (unfold or_same in put-IsValid dl d _ v (ground arith))
      | inr f ↦ rw f (unfold or_same in v)
    ]

step-IsValid : (dl : DomainLimiter) (c : ℕ × Call) → IsValid dl → IsValid (step dl c)
unfolding step release mark_throttled_for
step-IsValid dl (now, try_waits d) v = try_wait-IsValid now dl d v
step-IsValid dl (now, waits d) v = wait-IsValid dl d v
step-IsValid dl (now, releases d) v =
    put-IsValid dl d _ v (omega (arith, held-get_or_create dl d v))
step-IsValid dl (now, cool_checks d) v = is_cooling_down-IsValid now dl d v
step-IsValid dl (now, throttles d c) v = put-IsValid dl d _ v (held-get_or_create dl d v)

run-IsValid : (dl : DomainLimiter) (cs : List (ℕ × Call)) → IsValid dl → IsValid (run dl cs)
unfolding run
run-IsValid dl [] v = v
run-IsValid dl (c ∷ cs) v = run-IsValid (step dl c) cs (step-IsValid dl c v)

-- After any calls, no domain holds more slots than the limit, which is at least one.
pub run-new-IsValid :
    (parallelism : ℕ) (cs : List (ℕ × Call)) → IsValid (run (new_domain_limiter parallelism) cs)
run-new-IsValid parallelism cs = run-IsValid _ cs (fresh parallelism)
  where
    fresh : (n : ℕ) → IsValid (new_domain_limiter n)
    fresh n = unfold new_domain_limiter in record { some_slot = ground arith; within = tt }

-- TryWait reserves exactly when the cooldown is over and a slot is free.
pub try_wait_iff :
    (now : ℕ) (dl : DomainLimiter) (d : Text)
    → ((try_wait now dl d).1 ≡ true) ↔ (
        (cooling now (get_or_create_domain dl d) ≡ false)
        × ((get_or_create_domain dl d).held < dl.parallelism_per_domain))
unfolding try_wait
try_wait_iff now dl d = ground arith

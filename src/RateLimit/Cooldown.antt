-- ===== src/RateLimit/Cooldown.antt =====
-- internal/ratelimit/ratelimit.go: the cooldown of a throttled domain.
use mathlib.Core.Bool.{false≢true}
use duvycrawl.Shared.{
  ℕ, ◌+◌, ◌<◌, ◌≡◌, refl, ap, ◌∙◌, sym, Bool, true, false, Option, some, List, [], ◌∷◌,
  if◌then◌else◌, ltb, inl, inr, arith, Bool-cases,
}
use duvycrawl.Shared.Maps.{lookup, lookup-insert}
use duvycrawl.Shared.Text.{Text, text_eq, text_beq, text_beq_iff}
use duvycrawl.RateLimit.{
  DomainState, DomainLimiter, or_fresh, get_or_create_domain, put, cooling, try_wait, wait, release,
  mark_throttled_for, is_cooling_down,
}
use duvycrawl.RateLimit.Laws.{
  Call, try_waits, waits, releases, cool_checks, throttles, or_same, step, run,
}

-- A call before the time `t` that does not throttle `d` anew.
abbrev pub Early : Text → ℕ → ℕ × Call → Type 0
Early d t (now, throttles c k) = text_beq c d ≡ false
Early d t (now, call) = now < t

abbrev pub AllEarly : Text → ℕ → List (ℕ × Call) → Type 0
AllEarly d t [] = Unit
AllEarly d t (c ∷ cs) = Early d t c × AllEarly d t cs

or_fresh_if :
    (b : Bool) (ds : DomainState) (r : Option DomainState)
    → or_fresh (if b then some ds else r) ≡ (if b then ds else or_fresh r)
unfolding or_fresh
or_fresh_if true ds r = refl
or_fresh_if false ds r = refl

get_or_create-put :
    (dl : DomainLimiter) (c d : Text) (ds : DomainState)
    → get_or_create_domain (put dl c ds) d
      ≡ (if text_beq c d then ds else get_or_create_domain dl d)
unfolding put get_or_create_domain
get_or_create-put dl c d ds =
    ap or_fresh (lookup-insert c d ds dl.domains)
    ∙ or_fresh_if (text_beq c d) ds (lookup d dl.domains)

-- The domain is throttled until `t`.
abbrev pub Throttled : Text → ℕ → DomainLimiter → Type 0
Throttled d t dl = (get_or_create_domain dl d).throttled_until ≡ some t

put-Throttled :
    (dl : DomainLimiter) (c d : Text) (t : ℕ) (ds : DomainState)
    → (c ≡ d → ds.throttled_until ≡ some t)
    → Throttled d t dl
    → Throttled d t (put dl c ds)
put-Throttled dl c d t ds h k = elim (Bool-cases (text_beq c d)) [
  | inl e ↦ rw (get_or_create-put dl c d ds, e) (h ((text_beq_iff c d).0 e))
  | inr e ↦ rw (get_or_create-put dl c d ds, e) k
]

-- The end of a cooldown is forgotten only for a domain that is not cooling.
cooling_of_Throttled :
    (dl : DomainLimiter) (c d : Text) (t now : ℕ)
    → Throttled d t dl
    → now < t
    → c ≡ d
    → cooling now (get_or_create_domain dl c) ≡ true
unfolding cooling
cooling_of_Throttled dl c d t now k h e = rw (e, k) (ground arith)

same_until :
    (dl : DomainLimiter) (c d : Text) (t : ℕ)
    → Throttled d t dl
    → c ≡ d
    → (get_or_create_domain dl c).throttled_until ≡ some t
same_until dl c d t k e = rw e k

try_wait-Throttled :
    (now : ℕ) (dl : DomainLimiter) (c d : Text) (t : ℕ)
    → now < t
    → Throttled d t dl
    → Throttled d t (try_wait now dl c).0
unfolding try_wait
try_wait-Throttled now dl c d t h k = elim (Bool-cases (cooling now (get_or_create_domain dl c))) [
  | inl e ↦ rw e (put-Throttled dl c d t _ (same_until dl c d t k) k)
  | inr e ↦
      let other = λ (x : c ≡ d). false≢true (sym e ∙ cooling_of_Throttled dl c d t now k h x) in
      elim (Bool-cases (ltb (get_or_create_domain dl c).held dl.parallelism_per_domain)) [
        | inl f ↦ rw (e, f) (put-Throttled dl c d t _ (λ x. absurd (other x)) k)
        | inr f ↦ rw (e, f) (put-Throttled dl c d t _ (λ x. absurd (other x)) k)
      ]
]

is_cooling_down-Throttled :
    (now : ℕ) (dl : DomainLimiter) (c d : Text) (t : ℕ)
    → now < t
    → Throttled d t dl
    → Throttled d t (is_cooling_down now dl c).0
unfolding is_cooling_down
is_cooling_down-Throttled now dl c d t h k =
    elim (Bool-cases (cooling now (get_or_create_domain dl c))) [
      | inl e ↦ rw e (put-Throttled dl c d t _ (same_until dl c d t k) k)
      | inr e ↦
          let other = λ (x : c ≡ d). false≢true (sym e ∙ cooling_of_Throttled dl c d t now k h x) in
          rw e (put-Throttled dl c d t _ (λ x. absurd (other x)) k)
    ]

wait-Throttled :
    (dl : DomainLimiter) (c d : Text) (t : ℕ)
    → Throttled d t dl
    → Throttled d t (or_same dl (wait dl c))
unfolding wait
wait-Throttled dl c d t k =
    elim (Bool-cases (ltb (get_or_create_domain dl c).held dl.parallelism_per_domain)) [
      | inl f ↦ rw f (unfold or_same in put-Throttled dl c d t _ (same_until dl c d t k) k)
      | inr f ↦ rw f (unfold or_same in k)
    ]

step-Throttled :
    (dl : DomainLimiter) (d : Text) (t : ℕ) (c : ℕ × Call)
    → Early d t c
    → Throttled d t dl
    → Throttled d t (step dl c)
unfolding step release mark_throttled_for
step-Throttled dl d t (now, try_waits c) h k = try_wait-Throttled now dl c d t h k
step-Throttled dl d t (now, waits c) h k = wait-Throttled dl c d t k
step-Throttled dl d t (now, releases c) h k = put-Throttled dl c d t _ (same_until dl c d t k) k
step-Throttled dl d t (now, cool_checks c) h k = is_cooling_down-Throttled now dl c d t h k
step-Throttled dl d t (now, throttles c n) h k =
    put-Throttled dl c d t _ (λ e. absurd (false≢true (sym h ∙ (text_beq_iff c d).1 e))) k

run-Throttled :
    (dl : DomainLimiter) (d : Text) (t : ℕ) (cs : List (ℕ × Call))
    → AllEarly d t cs
    → Throttled d t dl
    → Throttled d t (run dl cs)
unfolding run
run-Throttled dl d t [] h k = k
run-Throttled dl d t (c ∷ cs) h k =
    run-Throttled (step dl c) d t cs h.1 (step-Throttled dl d t c h.0 k)

mark-Throttled :
    (now : ℕ) (dl : DomainLimiter) (d : Text) (cooldown : ℕ)
    → Throttled d (now + cooldown) (mark_throttled_for now dl d cooldown)
unfolding mark_throttled_for
mark-Throttled now dl d cooldown =
    rw
      (
        get_or_create-put dl d d
            (record (get_or_create_domain dl d) { throttled_until = some (now + cooldown) }),
        (text_beq_iff d d).1 refl,
      )
      refl

-- After a domain is throttled, TryWait refuses it at every time before the cooldown is over,
-- whatever calls at such times come in between, unless one throttles it anew.
pub cooldown_holds :
    (now later cooldown : ℕ) (dl : DomainLimiter) (d : Text) (cs : List (ℕ × Call))
    → AllEarly d (now + cooldown) cs
    → later < now + cooldown
    → (try_wait later (run (mark_throttled_for now dl d cooldown) cs) d).1 ≡ false
unfolding try_wait
cooldown_holds now later cooldown dl d cs h k =
    let end =
      run-Throttled (mark_throttled_for now dl d cooldown) d (now + cooldown) cs h
        (mark-Throttled now dl d cooldown) in
    rw
      (cooling_of_Throttled (run (mark_throttled_for now dl d cooldown) cs) d d (now + cooldown)
        later end k refl)
      refl

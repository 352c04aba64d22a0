-- ===== src/Fetcher/Laws.antt =====
-- internal/crawler/fetcher.go: which attempt `Fetch` answers with.
use duvycrawl.Shared.{
  ℕ, zero, suc, ◌==◌, ◌+◌, ◌≤◌, ◌<◌, ◌≡◌, refl, sym, subst, Bool, false, Option, none, some, ltb,
  if◌then◌else◌, arith, inl, inr, Bool-cases, ◌&&◌,
}
use duvycrawl.Shared.Text.{Text}
use duvycrawl.Engine.State.{FetchAnswer, unsupported, fetched}
use duvycrawl.Fetcher.{
  Fetcher, Once, refused_type, dropped, broken, response, Attempt, is_throttled, get_host_backoff,
  try_once, fetch_loop, fetch_url,
}

-- What an attempt settles: a response that is not throttled, or a type that is not supported.
unfoldable pub settles : Once → Option FetchAnswer
settles refused_type = some unsupported
settles dropped = none
settles broken = none
settles (response r) = if is_throttled r.status_code then none else some (fetched r)

no_answer : (answer : FetchAnswer) → ¬ (none ≡ some answer)
no_answer answer e = ground (arith, e)

try_once-settles :
    (last : Bool) (host : Text) (a : Attempt) (o : Once) (f : Fetcher) (answer : FetchAnswer)
    → settles o ≡ some answer
    → (try_once last host a o f).1 ≡ some answer
unfolding settles try_once
try_once-settles last host a refused_type f answer h = h
try_once-settles last host a dropped f answer h = ground (arith, h)
try_once-settles last host a broken f answer h = ground (arith, h)
try_once-settles last host a (response r) f answer h =
    elim (Bool-cases (is_throttled r.status_code)) [
      | inl t ↦ absurd (no_answer answer (rw t at h))
      | inr n ↦ rw n (rw n at h)
    ]

try_once-open :
    (last : Bool) (host : Text) (a : Attempt) (o : Once) (f : Fetcher)
    → last ≡ false
    → settles o ≡ none
    → (try_once last host a o f).1 ≡ none
unfolding settles try_once
try_once-open last host a refused_type f l h = ground (arith, h)
try_once-open last host a dropped f l h = refl
try_once-open last host a broken f l h = refl
try_once-open last host a (response r) f l h = elim (Bool-cases (is_throttled r.status_code)) [
  | inl t ↦ rw (t, l) refl
  | inr n ↦ absurd (no_answer (fetched r) (sym (rw n at h)))
]

-- The waits before the attempt are not cancelled.
abbrev pub Goes : (ℕ → Attempt) → ℕ → Type 0
Goes met i = (met i).cancelled ≡ false

goes_now : (a b : Bool) → b ≡ false → (a && b) ≡ false
goes_now a b h = ground arith

not_last : (left : ℕ) → 1 ≤ left → (left == 0) ≡ false
not_last left h = ground arith

at_zero : (P : ℕ → Type 0) (n : ℕ) → P (n + 0) → P n
at_zero P n h = subst P (omega arith) h

at_next : (P : ℕ → Type 0) (n i : ℕ) → P (n + suc i) → P (n + 1 + i)
at_next P n i h = subst P (omega arith) h

at_start : (P : ℕ → Type 0) (n : ℕ) → P n → P (0 + n)
at_start P n h = subst P (omega arith) h

fetch_loop-settles :
    (left attempt d : ℕ) (host : Text) (met : ℕ → Attempt) (f : Fetcher) (answer : FetchAnswer)
    → d < left
    → ((i : ℕ) → i < d → settles (met (attempt + i)).once ≡ none)
    → ((i : ℕ) → i ≤ d → Goes met (attempt + i))
    → settles (met (attempt + d)).once ≡ some answer
    → (fetch_loop left attempt host met f).1 ≡ answer
unfolding fetch_loop
fetch_loop-settles zero attempt d host met f answer less pending goes h =
    absurd (omega (arith, less))
fetch_loop-settles (suc left) attempt zero host met f answer less pending goes h =
    rw (goes_now _ _ (at_zero (λ i. (met i).cancelled ≡ false) attempt (goes 0 (omega arith)))) (
      rw
        (try_once-settles (left == 0) host (met attempt) (met attempt).once
          (if ltb 0 attempt then get_host_backoff host f else f) answer
          (at_zero (λ i. settles (met i).once ≡ some answer) attempt h))
        refl)
fetch_loop-settles (suc left) attempt (suc d) host met f answer less pending goes h =
    rw (goes_now _ _ (at_zero (λ i. (met i).cancelled ≡ false) attempt (goes 0 (omega arith)))) (
      rw
        (try_once-open (left == 0) host (met attempt) (met attempt).once
          (if ltb 0 attempt then get_host_backoff host f else f)
          (not_last left (omega (arith, less)))
          (at_zero (λ i. settles (met i).once ≡ none) attempt (pending 0 (omega arith))))
        (fetch_loop-settles left (attempt + 1) d host met _ answer (omega (arith, less))
          (λ i l.
            at_next (λ i. settles (met i).once ≡ none) attempt i
              (pending (suc i) (omega (arith, l))))
          (λ i l.
            at_next (λ i. (met i).cancelled ≡ false) attempt i (goes (suc i) (omega (arith, l))))
          (at_next (λ i. settles (met i).once ≡ some answer) attempt d h)))

-- Fetch answers with the first attempt that settles it, a response of a status other than 429 and
-- 503 or a type that is not supported, if that is among the max_retries + 1 attempts and no wait
-- up to it is cancelled.
pub fetch_url-settles :
    (max_retries k : ℕ) (host : Text) (met : ℕ → Attempt) (f : Fetcher) (answer : FetchAnswer)
    → k ≤ max_retries
    → ((i : ℕ) → i < k → settles (met i).once ≡ none)
    → ((i : ℕ) → i ≤ k → Goes met i)
    → settles (met k).once ≡ some answer
    → (fetch_url max_retries host met f).1 ≡ answer
unfolding fetch_url
fetch_url-settles max_retries k host met f answer few pending goes h =
    fetch_loop-settles (max_retries + 1) 0 k host met f answer (omega (arith, few))
      (λ i l. at_start (λ j. settles (met j).once ≡ none) i (pending i l))
      (λ i l. at_start (λ j. (met j).cancelled ≡ false) i (goes i l))
      (at_start (λ j. settles (met j).once ≡ some answer) k h)

-- ===== src/Api/Limiter/Laws.antt =====
-- internal/api/middleware.go: how many requests of an address pass within one window.
use duvycrawl.Shared.{
  ℕ, ◌+◌, ◌-◌, ◌≤◌, ◌<◌, min, ◌≡◌, refl, sym, ap, ◌∙◌, subst, Bool, true, false, Option, none, some,
  List, [], ◌∷◌, if◌then◌else◌, ltb, arith, inl, inr, ◌⊎◌, Bool-cases,
}
use duvycrawl.Shared.Maps.{lookup, insert, lookup-insert}
use duvycrawl.Shared.Text.{Text, text_eq}
use duvycrawl.Api.Limiter.{
  Bucket, RateLimiter, fresh_bucket, allow_with, allow, drop_old, cleanup, Event, request, sweep,
  allowed_of,
}

unfoldable pub requests_of : Text → List Event → ℕ
requests_of ip [] = 0
requests_of ip (sweep now ∷ es) = requests_of ip es
requests_of ip (request other now ∷ es) =
    let rest = requests_of ip es in if text_eq.beq other ip then rest + 1 else rest

-- No event is later than the instant.
abbrev pub Until : ℕ → List Event → Type 0
Until t [] = Unit
Until t (sweep now ∷ es) = (now ≤ t) × Until t es
Until t (request ip now ∷ es) = (now ≤ t) × Until t es

some_inj : {A : Type 0} {a b : A} → some a ≡ some b → a ≡ b
some_inj {a = a} e = ap (λ o. elim o [ none ↦ a | some x ↦ x ]) e

ltb_of_lt : (a b : ℕ) → a < b → ltb a b ≡ true
ltb_of_lt a b h = ground arith

not_ltb_of_le : (a b : ℕ) → b ≤ a → ltb a b ≡ false
not_ltb_of_le a b h = ground arith

drop_old-keeps :
    (now : ℕ) (ip : Text) (b : Bucket) (bs : List (Text × Bucket))
    → now ≤ b.reset
    → lookup ip bs ≡ some b
    → lookup ip (drop_old now bs) ≡ some b
unfolding drop_old lookup
drop_old-keeps now ip b [] h e = e
drop_old-keeps now ip b ((k, c) ∷ bs) h e = elim (Bool-cases (text_eq.beq k ip)) [
  | inl same ↦
      let it : c ≡ b =
        some_inj (subst (λ t. (if t then some c else lookup ip bs) ≡ some b) same e) in
      rw it (rw (not_ltb_of_le b.reset now h) (rw same refl))
  | inr other ↦
      let it = subst (λ t. (if t then some c else lookup ip bs) ≡ some b) other e in
      elim (Bool-cases (ltb c.reset now)) [
        | inl old ↦ rw old (drop_old-keeps now ip b bs h it)
        | inr new ↦ rw new (rw other (drop_old-keeps now ip b bs h it))
      ]
]

if-buckets :
    (t : Bool) (bs : List (Text × Bucket)) (ip : Text) (x y : RateLimiter × Bool)
    → lookup ip x.0.buckets ≡ lookup ip bs
    → lookup ip y.0.buckets ≡ lookup ip bs
    → lookup ip (if t then x else y).0.buckets ≡ lookup ip bs
if-buckets true bs ip x y h k = h
if-buckets false bs ip x y h k = k

insert-here :
    (other ip : Text) (b : Bucket) (bs : List (Text × Bucket))
    → text_eq.beq other ip ≡ true
    → lookup ip (insert other b bs) ≡ some b
insert-here other ip b bs h = rw (lookup-insert other ip b bs) (rw h refl)

insert-other :
    (other ip : Text) (b : Bucket) (bs : List (Text × Bucket))
    → text_eq.beq other ip ≡ false
    → lookup ip (insert other b bs) ≡ lookup ip bs
insert-other other ip b bs h = rw (lookup-insert other ip b bs) (rw h refl)

-- A request of one address leaves the bucket of another.
allow-other :
    (other ip : Text) (now : ℕ) (rl : RateLimiter)
    → text_eq.beq other ip ≡ false
    → lookup ip (allow other now rl).0.buckets ≡ lookup ip rl.buckets
unfolding allow allow_with
allow-other other ip now rl h = with_bucket (lookup other rl.buckets)
  where
    with_bucket :
        (o : Option Bucket) → lookup ip (allow_with o other now rl).0.buckets ≡ lookup ip rl.buckets
    with_bucket none = insert-other other ip _ rl.buckets h
    with_bucket (some b) =
        if-buckets (ltb b.reset now) rl.buckets ip _ _ (insert-other other ip _ rl.buckets h) (
          if-buckets (ltb 0 b.tokens) rl.buckets ip _ _ (insert-other other ip _ rl.buckets h) refl)

allow-spends :
    (ip : Text) (now : ℕ) (rl : RateLimiter) (b : Bucket)
    → lookup ip rl.buckets ≡ some b
    → now ≤ b.reset
    → ltb 0 b.tokens ≡ true
    → allow ip now rl
      ≡ (record rl { buckets = insert ip (record b { tokens = b.tokens - 1 }) rl.buckets }, true)
unfolding allow allow_with
allow-spends ip now rl b h k left = rw (h, not_ltb_of_le b.reset now k, left) refl

allow-refuses :
    (ip : Text) (now : ℕ) (rl : RateLimiter) (b : Bucket)
    → lookup ip rl.buckets ≡ some b
    → now ≤ b.reset
    → ltb 0 b.tokens ≡ false
    → allow ip now rl ≡ (rl, false)
unfolding allow allow_with
allow-refuses ip now rl b h k out = rw (h, not_ltb_of_le b.reset now k, out) refl

allow-fresh_bucket :
    (ip : Text) (now : ℕ) (rl : RateLimiter)
    → (lookup ip rl.buckets ≡ none)
      ⊎ ((b : Bucket) × (lookup ip rl.buckets ≡ some b) × (b.reset < now))
    → allow ip now rl ≡ fresh_bucket ip now rl
unfolding allow allow_with
allow-fresh_bucket ip now rl (inl absent) = rw absent refl
allow-fresh_bucket ip now rl (inr (b, here, old)) = rw (here, ltb_of_lt b.reset now old) refl

counted : (t n : ℕ) → ltb 0 t ≡ true → min (t - 1) n + 1 ≡ min t (n + 1)
counted t n h = ground arith

empty : (t n : ℕ) → ltb 0 t ≡ false → min t n ≡ min t (n + 1)
empty t n h = ground arith

-- In the window of a bucket, an address gets through while the bucket has tokens.
allowed_of-tokens :
    (ip : Text) (es : List Event) (rl : RateLimiter) (b : Bucket)
    → lookup ip rl.buckets ≡ some b
    → Until b.reset es
    → allowed_of ip es rl ≡ min b.tokens (requests_of ip es)
unfolding allowed_of requests_of cleanup
allowed_of-tokens ip [] rl b h u = omega arith
allowed_of-tokens ip (sweep now ∷ es) rl b h u =
    allowed_of-tokens ip es (cleanup now rl) b (drop_old-keeps now ip b rl.buckets u.0 h) u.1
allowed_of-tokens ip (request other now ∷ es) rl b h u = elim (Bool-cases (text_eq.beq other ip)) [
  | inl same ↦
      let mine : lookup other rl.buckets ≡ some b =
        subst (λ k. lookup k rl.buckets ≡ some b) (sym ((text_eq.beq_iff other ip).0 same)) h in
      elim (Bool-cases (ltb 0 b.tokens)) [
        | inl left ↦
            rw (same, allow-spends other now rl b mine u.0 left)
              (rw
                (allowed_of-tokens ip es
                  (record rl {
                    buckets = insert other (record b { tokens = b.tokens - 1 }) rl.buckets;
                  })
                  (record b { tokens = b.tokens - 1 })
                  (insert-here other ip (record b { tokens = b.tokens - 1 }) rl.buckets same) u.1)
                (counted _ _ left))
        | inr out ↦
            rw (same, allow-refuses other now rl b mine u.0 out)
              (rw (allowed_of-tokens ip es rl b h u.1) (empty _ _ out))
      ]
  | inr different ↦ rw different (
      allowed_of-tokens ip es (allow other now rl).0 b (allow-other other ip now rl different ∙ h)
        u.1)
]

-- From the first request of an address on, and up to one window later, exactly as many of its
-- requests pass as the limit allows, whatever other addresses send and whenever a cleanup runs: the
-- limit, or all if there are fewer. The limit is at least 1, and the address has no bucket, or one
-- whose window is over.
pub allowed_of-window :
    (ip : Text) (now : ℕ) (es : List Event) (rl : RateLimiter)
    → 1 ≤ rl.limit
    → (lookup ip rl.buckets ≡ none)
      ⊎ ((b : Bucket) × (lookup ip rl.buckets ≡ some b) × (b.reset < now))
    → Until (now + rl.window) es
    → allowed_of ip (request ip now ∷ es) rl ≡ min rl.limit (requests_of ip (request ip now ∷ es))
unfolding allowed_of requests_of
allowed_of-window ip now es rl some_limit old u =
    rw (allow-fresh_bucket ip now rl old, (text_eq.beq_iff ip ip).1 refl)
      (rw
        (allowed_of-tokens ip es (fresh_bucket ip now rl).0
          (record { tokens = rl.limit - 1; reset = now + rl.window })
          (insert-here ip ip (record { tokens = rl.limit - 1; reset = now + rl.window }) rl.buckets
            ((text_eq.beq_iff ip ip).1 refl))
          u)
        (omega (arith, some_limit)))

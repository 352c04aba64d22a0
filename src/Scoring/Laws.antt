-- ===== src/Scoring/Laws.antt =====
-- internal/scorer: the scores are never below zero, the fallback is the static score, and tokens.
use duvycrawl.Shared.{
  ℕ, ◌≤◌, ◌<◌, ◌≡◌, refl, Bool, true, false, Option, none, some, List, [], ◌∷◌, ◌++◌, inl, inr,
  arith, ltb, length, All, Bool-cases,
}
use duvycrawl.Shared.Text.{Text}
use duvycrawl.Queue.Defs.{Job}
use duvycrawl.Scoring.{
  Float, Unicode, AdaptiveConfig, InterestProfile, keep_token, token_loop, normalize_tokens,
  not_below_zero, static_score, fallback_score, boosted_score, adaptive_score,
}

module _ {F : Type 0} ⦃fl : Float F⦄ where
  not_below_zero_lem : (x : F) → fl.lt (not_below_zero x) fl.zero_f ≡ false
  unfolding not_below_zero
  not_below_zero_lem x = elim (Bool-cases (fl.lt x fl.zero_f)) [
    | inl e ↦ rw e fl.lt-irrefl_zero
    | inr e ↦ rw e e
  ]

  -- No score is below zero, with a profile or without.
  pub adaptive_score_nonneg :
      ⦃u : Unicode⦄ (cfg : AdaptiveConfig F) (prof : Option (InterestProfile F)) (job : Job F)
      → fl.lt (adaptive_score cfg prof job) fl.zero_f ≡ false
  unfolding adaptive_score fallback_score boosted_score
  adaptive_score_nonneg cfg none job = not_below_zero_lem _
  adaptive_score_nonneg cfg (some prof) job =
      elim (Bool-cases (ltb prof.query_count cfg.min_queries_before_boost)) [
        | inl e ↦ rw e (not_below_zero_lem _)
        | inr e ↦ rw e (not_below_zero_lem _)
      ]

  -- Until enough queries are recorded, the adaptive score is that of a static scorer with the same
  -- depth penalty and a normal score of ten.
  pub adaptive_score-static :
      ⦃u : Unicode⦄ (cfg : AdaptiveConfig F) (prof : InterestProfile F) (job : Job F)
      → prof.query_count < cfg.min_queries_before_boost
      → adaptive_score cfg (some prof) job
        ≡ static_score (record { normal_score = fl.ten; depth_penalty_k = cfg.depth_penalty_k }) job
  unfolding adaptive_score fallback_score static_score
  adaptive_score-static cfg prof job h =
      rw (passes prof.query_count cfg.min_queries_before_boost h) refl
    where
      passes : (a b : ℕ) → a < b → ltb a b ≡ true
      passes a b k = ground arith

abbrev pub AllLong : List Text → Type 0
AllLong = All (λ t. 3 ≤ length t)

keep_token-AllLong : (b : Text) (out : List Text) → AllLong out → AllLong (keep_token b out)
unfolding keep_token
keep_token-AllLong b out h = elim (Bool-cases (ltb 2 (length b))) [
  | inl e ↦ rw e (ground arith, h)
  | inr e ↦ rw e h
]

token_loop-AllLong :
    (is_word : Text → Bool) (rs : List Text) (b : Text) → AllLong (token_loop is_word rs b)
unfolding token_loop
token_loop-AllLong is_word [] b = keep_token-AllLong b [] tt
token_loop-AllLong is_word (r ∷ rs) b = elim (Bool-cases (is_word r)) [
  | inl e ↦ rw e (token_loop-AllLong is_word rs (b ++ r))
  | inr e ↦ rw e (keep_token-AllLong b _ (token_loop-AllLong is_word rs []))
]

-- Every token has at least three bytes.
pub normalize_tokens-AllLong : ⦃u : Unicode⦄ (s : Text) → AllLong (normalize_tokens s)
unfolding normalize_tokens
normalize_tokens-AllLong ⦃u⦄ s = token_loop-AllLong u.is_word (u.runes (u.to_lower s)) []

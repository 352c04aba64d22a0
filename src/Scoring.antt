-- ===== src/Scoring.antt =====
-- internal/scorer: the static and the adaptive score of a job before it is crawled. float64 is a
-- parameter with the operations that the code uses, and so are the letters of Unicode.
pub mod Laws
use duvycrawl.Shared.{
  ℕ, ◌==◌, ◌≡◌, Bool, true, false, ◌||◌, ◌&&◌, Option, none, some, List, [], ◌∷◌, ◌++◌,
  if◌then◌else◌, ltb, leb, length,
}
use duvycrawl.Shared.Maps.{lookup}
use duvycrawl.Shared.Text.{Text, text_eq, contains}
use duvycrawl.Queue.Defs.{Job}

pub record Float (F : Type 0) : Type 0 where
  pub zero_f : F
  pub ten : F
  pub half : F
  pub add : F → F → F
  pub sub : F → F → F
  pub mul : F → F → F
  pub lt : F → F → Bool
  pub is_zero : F → Bool
  pub log1p : ℕ → F
  pub lt-irrefl_zero : lt zero_f zero_f ≡ false

-- `strings.ToLower`, the runes of a string as their bytes, and `IsLetter || IsDigit` of a rune.
pub record Unicode : Type 0 where
  pub to_lower : Text → Text
  pub runes : Text → List Text
  pub is_word : Text → Bool

-- `normalizeTokens`: a token of more than two bytes is kept when it ends.
unfoldable pub keep_token : Text → List Text → List Text
keep_token b out = if ltb 2 (length b) then b ∷ out else out

unfoldable pub token_loop : (Text → Bool) → List Text → Text → List Text
unfolding keep_token
token_loop is_word [] b = keep_token b []
token_loop is_word (r ∷ rs) b =
    let longer = token_loop is_word rs (b ++ r) in
    let ended = keep_token b (token_loop is_word rs []) in if is_word r then longer else ended

unfoldable pub normalize_tokens : ⦃u : Unicode⦄ → Text → List Text
unfolding token_loop
normalize_tokens ⦃u⦄ s = token_loop u.is_word (u.runes (u.to_lower s)) []

-- `StaticScorer`, and the fields of `config.AdaptiveConfig` that a score uses.
pub record StaticScorer (F : Type 0) : Type 0 where
  pub normal_score : F
  pub depth_penalty_k : F

pub record AdaptiveConfig (F : Type 0) : Type 0 where
  pub min_queries_before_boost : ℕ
  pub domain_reputation_weight : F
  pub language_match_bonus : F
  pub depth_penalty_k : F
  pub anchor_weight : F
  pub url_path_weight : F
  pub source_title_weight : F

-- `interestProfile`, its maps in the order of a visit.
pub record InterestProfile (F : Type 0) : Type 0 where
  pub terms : List (Text × F)
  pub domains : List (Text × F)
  pub languages : List (Text × F)
  pub query_count : ℕ

module _ {F : Type 0} ⦃fl : Float F⦄ where
  -- `base == 0` falls back to a default, and a score below zero is zero.
  unfoldable pub base_or : F → F → F
  base_or base default = if fl.is_zero base then default else base

  unfoldable pub not_below_zero : F → F
  not_below_zero score = if fl.lt score fl.zero_f then fl.zero_f else score

  -- `StaticScorer.Score`.
  unfoldable pub static_score : StaticScorer F → Job F → F
  unfolding base_or not_below_zero
  static_score s job = not_below_zero (
      fl.sub (base_or job.base_score s.normal_score)
        (fl.mul s.depth_penalty_k (fl.log1p job.depth)))

  -- `fallbackScore`.
  unfoldable pub fallback_score : AdaptiveConfig F → Job F → F
  unfolding base_or not_below_zero
  fallback_score cfg job =
      not_below_zero
        (fl.sub (base_or job.base_score fl.ten) (fl.mul cfg.depth_penalty_k (fl.log1p job.depth)))

  -- The first partial match of a token in the visit of the terms.
  unfoldable pub partial_match : Text → List (Text × F) → Option F
  unfolding contains
  partial_match tok [] = none
  partial_match tok ((term, w) ∷ terms) =
      if contains tok term || contains term tok then some w else partial_match tok terms

  unfoldable pub add_partial : F → F → Option F → F
  add_partial score weight none = score
  add_partial score weight (some w) = fl.add score (fl.mul (fl.mul w weight) fl.half)

  unfoldable pub score_token : List (Text × F) → F → F → Text → F
  unfolding add_partial partial_match
  score_token terms weight score tok = elim (lookup tok terms) [
    | some w ↦ fl.add score (fl.mul w weight)
    | none ↦ add_partial score weight (partial_match tok terms)
  ]

  unfoldable pub score_tokens : List (Text × F) → F → F → List Text → F
  unfolding score_token
  score_tokens terms weight score [] = score
  score_tokens terms weight score (tok ∷ toks) =
      score_tokens terms weight (score_token terms weight score tok) toks

  module _ ⦃u : Unicode⦄ where
    unfoldable pub score_texts : List (Text × F) → F → List (Text × F) → F
    unfolding score_tokens normalize_tokens
    score_texts terms score [] = score
    score_texts terms score ((s, w) ∷ texts) =
        score_texts terms
          (if length s == 0 then score else score_tokens terms w score (normalize_tokens s)) texts

    -- `relevanceScore`.
    unfoldable pub relevance_score : AdaptiveConfig F → Job F → List (Text × F) → F
    unfolding score_texts
    relevance_score cfg job terms =
        if length terms == 0
        then fl.zero_f
        else score_texts terms fl.zero_f (
            (job.anchor_text, cfg.anchor_weight)
            ∷ (job.url, cfg.url_path_weight)
            ∷ (job.source_page_title, cfg.source_title_weight)
            ∷ [])

    abbrev pub or_zero_f : Option F → F
    or_zero_f none = fl.zero_f
    or_zero_f (some x) = x

    unfoldable pub language_boost : AdaptiveConfig F → Job F → InterestProfile F → F
    language_boost cfg job prof =
        if ltb 0 (length job.source_language)
          && fl.lt fl.zero_f (or_zero_f (lookup job.source_language prof.languages))
        then cfg.language_match_bonus
        else fl.zero_f

    unfoldable pub boosted_score : AdaptiveConfig F → Job F → InterestProfile F → F
    unfolding base_or not_below_zero relevance_score language_boost
    boosted_score cfg job prof = not_below_zero (
        fl.sub
          (fl.add
            (fl.add (fl.add (base_or job.base_score fl.ten) (relevance_score cfg job prof.terms))
              (fl.mul (or_zero_f (lookup job.domain prof.domains)) cfg.domain_reputation_weight))
            (language_boost cfg job prof))
          (fl.mul cfg.depth_penalty_k (fl.log1p job.depth)))

    -- `AdaptiveScorer.Score`; no profile has been loaded yet at none.
    unfoldable pub adaptive_score : AdaptiveConfig F → Option (InterestProfile F) → Job F → F
    unfolding boosted_score fallback_score
    adaptive_score cfg none job = fallback_score cfg job
    adaptive_score cfg (some prof) job =
        if ltb prof.query_count cfg.min_queries_before_boost
        then fallback_score cfg job
        else boosted_score cfg job prof

-- ===== src/Api/Interests.antt =====
-- internal/api/handlers.go: the manual interests. A text is here a list of runes; the class and the
-- length in UTF-8 of a rune are parameters, and so is the database, in which none is an error.
pub mod Laws
use duvycrawl.Shared.{
  ℕ, ◌+◌, Bool, true, false, Option, none, some, List, [], ◌∷◌, ◌++◌, if◌then◌else◌, ltb,
}
use duvycrawl.Shared.Text.{Text, codes}
use duvycrawl.Url.{Std}

pub data InterestResponse : Type 0 where
  interest_refused : Text → InterestResponse
  interest_failed : Text → InterestResponse
  interest_done : List Text → InterestResponse

-- `SetInterestTerm` with the weight and the language, or `RemoveInterestTerm`, as a step on the
-- database for one token.
unfoldable pub each_token : {S : Type 0} → (S → Text → Option S) → S → List Text → S × Bool
each_token step s [] = (s, true)
each_token step s (t ∷ ts) = elim (step s t) [ none ↦ (s, false) | some u ↦ each_token step u ts ]

-- `b.Len()`.
unfoldable pub byte_len : (ℕ → ℕ) → Text → ℕ
byte_len rune_len [] = 0
byte_len rune_len (r ∷ b) = rune_len r + byte_len rune_len b

-- The token that the builder holds, if it is long enough.
unfoldable pub flush_token : (ℕ → ℕ) → Text → List Text
unfolding byte_len
flush_token rune_len b = if ltb 2 (byte_len rune_len b) then b ∷ [] else []

module _ ⦃std : Std⦄ (is_letter_or_digit : ℕ → Bool) (rune_len : ℕ → ℕ) where
  -- The loop over the runes, with the builder's content.
  unfoldable pub tokens_loop : Text → Text → List Text
  unfolding flush_token
  tokens_loop b [] = flush_token rune_len b
  tokens_loop b (r ∷ s) =
      let inside = tokens_loop (b ++ (r ∷ [])) s in
      let outside = tokens_loop [] s in
      if is_letter_or_digit r then inside else flush_token rune_len b ++ outside

  unfoldable pub normalize_interest_api_tokens : Text → List Text
  unfolding tokens_loop
  normalize_interest_api_tokens s = tokens_loop [] (std.to_lower (std.trim_space s))

  module _ {S : Type 0} (step : S → Text → Option S) where
    -- The part that `AddInterest` and `DeleteInterest` share, but for the message of a failure.
    unfoldable pub change_tokens : Text → S → List Text → S × InterestResponse
    unfolding each_token
    change_tokens failure s [] =
        (s, interest_refused (codes "term produces no valid tokens (must be > 2 chars)"))
    change_tokens failure s (t ∷ ts) =
        let (u, ok) = each_token step s (t ∷ ts) in
        if ok then (u, interest_done (t ∷ ts)) else (u, interest_failed failure)

    -- `DeleteInterest`.
    unfoldable pub delete_interest : S → Text → S × InterestResponse
    unfolding change_tokens normalize_interest_api_tokens
    delete_interest s [] = (s, interest_refused (codes "term is required"))
    delete_interest s (c ∷ term) =
        change_tokens (codes "failed to delete interest term") s
          (normalize_interest_api_tokens (c ∷ term))

    -- `AddInterest`, with the test `req.Weight <= 0` of the weight.
    unfoldable pub add_interest : Bool → S → Text → S × InterestResponse
    unfolding change_tokens normalize_interest_api_tokens
    add_interest at_most_zero s [] = (s, interest_refused (codes "term is required"))
    add_interest at_most_zero s (c ∷ term) =
        if at_most_zero
        then (s, interest_refused (codes "weight must be > 0"))
        else change_tokens (codes "failed to set interest term") s
            (normalize_interest_api_tokens (c ∷ term))

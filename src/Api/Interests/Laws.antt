-- ===== src/Api/Interests/Laws.antt =====
-- internal/api/handlers.go: laws of the manual interests.
use duvycrawl.Shared.{
  ℕ, ◌<◌, ◌≡◌, Bool, true, [], ◌∷◌, ◌++◌, ltb, All, All-append, arith, inl, inr, Bool-cases,
}
use duvycrawl.Shared.Text.{Text}
use duvycrawl.Url.{Std}
use duvycrawl.Api.Interests.{byte_len, flush_token, tokens_loop, normalize_interest_api_tokens}

module _ ⦃std : Std⦄ (is_letter_or_digit : ℕ → Bool) (rune_len : ℕ → ℕ) where
  -- A word of letters and digits, of more than two bytes.
  abbrev pub IsToken : Text → Type 0
  IsToken t = All (λ (r : ℕ). is_letter_or_digit r ≡ true) t × (2 < byte_len rune_len t)

  flush_token-IsToken :
      (b : Text)
      → All (λ (r : ℕ). is_letter_or_digit r ≡ true) b
      → All IsToken (flush_token rune_len b)
  unfolding flush_token
  flush_token-IsToken b h = elim (Bool-cases (ltb 2 (byte_len rune_len b))) [
    | inl y ↦ rw y ((h, ground (arith, y)), tt)
    | inr n ↦ rw n tt
  ]

  tokens_loop-IsToken :
      (s b : Text)
      → All (λ (r : ℕ). is_letter_or_digit r ≡ true) b
      → All IsToken (tokens_loop is_letter_or_digit rune_len b s)
  unfolding tokens_loop
  tokens_loop-IsToken [] b h = flush_token-IsToken b h
  tokens_loop-IsToken (r ∷ s) b h = elim (Bool-cases (is_letter_or_digit r)) [
    | inl y ↦ rw y (tokens_loop-IsToken s (b ++ (r ∷ [])) (All-append _ b (r ∷ []) h (y, tt)))
    | inr n ↦ rw n (
        All-append IsToken (flush_token rune_len b) _ (flush_token-IsToken b h)
          (tokens_loop-IsToken s [] tt))
  ]

  -- Every token of a term is made of letters and digits and is longer than two bytes.
  pub normalize_interest_api_tokens-IsToken :
      (s : Text) → All IsToken (normalize_interest_api_tokens is_letter_or_digit rune_len s)
  unfolding normalize_interest_api_tokens
  normalize_interest_api_tokens-IsToken s =
      tokens_loop-IsToken (std.to_lower (std.trim_space s)) [] tt

-- ===== src/Examples/Words.antt =====
-- internal/storage/spellcheck.go, internal/storage/sqlite_search.go and internal/api/middleware.go:
-- the theorems at concrete inputs.
use duvycrawl.Shared.{
  ℕ, ◌≤◌, ◌<◌, min, ◌≡◌, refl, false, Option, none, some, List, [], ◌∷◌, inl, ltb, arith, length,
}
use duvycrawl.Shared.Maps.{lookup}
use duvycrawl.Shared.Text.{Text, codes}
use duvycrawl.SpellCheck.Distance.{levenshtein}
use duvycrawl.SpellCheck.Distance.Laws.{distance, onto, levenshtein-distance}
use duvycrawl.SpellCheck.Index.{
  SpellChecker, load_vocabulary, new_spell_checker, load_vocabulary-IsValid,
}
use duvycrawl.SpellCheck.Index as index
use duvycrawl.SpellCheck.Suggest.{WordScore, suggest}
use duvycrawl.SpellCheck.Suggest.Laws.{Suggested, suggest-Suggested}
use duvycrawl.Search.Fts.{build_exact_query}
use duvycrawl.Search.Fts.Laws.{read_query, read_query-build_exact_query}
use duvycrawl.Search.Diversify.{Candidate, diversify_by_domain}
use duvycrawl.Search.Diversify.Laws.{Diverse, diversify_by_domain-Diverse}
use duvycrawl.Api.Limiter.{new_rate_limiter, Event, request, sweep, allowed_of}
use duvycrawl.Api.Limiter.Laws.{requests_of, allowed_of-window}

levenshtein-distance_example :
    levenshtein (codes "ruby") (codes "rugby")
    ≡ some (distance (onto (codes "ruby") []) (onto (codes "rugby") []))
levenshtein-distance_example = levenshtein-distance (codes "ruby") (codes "rugby")

abbrev rows : List (Option (Text × ℕ))
rows = some (codes "rugby", 7) ∷ none ∷ some (codes "crawl", 4) ∷ []

no_words : index.IsValid new_spell_checker
unfolding new_spell_checker
no_words = record { in_range = tt; counted = refl }

abbrev vocabulary : SpellChecker
vocabulary = load_vocabulary new_spell_checker (some (rows, false))

load_vocabulary-IsValid_example : index.IsValid vocabulary
load_vocabulary-IsValid_example =
    load_vocabulary-IsValid new_spell_checker (some (rows, false)) no_words

abbrev by_documents : WordScore ℕ
by_documents = record { score = λ dist doc. doc; lt = ltb; minus_one = 0 }

suggest-Suggested_example :
    (term : Text) × (suggest by_documents (λ m. m) (λ s. s) vocabulary (codes "rugbi") ≡ some term)
    × Suggested vocabulary (codes "rugbi") term
suggest-Suggested_example =
    suggest-Suggested by_documents (λ m. m) (λ s. s) vocabulary (codes "rugbi") (λ m c i. i)
      (load_vocabulary-IsValid new_spell_checker (some (rows, false)) no_words)

abbrev quoted : List Text
quoted = codes "web" ∷ (98 ∷ 34 ∷ 99 ∷ []) ∷ []

read_query-build_exact_query_example : read_query 2 (build_exact_query quoted) ≡ some quoted
read_query-build_exact_query_example = read_query-build_exact_query quoted 2 (omega arith)

abbrev of_domain : ℕ → Text → Candidate
of_domain n d = record { id = n; domain = d; schema_type = [] }

abbrev found : List Candidate
found =
    of_domain 1 (10 ∷ [])
    ∷ of_domain 2 (10 ∷ [])
    ∷ of_domain 3 (10 ∷ [])
    ∷ of_domain 4 (11 ∷ [])
    ∷ []

diversify_by_domain-Diverse_example :
    (length found ≤ 3 → diversify_by_domain 4 found ≡ some found)
    × (3 < length found
        → (out : List Candidate) × (diversify_by_domain 4 found ≡ some out) × Diverse found out)
diversify_by_domain-Diverse_example = diversify_by_domain-Diverse 4 found (omega arith)

abbrev address : Text
address = codes "10.0.0.7"

abbrev burst : List Event
burst = request address 101 ∷ sweep 102 ∷ request (codes "10.0.0.8") 103 ∷ request address 160 ∷ []

allowed_of-window_example :
    allowed_of address (request address 100 ∷ burst) (new_rate_limiter 2 60)
    ≡ min 2 (requests_of address (request address 100 ∷ burst))
unfolding new_rate_limiter lookup
allowed_of-window_example =
    allowed_of-window address 100 burst (new_rate_limiter 2 60) (omega arith) (inl refl)
      (omega arith, (omega arith, (omega arith, (omega arith, tt))))

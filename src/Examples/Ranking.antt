-- ===== src/Examples/Ranking.antt =====
-- internal/storage/sqlite_search.go: the theorems on merged and promoted candidates at concrete inputs.
use duvycrawl.Shared.{ℕ, ◌≡◌, refl, not, ◌&&◌, false, List, [], ◌∷◌, In, inl, inr}
use duvycrawl.Shared.Text.{Text, codes, member}
use duvycrawl.Search.Merge.{Found, is_empty_text, merge_search_candidates, unique_strings}
use duvycrawl.Search.Merge.Laws.{
  merge_search_candidates-keeps_snippet, NoRepeats, unique_strings_lem,
}
use duvycrawl.Search.Promote.{Ranked, promote_language_per_domain}
use duvycrawl.Search.Promote.Laws.{promote_language_per_domain-In}
use duvycrawl.Examples.Instances.{number_order}

abbrev found : ℕ → ℕ → Text → Found ℕ ℕ
found id score snippet = record { id = id; sql_score = score; snippet = snippet; rest = 0 }

-- One page from two queries, with a snippet from the one of the lower score.
abbrev exact : List (Found ℕ ℕ)
exact = found 2 9 [] ∷ found 1 8 [] ∷ []

abbrev relaxed : List (Found ℕ ℕ)
relaxed = found 2 3 (codes "text") ∷ []

merge_search_candidates-keeps_snippet_example :
    (r : Found ℕ ℕ) × In r (merge_search_candidates (exact ∷ relaxed ∷ []))
    × (r.id ≡ 2)
    × ((is_empty_text r.snippet && not (is_empty_text (codes "text"))) ≡ false)
merge_search_candidates-keeps_snippet_example =
    merge_search_candidates-keeps_snippet (exact ∷ relaxed ∷ []) relaxed (found 2 3 (codes "text"))
      (inr (inl refl)) (inl refl)

abbrev ranked : ℕ → Text → Text → Ranked
ranked id domain language = record { id = id; domain = domain; language = language }

-- The Spanish page of the first domain is promoted over its English one.
abbrev in_two_languages : List Ranked
in_two_languages =
    ranked 1 (codes "a") (codes "en")
    ∷ ranked 2 (codes "b") (codes "en")
    ∷ ranked 3 (codes "a") (codes "es")
    ∷ []

promote_language_per_domain-In_example :
    In
      (ranked 1 (codes "a") (codes "en"))
      (promote_language_per_domain (λ d. d) in_two_languages (codes "es") [])
promote_language_per_domain-In_example =
    promote_language_per_domain-In (λ d. d) in_two_languages (codes "es") []
      (ranked 1 (codes "a") (codes "en")) (inl refl)

-- A repeated text and the empty one.
abbrev values : List Text
values = codes "a" ∷ [] ∷ codes "b" ∷ codes "a" ∷ []

unique_strings_lem_example :
    NoRepeats (unique_strings values)
    × ((t : Text) → member t (unique_strings values) ≡ (not (is_empty_text t) && member t values))
unique_strings_lem_example = unique_strings_lem values

-- ===== src/Search/Merge.antt =====
-- internal/storage/sqlite_search.go: the merge of the candidates that several queries find, and the
-- helpers of the search. A score is a parameter with its order.
pub mod Holds
pub mod Sorted
pub mod Laws
use duvycrawl.Shared.{
  ℕ, ◌+◌, ◌*◌, Bool, true, false, not, ◌&&◌, ◌||◌, Option, none, some, List, [], ◌∷◌, ◌++◌, map,
  if◌then◌else◌, ltb, leb, length, ◌==◌, nat_eq,
}
use duvycrawl.Shared.Maps.{lookup, insert}
use duvycrawl.Shared.Text.{Text, codes, member}
use duvycrawl.Queue.Defs.{ScoreOrder}

-- `searchCandidate`; the fields that the merge only copies are one field.
pub record Found (F A : Type 0) : Type 0 where
  pub id : ℕ
  pub sql_score : F
  pub snippet : Text
  pub rest : A

abbrev pub is_empty_text : Text → Bool
is_empty_text [] = true
is_empty_text (c ∷ s) = false

module _ {F A : Type 0} ⦃o : ScoreOrder F⦄ where
  -- The step of the loop for one candidate, by what the map holds for its identifier.
  unfoldable pub merged_with : Option (Found F A) → Found F A → Found F A
  merged_with none candidate = candidate
  merged_with (some existing) candidate =
      if o.lt existing.sql_score candidate.sql_score
        || (is_empty_text existing.snippet && not (is_empty_text candidate.snippet))
      then (if is_empty_text candidate.snippet
          then record candidate { snippet = existing.snippet }
          else candidate)
      else existing

  unfoldable pub merge_group : List (Found F A) → List (ℕ × Found F A) → List (ℕ × Found F A)
  unfolding merged_with
  merge_group [] merged = merged
  merge_group (c ∷ group) merged =
      merge_group group (insert c.id (merged_with (lookup c.id merged) c) merged)

  unfoldable pub merge_groups :
      List (List (Found F A)) → List (ℕ × Found F A) → List (ℕ × Found F A)
  unfolding merge_group
  merge_groups [] merged = merged
  merge_groups (group ∷ groups) merged = merge_groups groups (merge_group group merged)

  -- The sort by identifier, over the entries of the map in any order.
  unfoldable pub insert_by_id : ℕ × Found F A → List (ℕ × Found F A) → List (ℕ × Found F A)
  insert_by_id p [] = p ∷ []
  insert_by_id p (q ∷ entries) = if ltb q.0 p.0 then q ∷ insert_by_id p entries else p ∷ q ∷ entries

  unfoldable pub sort_by_id : List (ℕ × Found F A) → List (ℕ × Found F A)
  unfolding insert_by_id
  sort_by_id [] = []
  sort_by_id (p ∷ entries) = insert_by_id p (sort_by_id entries)

  -- `mergeSearchCandidates`.
  unfoldable pub merge_search_candidates : List (List (Found F A)) → List (Found F A)
  unfolding merge_groups sort_by_id
  merge_search_candidates groups =
      map (λ (p : ℕ × Found F A). p.1) (sort_by_id (merge_groups groups []))

-- `uniqueStrings`, with the keys of `seen`.
unfoldable pub unique_loop : List Text → List Text → List Text
unfolding member
unique_loop seen [] = []
unique_loop seen (v ∷ values) =
    let skipped = unique_loop seen values in
    let kept = unique_loop (v ∷ seen) values in
    if is_empty_text v || member v seen then skipped else v ∷ kept

unfoldable pub unique_strings : List Text → List Text
unfolding unique_loop
unique_strings values = unique_loop [] values

-- `searchCandidateLimit`, of a limit and an offset that are not negative.
unfoldable pub search_candidate_limit : ℕ → ℕ → ℕ
search_candidate_limit limit offset =
    let want = offset + limit * 8 + 30 in
    if ltb want 300 then 300 else if ltb 500 want then 500 else want

-- `queryIntent`, and `classifyQueryIntent` of the number of tokens and of the three terms.
pub data QueryIntent : Type 0 where
  intent_navigational : QueryIntent
  intent_informational : QueryIntent

unfoldable pub classify_query_intent : ℕ → Text → Text → Text → QueryIntent
classify_query_intent tokens domain_like nav_term platform_intent =
    if not (is_empty_text domain_like)
    then intent_navigational
    else if not (is_empty_text platform_intent)
    then intent_navigational
    else if tokens == 1
    then intent_navigational
    else if tokens == 2 && not (is_empty_text nav_term)
    then intent_navigational
    else intent_informational

abbrev pub fresh_terms : List Text
fresh_terms = map codes (
    "noticia" ∷ "noticias" ∷ "news" ∷ "actualidad" ∷ "reciente" ∷ "recientes" ∷ "ultimo" ∷ "ultimos"
    ∷ "ultima" ∷ "ultimas" ∷ "hoy" ∷ "today" ∷ "latest" ∷ [])

unfoldable pub detect_freshness_intent : List Text → Bool
unfolding member
detect_freshness_intent [] = false
detect_freshness_intent (tok ∷ tokens) = member tok fresh_terms || detect_freshness_intent tokens

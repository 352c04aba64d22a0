-- ===== src/SpellCheck/Suggest.antt =====
-- internal/storage/spellcheck.go: `Suggest`. The order in which the candidates stand after the
-- unstable sort of a map is a parameter, and so are the float64 scores; a panic is none.
pub mod Laws
use duvycrawl.Shared.{
  ℕ, ◌==◌, ◌+◌, Bool, true, false, not, ◌&&◌, ◌||◌, Option, none, some, List, [], ◌∷◌, map,
  if◌then◌else◌, ltb, leb, length, take, get_elem?, nat_eq,
}
use duvycrawl.Shared.Maps.{lookup, insert, or_nil, or_zero}
use duvycrawl.Shared.Text.{Text, text_eq}
use duvycrawl.SpellCheck.Distance.{levenshtein}
use duvycrawl.SpellCheck.Index.{SpellChecker, trigrams_of}

-- `1000.0/float64(dist+1) + float64(doc)`, the order of the scores, and -1.
pub record WordScore (F : Type 0) : Type 0 where
  pub score : ℕ → ℕ → F
  pub lt : F → F → Bool
  pub minus_one : F

-- `matches[id]++` for the identifiers of one trigram, and for those of all trigrams of the word.
unfoldable pub count_ids : List ℕ → List (ℕ × ℕ) → List (ℕ × ℕ)
count_ids [] m = m
count_ids (id ∷ ids) m = count_ids ids (insert id (or_zero (lookup id m) + 1) m)

unfoldable pub count_matches : List (Text × List ℕ) → List Text → List (ℕ × ℕ) → List (ℕ × ℕ)
unfolding count_ids
count_matches trigrams [] m = m
count_matches trigrams (tg ∷ tgs) m =
    count_matches trigrams tgs (count_ids (or_nil (lookup tg trigrams)) m)

unfoldable pub max_allowed : Text → ℕ
max_allowed word = if leb 7 (length word) then 3 else 2

-- `bestTerm`, `bestScore` and `minDist`.
pub record Best (F : Type 0) : Type 0 where
  pub term : Text
  pub score : F
  pub min_dist : ℕ

module _ {F : Type 0} (ws : WordScore F) where
  -- The body of the last loop for one candidate.
  unfoldable pub better : Text → ℕ → Text → ℕ → Best F → Best F
  better word dist term doc best =
      if leb dist (max_allowed word)
        && (ltb dist best.min_dist
            || (dist == best.min_dist && ws.lt best.score (ws.score dist doc)))
      then record { term = term; score = ws.score dist doc; min_dist = dist }
      else best

  unfoldable pub try_word : Text → Option Text → Option ℕ → Best F → Option (Best F)
  unfolding better levenshtein
  try_word word (some term) (some doc) best = elim (levenshtein word term) [
    | none ↦ none
    | some dist ↦ some (better word dist term doc best)
  ]
  try_word word (some term) none best = none
  try_word word none doc best = none

  unfoldable pub best_of : SpellChecker → Text → List ℕ → Best F → Option (Best F)
  unfolding try_word
  best_of sc word [] best = some best
  best_of sc word (id ∷ ids) best =
      elim (try_word word (get_elem? sc.words id) (get_elem? sc.docs id) best) [
        | none ↦ none
        | some best' ↦ best_of sc word ids best'
      ]

  -- The identifiers of the first 100 candidates; `rank` is the sort.
  unfoldable pub suggest_from : SpellChecker → Text → List (ℕ × ℕ) → Option Text
  unfolding best_of
  suggest_from sc word ranked =
      elim (best_of sc word (map (λ (c : ℕ × ℕ). c.0) (take 100 ranked))
        (record { term = []; score = ws.minus_one; min_dist = 100 })) [
          | none ↦ none
          | some best ↦ some best.term
        ]

  -- `Suggest`; `normal` lowers and trims a word and gives its runes.
  unfoldable pub suggest :
      (List (ℕ × ℕ) → List (ℕ × ℕ)) → (Text → Text) → SpellChecker → Text → Option Text
  unfolding suggest_from count_matches trigrams_of
  suggest rank normal sc raw =
      let word = normal raw in
      if not sc.ready || ltb (length word) 4
      then some []
      else suggest_from sc word (rank (count_matches sc.trigrams (trigrams_of word) []))

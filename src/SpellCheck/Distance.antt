-- ===== src/SpellCheck/Distance.antt =====
-- internal/storage/spellcheck.go: `levenshtein`. Of the table only the row before is kept, since the
-- loop reads no other; a read outside of a row is none.
pub mod Laws
use duvycrawl.Shared.{
  ℕ, zero, suc, ◌==◌, ◌+◌, ◌-◌, ◌≡◌, Bool, Option, none, some, List, [], ◌∷◌, if◌then◌else◌, length,
  min,
}
use duvycrawl.Shared.Text.{Text}

unfoldable pub cost : ℕ → ℕ → ℕ
cost x y = if x == y then 0 else 1

-- `d[i][j]` from `d[i-1][j]`, `d[i][j-1]` and `d[i-1][j-1]`.
unfoldable pub cell : ℕ → ℕ → ℕ → ℕ → ℕ → ℕ
unfolding cost
cell x y above left diagonal = min (min (above + 1) (left + 1)) (diagonal + cost x y)

-- The inner loop for the rune `x` of the first word: the rest of the second word, the cell to the
-- left, the diagonal cell, and the rest of the row above. A row that is too short is a panic.
unfoldable pub fill_row : ℕ → Text → ℕ → ℕ → List ℕ → Option (List ℕ)
fill_row x [] left diagonal above = some []
fill_row x (y ∷ ys) left diagonal [] = none
fill_row x (y ∷ ys) left diagonal (a ∷ above) =
    let here = cell x y a left diagonal in
    elim (fill_row x ys here a above) [ none ↦ none | some row ↦ some (here ∷ row) ]

-- One round of the outer loop: row `i` from the row before.
unfoldable pub next_row : ℕ → Text → ℕ → List ℕ → Option (List ℕ)
unfolding fill_row
next_row x ys i [] = none
next_row x ys i (diagonal ∷ above) = elim (fill_row x ys i diagonal above) [
  | none ↦ none
  | some row ↦ some (i ∷ row)
]

unfoldable pub fill_rows : Text → Text → ℕ → List ℕ → Option (List ℕ)
unfolding next_row
fill_rows [] ys i row = some row
fill_rows (x ∷ xs) ys i row = elim (next_row x ys i row) [
  | none ↦ none
  | some row' ↦ fill_rows xs ys (i + 1) row'
]

-- `d[0][j] = j` for the runes of the second word, from `j` on.
unfoldable pub first_row : ℕ → Text → List ℕ
first_row j [] = j ∷ []
first_row j (y ∷ ys) = j ∷ first_row (j + 1) ys

unfoldable pub last_cell : List ℕ → Option ℕ
last_cell [] = none
last_cell (n ∷ []) = some n
last_cell (n ∷ m ∷ row) = last_cell (m ∷ row)

-- `levenshtein`.
unfoldable pub table_distance : Text → Text → Option ℕ
unfolding fill_rows first_row last_cell
table_distance a b = elim (fill_rows a b 1 (first_row 0 b)) [
  | none ↦ none
  | some row ↦ last_cell row
]

unfoldable pub levenshtein : Text → Text → Option ℕ
unfolding table_distance
levenshtein [] b = some (length b)
levenshtein (x ∷ a) [] = some (length (x ∷ a))
levenshtein (x ∷ a) (y ∷ b) = table_distance (x ∷ a) (y ∷ b)

-- ===== src/SpellCheck/Distance/Laws.antt =====
-- internal/storage/spellcheck.go: the table holds the distances of all prefixes, so the last cell is
-- the distance of the words.
use duvycrawl.Shared.{
  ℕ, zero, suc, ◌+◌, ◌≡◌, refl, sym, ap, ◌∙◌, some, List, [], ◌∷◌, length, min, arith,
}
use duvycrawl.Shared.Text.{Text}
use duvycrawl.SpellCheck.Distance.{
  cost, cell, fill_row, next_row, fill_rows, first_row, last_cell, table_distance, levenshtein,
}

-- The edit distance by recursion on the last runes of two words, which are given from the last
-- rune to the first: the cheapest of a deletion, an insertion and a substitution.
unfoldable pub distance : Text → Text → ℕ
unfolding cost
distance [] q = length q
distance (x ∷ p) [] = length (x ∷ p)
distance (x ∷ p) (y ∷ q) =
    min (min (distance p (y ∷ q) + 1) (distance (x ∷ p) q + 1)) (distance p q + cost x y)

-- The runes of a word behind those of another, from the last to the first.
abbrev pub onto : Text → Text → Text
onto [] q = q
onto (y ∷ ys) q = onto ys (y ∷ q)

-- The rest of the row for the prefix `p`, behind the prefix `q` of the second word.
abbrev row_of : Text → Text → Text → List ℕ
row_of p q [] = []
row_of p q (y ∷ ys) = distance p (y ∷ q) ∷ row_of p (y ∷ q) ys

distance_nil : (p : Text) → distance p [] ≡ length p
unfolding distance
distance_nil [] = refl
distance_nil (x ∷ p) = refl

fill_row_lem :
    (x : ℕ) (p q ys : Text)
    → fill_row x ys (distance (x ∷ p) q) (distance p q) (row_of p q ys) ≡ some (row_of (x ∷ p) q ys)
unfolding fill_row distance cell
fill_row_lem x p q [] = refl
fill_row_lem x p q (y ∷ ys) = rw (fill_row_lem x p (y ∷ q) ys)

next_row_lem :
    (x : ℕ) (p ys : Text)
    → next_row x ys (length (x ∷ p)) (distance p [] ∷ row_of p [] ys)
      ≡ some (distance (x ∷ p) [] ∷ row_of (x ∷ p) [] ys)
unfolding next_row distance
next_row_lem x p ys =
    let filled : fill_row x ys (suc (length p)) (distance p []) (row_of p [] ys)
        ≡ some (row_of (x ∷ p) [] ys) =
      fill_row_lem x p [] ys in
    rw (filled, next_row) refl

first_row_lem : (q ys : Text) → first_row (length q) ys ≡ distance [] q ∷ row_of [] q ys
unfolding first_row distance
first_row_lem q [] = refl
first_row_lem q (y ∷ ys) =
    ap (λ r. length q ∷ r) (ap (λ j. first_row j ys) (omega arith) ∙ first_row_lem (y ∷ q) ys)

fill_rows_lem :
    (xs ys p : Text) (i : ℕ)
    → i ≡ length (zero ∷ p)
    → fill_rows xs ys i (distance p [] ∷ row_of p [] ys)
      ≡ some (distance (onto xs p) [] ∷ row_of (onto xs p) [] ys)
unfolding fill_rows
fill_rows_lem [] ys p i e = refl
fill_rows_lem (x ∷ xs) ys p i e =
    let filled : next_row x ys i (distance p [] ∷ row_of p [] ys)
        ≡ some (distance (x ∷ p) [] ∷ row_of (x ∷ p) [] ys) =
      ap (λ j. next_row x ys j (distance p [] ∷ row_of p [] ys)) e ∙ next_row_lem x p ys in
    rw (filled, fill_rows) (fill_rows_lem xs ys (x ∷ p) (i + 1) (omega (arith, e)))

last_cell_lem :
    (p q ys : Text) → last_cell (distance p q ∷ row_of p q ys) ≡ some (distance p (onto ys q))
unfolding last_cell
last_cell_lem p q [] = refl
last_cell_lem p q (y ∷ ys) = last_cell_lem p (y ∷ q) ys

length-onto : (ys q : Text) → length (onto ys q) ≡ length ys + length q
length-onto [] q = omega arith
length-onto (y ∷ ys) q = omega (arith, length-onto ys (y ∷ q))

table_distance_lem : (a b : Text) → table_distance a b ≡ some (distance (onto a []) (onto b []))
unfolding table_distance
table_distance_lem a b =
    let filled : fill_rows a b 1 (first_row 0 b)
        ≡ some (distance (onto a []) [] ∷ row_of (onto a []) [] b) =
      ap (fill_rows a b 1) (first_row_lem [] b) ∙ fill_rows_lem a b [] 1 refl in
    rw (filled, table_distance) (last_cell_lem (onto a []) [] b)

-- The table of `levenshtein` is never read out of range, and its last cell is the edit distance of
-- the two words; the early returns for an empty word agree.
pub levenshtein-distance : (a b : Text) → levenshtein a b ≡ some (distance (onto a []) (onto b []))
unfolding levenshtein distance
levenshtein-distance [] b = ap some (omega (arith, length-onto b []))
levenshtein-distance (x ∷ a) [] =
    ap some (sym (distance_nil (onto (x ∷ a) []) ∙ omega (arith, length-onto (x ∷ a) [])))
levenshtein-distance (x ∷ a) (y ∷ b) = table_distance_lem (x ∷ a) (y ∷ b)

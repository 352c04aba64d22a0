-- ===== src/Search/Fts.antt =====
-- internal/storage/sqlite_search.go: the query builders. Tokens are the bytes of Go strings; the
-- number of runes of a token and the order by relevance, which compares float64s, are parameters.
pub mod Laws
use duvycrawl.Shared.{ℕ, ◌==◌, Bool, List, [], ◌∷◌, ◌++◌, map, if◌then◌else◌, leb, take}
use duvycrawl.Shared.Text.{Text, codes, join, member}

-- `escapeFTS5Token`: ReplaceAll of a quote by two. A quote is the byte 34.
unfoldable pub escape_token : Text → Text
escape_token [] = []
escape_token (c ∷ t) = if c == 34 then 34 ∷ 34 ∷ escape_token t else c ∷ escape_token t

unfoldable pub quote_token : Text → Text
unfolding escape_token
quote_token token = 34 ∷ escape_token token ++ 34 ∷ []

-- `strings.Join(parts, sep)` for a text between the parts.
unfoldable pub join_by : Text → List Text → Text
join_by sep [] = []
join_by sep (p ∷ []) = p
join_by sep (p ∷ q ∷ ps) = p ++ sep ++ join_by sep (q ∷ ps)

-- No tokens give the empty query in each builder.
unfoldable pub build_phrase_query : List Text → Text
unfolding escape_token join
build_phrase_query [] = []
build_phrase_query (t ∷ ts) = 34 ∷ join 32 (map escape_token (t ∷ ts)) ++ 34 ∷ []

unfoldable pub build_exact_query : List Text → Text
unfolding quote_token join
build_exact_query tokens = join 32 (map quote_token tokens)

unfoldable pub build_core_query : (List Text → List Text) → List Text → Text
unfolding quote_token join_by
build_core_query by_relevance [] = []
build_core_query by_relevance (t ∷ ts) =
    join_by (codes " AND ") (map quote_token (take 2 (by_relevance (t ∷ ts))))

-- `seen` holds the parts, so it is the list of them.
unfoldable pub add_part : Text → List Text → List Text
unfolding member
add_part part parts = if member part parts then parts else parts ++ part ∷ []

unfoldable pub relaxed_parts : (Text → ℕ) → List Text → List Text → List Text
unfolding add_part quote_token escape_token
relaxed_parts runes [] parts = parts
relaxed_parts runes (t ∷ ts) parts =
    let exact = add_part (quote_token t) parts in
    relaxed_parts runes ts
      (if leb 4 (runes t) then add_part (escape_token t ++ 42 ∷ []) exact else exact)

unfoldable pub build_relaxed_query : (Text → ℕ) → (List Text → List Text) → List Text → Text
unfolding relaxed_parts join_by
build_relaxed_query runes by_relevance [] = []
build_relaxed_query runes by_relevance (t ∷ ts) =
    join_by (codes " OR ") (relaxed_parts runes (take 4 (by_relevance (t ∷ ts))) [])

-- ===== src/Search/Fts/Laws.antt =====
-- internal/storage/sqlite_search.go: a reader of quoted strings takes a built query apart.
use mathlib.Core.List.{append_assoc}
use duvycrawl.Shared.{
  ℕ, zero, suc, ◌==◌, ==_iff, ◌≤◌, ◌≡◌, refl, sym, ap, false, Option, none, some, List, [], ◌∷◌,
  ◌++◌, map, if◌then◌else◌, length, arith, inl, inr, Bool-cases, nat_eq,
}
use duvycrawl.Shared.Text.{Text, join}
use duvycrawl.Search.Fts.{escape_token, quote_token, build_exact_query, build_phrase_query}

abbrev pub with_byte : ℕ → Option (Text × Text) → Option (Text × Text)
with_byte c none = none
with_byte c (some (t, s)) = some (c ∷ t, s)

-- What stands in a quoted string after its opening quote, in which two quotes are one, and what
-- follows the string.
unfoldable pub read_string : Text → Option (Text × Text)
read_string [] = none
read_string (c ∷ []) = if c == 34 then some ([], []) else none
read_string (c ∷ d ∷ s) =
    if c == 34
    then if d == 34 then with_byte 34 (read_string s) else some ([], d ∷ s)
    else with_byte c (read_string (d ∷ s))

abbrev pub with_token : Text → Option (List Text) → Option (List Text)
with_token t none = none
with_token t (some ts) = some (t ∷ ts)

-- A query as quoted strings with one space between them, at most as many as the fuel.
-- The end of the query, or a space and what `rest` reads.
unfoldable pub read_next : (Text → Option (List Text)) → Option (Text × Text) → Option (List Text)
read_next rest none = none
read_next rest (some (t, [])) = some (t ∷ [])
read_next rest (some (t, c ∷ s)) = if c == 32 then with_token t (rest s) else none

unfoldable pub read_query : ℕ → Text → Option (List Text)
unfolding read_string read_next
read_query n [] = some []
read_query zero (c ∷ s) = none
read_query (suc n) (c ∷ s) = if c == 34 then read_next (read_query n) (read_string s) else none

-- What may follow a string: not a quote, which would be the second of two.
abbrev Follows : Text → Type 0
Follows [] = Unit
Follows (c ∷ s) = (c == 34) ≡ false

read_string-end : (s : Text) → Follows s → read_string (34 ∷ s) ≡ some ([], s)
unfolding read_string
read_string-end [] h = refl
read_string-end (c ∷ s) h = rw h refl

read_string-cons :
    (c : ℕ) (t : Text) → (c == 34) ≡ false → read_string (c ∷ t) ≡ with_byte c (read_string t)
unfolding read_string
read_string-cons c [] h = rw h refl
read_string-cons c (d ∷ t) h = rw h refl

read_string-quote : (s : Text) → read_string (34 ∷ 34 ∷ s) ≡ with_byte 34 (read_string s)
unfolding read_string
read_string-quote s = refl

read_string-escape_token :
    (t s : Text) → Follows s → read_string (escape_token t ++ 34 ∷ s) ≡ some (t, s)
unfolding escape_token
read_string-escape_token [] s h = read_string-end s h
read_string-escape_token (c ∷ t) s h = elim (Bool-cases (c == 34)) [
  | inl quote ↦
      rw (quote, read_string-quote (escape_token t ++ 34 ∷ s), read_string-escape_token t s h)
        (ap (λ x. some (x ∷ t, s)) (sym ((==_iff c 34).0 quote)))
  | inr other ↦
      rw other (rw (read_string-cons c _ other) (rw (read_string-escape_token t s h) refl))
]

-- The words of an exact query are the tokens: reading the query as quoted strings gives them back,
-- with any fuel that is not below their number.
pub read_query-build_exact_query :
    (tokens : List Text) (n : ℕ)
    → length tokens ≤ n
    → read_query n (build_exact_query tokens) ≡ some tokens
unfolding read_query build_exact_query
read_query-build_exact_query [] n h = refl
read_query-build_exact_query (t ∷ ts) zero h = absurd (omega (arith, h))
read_query-build_exact_query (t ∷ []) (suc n) h = rw (read_string-escape_token t [] tt) refl
read_query-build_exact_query (t ∷ u ∷ ts) (suc n) h =
    rw (append_assoc (escape_token t) (34 ∷ []) (32 ∷ join 32 (map quote_token (u ∷ ts)))) (
      rw (read_string-escape_token t (32 ∷ join 32 (map quote_token (u ∷ ts))) refl)
        (rw (read_query-build_exact_query (u ∷ ts) n (omega (arith, h))) refl))

escape_token_append : (s t : Text) → escape_token (s ++ t) ≡ escape_token s ++ escape_token t
unfolding escape_token
escape_token_append [] t = refl
escape_token_append (c ∷ s) t = elim (Bool-cases (c == 34)) [
  | inl quote ↦ rw quote (rw (escape_token_append s t) refl)
  | inr other ↦ rw other (rw (escape_token_append s t) refl)
]

join-escape_token : (ts : List Text) → join 32 (map escape_token ts) ≡ escape_token (join 32 ts)
unfolding join escape_token
join-escape_token [] = refl
join-escape_token (t ∷ []) = refl
join-escape_token (t ∷ u ∷ ts) =
    rw (join-escape_token (u ∷ ts)) (sym (escape_token_append t (32 ∷ join 32 (u ∷ ts))))

-- A phrase query is one quoted string, which stands for the tokens with one space between them.
pub read_query-build_phrase_query :
    (t : Text) (ts : List Text)
    → read_query 1 (build_phrase_query (t ∷ ts)) ≡ some (join 32 (t ∷ ts) ∷ [])
unfolding read_query build_phrase_query
read_query-build_phrase_query t ts =
    rw (join-escape_token (t ∷ ts))
      (rw (read_string-escape_token (join 32 (t ∷ ts)) [] tt, read_next) refl)

-- ===== src/SpellCheck/Index.antt =====
-- internal/storage/spellcheck.go: `LoadVocabulary`. The rows of the vocabulary table are an
-- argument; a row that cannot be scanned is none, and an error at the end keeps the old index.
use duvycrawl.Shared.{
  ℕ, ◌+◌, ◌%◌, ◌^◌, ◌≤◌, ◌<◌, ◌≡◌, refl, Bool, true, false, Option, none, some, List, [], ◌∷◌, ◌++◌,
  length, length-append, All, All-map, All-append, arith,
}
use duvycrawl.Shared.Maps.{lookup, insert, or_nil, Entries, Entries-insert, Entries-lookup}
use duvycrawl.Shared.Text.{Text, text_eq}

-- `SpellChecker`.
pub record SpellChecker : Type 0 where
  pub words : List Text
  pub trigrams : List (Text × List ℕ)
  pub docs : List ℕ
  pub ready : Bool

-- The runes `i` to `i + 3` for every `i`.
unfoldable pub trigrams_of : Text → List Text
trigrams_of (a ∷ b ∷ c ∷ s) = (a ∷ b ∷ c ∷ []) ∷ trigrams_of (b ∷ c ∷ s)
trigrams_of s = []

unfoldable pub add_trigrams : ℕ → List Text → List (Text × List ℕ) → List (Text × List ℕ)
add_trigrams idx [] m = m
add_trigrams idx (tg ∷ tgs) m =
    add_trigrams idx tgs (insert tg (or_nil (lookup tg m) ++ idx ∷ []) m)

-- The loop over the rows; `idx` is a uint32.
unfoldable pub load_rows : List (Option (Text × ℕ)) → ℕ → SpellChecker → SpellChecker
unfolding trigrams_of add_trigrams
load_rows [] idx sc = sc
load_rows (none ∷ rows) idx sc = load_rows rows idx sc
load_rows (some (term, doc) ∷ rows) idx sc = load_rows rows ((idx + 1) % 2 ^ 32) (record {
  words = sc.words ++ term ∷ [];
  trigrams = add_trigrams idx (trigrams_of term) sc.trigrams;
  docs = sc.docs ++ doc ∷ [];
  ready = true;
})

-- `LoadVocabulary`, for the rows and whether the iteration ended with an error.
unfoldable pub load_vocabulary :
    SpellChecker → Option (List (Option (Text × ℕ)) × Bool) → SpellChecker
unfolding load_rows
load_vocabulary sc none = sc
load_vocabulary sc (some (rows, true)) = sc
load_vocabulary sc (some (rows, false)) =
    load_rows rows 0 (record { words = []; trigrams = []; docs = []; ready = true })

unfoldable pub new_spell_checker : SpellChecker
new_spell_checker = record { words = []; trigrams = []; docs = []; ready = false }

-- Every index in the trigram lists is that of a word, and every word has its count.
abbrev pub Below : ℕ → Text → List ℕ → Type 0
Below n tg = All (λ id. id < n)

pub record IsValid (sc : SpellChecker) : Type 0 where
  pub in_range : Entries (Below (length sc.words)) sc.trigrams
  pub counted : length sc.docs ≡ length sc.words

pub Below-or_nil :
    (n : ℕ) (tg : Text) (m : List (Text × List ℕ))
    → Entries (Below n) m
    → All (λ id. id < n) (or_nil (lookup tg m))
Below-or_nil n tg m v = go (lookup tg m) refl
  where
    go : (r : Option (List ℕ)) → lookup tg m ≡ r → All (λ id. id < n) (or_nil r)
    go none e = tt
    go (some ids) e = Entries-lookup (Below n) tg ids m v e

Entries-Below_mono :
    (n k : ℕ) (m : List (Text × List ℕ)) → n ≤ k → Entries (Below n) m → Entries (Below k) m
Entries-Below_mono n k [] h v = tt
Entries-Below_mono n k ((tg, ids) ∷ m) h v = (
  All-map (λ id. id < n) (λ id. id < k) ids (λ id p. omega arith) v.0,
  Entries-Below_mono n k m h v.1,
)

add_trigrams-Below :
    (n idx : ℕ) (tgs : List Text) (m : List (Text × List ℕ))
    → idx < n
    → Entries (Below n) m
    → Entries (Below n) (add_trigrams idx tgs m)
unfolding add_trigrams
add_trigrams-Below n idx [] m h v = v
add_trigrams-Below n idx (tg ∷ tgs) m h v = add_trigrams-Below n idx tgs _ h (
    Entries-insert (Below n) tg _ m (All-append (λ id. id < n) _ _ (Below-or_nil n tg m v) (h, tt))
      v)

load_rows-IsValid :
    (rows : List (Option (Text × ℕ))) (idx : ℕ) (sc : SpellChecker)
    → idx ≤ length sc.words
    → IsValid sc
    → IsValid (load_rows rows idx sc)
unfolding load_rows
load_rows-IsValid [] idx sc h v = v
load_rows-IsValid (none ∷ rows) idx sc h v = load_rows-IsValid rows idx sc h v
load_rows-IsValid (some (term, doc) ∷ rows) idx sc h v =
    let longer = length-append sc.words (term ∷ []) in
    load_rows-IsValid rows ((idx + 1) % 2 ^ 32) _ (omega (arith, longer)) (record {
      in_range =
          add_trigrams-Below (length (sc.words ++ term ∷ [])) idx (trigrams_of term) sc.trigrams
            (omega (arith, longer))
            (Entries-Below_mono (length sc.words) (length (sc.words ++ term ∷ [])) sc.trigrams
              (omega (arith, longer)) v.in_range);
      counted = omega (arith, longer, length-append sc.docs (doc ∷ []), v.counted);
    })

-- LoadVocabulary keeps the index valid, errors included: every index of a trigram is that of a
-- word, and every word has its count.
pub load_vocabulary-IsValid :
    (sc : SpellChecker) (answer : Option (List (Option (Text × ℕ)) × Bool))
    → IsValid sc
    → IsValid (load_vocabulary sc answer)
unfolding load_vocabulary
load_vocabulary-IsValid sc none v = v
load_vocabulary-IsValid sc (some (rows, true)) v = v
load_vocabulary-IsValid sc (some (rows, false)) v =
    load_rows-IsValid rows 0 _ (omega arith) (record { in_range = tt; counted = refl })

-- ===== src/SpellCheck/Suggest/Laws.antt =====
-- internal/storage/spellcheck.go: what `Suggest` answers.
use duvycrawl.Shared.{
  ℕ, zero, suc, ◌≤◌, ◌<◌, ◌≡◌, ◌⊎◌, refl, ap, Bool, true, false, not, ◌&&◌, ◌||◌, some, List, [],
  ◌∷◌, map, if◌then◌else◌, ltb, leb, length, take, get_elem?, get_elem?_of_lt, In, In-get_elem?,
  All, arith, inl, inr, Bool-cases, nat_eq,
}
use duvycrawl.Shared.Maps.{Entries, Entries-insert}
use duvycrawl.Shared.Text.{Text, text_eq}
use duvycrawl.SpellCheck.Distance.Laws.{distance, onto, levenshtein-distance}
use duvycrawl.SpellCheck.Index.{SpellChecker, trigrams_of, Below, IsValid, Below-or_nil}
use duvycrawl.SpellCheck.Suggest.{
  WordScore, count_ids, count_matches, max_allowed, Best, better, try_word, best_of, suggest_from,
  suggest,
}

-- Nothing, or a word of the vocabulary within the allowed distance.
abbrev pub Suggested : SpellChecker → Text → Text → Type 0
Suggested sc word term =
    (term ≡ []) ⊎ (In term sc.words × (distance (onto word []) (onto term []) ≤ max_allowed word))

abbrev KeyBelow : ℕ → ℕ → ℕ → Type 0
KeyBelow n id count = id < n

count_ids-Below :
    (n : ℕ) (ids : List ℕ) (m : List (ℕ × ℕ))
    → All (λ id. id < n) ids
    → Entries (KeyBelow n) m
    → Entries (KeyBelow n) (count_ids ids m)
unfolding count_ids
count_ids-Below n [] m h v = v
count_ids-Below n (id ∷ ids) m h v =
    count_ids-Below n ids _ h.1 (Entries-insert (KeyBelow n) id _ m h.0 v)

count_matches-Below :
    (n : ℕ) (trigrams : List (Text × List ℕ)) (tgs : List Text) (m : List (ℕ × ℕ))
    → Entries (Below n) trigrams
    → Entries (KeyBelow n) m
    → Entries (KeyBelow n) (count_matches trigrams tgs m)
unfolding count_matches
count_matches-Below n trigrams [] m h v = v
count_matches-Below n trigrams (tg ∷ tgs) m h v =
    count_matches-Below n trigrams tgs _ h (count_ids-Below n _ m (Below-or_nil n tg trigrams h) v)

Entries-In : (n : ℕ) (m : List (ℕ × ℕ)) (c : ℕ × ℕ) → Entries (KeyBelow n) m → In c m → c.0 < n
Entries-In n [] c v i = absurd i
Entries-In n ((id, count) ∷ m) c v (inl e) = ground (arith, v.0, ap (λ (x : ℕ × ℕ). x.0) e)
Entries-In n ((id, count) ∷ m) c v (inr i) = Entries-In n m c v.1 i

keys-Below :
    (n k : ℕ) (ranked : List (ℕ × ℕ))
    → ((c : ℕ × ℕ) → In c ranked → c.0 < n)
    → All (λ id. id < n) (map (λ (c : ℕ × ℕ). c.0) (take k ranked))
keys-Below n zero ranked h = tt
keys-Below n (suc k) [] h = tt
keys-Below n (suc k) (c ∷ ranked) h = (h c (inl refl), keys-Below n k ranked (λ d i. h d (inr i)))

module _ {F : Type 0} (ws : WordScore F) (sc : SpellChecker) (word : Text) where
  if-Suggested :
      (c : Bool) (x y : Best F)
      → (c ≡ true → Suggested sc word x.term)
      → Suggested sc word y.term
      → Suggested sc word (if c then x else y).term
  if-Suggested true x y h k = h refl
  if-Suggested false x y h k = k

  better-Suggested :
      (dist : ℕ) (term : Text) (doc : ℕ) (best : Best F)
      → In term sc.words
      → distance (onto word []) (onto term []) ≡ dist
      → Suggested sc word best.term
      → Suggested sc word (better ws word dist term doc best).term
  unfolding better
  better-Suggested dist term doc best i e h =
      if-Suggested _ _ best (λ t. inr (i, rw e (close dist (max_allowed word) _ t))) h
    where
      close : (d m : ℕ) (c : Bool) → (leb d m && c) ≡ true → d ≤ m
      close d m c t = ground arith

  best_of-Suggested :
      (ids : List ℕ) (best : Best F)
      → IsValid sc
      → All (λ id. id < length sc.words) ids
      → Suggested sc word best.term
      → (best' : Best F) × (best_of ws sc word ids best ≡ some best') × Suggested sc word best'.term
  unfolding best_of
  best_of-Suggested [] best v b h = (best, refl, h)
  best_of-Suggested (id ∷ ids) best v b h =
      let (term, at) = get_elem?_of_lt sc.words id b.0 in
      let (doc, at_doc) = get_elem?_of_lt sc.docs id (omega (arith, v.counted, b.0)) in
      let tried : try_word ws word (get_elem? sc.words id) (get_elem? sc.docs id) best
          ≡ some (better ws word (distance (onto word []) (onto term [])) term doc best) =
        rw (at, at_doc) (rw (levenshtein-distance word term, try_word) refl) in
      let (best', done, good) =
        best_of-Suggested ids
          (better ws word (distance (onto word []) (onto term [])) term doc best) v b.1
          (better-Suggested _ term doc best (In-get_elem? sc.words id term at) refl h) in
      (best', rw (tried, best_of) done, good)

-- On a valid index, Suggest does not panic, and answers with nothing or with a word of the
-- vocabulary whose edit distance is at most 3, or 2 for a word of fewer than seven runes, for any
-- sort of the candidates that adds none.
pub suggest-Suggested :
    {F : Type 0} (ws : WordScore F) (rank : List (ℕ × ℕ) → List (ℕ × ℕ)) (normal : Text → Text)
    (sc : SpellChecker) (raw : Text)
    → ((m : List (ℕ × ℕ)) (c : ℕ × ℕ) → In c (rank m) → In c m)
    → IsValid sc
    → (term : Text) × (suggest ws rank normal sc raw ≡ some term) × Suggested sc (normal raw) term
unfolding suggest suggest_from
suggest-Suggested ws rank normal sc raw sorts v =
    elim (Bool-cases (not sc.ready || ltb (length (normal raw)) 4)) [
      | inl t ↦ ([], rw t, inl refl)
      | inr f ↦
          let matches = count_matches sc.trigrams (trigrams_of (normal raw)) [] in
          let (best, done, good) =
            best_of-Suggested ws sc (normal raw)
              (map (λ (c : ℕ × ℕ). c.0) (take 100 (rank matches)))
              (record { term = []; score = ws.minus_one; min_dist = 100 }) v
              (keys-Below (length sc.words) 100 (rank matches) (λ c i.
                Entries-In (length sc.words) matches c
                  (count_matches-Below (length sc.words) sc.trigrams (trigrams_of (normal raw)) []
                    v.in_range tt)
                  (sorts matches c i)))
              (inl refl) in
          (best.term, rw f (rw (done, suggest_from) refl), good)
    ]

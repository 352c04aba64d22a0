-- ===== src/Search/Merge/Laws.antt =====
-- internal/storage/sqlite_search.go: laws of the merge of candidates and of the helpers.
use duvycrawl.Shared.{
  ℕ, ◌≡◌, ◌<◌, refl, sym, ap, ◌∙◌, true, false, not, ◌&&◌, ◌||◌, List, [], ◌∷◌, map, nat_eq, In,
  All, inl, inr, arith, Bool-cases,
}
use duvycrawl.Shared.Maps.{Entries, Entries-lookup, In-lookup}
use duvycrawl.Shared.Text.{Text, text_beq, text_beq_iff, member}
use duvycrawl.Queue.Defs.{ScoreOrder}
use duvycrawl.Search.Merge.{
  Found, is_empty_text, merge_groups, sort_by_id, merge_search_candidates, unique_loop,
  unique_strings,
}
use duvycrawl.Search.Merge.Holds.{merge_groups-Filed, merge_groups-Holds_new}
use duvycrawl.Search.Merge.Sorted.{Ascending, sort_by_id-All, sort_by_id-Ascending, sort_by_id-In}

module _ {F A : Type 0} ⦃o : ScoreOrder F⦄ where
  -- The identifiers stand in strictly ascending order.
  abbrev pub AscendingIds : List (Found F A) → Type 0
  AscendingIds [] = Unit
  AscendingIds (c ∷ cs) = All (λ (d : Found F A). c.id < d.id) cs × AscendingIds cs

  Entries-All :
      (m : List (ℕ × Found F A))
      → Entries (λ (k : ℕ) (c : Found F A). c.id ≡ k) m
      → All (λ (p : ℕ × Found F A). p.1.id ≡ p.0) m
  Entries-All [] h = tt
  Entries-All ((k, c) ∷ m) (h, hs) = (h, Entries-All m hs)

  above-ids :
      (k : ℕ) (m : List (ℕ × Found F A))
      → All (λ (p : ℕ × Found F A). p.1.id ≡ p.0) m
      → All (λ (p : ℕ × Found F A). k < p.0) m
      → All (λ (d : Found F A). k < d.id) (map (λ (p : ℕ × Found F A). p.1) m)
  above-ids k [] h a = tt
  above-ids k (p ∷ m) (h, hs) (a, rest) = (rw h a, above-ids k m hs rest)

  Ascending-AscendingIds :
      (m : List (ℕ × Found F A))
      → All (λ (p : ℕ × Found F A). p.1.id ≡ p.0) m
      → Ascending m
      → AscendingIds (map (λ (p : ℕ × Found F A). p.1) m)
  Ascending-AscendingIds [] h a = tt
  Ascending-AscendingIds (p ∷ m) (h, hs) (above, a) =
      (rw h (above-ids p.0 m hs above), Ascending-AscendingIds m hs a)

  In-map_snd :
      (k : ℕ) (c : Found F A) (m : List (ℕ × Found F A))
      → In (k, c) m
      → In c (map (λ (p : ℕ × Found F A). p.1) m)
  In-map_snd k c [] i = absurd i
  In-map_snd k c (p ∷ m) (inl e) = inl (ap (λ (p : ℕ × Found F A). p.1) e)
  In-map_snd k c (p ∷ m) (inr i) = inr (In-map_snd k c m i)

  -- The merged candidates stand in strictly ascending order of their identifiers, whatever the
  -- groups hold, so that no identifier stands twice.
  pub merge_search_candidates-AscendingIds :
      (groups : List (List (Found F A))) → AscendingIds (merge_search_candidates groups)
  unfolding merge_search_candidates
  merge_search_candidates-AscendingIds groups =
      let (distinct, filed) = merge_groups-Filed groups [] (tt, tt) in
      Ascending-AscendingIds (sort_by_id (merge_groups groups []))
        (sort_by_id-All (λ p. p.1.id ≡ p.0) (merge_groups groups []) (Entries-All _ filed))
        (sort_by_id-Ascending (merge_groups groups []) distinct)

  -- For every candidate of every group, one with its identifier is among the merged ones, and it has
  -- a snippet if the candidate has one.
  pub merge_search_candidates-keeps_snippet :
      (groups : List (List (Found F A))) (group : List (Found F A)) (c : Found F A)
      → In group groups
      → In c group
      → (r : Found F A) × In r (merge_search_candidates groups)
        × (r.id ≡ c.id)
        × ((is_empty_text r.snippet && not (is_empty_text c.snippet)) ≡ false)
  unfolding merge_search_candidates
  merge_search_candidates-keeps_snippet groups group c g i =
      let (r, found, keeps) = merge_groups-Holds_new groups group c [] g i in
      let (distinct, filed) = merge_groups-Filed groups [] (tt, tt) in
      (
        r,
        In-map_snd c.id r _
            (sort_by_id-In (c.id, r) (merge_groups groups []) (In-lookup c.id r _ found)),
        Entries-lookup (λ k c. c.id ≡ k) c.id r _ filed found,
        ground (arith, keeps),
      )

-- Each text once.
abbrev pub NoRepeats : List Text → Type 0
NoRepeats [] = Unit
NoRepeats (t ∷ ts) = (member t ts ≡ false) × NoRepeats ts

text_beq_self : (t : Text) → text_beq t t ≡ true
text_beq_self t = (text_beq_iff t t).1 refl

unique_loop-member :
    (values seen : List Text) (t : Text)
    → member t (unique_loop seen values)
      ≡ (not (is_empty_text t) && (member t values && not (member t seen)))
unfolding unique_loop member
unique_loop-member [] seen t = ground arith
unique_loop-member (v ∷ values) seen t = elim (Bool-cases (text_beq t v)) [
  | inl same ↦
      let e : v ≡ t = sym ((text_beq_iff t v).0 same) in
      rw (e, text_beq_self t)
        (ground (
          arith,
          text_beq_self t,
          unique_loop-member values seen t,
          unique_loop-member values (t ∷ seen) t,
        ))
  | inr other ↦ rw other (
      ground
        (arith, other, unique_loop-member values seen t, unique_loop-member values (v ∷ seen) t))
]

unique_loop-NoRepeats : (values seen : List Text) → NoRepeats (unique_loop seen values)
unfolding unique_loop
unique_loop-NoRepeats [] seen = tt
unique_loop-NoRepeats (v ∷ values) seen = elim (Bool-cases (is_empty_text v || member v seen)) [
  | inl y ↦ rw y (unique_loop-NoRepeats values seen)
  | inr n ↦ rw n (
    unique_loop-member values (v ∷ seen) v ∙ unfold member in ground (arith, text_beq_self v),
    unique_loop-NoRepeats values (v ∷ seen),
  )
]

-- The result has each text that is not empty and stands among the values, once, and no other text.
pub unique_strings_lem :
    (values : List Text)
    → NoRepeats (unique_strings values)
      × ((t : Text) → member t (unique_strings values) ≡ (not (is_empty_text t) && member t values))
unfolding unique_strings
unique_strings_lem values = (
  unique_loop-NoRepeats values [],
  λ t. unique_loop-member values [] t ∙ unfold member in ground arith,
)

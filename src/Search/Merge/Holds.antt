-- ===== src/Search/Merge/Holds.antt =====
-- internal/storage/sqlite_search.go: what the map of the merge holds.
use duvycrawl.Shared.{
  ℕ, ◌≡◌, refl, sym, ◌∙◌, subst, false, Option, none, some, List, [], ◌∷◌, ◌==◌, ==_iff, nat_eq, In,
  inl, inr, arith, Bool-cases,
}
use duvycrawl.Shared.Maps.{
  lookup, insert, Distinct, Distinct-insert, Entries, Entries-insert, Entries-lookup,
  lookup-insert_same, lookup-insert_other,
}
use duvycrawl.Shared.Text.{Text}
use duvycrawl.Queue.Defs.{ScoreOrder}
use duvycrawl.Search.Merge.{Found, is_empty_text, merged_with, merge_group, merge_groups}

-- There is a text in place of t, if t is one.
abbrev pub KeepsSnippet : Text → Text → Type 0
KeepsSnippet t s = is_empty_text t ≡ false → is_empty_text s ≡ false

module _ {F A : Type 0} ⦃o : ScoreOrder F⦄ where
  pub merged_with-id :
      (m : Option (Found F A)) (c : Found F A)
      → ((e : Found F A) → m ≡ some e → e.id ≡ c.id)
      → (merged_with m c).id ≡ c.id
  unfolding merged_with
  merged_with-id none c h = refl
  merged_with-id (some e) c h = ground (arith, h e refl)

  pub merged_with-Keeps_new :
      (m : Option (Found F A)) (c : Found F A) → KeepsSnippet c.snippet (merged_with m c).snippet
  unfolding merged_with
  merged_with-Keeps_new none c h = h
  merged_with-Keeps_new (some e) c h = ground (arith, h)

  pub merged_with-Keeps_old :
      (e c : Found F A) → KeepsSnippet e.snippet (merged_with (some e) c).snippet
  unfolding merged_with
  merged_with-Keeps_old e c h = ground (arith, h)

  -- The map holds a candidate for the identifier, and a snippet if there was one.
  abbrev pub Holds : Found F A → List (ℕ × Found F A) → Type 0
  Holds c m = (r : Found F A) × (lookup c.id m ≡ some r) × KeepsSnippet c.snippet r.snippet

  -- Entries stand once, under their own identifiers.
  abbrev pub Filed : List (ℕ × Found F A) → Type 0
  Filed m = Distinct m × Entries (λ (k : ℕ) (c : Found F A). c.id ≡ k) m

  pub step-Filed :
      (c : Found F A) (m : List (ℕ × Found F A))
      → Filed m
      → Filed (insert c.id (merged_with (lookup c.id m) c) m)
  step-Filed c m (d, e) = (
    Distinct-insert c.id _ m d,
    Entries-insert (λ k c. c.id ≡ k) c.id _ m
        (merged_with-id (lookup c.id m) c
          (λ x found. Entries-lookup (λ k c. c.id ≡ k) c.id x m e found))
        e,
  )

  pub step-Holds_new :
      (c : Found F A) (m : List (ℕ × Found F A))
      → Holds c (insert c.id (merged_with (lookup c.id m) c) m)
  step-Holds_new c m = (
    merged_with (lookup c.id m) c,
    lookup-insert_same c.id c.id _ m ((==_iff c.id c.id).1 refl),
    merged_with-Keeps_new (lookup c.id m) c,
  )

  pub step-Holds_old :
      (b c : Found F A) (m : List (ℕ × Found F A))
      → Holds b m
      → Holds b (insert c.id (merged_with (lookup c.id m) c) m)
  step-Holds_old b c m (r, found, keeps) = elim (Bool-cases (c.id == b.id)) [
    | inl same ↦
        let e : c.id ≡ b.id = (==_iff c.id b.id).0 same in
        let there : lookup c.id m ≡ some r = rw e found in
        (
          merged_with (lookup c.id m) c,
          lookup-insert_same c.id b.id _ m same,
          λ h. rw there (merged_with-Keeps_old r c (keeps h)),
        )
    | inr other ↦ (r, lookup-insert_other c.id b.id _ m other ∙ found, keeps)
  ]

  pub merge_group-Filed :
      (group : List (Found F A)) (m : List (ℕ × Found F A)) → Filed m → Filed (merge_group group m)
  unfolding merge_group
  merge_group-Filed [] m h = h
  merge_group-Filed (c ∷ group) m h = merge_group-Filed group _ (step-Filed c m h)

  pub merge_group-Holds_old :
      (group : List (Found F A)) (b : Found F A) (m : List (ℕ × Found F A))
      → Holds b m
      → Holds b (merge_group group m)
  unfolding merge_group
  merge_group-Holds_old [] b m h = h
  merge_group-Holds_old (c ∷ group) b m h = merge_group-Holds_old group b _ (step-Holds_old b c m h)

  pub merge_group-Holds_new :
      (group : List (Found F A)) (b : Found F A) (m : List (ℕ × Found F A))
      → In b group
      → Holds b (merge_group group m)
  unfolding merge_group
  merge_group-Holds_new [] b m i = absurd i
  merge_group-Holds_new (c ∷ group) b m (inl e) = merge_group-Holds_old group b _ (
      subst (λ x. Holds x (insert c.id (merged_with (lookup c.id m) c) m)) (sym e)
        (step-Holds_new c m))
  merge_group-Holds_new (c ∷ group) b m (inr i) = merge_group-Holds_new group b _ i

  pub merge_groups-Filed :
      (groups : List (List (Found F A))) (m : List (ℕ × Found F A))
      → Filed m
      → Filed (merge_groups groups m)
  unfolding merge_groups
  merge_groups-Filed [] m h = h
  merge_groups-Filed (group ∷ groups) m h =
      merge_groups-Filed groups _ (merge_group-Filed group m h)

  pub merge_groups-Holds_old :
      (groups : List (List (Found F A))) (b : Found F A) (m : List (ℕ × Found F A))
      → Holds b m
      → Holds b (merge_groups groups m)
  unfolding merge_groups
  merge_groups-Holds_old [] b m h = h
  merge_groups-Holds_old (group ∷ groups) b m h =
      merge_groups-Holds_old groups b _ (merge_group-Holds_old group b m h)

  pub merge_groups-Holds_new :
      (groups : List (List (Found F A))) (group : List (Found F A)) (b : Found F A)
      (m : List (ℕ × Found F A))
      → In group groups
      → In b group
      → Holds b (merge_groups groups m)
  unfolding merge_groups
  merge_groups-Holds_new [] group b m g i = absurd g
  merge_groups-Holds_new (g ∷ groups) group b m (inl e) i =
      merge_groups-Holds_old groups b _ (merge_group-Holds_new g b m (subst (In b) e i))
  merge_groups-Holds_new (g ∷ groups) group b m (inr h) i =
      merge_groups-Holds_new groups group b _ h i

-- ===== src/Search/Merge/Sorted.antt =====
-- internal/storage/sqlite_search.go: the order of the merged candidates.
use duvycrawl.Shared.{
  ℕ, ◌≡◌, ◌<◌, false, none, List, [], ◌∷◌, ltb, ◌==◌, nat_eq, In, All, All-map, inl, inr, arith,
  Bool-cases,
}
use duvycrawl.Shared.Maps.{lookup, Distinct}
use duvycrawl.Queue.Defs.{ScoreOrder}
use duvycrawl.Search.Merge.{Found, insert_by_id, sort_by_id}

module _ {F A : Type 0} ⦃o : ScoreOrder F⦄ where
  -- Every identifier is below all that follow.
  abbrev pub Ascending : List (ℕ × Found F A) → Type 0
  Ascending [] = Unit
  Ascending (p ∷ entries) = All (λ (q : ℕ × Found F A). p.0 < q.0) entries × Ascending entries

  pub insert_by_id-All :
      (P : ℕ × Found F A → Type 0) (p : ℕ × Found F A) (entries : List (ℕ × Found F A))
      → P p
      → All P entries
      → All P (insert_by_id p entries)
  unfolding insert_by_id
  insert_by_id-All P p [] h hs = (h, tt)
  insert_by_id-All P p (q ∷ entries) h (k, hs) = elim (Bool-cases (ltb q.0 p.0)) [
    | inl y ↦ rw y (k, insert_by_id-All P p entries h hs)
    | inr n ↦ rw n (h, (k, hs))
  ]

  pub sort_by_id-All :
      (P : ℕ × Found F A → Type 0) (entries : List (ℕ × Found F A))
      → All P entries
      → All P (sort_by_id entries)
  unfolding sort_by_id
  sort_by_id-All P [] h = tt
  sort_by_id-All P (p ∷ entries) (h, hs) =
      insert_by_id-All P p (sort_by_id entries) h (sort_by_id-All P entries hs)

  pub insert_by_id-Ascending :
      (p : ℕ × Found F A) (entries : List (ℕ × Found F A))
      → All (λ (q : ℕ × Found F A). (q.0 == p.0) ≡ false) entries
      → Ascending entries
      → Ascending (insert_by_id p entries)
  unfolding insert_by_id
  insert_by_id-Ascending p [] other h = (tt, tt)
  insert_by_id-Ascending p (q ∷ entries) (differs, other) (above, h) =
      elim (Bool-cases (ltb q.0 p.0)) [
        | inl y ↦ rw y (
          insert_by_id-All (λ r. q.0 < r.0) p entries (ground (arith, y)) above,
          insert_by_id-Ascending p entries other h,
        )
        | inr n ↦
            let first : p.0 < q.0 = ground (arith, n, differs) in
            rw n (
              (
                first,
                All-map (λ r. q.0 < r.0) (λ r. p.0 < r.0) entries (λ r a. omega (arith, first, a))
                    above,
              ),
              (above, h),
            )
      ]

  pub absent-All :
      (k : ℕ) (m : List (ℕ × Found F A))
      → lookup k m ≡ none
      → All (λ (q : ℕ × Found F A). (q.0 == k) ≡ false) m
  unfolding lookup
  absent-All k [] h = tt
  absent-All k ((j, c) ∷ m) h = (ground (arith, h), absent-All k m (ground (arith, h)))

  pub sort_by_id-Ascending : (m : List (ℕ × Found F A)) → Distinct m → Ascending (sort_by_id m)
  unfolding sort_by_id
  sort_by_id-Ascending [] h = tt
  sort_by_id-Ascending ((k, c) ∷ m) (absent, h) =
      insert_by_id-Ascending (k, c) (sort_by_id m)
        (sort_by_id-All (λ q. (q.0 == k) ≡ false) m (absent-All k m absent))
        (sort_by_id-Ascending m h)

  insert_by_id-In :
      (p q : ℕ × Found F A) (m : List (ℕ × Found F A)) → In q (p ∷ m) → In q (insert_by_id p m)
  unfolding insert_by_id
  insert_by_id-In p q [] i = i
  insert_by_id-In p q (r ∷ m) (inl e) = elim (Bool-cases (ltb r.0 p.0)) [
    | inl y ↦ rw y (inr (insert_by_id-In p q m (inl e)))
    | inr n ↦ rw n (inl e)
  ]
  insert_by_id-In p q (r ∷ m) (inr (inl e)) = elim (Bool-cases (ltb r.0 p.0)) [
    | inl y ↦ rw y (inl e)
    | inr n ↦ rw n (inr (inl e))
  ]
  insert_by_id-In p q (r ∷ m) (inr (inr j)) = elim (Bool-cases (ltb r.0 p.0)) [
    | inl y ↦ rw y (inr (insert_by_id-In p q m (inr j)))
    | inr n ↦ rw n (inr (inr j))
  ]

  pub sort_by_id-In : (p : ℕ × Found F A) (m : List (ℕ × Found F A)) → In p m → In p (sort_by_id m)
  unfolding sort_by_id
  sort_by_id-In p [] i = i
  sort_by_id-In p (q ∷ m) (inl e) = insert_by_id-In q p (sort_by_id m) (inl e)
  sort_by_id-In p (q ∷ m) (inr i) = insert_by_id-In q p (sort_by_id m) (inr (sort_by_id-In p m i))

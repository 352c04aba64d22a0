-- ===== src/Search/Promote/Laws.antt =====
-- internal/storage/sqlite_search.go: the promotion of a language loses no candidate.
use duvycrawl.Shared.{
  ℕ, suc, ◌+◌, ◌≡◌, refl, sym, subst, true, Option, none, some, List, [], ◌∷◌, ◌++◌, leb, length,
  get_elem?, ◌==◌, ==_iff, In, inl, inr, arith, Bool-cases, Option-cases,
}
use duvycrawl.Shared.Maps.{lookup}
use duvycrawl.Shared.Text.{Text, text_eq, member}
use duvycrawl.Search.Promote.{
  Ranked, Promoting, has_index, promote_index, promote_best, visit_domain, push_candidate,
  promote_loop, promote_language_per_domain, domain_of,
}

In-append_left : {A : Type 0} (a : A) (xs ys : List A) → In a xs → In a (xs ++ ys)
In-append_left a [] ys i = absurd i
In-append_left a (x ∷ xs) ys (inl e) = inl e
In-append_left a (x ∷ xs) ys (inr i) = inr (In-append_left a xs ys i)

In-last : {A : Type 0} (a : A) (xs : List A) → In a (xs ++ (a ∷ []))
In-last a [] = inl refl
In-last a (x ∷ xs) = inr (In-last a xs)

module _ (all_candidates : List Ranked) where
  -- What is marked as promoted stands in the result.
  abbrev pub Marked : Promoting → Type 0
  Marked p =
      (j : ℕ) (c : Ranked)
      → has_index j p.seen_best ≡ true
      → get_elem? all_candidates j ≡ some c
      → In c p.result

  -- A step keeps the result and the marks true.
  abbrev pub Grows : Promoting → Promoting → Type 0
  Grows p q = ((c : Ranked) → In c p.result → In c q.result) × (Marked p → Marked q)

  promote_index-Grows : (best : ℕ) (p : Promoting) → Grows p (promote_index all_candidates best p)
  unfolding promote_index
  promote_index-Grows best p = elim (Option-cases (get_elem? all_candidates best)) [
    | inl e ↦ rw (e, promote_index) (λ c i. i, λ m. m)
    | inr (b, e) ↦
        rw (e, promote_index)
          (
            λ c i. In-append_left c p.result (b ∷ []) i,
            λ m j c h at. elim (Bool-cases (best == j)) [
              | inl same ↦
                  let j_best : best ≡ j = (==_iff best j).0 same in
                  let found : get_elem? all_candidates best ≡ some c = rw j_best at in
                  let it : b ≡ c = cc in
                  subst (λ x. In c (p.result ++ (x ∷ []))) (sym it) (In-last c p.result)
              | inr other ↦ In-append_left c p.result (b ∷ []) (m j c (ground (arith, h, other)) at)
            ],
          )
  ]

  promote_best-Grows :
      (best : Option ℕ) (i : ℕ) (p : Promoting) → Grows p (promote_best all_candidates best i p)
  unfolding promote_best
  promote_best-Grows none i p = (λ c j. j, λ m. m)
  promote_best-Grows (some best) i p = elim (Bool-cases (best == i)) [
    | inl y ↦ rw y (λ c j. j, λ m. m)
    | inr n ↦ rw n (promote_index-Grows best p)
  ]

  visit_domain-Grows :
      (best : List (Text × ℕ)) (d : Text) (i : ℕ) (p : Promoting)
      → Grows p (visit_domain all_candidates best d i p)
  unfolding visit_domain
  visit_domain-Grows best d i p = elim (Bool-cases (member d p.domain_seen)) [
    | inl y ↦ rw y (λ c j. j, λ m. m)
    | inr n ↦
        rw n (promote_best-Grows (lookup d best) i (record p { domain_seen = d ∷ p.domain_seen }))
  ]

  push_candidate-Grows :
      (c : Ranked) (i : ℕ) (p : Promoting) → Grows p (push_candidate all_candidates c i p)
  unfolding push_candidate
  push_candidate-Grows c i p = elim (Bool-cases (has_index i p.seen_best)) [
    | inl y ↦ rw y (λ d j. j, λ m. m)
    | inr n ↦ rw n (
      λ d j. In-append_left d p.result (c ∷ []) j,
      λ m j d h at. In-append_left d p.result (c ∷ []) (m j d h at),
    )
  ]

  -- After its turn a candidate is in the result.
  push_candidate-adds :
      (c : Ranked) (i : ℕ) (p : Promoting)
      → Marked p
      → get_elem? all_candidates i ≡ some c
      → In c (push_candidate all_candidates c i p).result
  unfolding push_candidate
  push_candidate-adds c i p m at = elim (Bool-cases (has_index i p.seen_best)) [
    | inl y ↦ rw y (m i c y at)
    | inr n ↦ rw n (In-last c p.result)
  ]

  module _ (domain : Ranked → Text) (best : List (Text × ℕ)) where
    promote_loop-keeps :
        (cs : List Ranked) (i : ℕ) (p : Promoting) (c : Ranked)
        → In c p.result
        → In c (promote_loop all_candidates domain best i cs p).result
    unfolding promote_loop
    promote_loop-keeps [] i p c h = h
    promote_loop-keeps (b ∷ cs) i p c h = promote_loop-keeps cs (suc i) _ c (
        (push_candidate-Grows b i (visit_domain all_candidates best (domain b) i p)).0 c
          ((visit_domain-Grows best (domain b) i p).0 c h))

    promote_loop-adds :
        (cs : List Ranked) (i : ℕ) (p : Promoting) (c : Ranked)
        → Marked p
        → ((k : ℕ) (d : Ranked)
            → get_elem? cs k ≡ some d
            → get_elem? all_candidates (k + i) ≡ some d)
        → In c cs
        → In c (promote_loop all_candidates domain best i cs p).result
    unfolding promote_loop
    promote_loop-adds [] i p c m aligned h = absurd h
    promote_loop-adds (b ∷ cs) i p c m aligned (inl e) =
        let zero_add : 0 + i ≡ i = omega arith in
        promote_loop-keeps cs (suc i) _ c (
          subst
            (λ x.
              In x
                (push_candidate all_candidates b i
                  (visit_domain all_candidates best (domain b) i p)).result)
            (sym e)
            (push_candidate-adds b i (visit_domain all_candidates best (domain b) i p)
              ((visit_domain-Grows best (domain b) i p).1 m)
              (subst (λ n. get_elem? all_candidates n ≡ some b) zero_add (aligned 0 b refl))))
    promote_loop-adds (b ∷ cs) i p c m aligned (inr h) =
        promote_loop-adds cs (suc i) _ c
          ((push_candidate-Grows b i (visit_domain all_candidates best (domain b) i p)).1
            ((visit_domain-Grows best (domain b) i p).1 m))
          (λ k d at.
            let moved : suc k + i ≡ k + suc i = omega arith in
            subst (λ n. get_elem? all_candidates n ≡ some d) moved (aligned (suc k) d at))
          h

-- Every candidate is among the result, whatever the languages and the domains are.
pub promote_language_per_domain-In :
    (effective_domain : Text → Text) (candidates : List Ranked) (lang secondary_lang : Text)
    (c : Ranked)
    → In c candidates
    → In c (promote_language_per_domain effective_domain candidates lang secondary_lang)
unfolding promote_language_per_domain
promote_language_per_domain-In effective_domain candidates lang secondary_lang c h =
    elim (Bool-cases (leb (length candidates) 1)) [
      | inl y ↦ rw y h
      | inr n ↦ rw n (
          promote_loop-adds candidates (domain_of effective_domain lang secondary_lang) _ candidates
            0 _ c (λ j d k at. absurd (ground (arith, k)))
            (λ k d at.
              let same : k ≡ k + 0 = omega arith in
              subst (λ n. get_elem? candidates n ≡ some d) same at)
            h)
    ]

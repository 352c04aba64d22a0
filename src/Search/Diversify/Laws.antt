-- ===== src/Search/Diversify/Laws.antt =====
-- internal/storage/sqlite_search.go: what `diversifyByDomain` answers.
use mathlib.Core.List.{append-nil, Perm, perm_append_comm}
use mathlib.Core.List.Perm
use duvycrawl.Shared.{
  ℕ, zero, suc, ◌≤◌, ◌<◌, ◌≡◌, refl, sym, false, some, List, [], ◌∷◌, ◌++◌, length, All, arith, inl,
  inr, Bool-cases, nat_eq,
}
use duvycrawl.Shared.Text.{Text, text_eq}
use duvycrawl.Search.Diversify.{
  Candidate, Placing, place_all, place_deferred, nothing_placed, diversify_by_domain,
}
use duvycrawl.Search.Diversify.Passes.{
  Spread, nothing, Full, Sound, all_of, place_all-Sound, place_all-Perm, place_all-fewer,
  place_all-Full, length-place_all, occurrences-nil, leb_of_le, not_leb_of_lt,
}

-- The candidates in another order: first, as many as can stand within the limits, and then those
-- of the domains that are full.
abbrev pub Diverse : List Candidate → List Candidate → Type 0
Diverse cs out =
    Perm out cs
    × ((front : List Candidate) × (tail : List Candidate) × (out ≡ front ++ tail)
        × Spread front
        × All (Full front) tail)

place_deferred-Diverse :
    (n : ℕ) (ds r : List Candidate) (m : List (Text × ℕ))
    → length ds ≤ n
    → Sound (record { result = r; domain_count = m; deferred = []; placed = false })
    → (out : List Candidate) × (place_deferred n ds r m ≡ some out) × Diverse (r ++ ds) out
unfolding place_deferred
place_deferred-Diverse n [] r m h s =
    (r, refl, (rw (append-nil r) (Perm.refl r), (r, [], sym (append-nil r), s.0, tt)))
place_deferred-Diverse zero (c ∷ cs) r m h s = absurd (omega (arith, h))
place_deferred-Diverse (suc n) (c ∷ cs) r m h s =
    let start : Placing = record { result = r; domain_count = m; deferred = []; placed = false } in
    let next = place_all (c ∷ cs) start in
    let sound = place_all-Sound (c ∷ cs) start s in
    let perm : Perm (next.result ++ next.deferred) (r ++ (c ∷ cs)) =
      Perm.trans (place_all-Perm (c ∷ cs) start)
        (Perm.trans (perm_append_comm (c ∷ cs) (all_of start)) (rw (append-nil r) (Perm.refl _))) in
    elim (Bool-cases next.placed) [
      | inl placed ↦
          let (out, done, (kept, rest)) =
            place_deferred-Diverse n next.deferred next.result next.domain_count
              (omega (arith, h, place_all-fewer (c ∷ cs) start refl placed)) sound in
          (out, rw (placed, done) refl, (Perm.trans kept perm, rest))
      | inr stuck ↦ (
        next.result ++ next.deferred,
        rw stuck refl,
        (
          perm,
          (next.result, next.deferred, refl, sound.0, place_all-Full (c ∷ cs) start s tt stuck),
        ),
      )
    ]

-- For more than three candidates and fuel not below their number, diversifyByDomain gives all of them in another
-- order: first a list in which every candidate stands behind fewer of its domain than
-- maxPerDomainAtPosition allows there, then only candidates of domains that are full. Up to three
-- candidates stay as they are.
pub diversify_by_domain-Diverse :
    (n : ℕ) (cs : List Candidate)
    → length cs ≤ n
    → (length cs ≤ 3 → diversify_by_domain n cs ≡ some cs)
      × (3 < length cs
          → (out : List Candidate) × (diversify_by_domain n cs ≡ some out) × Diverse cs out)
unfolding diversify_by_domain
diversify_by_domain-Diverse n cs h =
    let first = place_all cs nothing_placed in
    let nil_sound : Sound nothing_placed = (nothing, λ d. occurrences-nil d) in
    let fewer = length-place_all cs nothing_placed in
    let (out, done, (kept, rest)) =
      place_deferred-Diverse n first.deferred first.result first.domain_count
        (omega (arith, h, fewer)) (place_all-Sound cs nothing_placed nil_sound) in
    (
      λ few. rw (leb_of_le _ _ few) refl,
      λ many. (
        out,
        rw (not_leb_of_lt _ _ many, done) refl,
        (
          Perm.trans kept
              (Perm.trans (place_all-Perm cs nothing_placed) (rw (append-nil cs) (Perm.refl cs))),
          rest,
        ),
      ),
    )

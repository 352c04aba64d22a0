-- ===== src/Search/Diversify/Passes.antt =====
-- internal/storage/sqlite_search.go: the loops of `diversifyByDomain`.
use mathlib.Core.List.{append_assoc, Perm, perm_middle, perm_append_singleton}
use mathlib.Core.List.Perm
use duvycrawl.Shared.{
  ℕ, suc, ◌+◌, ◌≤◌, ◌<◌, ◌≡◌, refl, sym, subst, Bool, true, false, List, [], ◌∷◌, ◌++◌,
  if◌then◌else◌, ltb, leb, length, length-append, All, All-append, arith, inl, inr, ◌⊎◌, Bool-cases,
  nat_eq,
}
use duvycrawl.Shared.Maps.{lookup, insert, lookup-insert}
use duvycrawl.Shared.Text.{Text, text_eq}
use duvycrawl.Search.Diversify.{
  Candidate, max_per_domain_at_position, count_of, Placing, place, place_all,
}

-- How many candidates of a list are of a domain.
unfoldable pub occurrences : Text → List Candidate → ℕ
occurrences d [] = 0
occurrences d (c ∷ cs) = if text_eq.beq c.domain d then suc (occurrences d cs) else occurrences d cs

-- Every candidate stands behind fewer of its domain than its position allows.
pub data Spread : List Candidate → Type 0 where
  nothing : Spread []
  one_more :
      {r : List Candidate} (c : Candidate)
      → Spread r
      → occurrences c.domain r < max_per_domain_at_position (length r)
      → Spread (r ++ c ∷ [])

-- No further candidate of the domain may stand at the end of the list.
abbrev pub Full : List Candidate → Candidate → Type 0
Full r c = max_per_domain_at_position (length r) ≤ occurrences c.domain r

abbrev pub Sound : Placing → Type 0
Sound p = Spread p.result × ((d : Text) → count_of d p.domain_count ≡ occurrences d p.result)

abbrev pub all_of : Placing → List Candidate
all_of p = p.result ++ p.deferred

occurrences-append :
    (d : Text) (c : Candidate) (r : List Candidate)
    → occurrences d (r ++ c ∷ [])
      ≡ (if text_eq.beq c.domain d then suc (occurrences d r) else occurrences d r)
unfolding occurrences
occurrences-append d c [] = refl
occurrences-append d c (b ∷ r) = ground (arith, occurrences-append d c r)

count_of-insert :
    (d k : Text) (n : ℕ) (m : List (Text × ℕ))
    → count_of d (insert k n m) ≡ (if text_eq.beq k d then n else count_of d m)
count_of-insert d k n m = elim (Bool-cases (text_eq.beq k d)) [
  | inl same ↦ rw (lookup-insert k d n m, same) refl
  | inr other ↦ rw (lookup-insert k d n m, other) refl
]

abbrev may_stand : Candidate → Placing → Bool
may_stand c p =
    ltb (count_of c.domain p.domain_count) (max_per_domain_at_position (length p.result))

abbrev placed_in : Candidate → Placing → Placing
placed_in c p = record {
  result = p.result ++ c ∷ [];
  domain_count = insert c.domain (count_of c.domain p.domain_count + 1) p.domain_count;
  deferred = p.deferred;
  placed = true;
}

abbrev put_off : Candidate → Placing → Placing
put_off c p = record p { deferred = p.deferred ++ c ∷ [] }

lt_of_ltb : (a b : ℕ) → ltb a b ≡ true → a < b
lt_of_ltb a b h = ground arith

le_of_not_ltb : (a b : ℕ) → ltb a b ≡ false → b ≤ a
le_of_not_ltb a b h = ground arith

pub leb_of_le : (a b : ℕ) → a ≤ b → leb a b ≡ true
leb_of_le a b h = ground arith

pub not_leb_of_lt : (a b : ℕ) → b < a → leb a b ≡ false
not_leb_of_lt a b h = ground arith

pub occurrences-nil : (d : Text) → count_of d [] ≡ occurrences d []
unfolding occurrences lookup
occurrences-nil d = refl

place-cases :
    (c : Candidate) (p : Placing)
    → ((may_stand c p ≡ true) × (place c p ≡ placed_in c p))
      ⊎ ((may_stand c p ≡ false) × (place c p ≡ put_off c p))
unfolding place
place-cases c p = elim (Bool-cases (may_stand c p)) [
  | inl fits ↦ inl (fits, rw fits refl)
  | inr full ↦ inr (full, rw full refl)
]

placed_in-Sound :
    (c : Candidate) (p : Placing) → may_stand c p ≡ true → Sound p → Sound (placed_in c p)
placed_in-Sound c p fits s = (
  one_more c s.0 (
      subst (λ k. k < max_per_domain_at_position (length p.result)) (s.1 c.domain)
        (lt_of_ltb _ _ fits)),
  λ d. counted d (Bool-cases _),
)
  where
    counted :
        (d : Text)
        → (text_eq.beq c.domain d ≡ true) ⊎ (text_eq.beq c.domain d ≡ false)
        → count_of d (insert c.domain (count_of c.domain p.domain_count + 1) p.domain_count)
          ≡ occurrences d (p.result ++ c ∷ [])
    counted d (inl same) =
        rw (count_of-insert d c.domain (count_of c.domain p.domain_count + 1) p.domain_count) (
          rw (occurrences-append d c p.result, same)
            (rw (s.1 c.domain, (text_eq.beq_iff c.domain d).0 same) (omega arith)))
    counted d (inr other) =
        rw (count_of-insert d c.domain (count_of c.domain p.domain_count + 1) p.domain_count)
          (rw (occurrences-append d c p.result, other) (s.1 d))

place-Sound : (c : Candidate) (p : Placing) → Sound p → Sound (place c p)
place-Sound c p s = elim (place-cases c p) [
  | inl (fits, e) ↦ rw e (placed_in-Sound c p fits s)
  | inr (full, e) ↦ rw e s
]

place-Perm : (c : Candidate) (p : Placing) → Perm (all_of (place c p)) (c ∷ all_of p)
place-Perm c p = elim (place-cases c p) [
  | inl (fits, e) ↦
      rw (e, append_assoc p.result (c ∷ []) p.deferred) (perm_middle p.result p.deferred)
  | inr (full, e) ↦
      rw (e, sym (append_assoc p.result p.deferred (c ∷ []))) (perm_append_singleton c (all_of p))
]

pub place_all-Sound : (cs : List Candidate) (p : Placing) → Sound p → Sound (place_all cs p)
unfolding place_all
place_all-Sound [] p s = s
place_all-Sound (c ∷ cs) p s = place_all-Sound cs (place c p) (place-Sound c p s)

pub place_all-Perm :
    (cs : List Candidate) (p : Placing) → Perm (all_of (place_all cs p)) (cs ++ all_of p)
unfolding place_all
place_all-Perm [] p = Perm.refl _
place_all-Perm (c ∷ cs) p =
    Perm.trans (place_all-Perm cs (place c p))
      (Perm.trans (Perm.append (Perm.refl cs) (place-Perm c p)) (perm_middle cs (all_of p)))

place_all-placed :
    (cs : List Candidate) (p : Placing) → p.placed ≡ true → (place_all cs p).placed ≡ true
unfolding place_all
place_all-placed [] p h = h
place_all-placed (c ∷ cs) p h = elim (place-cases c p) [
  | inl (fits, e) ↦ place_all-placed cs (place c p) (rw e refl)
  | inr (full, e) ↦ place_all-placed cs (place c p) (rw e h)
]

pub length-place_all :
    (cs : List Candidate) (p : Placing)
    → length (place_all cs p).deferred ≤ length p.deferred + length cs
unfolding place_all
length-place_all [] p = omega arith
length-place_all (c ∷ cs) p = elim (place-cases c p) [
  | inl (fits, e) ↦
      subst (λ q. length (place_all cs q).deferred ≤ length p.deferred + suc (length cs)) (sym e)
        (omega (arith, length-place_all cs (placed_in c p)))
  | inr (full, e) ↦
      subst (λ q. length (place_all cs q).deferred ≤ length p.deferred + suc (length cs)) (sym e)
        (omega (arith, length-place_all cs (put_off c p), length-append p.deferred (c ∷ [])))
]

-- A loop that places a candidate leaves fewer than it was given.
pub place_all-fewer :
    (cs : List Candidate) (p : Placing)
    → p.placed ≡ false
    → (place_all cs p).placed ≡ true
    → length (place_all cs p).deferred < length p.deferred + length cs
unfolding place_all
place_all-fewer [] p h k = absurd (ground (arith, h, k))
place_all-fewer (c ∷ cs) p h k = elim (place-cases c p) [
  | inl (fits, e) ↦
      subst (λ q. length (place_all cs q).deferred < length p.deferred + suc (length cs)) (sym e)
        (omega (arith, length-place_all cs (placed_in c p)))
  | inr (full, e) ↦
      subst (λ q. length (place_all cs q).deferred < length p.deferred + suc (length cs)) (sym e)
        (omega (
          arith,
          place_all-fewer cs (put_off c p) h (subst (λ q. (place_all cs q).placed ≡ true) e k),
          length-append p.deferred (c ∷ []),
        ))
]

-- A loop that places none changes only what is put off, and that is full.
pub place_all-Full :
    (cs : List Candidate) (p : Placing)
    → Sound p
    → All (Full p.result) p.deferred
    → (place_all cs p).placed ≡ false
    → All (Full (place_all cs p).result) (place_all cs p).deferred
unfolding place_all
place_all-Full [] p s f h = f
place_all-Full (c ∷ cs) p s f h = elim (place-cases c p) [
  | inl (fits, e) ↦
      let t = place_all-placed cs (place c p) (rw e refl) in absurd (ground (arith, t, h))
  | inr (full, e) ↦
      subst (λ q. All (Full (place_all cs q).result) (place_all cs q).deferred) (sym e)
        (place_all-Full cs (put_off c p) s
          (All-append (Full p.result) p.deferred (c ∷ []) f (
            subst (λ k. max_per_domain_at_position (length p.result) ≤ k) (s.1 c.domain)
                (le_of_not_ltb _ _ full),
            tt,
          ))
          (subst (λ q. (place_all cs q).placed ≡ false) e h))
]

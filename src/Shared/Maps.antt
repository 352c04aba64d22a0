-- ===== src/Shared/Maps.antt =====
-- Go maps as association lists: `m[k]`, `m[k] = v` and `delete(m, k)`, with their laws.
use Prim.Native.Nat.{ℕ, ◌+◌}
use mathlib.Core.Path.{◌≡◌, refl, ◌∙◌, subst₂}
use mathlib.Core.Logic.{inl, inr}
use mathlib.Core.List.{List, [], ◌∷◌}
use mathlib.Core.Option.{Option, none, some}
use native.Mathlib.Omega.{arith}
use mathlib.Core.Bool.{true, false}
use mathlib.Core.Path.{sym, ap, subst}
use duvycrawl.Shared.Lists.{In}
use duvycrawl.Shared.Tests.{if◌then◌else◌, Eq, Bool-cases}

-- A missing key reads as the nil slice.
abbrev pub or_nil {κ} : {V : Type κ} → Option (List V) → List V
or_nil none = []
or_nil (some xs) = xs

-- A missing key reads as 0.
abbrev pub or_zero : Option ℕ → ℕ
or_zero none = 0
or_zero (some n) = n

-- The sum of a measure over the values, as a loop over the map computes it.
abbrev pub total {ℓ κ} : {K : Type ℓ} {V : Type κ} → (V → ℕ) → List (K × V) → ℕ
total w [] = 0
total w ((k, v) ∷ m) = w v + total w m

abbrev pub weight {κ} : {V : Type κ} → (V → ℕ) → Option V → ℕ
weight w none = 0
weight w (some v) = w v

module _ {ℓ κ} {K : Type ℓ} {V : Type κ} ⦃e : Eq K⦄ where
  unfoldable pub lookup : K → List (K × V) → Option V
  lookup k [] = none
  lookup k ((j, v) ∷ m) = if e.beq j k then some v else lookup k m

  unfoldable pub insert : K → V → List (K × V) → List (K × V)
  insert k v [] = (k, v) ∷ []
  insert k v ((j, w) ∷ m) = if e.beq j k then (j, v) ∷ m else (j, w) ∷ insert k v m

  unfoldable pub delete : K → List (K × V) → List (K × V)
  delete k [] = []
  delete k ((j, w) ∷ m) = if e.beq j k then delete k m else (j, w) ∷ delete k m

  pub lookup-insert :
      (k j : K) (v : V) (m : List (K × V))
      → lookup j (insert k v m) ≡ (if e.beq k j then some v else lookup j m)
  unfolding lookup insert
  lookup-insert k j v [] = refl
  lookup-insert k j v ((i, w) ∷ m) =
      ground (arith, e.beq_iff k j, e.beq_iff i k, e.beq_iff i j, lookup-insert k j v m)

  pub lookup-insert_same :
      (k j : K) (v : V) (m : List (K × V)) → e.beq k j ≡ true → lookup j (insert k v m) ≡ some v
  lookup-insert_same k j v m same = rw (lookup-insert k j v m) (rw same refl)

  pub lookup-insert_other :
      (k j : K) (v : V) (m : List (K × V))
      → e.beq k j ≡ false
      → lookup j (insert k v m) ≡ lookup j m
  lookup-insert_other k j v m other = rw (lookup-insert k j v m) (rw other refl)

  pub lookup-delete :
      (k j : K) (m : List (K × V))
      → lookup j (delete k m) ≡ (if e.beq k j then none else lookup j m)
  unfolding lookup delete
  lookup-delete k j [] = ground arith
  lookup-delete k j ((i, w) ∷ m) =
      ground (arith, e.beq_iff k j, e.beq_iff i k, e.beq_iff i j, lookup-delete k j m)

  -- No key stands twice.
  abbrev pub Distinct : List (K × V) → Type κ
  Distinct [] = Unit
  Distinct ((k, v) ∷ m) = (lookup k m ≡ none) × Distinct m

  pub Distinct-insert : (k : K) (v : V) (m : List (K × V)) → Distinct m → Distinct (insert k v m)
  unfolding insert lookup
  Distinct-insert k v [] h = (refl, tt)
  Distinct-insert k v ((j, w) ∷ m) h = elim (Bool-cases (e.beq j k)) [
    | inl same ↦ rw same h
    | inr other ↦ rw other (
      lookup-insert k j v m ∙ ground (arith, e.beq_iff k j, e.beq_iff j k, h.0),
      Distinct-insert k v m h.1,
    )
  ]

  pub Distinct-delete : (k : K) (m : List (K × V)) → Distinct m → Distinct (delete k m)
  unfolding delete lookup
  Distinct-delete k [] h = tt
  Distinct-delete k ((j, w) ∷ m) h = elim (Bool-cases (e.beq j k)) [
    | inl same ↦ rw same (Distinct-delete k m h.1)
    | inr other ↦ rw other (lookup-delete k j m ∙ ground (arith, h.0), Distinct-delete k m h.1)
  ]

  pub delete_absent : (k : K) (m : List (K × V)) → lookup k m ≡ none → delete k m ≡ m
  unfolding delete lookup
  delete_absent k [] h = refl
  delete_absent k ((j, w) ∷ m) h = ground (arith, delete_absent k m)

  pub total-insert :
      (w : V → ℕ) (k : K) (v : V) (m : List (K × V))
      → total w (insert k v m) + weight w (lookup k m) ≡ total w m + w v
  unfolding insert lookup
  total-insert w k v [] = omega arith
  total-insert w k v ((j, u) ∷ m) = elim (Bool-cases (e.beq j k)) [
    | inl same ↦ rw same (omega arith)
    | inr other ↦ rw other (omega (arith, total-insert w k v m))
  ]

  pub total-delete :
      (w : V → ℕ) (k : K) (m : List (K × V))
      → Distinct m
      → total w (delete k m) + weight w (lookup k m) ≡ total w m
  unfolding delete lookup
  total-delete w k [] h = omega arith
  total-delete w k ((j, u) ∷ m) h = elim (Bool-cases (e.beq j k)) [
    | inl same ↦
        let here : j ≡ k = (e.beq_iff j k).0 same in
        rw (same, delete_absent k m (ground (arith, h.0))) (omega arith)
    | inr other ↦ rw other (omega (arith, total-delete w k m h.1))
  ]

module _ {ℓ κ μ} {K : Type ℓ} {V : Type κ} ⦃e : Eq K⦄ (P : K → V → Type μ) where
  -- Every entry satisfies `P`.
  abbrev pub Entries : List (K × V) → Type μ
  Entries [] = Unit
  Entries ((k, v) ∷ m) = P k v × Entries m

  pub Entries-insert :
      (k : K) (v : V) (m : List (K × V)) → P k v → Entries m → Entries (insert k v m)
  unfolding insert
  Entries-insert k v [] p h = (p, tt)
  Entries-insert k v ((j, w) ∷ m) p h = elim (Bool-cases (e.beq j k)) [
    | inl same ↦ rw same (rw ((e.beq_iff j k).0 same) p, h.1)
    | inr other ↦ rw other (h.0, Entries-insert k v m p h.1)
  ]

  pub Entries-delete : (k : K) (m : List (K × V)) → Entries m → Entries (delete k m)
  unfolding delete
  Entries-delete k [] h = tt
  Entries-delete k ((j, w) ∷ m) h = elim (Bool-cases (e.beq j k)) [
    | inl same ↦ rw same (Entries-delete k m h.1)
    | inr other ↦ rw other (h.0, Entries-delete k m h.1)
  ]

  pub Entries-lookup : (k : K) (v : V) (m : List (K × V)) → Entries m → lookup k m ≡ some v → P k v
  unfolding lookup
  Entries-lookup k v [] h f = absurd (cc)
  Entries-lookup k v ((j, w) ∷ m) h f = elim (Bool-cases (e.beq j k)) [
    | inl same ↦
        let here : j ≡ k = (e.beq_iff j k).0 same in
        let value : w ≡ v = ground (arith, f) in subst₂ P here value h.0
    | inr other ↦ Entries-lookup k v m h.1 (ground (arith, f))
  ]

-- The entries of a map with distinct keys are what its keys look up.
module _ {K V : Type 0} ⦃e : Eq K⦄ where
  pub In-lookup : (k : K) (v : V) (m : List (K × V)) → lookup k m ≡ some v → In (k, v) m
  unfolding lookup
  In-lookup k v [] h = cc
  In-lookup k v ((j, w) ∷ m) h = elim (Bool-cases (e.beq j k)) [
    | inl same ↦
        let found : some w ≡ some v = rw same at h in
        let it : w ≡ v = cc in inl (rw ((e.beq_iff j k).0 same, it) refl)
    | inr other ↦ inr (In-lookup k v m (rw other at h))
  ]

  pub lookup-In :
      (k : K) (v : V) (m : List (K × V)) → Distinct m → In (k, v) m → lookup k m ≡ some v
  unfolding lookup
  lookup-In k v [] d i = absurd i
  lookup-In k v ((j, w) ∷ m) d (inl i) =
      let same : k ≡ j = ap (λ (x : K × V). x.0) i in
      let it : v ≡ w = ap (λ (x : K × V). x.1) i in rw ((e.beq_iff j k).1 (sym same), it) refl
  lookup-In k v ((j, w) ∷ m) d (inr i) =
      let found = lookup-In k v m d.1 i in
      elim (Bool-cases (e.beq j k)) [
        | inl same ↦
            let missing : lookup k m ≡ none =
              subst (λ x. lookup x m ≡ none) ((e.beq_iff j k).0 same) d.0 in
            cc
        | inr other ↦ rw (other, found) refl
      ]

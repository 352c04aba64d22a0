-- ===== src/SiteHints/Domains.antt =====
-- internal/sitehints: when one host belongs to two domains.
use mathlib.Core.List.{reverse, reverse-cons}
use duvycrawl.Shared.{
  ◌≡◌, refl, subst, Bool, true, ◌||◌, List, [], ◌∷◌, ◌++◌, any, any-In, any-elim, inl, inr, arith,
  Bool-cases,
}
use duvycrawl.Shared.Text.{Text, text_beq, text_beq_iff, text_eq, has_prefix, has_suffix}
use duvycrawl.SiteHints.Registry.{matches_domain}

-- A host or a domain from its end, with a dot behind its first label.
unfoldable pub rooted : Text → Text
rooted d = reverse d ++ 46 ∷ []

has_prefix_refl : (s : Text) → has_prefix s s ≡ true
unfolding has_prefix
has_prefix_refl [] = refl
has_prefix_refl (c ∷ s) = ground (arith, has_prefix_refl s)

has_prefix_append : (s t p : Text) → has_prefix s p ≡ true → has_prefix (s ++ t) p ≡ true
unfolding has_prefix
has_prefix_append s t [] h = prefix_nil (s ++ t)
  where
    prefix_nil : (x : Text) → has_prefix x [] ≡ true
    prefix_nil [] = refl
    prefix_nil (c ∷ x) = refl
has_prefix_append [] t (d ∷ p) h = cc
has_prefix_append (c ∷ s) t (d ∷ p) h = ground (arith, has_prefix_append s t p)

-- Of two prefixes of one text, one is a prefix of the other.
has_prefix_total :
    (s p q : Text)
    → has_prefix s p ≡ true
    → has_prefix s q ≡ true
    → (has_prefix p q || has_prefix q p) ≡ true
unfolding has_prefix
has_prefix_total s [] [] h k = refl
has_prefix_total s [] (d ∷ q) h k = refl
has_prefix_total s (c ∷ p) [] h k = refl
has_prefix_total [] (c ∷ p) (d ∷ q) h k = cc
has_prefix_total (b ∷ s) (c ∷ p) (d ∷ q) h k = ground (arith, has_prefix_total s p q)

-- Two domains that one host can belong to.
unfoldable pub clash : Text → Text → Bool
unfolding rooted has_prefix
clash d e = has_prefix (rooted d) (rooted e) || has_prefix (rooted e) (rooted d)

matches-rooted :
    (host d : Text)
    → (text_beq host d || has_suffix host (46 ∷ d)) ≡ true
    → has_prefix (rooted host) (rooted d) ≡ true
unfolding rooted has_suffix
matches-rooted host d h = elim (Bool-cases (text_beq host d)) [
  | inl same ↦
      subst (λ x. has_prefix (reverse host ++ 46 ∷ []) (reverse x ++ 46 ∷ []) ≡ true)
        ((text_beq_iff host d).0 same) (has_prefix_refl (reverse host ++ 46 ∷ []))
  | inr other ↦
      let sub : has_prefix (reverse host) (reverse (46 ∷ d)) ≡ true = rw other at h in
      has_prefix_append (reverse host) (46 ∷ []) (reverse d ++ 46 ∷ [])
        (subst (λ x. has_prefix (reverse host) x ≡ true) (reverse-cons 46 d) sub)
]

pub matches_domain-clash :
    (host : Text) (ds es : List Text)
    → matches_domain host ds ≡ true
    → matches_domain host es ≡ true
    → any (λ (d : Text). any (clash d) es) ds ≡ true
unfolding matches_domain clash
matches_domain-clash host ds es h k =
    let (d, i, m) = any-elim _ ds h in
    let (e, j, n) = any-elim _ es k in
    any-In (λ (d : Text). any (clash d) es) ds d i
      (any-In (clash d) es e j (
        has_prefix_total (rooted host) (rooted d) (rooted e) (matches-rooted host d m)
          (matches-rooted host e n)))

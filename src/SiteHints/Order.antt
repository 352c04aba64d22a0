-- ===== src/SiteHints/Order.antt =====
-- internal/sitehints: the order in which Go visits the registry does not matter.
use mathlib.Core.Bool.{false≢true}
use duvycrawl.Shared.{
  ◌≡◌, ◌⊎◌, ◌↔◌, refl, sym, ap, ◌∙◌, subst, Bool, true, false, not, ◌&&◌, some, List, [], ◌∷◌, any,
  any-In, inl, inr, In, Bool-cases, Option-cases,
}
use duvycrawl.Shared.Maps.{lookup, In-lookup, lookup-In, Distinct}
use duvycrawl.Shared.Text.{Text, text_beq, text_beq_iff, text_eq}
use duvycrawl.Url.{Std}
use duvycrawl.SiteHints.Match.{plain, clean_path}
use duvycrawl.SiteHints.Registry.{
  PlatformRule, Registry, platform_rules, matches_domain, classify_any, classify_one,
  classify_parsed, classify, host_of,
}
use duvycrawl.SiteHints.Domains.{clash, matches_domain-clash}

-- Two rules with different names that one host can belong to.
abbrev rivals : Text × PlatformRule → Text × PlatformRule → Bool
rivals a b = not (text_beq a.0 b.0) && any (λ (d : Text). any (clash d) b.1.domains) a.1.domains

module _ ⦃std : Std⦄ (equal_fold : Text → Text → Bool) where
  no_rivals :
      any
        (λ (a : Text × PlatformRule). any (rivals a) (platform_rules equal_fold))
        (platform_rules equal_fold)
      ≡ false
  unfolding clash text_beq
  no_rivals = refl

  pub platform_rules-Distinct : Distinct (platform_rules equal_fold)
  unfolding lookup text_beq
  platform_rules-Distinct = (
    refl,
    (
      refl,
      (
        refl,
        (refl, (refl, (refl, (refl, (refl, (refl, (refl, (refl, (refl, (refl, (refl, tt))))))))))),
      ),
    ),
  )

  -- A host belongs to one platform at most.
  one_platform :
      (host : Text) (a b : Text × PlatformRule)
      → In a (platform_rules equal_fold)
      → In b (platform_rules equal_fold)
      → matches_domain host a.1.domains ≡ true
      → matches_domain host b.1.domains ≡ true
      → a ≡ b
  one_platform host (j, q) (k, r) i i' h h' = elim (Bool-cases (text_beq j k)) [
    | inl same ↦
        let found = lookup-In j q (platform_rules equal_fold) platform_rules-Distinct i in
        let found' = lookup-In k r (platform_rules equal_fold) platform_rules-Distinct i' in
        let names : j ≡ k = (text_beq_iff j k).0 same in
        let rules : some q ≡ some r =
          sym found
          ∙ subst (λ x. lookup j (platform_rules equal_fold) ≡ lookup x (platform_rules equal_fold))
              names refl
          ∙ found' in
        cc
    | inr other ↦
        let rival : rivals (j, q) (k, r) ≡ true =
          rw other (matches_domain-clash host q.domains r.domains h h') in
        let any_rival =
          any-In (λ (a : Text × PlatformRule). any (rivals a) (platform_rules equal_fold))
            (platform_rules equal_fold) (j, q) i
            (any-In (rivals (j, q)) (platform_rules equal_fold) (k, r) i' rival) in
        absurd (false≢true (sym no_rivals ∙ any_rival))
  ]

  none_with :
      (host k : Text) (r : PlatformRule) (rs : Registry)
      → matches_domain host r.domains ≡ false
      → ((e : Text × PlatformRule) → In e rs → matches_domain host e.1.domains ≡ false)
      → (e : Text × PlatformRule) → In e ((k, r) ∷ rs)
      → matches_domain host e.1.domains ≡ false
  none_with host k r rs other h e (inl same) =
      subst (λ (x : Text × PlatformRule). matches_domain host x.1.domains ≡ false) (sym same) other
  none_with host k r rs other h e (inr i) = h e i

  -- What the loop finds: the rule of a matching entry, or nothing where no entry matches.
  classify_any-cases :
      (rs : Registry) (host : Text) (parts : List Text)
      → (((e : Text × PlatformRule) → In e rs → matches_domain host e.1.domains ≡ false)
          × (classify_any equal_fold rs host parts ≡ plain []))
        ⊎ ((e : Text × PlatformRule) × In e rs
            × (matches_domain host e.1.domains ≡ true)
            × (classify_any equal_fold rs host parts ≡ e.1.classify_path parts))
  unfolding classify_any
  classify_any-cases [] host parts = inl ((λ e i. absurd i), refl)
  classify_any-cases ((k, r) ∷ rs) host parts = elim (Bool-cases (matches_domain host r.domains)) [
    | inl here ↦ inr ((k, r), inl refl, here, rw here refl)
    | inr other ↦ elim (classify_any-cases rs host parts) [
      | inl (none_here, e) ↦ inl (none_with host k r rs other none_here, rw other e)
      | inr (found, i, m, e) ↦ inr (found, inr i, m, rw other e)
    ]
  ]

  -- A visit of the registry: its entries in some order.
  abbrev pub IsVisit : Registry → Type 0
  IsVisit order =
      Distinct order × ((e : Text × PlatformRule) → In e order ↔ In e (platform_rules equal_fold))

  classify_any-order :
      (order : Registry) (host : Text) (parts : List Text)
      → IsVisit order
      → classify_any equal_fold order host parts
        ≡ classify_any equal_fold (platform_rules equal_fold) host parts
  classify_any-order order host parts (distinct, same) =
      elim (classify_any-cases order host parts) [
        | inl (out, e) ↦ elim (classify_any-cases (platform_rules equal_fold) host parts) [
          | inl (out', e') ↦ e ∙ sym e'
          | inr (b, i, m, e') ↦ absurd (false≢true (sym (out b ((same b).1 i)) ∙ m))
        ]
        | inr (a, i, m, e) ↦ elim (classify_any-cases (platform_rules equal_fold) host parts) [
          | inl (out', e') ↦ absurd (false≢true (sym (out' a ((same a).0 i)) ∙ m))
          | inr (b, j, n, e') ↦
              e
              ∙ ap (λ (x : Text × PlatformRule). x.1.classify_path parts)
                  (one_platform host a b ((same a).0 i) j m n)
              ∙ sym e'
        ]
      ]

  lookup-order :
      (order : Registry) (k : Text)
      → IsVisit order
      → lookup k order ≡ lookup k (platform_rules equal_fold)
  lookup-order order k (distinct, same) = elim (Option-cases (lookup k order)) [
    | inr (r, e) ↦
        e
        ∙ sym (
            lookup-In k r (platform_rules equal_fold) platform_rules-Distinct
              ((same (k, r)).0 (In-lookup k r order e)))
    | inl e ↦ elim (Option-cases (lookup k (platform_rules equal_fold))) [
      | inl e' ↦ e ∙ sym e'
      | inr (r, e') ↦
          lookup-In k r order distinct
            ((same (k, r)).1 (In-lookup k r (platform_rules equal_fold) e'))
          ∙ sym e'
    ]
  ]

  -- The order in which the registry is visited does not change a classification, since no host
  -- belongs to two platforms.
  pub classify_order :
      (order : Registry) (raw asked : Text)
      → IsVisit order
      → classify equal_fold order raw asked
        ≡ classify equal_fold (platform_rules equal_fold) raw asked
  unfolding classify classify_parsed
  classify_order order raw [] v = elim (Option-cases (std.parse raw)) [
    | inl bad ↦ rw (bad, classify) refl
    | inr (u, good) ↦ rw (good, classify) (classify_any-order order _ _ v)
  ]
  classify_order order raw (c ∷ asked) v = elim (Option-cases (std.parse raw)) [
    | inl bad ↦ rw (bad, classify) refl
    | inr (u, good) ↦
        rw (good, classify)
          (ap (λ o. classify_one equal_fold o (host_of equal_fold u) (clean_path u))
            (lookup-order order (c ∷ asked) v))
  ]

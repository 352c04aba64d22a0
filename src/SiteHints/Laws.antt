-- ===== src/SiteHints/Laws.antt =====
-- internal/sitehints: what every classification is.
use duvycrawl.Shared.{
  ◌≡◌, ◌⊎◌, refl, Bool, Option, none, some, List, [], ◌∷◌, inl, inr, In, All-In, Bool-cases,
  Option-cases,
}
use duvycrawl.Shared.Maps.{lookup, In-lookup}
use duvycrawl.Shared.Text.{Text, text_eq}
use duvycrawl.Url.{Std}
use duvycrawl.SiteHints.Match.{plain}
use duvycrawl.SiteHints.Registry.{
  PlatformRule, Registry, matches_domain, platform_rules, classify_any, classify_one,
  classify_parsed, classify,
}
use duvycrawl.SiteHints.Sound.{Formed, Sound, rules-Sound}

-- The rules are registered ones.
abbrev pub Registered : ⦃std : Std⦄ → (Text → Text → Bool) → Registry → Type 0
Registered equal_fold rs = (e : Text × PlatformRule) → In e rs → In e (platform_rules equal_fold)

module _ ⦃std : Std⦄ (equal_fold : Text → Text → Bool) where
  rule-Sound :
      (k : Text) (r : PlatformRule) (parts : List Text)
      → In (k, r) (platform_rules equal_fold)
      → Sound k (r.classify_path parts)
  rule-Sound k r parts i =
      All-In (λ (e : Text × PlatformRule). Sound e.0 (e.1.classify_path parts))
        (platform_rules equal_fold) (k, r) (rules-Sound equal_fold parts) i

  classify_any-Formed :
      (rs : Registry) (host : Text) (parts : List Text)
      → Registered equal_fold rs
      → Formed (classify_any equal_fold rs host parts)
  unfolding classify_any
  classify_any-Formed [] host parts h = inr (refl, refl, refl)
  classify_any-Formed ((name, r) ∷ rs) host parts h =
      elim (Bool-cases (matches_domain host r.domains)) [
        | inl here ↦ rw here (rule-Sound name r parts (h (name, r) (inl refl))).1
        | inr other ↦ rw other (classify_any-Formed rs host parts (λ e i. h e (inr i)))
      ]

  classify_one-Sound :
      (rs : Registry) (k host : Text) (parts : List Text)
      → Registered equal_fold rs
      → (o : Option PlatformRule) → lookup k rs ≡ o
      → Formed (classify_one equal_fold o host parts)
        × ((classify_one equal_fold o host parts ≡ plain [])
            ⊎ ((classify_one equal_fold o host parts).platform ≡ k))
  unfolding classify_one
  classify_one-Sound rs k host parts h none e = (inr (refl, refl, refl), inl refl)
  classify_one-Sound rs k host parts h (some r) e =
      elim (Bool-cases (matches_domain host r.domains)) [
        | inl here ↦
            let (named, formed) = rule-Sound k r parts (h (k, r) (In-lookup k r rs e)) in
            rw here (formed, inr named)
        | inr other ↦ rw other (inr (refl, refl, refl), inl refl)
      ]

  -- Whatever the URL, the asked platform and the order of the registry, a result is a hub with a
  -- boost and no penalty, or no hub and then has no boost and no name; and if a platform is asked
  -- for, the result is empty or names that platform.
  pub classify-Formed :
      (rs : Registry) (raw asked : Text)
      → Registered equal_fold rs
      → Formed (classify equal_fold rs raw asked)
        × ((asked ≡ [])
            ⊎ (classify equal_fold rs raw asked ≡ plain [])
            ⊎ ((classify equal_fold rs raw asked).platform ≡ asked))
  unfolding classify classify_parsed
  classify-Formed rs raw [] h = elim (Option-cases (std.parse raw)) [
    | inl bad ↦ rw (bad, classify) (inr (refl, refl, refl), inl refl)
    | inr (u, good) ↦ rw (good, classify) (classify_any-Formed rs _ _ h, inl refl)
  ]
  classify-Formed rs raw (c ∷ asked) h = elim (Option-cases (std.parse raw)) [
    | inl bad ↦ rw (bad, classify) (inr (refl, refl, refl), inr (inl refl))
    | inr (u, good) ↦
        let (formed, named) =
          classify_one-Sound rs (c ∷ asked) _ _ h (lookup (c ∷ asked) rs) refl in
        rw (good, classify) (formed, inr named)
  ]

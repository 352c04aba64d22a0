-- ===== src/SiteHints/Sound.antt =====
-- internal/sitehints: what each rule gives.
use duvycrawl.Shared.{
  ℕ, ◌≡◌, ◌⊎◌, ◌<◌, refl, Bool, true, false, List, [], ◌∷◌, if◌then◌else◌, inl, inr, arith, All,
}
use duvycrawl.Shared.Text.{Text, codes, text_eq}
use duvycrawl.Url.{Std}
use duvycrawl.SiteHints.Match.{HubMatch, plain, hub, deeper}
use duvycrawl.SiteHints.Media.{
  reddit, youtube, youtube_page, youtube_handle, wikipedia, stackoverflow, stackoverflow_users,
  twitch,
}
use duvycrawl.SiteHints.Code.{
  github, github_repo, github_section, gitlab, gitlab_repo, gitlab_section, npm, npm_package, pypi,
  docker, nuget,
}
use duvycrawl.SiteHints.Shops.{steam, mercadolibre, amazon, amazon_page, amazon_dp, amazon_gp}
use duvycrawl.SiteHints.Registry.{PlatformRule, platform_rules}

-- A hub with a boost and no penalty, or no hub, with no boost and no name.
abbrev pub Formed : HubMatch → Type 0
Formed m =
    ((m.is_hub ≡ true) × (0 < m.hub_boost) × (m.depth_penalty ≡ 0))
    ⊎ ((m.is_hub ≡ false) × (m.hub_boost ≡ 0) × (m.hub_name ≡ []))

-- The result of a rule names its platform.
abbrev pub Sound : Text → HubMatch → Type 0
Sound p m = (m.platform ≡ p) × Formed m

if-Sound :
    (p : Text) (b : Bool) (x y : HubMatch) → Sound p x → Sound p y → Sound p (if b then x else y)
if-Sound p true x y h k = h
if-Sound p false x y h k = k

plain-Sound : (p : Text) → Sound p (plain p)
plain-Sound p = (refl, inr (refl, refl, refl))

deeper-Sound : (p : Text) (n : ℕ) → Sound p (deeper p n)
deeper-Sound p n = (refl, inr (refl, refl, refl))

hub-Sound : (p name : Text) (n : ℕ) → 0 < n → Sound p (hub p name n)
hub-Sound p name n h = (refl, inl (refl, h, refl))

ruleset soundness = (if-Sound, plain-Sound, deeper-Sound, hub-Sound)

module _ ⦃std : Std⦄ (equal_fold : Text → Text → Bool) where
  reddit-Sound : (parts : List Text) → Sound (codes "reddit") (reddit equal_fold parts)
  unfolding reddit
  reddit-Sound [] = search (soundness, arith)
  reddit-Sound (a ∷ []) = search (soundness, arith)
  reddit-Sound (a ∷ b ∷ []) = search (soundness, arith)
  reddit-Sound (a ∷ b ∷ c ∷ ps) = search (soundness, arith)

  youtube_page-Sound : (a : Text) → Sound (codes "youtube") (youtube_page equal_fold a)
  unfolding youtube_page
  youtube_page-Sound a = search (soundness, arith)

  youtube_handle-Sound : (a : Text) → Sound (codes "youtube") (youtube_handle equal_fold a)
  unfolding youtube_handle
  youtube_handle-Sound a = search (soundness, arith)

  youtube-Sound : (parts : List Text) → Sound (codes "youtube") (youtube equal_fold parts)
  unfolding youtube
  youtube-Sound [] = search (soundness, arith)
  youtube-Sound (a ∷ []) = search (soundness, youtube_page-Sound, youtube_handle-Sound, arith)
  youtube-Sound (a ∷ b ∷ []) = search (soundness, youtube_page-Sound, youtube_handle-Sound, arith)
  youtube-Sound (a ∷ b ∷ c ∷ []) = search (soundness, youtube_page-Sound, arith)
  youtube-Sound (a ∷ b ∷ c ∷ d ∷ ps) = youtube_page-Sound a

  wikipedia-Sound : (parts : List Text) → Sound (codes "wikipedia") (wikipedia equal_fold parts)
  unfolding wikipedia
  wikipedia-Sound [] = search (soundness, arith)
  wikipedia-Sound (a ∷ []) = search (soundness, arith)
  wikipedia-Sound (a ∷ b ∷ []) =
      if-Sound _ _ _ _ (if-Sound _ _ _ _ (deeper-Sound _ _) (hub-Sound _ _ _ (omega arith)))
        (plain-Sound _)
  wikipedia-Sound (a ∷ b ∷ c ∷ ps) = search (soundness, arith)

  stackoverflow-Sound :
      (parts : List Text) → Sound (codes "stackoverflow") (stackoverflow equal_fold parts)
  unfolding stackoverflow stackoverflow_users
  stackoverflow-Sound [] = search (soundness, arith)
  stackoverflow-Sound (a ∷ []) = search (soundness, arith)
  stackoverflow-Sound (a ∷ b ∷ ps) = search (soundness, arith)

  twitch-Sound : (parts : List Text) → Sound (codes "twitch") (twitch equal_fold parts)
  unfolding twitch
  twitch-Sound [] = search (soundness, arith)
  twitch-Sound (a ∷ []) = if-Sound _ _ _ _ (plain-Sound _) (hub-Sound _ _ _ (omega arith))
  twitch-Sound (a ∷ b ∷ ps) = search (soundness, arith)

  github_section-Sound :
      (section : Text) (rest : List Text)
      → Sound (codes "github") (github_section equal_fold section rest)
  unfolding github_section
  github_section-Sound section [] = search (soundness, arith)
  github_section-Sound section (p ∷ ps) = search (soundness, arith)

  gitlab_section-Sound :
      (section : Text) (rest : List Text)
      → Sound (codes "gitlab") (gitlab_section equal_fold section rest)
  unfolding gitlab_section
  gitlab_section-Sound section [] = search (soundness, arith)
  gitlab_section-Sound section (p ∷ ps) = search (soundness, arith)

  github_repo-Sound : (parts : List Text) → Sound (codes "github") (github_repo equal_fold parts)
  unfolding github_repo
  github_repo-Sound [] = search (soundness, arith)
  github_repo-Sound (a ∷ []) = search (soundness, arith)
  github_repo-Sound (a ∷ b ∷ []) = search (soundness, arith)
  github_repo-Sound (a ∷ b ∷ c ∷ ps) = github_section-Sound (std.to_lower c) ps

  github-Sound : (parts : List Text) → Sound (codes "github") (github equal_fold parts)
  unfolding github
  github-Sound [] = search (soundness, arith)
  github-Sound (a ∷ ps) = search (soundness, github_repo-Sound, arith)

  gitlab_repo-Sound : (parts : List Text) → Sound (codes "gitlab") (gitlab_repo equal_fold parts)
  unfolding gitlab_repo
  gitlab_repo-Sound [] = search (soundness, arith)
  gitlab_repo-Sound (a ∷ []) = search (soundness, arith)
  gitlab_repo-Sound (a ∷ b ∷ []) = search (soundness, arith)
  gitlab_repo-Sound (a ∷ b ∷ c ∷ []) = search (soundness, arith)
  gitlab_repo-Sound (a ∷ b ∷ c ∷ d ∷ ps) = search (soundness, gitlab_section-Sound, arith)

  gitlab-Sound : (parts : List Text) → Sound (codes "gitlab") (gitlab equal_fold parts)
  unfolding gitlab
  gitlab-Sound [] = search (soundness, arith)
  gitlab-Sound (a ∷ ps) = search (soundness, gitlab_repo-Sound, arith)

  npm_package-Sound :
      (b : Text) (ps : List Text) → Sound (codes "npm") (npm_package equal_fold b ps)
  unfolding npm_package
  npm_package-Sound b [] = search (soundness, arith)
  npm_package-Sound b (c ∷ []) = search (soundness, arith)
  npm_package-Sound b (c ∷ d ∷ ps) = search (soundness, arith)

  npm-Sound : (parts : List Text) → Sound (codes "npm") (npm equal_fold parts)
  unfolding npm
  npm-Sound [] = search (soundness, arith)
  npm-Sound (a ∷ []) = search (soundness, arith)
  npm-Sound (a ∷ b ∷ ps) = search (soundness, npm_package-Sound, arith)

  pypi-Sound : (parts : List Text) → Sound (codes "pypi") (pypi equal_fold parts)
  unfolding pypi
  pypi-Sound [] = search (soundness, arith)
  pypi-Sound (a ∷ []) = search (soundness, arith)
  pypi-Sound (a ∷ b ∷ []) = search (soundness, arith)
  pypi-Sound (a ∷ b ∷ c ∷ ps) = search (soundness, arith)

  nuget-Sound : (parts : List Text) → Sound (codes "nuget") (nuget equal_fold parts)
  unfolding nuget
  nuget-Sound [] = search (soundness, arith)
  nuget-Sound (a ∷ []) = search (soundness, arith)
  nuget-Sound (a ∷ b ∷ []) = search (soundness, arith)
  nuget-Sound (a ∷ b ∷ c ∷ ps) = search (soundness, arith)

  docker-Sound : (parts : List Text) → Sound (codes "docker") (docker equal_fold parts)
  unfolding docker
  docker-Sound [] = search (soundness, arith)
  docker-Sound (a ∷ []) = search (soundness, arith)
  docker-Sound (a ∷ b ∷ []) = search (soundness, arith)
  docker-Sound (a ∷ b ∷ c ∷ []) = search (soundness, arith)
  docker-Sound (a ∷ b ∷ c ∷ d ∷ ps) = search (soundness, arith)

  steam-Sound : (parts : List Text) → Sound (codes "steam") (steam equal_fold parts)
  unfolding steam
  steam-Sound [] = search (soundness, arith)
  steam-Sound (a ∷ []) = search (soundness, arith)
  steam-Sound (a ∷ b ∷ []) = search (soundness, arith)
  steam-Sound (a ∷ b ∷ c ∷ []) = search (soundness, arith)
  steam-Sound (a ∷ b ∷ c ∷ d ∷ ps) = search (soundness, arith)

  mercadolibre-Sound :
      (parts : List Text) → Sound (codes "mercadolibre") (mercadolibre equal_fold parts)
  unfolding mercadolibre
  mercadolibre-Sound [] = search (soundness, arith)
  mercadolibre-Sound (a ∷ []) = search (soundness, arith)
  mercadolibre-Sound (a ∷ b ∷ []) = search (soundness, arith)
  mercadolibre-Sound (a ∷ b ∷ c ∷ []) = search (soundness, arith)
  mercadolibre-Sound (a ∷ b ∷ c ∷ d ∷ ps) = search (soundness, arith)

  amazon_page-Sound : (first : Text) → Sound (codes "amazon") (amazon_page equal_fold first)
  unfolding amazon_page
  amazon_page-Sound first = search (soundness, arith)

  amazon_dp-Sound : (parts : List Text) → Sound (codes "amazon") (amazon_dp equal_fold parts)
  unfolding amazon_dp
  amazon_dp-Sound [] = amazon_page-Sound (codes "dp")
  amazon_dp-Sound (b ∷ []) = search (soundness, arith)
  amazon_dp-Sound (b ∷ c ∷ []) = search (soundness, arith)
  amazon_dp-Sound (b ∷ c ∷ d ∷ ps) = search (soundness, arith)

  amazon_gp-Sound : (parts : List Text) → Sound (codes "amazon") (amazon_gp equal_fold parts)
  unfolding amazon_gp
  amazon_gp-Sound [] = amazon_page-Sound (codes "gp")
  amazon_gp-Sound (b ∷ []) = amazon_page-Sound (codes "gp")
  amazon_gp-Sound (b ∷ c ∷ []) = search (soundness, amazon_page-Sound, arith)
  amazon_gp-Sound (b ∷ c ∷ d ∷ []) = search (soundness, amazon_page-Sound, arith)
  amazon_gp-Sound (b ∷ c ∷ d ∷ e ∷ ps) =
      if-Sound _ _ _ _ (deeper-Sound _ _) (amazon_page-Sound (codes "gp"))

  amazon-Sound : (parts : List Text) → Sound (codes "amazon") (amazon equal_fold parts)
  unfolding amazon
  amazon-Sound [] = search (soundness, arith)
  amazon-Sound (a ∷ ps) =
      search (soundness, amazon_page-Sound, amazon_dp-Sound, amazon_gp-Sound, arith)

  -- Every rule gives a sound result for its platform.
  pub rules-Sound :
      (parts : List Text)
      → All
          (λ (e : Text × PlatformRule). Sound e.0 (e.1.classify_path parts))
          (platform_rules equal_fold)
  rules-Sound parts = (
    reddit-Sound parts,
    (
      github-Sound parts,
      (
        youtube-Sound parts,
        (
          wikipedia-Sound parts,
          (
            stackoverflow-Sound parts,
            (
              gitlab-Sound parts,
              (
                npm-Sound parts,
                (
                  pypi-Sound parts,
                  (
                    docker-Sound parts,
                    (
                      twitch-Sound parts,
                      (
                        steam-Sound parts,
                        (mercadolibre-Sound parts, (nuget-Sound parts, (amazon-Sound parts, tt))),
                      ),
                    ),
                  ),
                ),
              ),
            ),
          ),
        ),
      ),
    ),
  )

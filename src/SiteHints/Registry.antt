-- ===== src/SiteHints/Registry.antt =====
-- internal/sitehints: the registered rules, and the classification of a URL.
use duvycrawl.Shared.{Bool, ◌||◌, Option, none, some, List, [], ◌∷◌, map, any, if◌then◌else◌}
use duvycrawl.Shared.Maps.{lookup}
use duvycrawl.Shared.Text.{Text, codes, text_beq, text_eq, has_suffix, trim_prefix}
use duvycrawl.Url.{Url, Std}
use duvycrawl.SiteHints.Match.{HubMatch, plain, clean_path}
use duvycrawl.SiteHints.Media.{reddit, youtube, wikipedia, stackoverflow, twitch}
use duvycrawl.SiteHints.Code.{github, gitlab, npm, pypi, docker, nuget}
use duvycrawl.SiteHints.Shops.{steam, mercadolibre, amazon}

-- `platformRule` without its name, which is the key in the registry; a rule reads the segments.
pub record PlatformRule : Type 0 where
  pub domains : List Text
  pub classify_path : List Text → HubMatch

abbrev pub Registry : Type 0
Registry = List (Text × PlatformRule)

abbrev pub amazon_domains : List Text
amazon_domains = map codes (
    "amazon.com" ∷ "amazon.co.uk" ∷ "amazon.de" ∷ "amazon.fr" ∷ "amazon.es" ∷ "amazon.it"
    ∷ "amazon.co.jp" ∷ "amazon.ca" ∷ "amazon.com.au" ∷ "amazon.com.br" ∷ "amazon.com.mx"
    ∷ "amazon.in" ∷ "amazon.nl" ∷ "amazon.sg" ∷ "amazon.ae" ∷ "amazon.sa" ∷ "amazon.pl"
    ∷ "amazon.se" ∷ "amazon.com.tr" ∷ [])

abbrev pub mercadolibre_domains : List Text
mercadolibre_domains = map codes (
    "mercadolibre.com.uy" ∷ "mercadolibre.com.ar" ∷ "mercadolibre.com.mx" ∷ "mercadolibre.com.br"
    ∷ "mercadolibre.com.co" ∷ "mercadolibre.com.ve" ∷ "mercadolibre.cl" ∷ "mercadolibre.com.pe"
    ∷ "mercadolibre.com.ec" ∷ [])

-- `matchesDomain`.
unfoldable pub matches_domain : Text → List Text → Bool
unfolding text_beq has_suffix
matches_domain host domains =
    any (λ (d : Text). text_beq host d || has_suffix host (46 ∷ d)) domains

module _ ⦃std : Std⦄ (equal_fold : Text → Text → Bool) where
  abbrev pub rule : List Text → (List Text → HubMatch) → PlatformRule
  rule domains classify_path = record { domains = domains; classify_path = classify_path }

  -- `platformRules`, as `init` puts them into the registry.
  abbrev pub platform_rules : Registry
  platform_rules =
      (codes "reddit", rule (codes "reddit.com" ∷ []) (reddit equal_fold))
      ∷ (codes "github", rule (codes "github.com" ∷ []) (github equal_fold))
      ∷ (codes "youtube", rule (map codes ("youtube.com" ∷ "youtu.be" ∷ [])) (youtube equal_fold))
      ∷ (codes "wikipedia", rule (codes "wikipedia.org" ∷ []) (wikipedia equal_fold))
      ∷ (
        codes "stackoverflow",
        rule
            (map codes (
              "stackoverflow.com" ∷ "stackexchange.com" ∷ "superuser.com" ∷ "serverfault.com"
              ∷ "askubuntu.com" ∷ []))
            (stackoverflow equal_fold),
      )
      ∷ (codes "gitlab", rule (codes "gitlab.com" ∷ []) (gitlab equal_fold))
      ∷ (codes "npm", rule (codes "npmjs.com" ∷ []) (npm equal_fold))
      ∷ (codes "pypi", rule (codes "pypi.org" ∷ []) (pypi equal_fold))
      ∷ (codes "docker", rule (codes "hub.docker.com" ∷ []) (docker equal_fold))
      ∷ (codes "twitch", rule (codes "twitch.tv" ∷ []) (twitch equal_fold))
      ∷ (
        codes "steam",
        rule (map codes ("store.steampowered.com" ∷ "steampowered.com" ∷ "steamcommunity.com" ∷ []))
            (steam equal_fold),
      )
      ∷ (codes "mercadolibre", rule mercadolibre_domains (mercadolibre equal_fold))
      ∷ (codes "nuget", rule (codes "nuget.org" ∷ []) (nuget equal_fold))
      ∷ (codes "amazon", rule amazon_domains (amazon equal_fold))
      ∷ []

  -- The loop over all rules, in the order in which the map is visited.
  unfoldable pub classify_any : Registry → Text → List Text → HubMatch
  unfolding matches_domain
  classify_any [] host parts = plain []
  classify_any ((name, r) ∷ rs) host parts =
      if matches_domain host r.domains then r.classify_path parts else classify_any rs host parts

  -- The rule of one platform, if there is one.
  unfoldable pub classify_one : Option PlatformRule → Text → List Text → HubMatch
  unfolding matches_domain
  classify_one none host parts = plain []
  classify_one (some r) host parts =
      if matches_domain host r.domains then r.classify_path parts else plain []

  abbrev pub host_of : Url → Text
  host_of u = trim_prefix (std.to_lower (std.hostname u.host)) (codes "www.")

  -- `Classify`, for an order of the registry.
  unfoldable pub classify_parsed : Registry → Url → Text → HubMatch
  unfolding classify_any classify_one clean_path trim_prefix
  classify_parsed rs u [] = classify_any rs (host_of u) (clean_path u)
  classify_parsed rs u (c ∷ platform) =
      classify_one (lookup (c ∷ platform) rs) (host_of u) (clean_path u)

  unfoldable pub classify : Registry → Text → Text → HubMatch
  unfolding classify_parsed
  classify rs raw platform = elim (std.parse raw) [
    | none ↦ plain []
    | some u ↦ classify_parsed rs u platform
  ]

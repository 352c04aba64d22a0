-- ===== src/SiteHints/Code.antt =====
-- internal/sitehints/registry.go: the rules of GitHub, GitLab, npm, PyPI, Docker Hub and NuGet, on
-- the segments of a path. `equal_fold` is `strings.EqualFold`.
use duvycrawl.Shared.{Bool, ◌||◌, List, [], ◌∷◌, ◌++◌, map, if◌then◌else◌}
use duvycrawl.Shared.Text.{Text, codes, has_prefix, member, text_beq}
use duvycrawl.Url.{Std}
use duvycrawl.SiteHints.Match.{
  HubMatch, hub_boost_large, hub_boost_medium, depth_penalty_light, depth_penalty_medium,
  depth_penalty_heavy, plain, hub, deeper,
}

unfoldable pub github_reserved : List Text
github_reserved = map codes (
    "features" ∷ "marketplace" ∷ "explore" ∷ "topics" ∷ "trending" ∷ "collections" ∷ "sponsors"
    ∷ "settings" ∷ "notifications" ∷ "login" ∷ "signup" ∷ "join" ∷ "about" ∷ "pricing"
    ∷ "enterprise" ∷ "team" ∷ "orgs" ∷ "organizations" ∷ [])

unfoldable pub gitlab_reserved : List Text
gitlab_reserved = map codes ("explore" ∷ "help" ∷ "admin" ∷ "users" ∷ "groups" ∷ "dashboard" ∷ [])

module _ ⦃std : Std⦄ (equal_fold : Text → Text → Bool) where
  -- The `switch` on the section of a repository, and what follows the section.
  unfoldable pub github_section : Text → List Text → HubMatch
  unfolding member
  github_section section rest =
      if member section (codes "releases" ∷ codes "tags" ∷ [])
      then deeper (codes "github") depth_penalty_heavy
      else if member section (codes "issues" ∷ codes "pull" ∷ codes "discussions" ∷ [])
      then elim rest [
        | [] ↦ deeper (codes "github") depth_penalty_light
        | p ∷ ps ↦ deeper (codes "github") depth_penalty_medium
      ]
      else if member section (codes "tree" ∷ codes "blob" ∷ codes "commit" ∷ codes "commits" ∷ [])
      then deeper (codes "github") depth_penalty_medium
      else deeper (codes "github") depth_penalty_light

  unfoldable pub github_repo : List Text → HubMatch
  unfolding github_section
  github_repo [] = plain (codes "github")
  github_repo (a ∷ []) = hub (codes "github") (std.to_lower a) hub_boost_medium
  github_repo (a ∷ b ∷ []) = hub (codes "github") (std.to_lower b) hub_boost_large
  github_repo (a ∷ b ∷ c ∷ ps) = github_section (std.to_lower c) ps

  unfoldable pub github : List Text → HubMatch
  unfolding github_repo github_reserved member
  github [] = plain (codes "github")
  github (a ∷ ps) =
      if member (std.to_lower a) github_reserved
      then plain (codes "github")
      else github_repo (a ∷ ps)

  unfoldable pub gitlab_section : Text → List Text → HubMatch
  unfolding member
  gitlab_section section rest =
      if member section (codes "releases" ∷ codes "tags" ∷ [])
      then deeper (codes "gitlab") depth_penalty_heavy
      else if member section (codes "issues" ∷ codes "merge_requests" ∷ [])
      then elim rest [
        | [] ↦ deeper (codes "gitlab") depth_penalty_light
        | p ∷ ps ↦ deeper (codes "gitlab") depth_penalty_medium
      ]
      else deeper (codes "gitlab") depth_penalty_light

  unfoldable pub gitlab_repo : List Text → HubMatch
  unfolding gitlab_section text_beq
  gitlab_repo [] = plain (codes "gitlab")
  gitlab_repo (a ∷ []) = plain (codes "gitlab")
  gitlab_repo (a ∷ b ∷ []) = hub (codes "gitlab") (std.to_lower b) hub_boost_large
  gitlab_repo (a ∷ b ∷ c ∷ []) = plain (codes "gitlab")
  gitlab_repo (a ∷ b ∷ c ∷ d ∷ ps) =
      if text_beq c (codes "-") then gitlab_section (std.to_lower d) ps else plain (codes "gitlab")

  unfoldable pub gitlab : List Text → HubMatch
  unfolding gitlab_repo gitlab_reserved member
  gitlab [] = plain (codes "gitlab")
  gitlab (a ∷ ps) =
      if member (std.to_lower a) gitlab_reserved
      then plain (codes "gitlab")
      else gitlab_repo (a ∷ ps)

  -- A scoped package has one segment more.
  unfoldable pub npm_package : Text → List Text → HubMatch
  unfolding has_prefix
  npm_package b [] =
      if has_prefix b (codes "@")
      then deeper (codes "npm") depth_penalty_medium
      else hub (codes "npm") (std.to_lower b) hub_boost_large
  npm_package b (c ∷ []) =
      if has_prefix b (codes "@")
      then hub (codes "npm") (std.to_lower (b ++ codes "/" ++ c)) hub_boost_large
      else deeper (codes "npm") depth_penalty_medium
  npm_package b (c ∷ d ∷ ps) = deeper (codes "npm") depth_penalty_medium

  unfoldable pub npm : List Text → HubMatch
  unfolding npm_package
  npm [] = plain (codes "npm")
  npm (a ∷ []) = plain (codes "npm")
  npm (a ∷ b ∷ ps) =
      if equal_fold a (codes "package") then npm_package b ps else plain (codes "npm")

  unfoldable pub pypi : List Text → HubMatch
  pypi [] = plain (codes "pypi")
  pypi (a ∷ []) = plain (codes "pypi")
  pypi (a ∷ b ∷ []) =
      if equal_fold a (codes "project")
      then hub (codes "pypi") (std.to_lower b) hub_boost_large
      else plain (codes "pypi")
  pypi (a ∷ b ∷ c ∷ ps) =
      if equal_fold a (codes "project")
      then deeper (codes "pypi") depth_penalty_medium
      else plain (codes "pypi")

  unfoldable pub docker : List Text → HubMatch
  docker [] = plain (codes "docker")
  docker (a ∷ []) = plain (codes "docker")
  docker (a ∷ b ∷ []) =
      if equal_fold a (codes "_")
      then hub (codes "docker") [] hub_boost_medium
      else plain (codes "docker")
  docker (a ∷ b ∷ c ∷ []) =
      if equal_fold a (codes "r") || equal_fold a (codes "_")
      then hub (codes "docker") [] hub_boost_medium
      else plain (codes "docker")
  docker (a ∷ b ∷ c ∷ d ∷ ps) = deeper (codes "docker") depth_penalty_light

  unfoldable pub nuget : List Text → HubMatch
  nuget [] = plain (codes "nuget")
  nuget (a ∷ []) = plain (codes "nuget")
  nuget (a ∷ b ∷ []) =
      if equal_fold a (codes "packages")
      then hub (codes "nuget") (std.to_lower b) hub_boost_large
      else plain (codes "nuget")
  nuget (a ∷ b ∷ c ∷ ps) =
      if equal_fold a (codes "packages")
      then deeper (codes "nuget") depth_penalty_medium
      else plain (codes "nuget")

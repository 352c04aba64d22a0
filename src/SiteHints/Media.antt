-- ===== src/SiteHints/Media.antt =====
-- internal/sitehints/registry.go: the rules of Reddit, YouTube, Wikipedia, Stack Overflow and Twitch,
-- on the segments of a path. `equal_fold` is `strings.EqualFold`.
use duvycrawl.Shared.{Bool, ◌||◌, List, [], ◌∷◌, map, any, if◌then◌else◌}
use duvycrawl.Shared.Text.{Text, codes, has_prefix, trim_prefix, member}
use duvycrawl.Url.{Std}
use duvycrawl.SiteHints.Match.{
  HubMatch, hub_boost_large, hub_boost_medium, depth_penalty_light, depth_penalty_medium,
  depth_penalty_heavy, plain, hub, deeper,
}

unfoldable pub meta_prefixes : List Text
meta_prefixes = map codes (
    "Special:" ∷ "Talk:" ∷ "User:" ∷ "Wikipedia:" ∷ "Help:" ∷ "Category:" ∷ "File:" ∷ "Template:"
    ∷ [])

unfoldable pub twitch_reserved : List Text
twitch_reserved = map codes (
    "directory" ∷ "downloads" ∷ "jobs" ∷ "turbo" ∷ "settings" ∷ "friends" ∷ "subscriptions"
    ∷ "inventory" ∷ "wallet" ∷ "search" ∷ "team" ∷ "p" ∷ "videos" ∷ [])

module _ ⦃std : Std⦄ (equal_fold : Text → Text → Bool) where
  unfoldable pub reddit : List Text → HubMatch
  reddit [] = plain (codes "reddit")
  reddit (a ∷ []) = plain (codes "reddit")
  reddit (a ∷ b ∷ []) =
      if equal_fold a (codes "r")
      then hub (codes "reddit") (std.to_lower b) hub_boost_large
      else plain (codes "reddit")
  reddit (a ∷ b ∷ c ∷ ps) =
      if equal_fold a (codes "r")
      then (if equal_fold c (codes "comments")
          then deeper (codes "reddit") depth_penalty_medium
          else deeper (codes "reddit") depth_penalty_light)
      else plain (codes "reddit")

  -- `/watch`, `/shorts` and `/playlist`.
  unfoldable pub youtube_page : Text → HubMatch
  youtube_page a =
      if equal_fold a (codes "watch")
      then deeper (codes "youtube") depth_penalty_medium
      else if equal_fold a (codes "shorts")
      then deeper (codes "youtube") depth_penalty_heavy
      else if equal_fold a (codes "playlist")
      then deeper (codes "youtube") depth_penalty_light
      else plain (codes "youtube")

  abbrev pub is_channel_word : Text → Bool
  is_channel_word a =
      equal_fold a (codes "c") || equal_fold a (codes "channel") || equal_fold a (codes "user")

  unfoldable pub youtube_handle : Text → HubMatch
  unfolding trim_prefix
  youtube_handle a =
      hub (codes "youtube") (std.to_lower (trim_prefix a (codes "@"))) hub_boost_large

  unfoldable pub youtube : List Text → HubMatch
  unfolding youtube_page youtube_handle has_prefix
  youtube [] = plain (codes "youtube")
  youtube (a ∷ []) = if has_prefix a (codes "@") then youtube_handle a else youtube_page a
  youtube (a ∷ b ∷ []) =
      if has_prefix a (codes "@")
      then youtube_handle a
      else if is_channel_word a
      then hub (codes "youtube") (std.to_lower b) hub_boost_large
      else youtube_page a
  youtube (a ∷ b ∷ c ∷ []) =
      if is_channel_word a
      then hub (codes "youtube") (std.to_lower b) hub_boost_large
      else youtube_page a
  youtube (a ∷ b ∷ c ∷ d ∷ ps) = youtube_page a

  unfoldable pub wikipedia : List Text → HubMatch
  unfolding meta_prefixes has_prefix
  wikipedia [] = plain (codes "wikipedia")
  wikipedia (a ∷ []) = plain (codes "wikipedia")
  wikipedia (a ∷ b ∷ []) =
      if equal_fold a (codes "wiki")
      then (if any (has_prefix b) meta_prefixes
          then deeper (codes "wikipedia") depth_penalty_heavy
          else hub (codes "wikipedia") [] hub_boost_medium)
      else plain (codes "wikipedia")
  wikipedia (a ∷ b ∷ c ∷ ps) =
      if equal_fold a (codes "wiki")
      then deeper (codes "wikipedia") depth_penalty_light
      else plain (codes "wikipedia")

  unfoldable pub stackoverflow_users : Text → HubMatch
  stackoverflow_users a =
      if equal_fold a (codes "users")
      then deeper (codes "stackoverflow") depth_penalty_medium
      else plain (codes "stackoverflow")

  unfoldable pub stackoverflow : List Text → HubMatch
  unfolding stackoverflow_users
  stackoverflow [] = plain (codes "stackoverflow")
  stackoverflow (a ∷ []) = stackoverflow_users a
  stackoverflow (a ∷ b ∷ ps) =
      if equal_fold a (codes "questions")
      then (if equal_fold b (codes "tagged")
          then deeper (codes "stackoverflow") depth_penalty_light
          else hub (codes "stackoverflow") [] hub_boost_medium)
      else stackoverflow_users a

  unfoldable pub twitch : List Text → HubMatch
  unfolding twitch_reserved member
  twitch [] = plain (codes "twitch")
  twitch (a ∷ []) =
      if member (std.to_lower a) twitch_reserved
      then plain (codes "twitch")
      else hub (codes "twitch") (std.to_lower a) hub_boost_large
  twitch (a ∷ b ∷ ps) =
      if member (std.to_lower a) twitch_reserved
      then plain (codes "twitch")
      else if member (std.to_lower b) (codes "clip" ∷ codes "clips" ∷ [])
      then deeper (codes "twitch") depth_penalty_medium
      else deeper (codes "twitch") depth_penalty_light

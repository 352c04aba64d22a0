-- ===== src/SiteHints/Shops.antt =====
-- internal/sitehints/registry.go: the rules of Steam, MercadoLibre and Amazon, on the segments of a
-- path. `equal_fold` is `strings.EqualFold`.
use duvycrawl.Shared.{Bool, ◌||◌, List, [], ◌∷◌, if◌then◌else◌}
use duvycrawl.Shared.Text.{Text, codes, text_beq}
use duvycrawl.Url.{Std}
use duvycrawl.SiteHints.Match.{
  HubMatch, hub_boost_medium, depth_penalty_light, depth_penalty_medium, depth_penalty_heavy, plain,
  hub, deeper,
}

module _ ⦃std : Std⦄ (equal_fold : Text → Text → Bool) where
  unfoldable pub steam : List Text → HubMatch
  steam [] = plain (codes "steam")
  steam (a ∷ []) = plain (codes "steam")
  steam (a ∷ b ∷ []) =
      if equal_fold a (codes "app")
      then hub (codes "steam") [] hub_boost_medium
      else plain (codes "steam")
  steam (a ∷ b ∷ c ∷ []) =
      if equal_fold a (codes "app")
      then hub (codes "steam") [] hub_boost_medium
      else plain (codes "steam")
  steam (a ∷ b ∷ c ∷ d ∷ ps) =
      if equal_fold a (codes "app")
      then deeper (codes "steam") depth_penalty_light
      else plain (codes "steam")

  unfoldable pub mercadolibre : List Text → HubMatch
  mercadolibre (a ∷ b ∷ c ∷ d ∷ ps) = deeper (codes "mercadolibre") depth_penalty_light
  mercadolibre ps = plain (codes "mercadolibre")

  -- `/product-reviews`, `/offer-listing` and `/s`, for the first segment in lower case.
  unfoldable pub amazon_page : Text → HubMatch
  unfolding text_beq
  amazon_page first =
      if text_beq first (codes "product-reviews") || text_beq first (codes "offer-listing")
      then deeper (codes "amazon") depth_penalty_medium
      else if text_beq first (codes "s")
      then deeper (codes "amazon") depth_penalty_heavy
      else plain (codes "amazon")

  -- What follows `/dp`, and what follows `/gp`.
  unfoldable pub amazon_dp : List Text → HubMatch
  unfolding amazon_page
  amazon_dp [] = amazon_page (codes "dp")
  amazon_dp (b ∷ []) = hub (codes "amazon") [] hub_boost_medium
  amazon_dp (b ∷ c ∷ []) = hub (codes "amazon") [] hub_boost_medium
  amazon_dp (b ∷ c ∷ d ∷ ps) = deeper (codes "amazon") depth_penalty_light

  unfoldable pub amazon_gp : List Text → HubMatch
  unfolding amazon_page
  amazon_gp [] = amazon_page (codes "gp")
  amazon_gp (b ∷ []) = amazon_page (codes "gp")
  amazon_gp (b ∷ c ∷ []) =
      if equal_fold b (codes "product")
      then hub (codes "amazon") [] hub_boost_medium
      else amazon_page (codes "gp")
  amazon_gp (b ∷ c ∷ d ∷ []) =
      if equal_fold b (codes "product")
      then hub (codes "amazon") [] hub_boost_medium
      else amazon_page (codes "gp")
  amazon_gp (b ∷ c ∷ d ∷ e ∷ ps) =
      if equal_fold b (codes "product")
      then deeper (codes "amazon") depth_penalty_light
      else amazon_page (codes "gp")

  unfoldable pub amazon : List Text → HubMatch
  unfolding amazon_dp amazon_gp amazon_page text_beq
  amazon [] = plain (codes "amazon")
  amazon (a ∷ ps) =
      let first = std.to_lower a in
      if text_beq first (codes "dp")
      then amazon_dp ps
      else if text_beq first (codes "gp")
      then amazon_gp ps
      else amazon_page first

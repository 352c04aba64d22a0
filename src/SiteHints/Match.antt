-- ===== src/SiteHints/Match.antt =====
-- internal/sitehints: the result of a classification, its boosts, and the segments of a path. The
-- boosts are float64 constants that are whole numbers.
use duvycrawl.Shared.{ℕ, Bool, true, false, List, [], filter, ltb, length}
use duvycrawl.Shared.Text.{Text, split, trim}
use duvycrawl.Url.{Url}

-- `HubMatch`.
pub record HubMatch : Type 0 where
  pub platform : Text
  pub is_hub : Bool
  pub hub_name : Text
  pub hub_boost : ℕ
  pub depth_penalty : ℕ

abbrev pub hub_boost_large : ℕ
hub_boost_large = 6000

abbrev pub hub_boost_medium : ℕ
hub_boost_medium = 4000

abbrev pub depth_penalty_light : ℕ
depth_penalty_light = 1000

abbrev pub depth_penalty_medium : ℕ
depth_penalty_medium = 2500

abbrev pub depth_penalty_heavy : ℕ
depth_penalty_heavy = 4000

-- `HubMatch{}` with the platform's name, and what the rules make of it: a hub, or a penalty.
abbrev pub plain : Text → HubMatch
plain p = record { platform = p; is_hub = false; hub_name = []; hub_boost = 0; depth_penalty = 0 }

abbrev pub hub : Text → Text → ℕ → HubMatch
hub p name boost = record {
  platform = p;
  is_hub = true;
  hub_name = name;
  hub_boost = boost;
  depth_penalty = 0;
}

abbrev pub deeper : Text → ℕ → HubMatch
deeper p penalty = record (plain p) { depth_penalty = penalty }

-- `cleanPath`; the split of the empty path has no segment that is not empty.
unfoldable pub clean_path : Url → List Text
unfolding split trim
clean_path u = filter (λ (p : Text). ltb 0 (length p)) (split 47 (trim 47 u.path))

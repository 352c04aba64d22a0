-- ===== src/Examples/Hints.antt =====
-- internal/sitehints: the theorems at concrete inputs.
use duvycrawl.Shared.{false, ◌≡◌, ◌⊎◌, ◌↔◌, refl, Option, some, [], ◌∷◌, In, inl, inr}
use duvycrawl.Shared.Maps.{Distinct, lookup}
use duvycrawl.Shared.Text.{Text, codes, text_beq, text_eq}
use duvycrawl.Url.{Url, Std}
use duvycrawl.SiteHints.Match.{plain}
use duvycrawl.SiteHints.Registry.{PlatformRule, Registry, platform_rules, classify}
use duvycrawl.SiteHints.Sound.{Formed}
use duvycrawl.SiteHints.Laws.{classify-Formed}
use duvycrawl.SiteHints.Order.{classify_order}

-- Every URL is a path on Reddit.
abbrev on_reddit : Text → Option Url
on_reddit raw = some (record {
  scheme = codes "https";
  host = codes "www.reddit.com";
  path = raw;
  opaque = [];
  user = [];
  raw_path = [];
  omit_host = false;
  force_query = false;
  fragment = [];
  raw_fragment = [];
  raw_query = [];
})

instance abbrev reddit_std : Std
reddit_std = record {
  to_lower = λ s. s;
  trim_space = λ s. s;
  to_lower-idem = λ s. refl;
  parse = on_reddit;
  to_text = λ u. u.path;
  hostname = λ s. s;
  port = λ s. [];
  query = λ s. [];
  encode = λ m. [];
}

abbrev rules : Registry
rules = platform_rules text_beq

-- GitHub is visited before Reddit.
abbrev swapped : Registry → Registry
swapped [] = []
swapped (a ∷ []) = a ∷ []
swapped (a ∷ b ∷ rs) = b ∷ a ∷ rs

swapped-In : (rs : Registry) (e : Text × PlatformRule) → In e (swapped rs) ↔ In e rs
swapped-In [] e = (λ i. i, λ i. i)
swapped-In (a ∷ []) e = (λ i. i, λ i. i)
swapped-In (a ∷ b ∷ rs) e = (turn a b, turn b a)
  where
    turn : (a b : Text × PlatformRule) → In e (b ∷ a ∷ rs) → In e (a ∷ b ∷ rs)
    turn a b (inl i) = inr (inl i)
    turn a b (inr (inl i)) = inl i
    turn a b (inr (inr i)) = inr (inr i)

swapped-Distinct : Distinct (swapped rules)
unfolding lookup text_beq
swapped-Distinct = (
  refl,
  (
    refl,
    (
      refl,
      (refl, (refl, (refl, (refl, (refl, (refl, (refl, (refl, (refl, (refl, (refl, tt))))))))))),
    ),
  ),
)

classify_order_example :
    classify text_beq (swapped rules) (codes "/r/golang") []
    ≡ classify text_beq rules (codes "/r/golang") []
classify_order_example =
    classify_order text_beq (swapped rules) (codes "/r/golang") []
      (swapped-Distinct, swapped-In rules)

classify-Formed_example :
    Formed (classify text_beq rules (codes "/r/golang") (codes "reddit"))
    × ((codes "reddit" ≡ [])
        ⊎ (classify text_beq rules (codes "/r/golang") (codes "reddit") ≡ plain [])
        ⊎ ((classify text_beq rules (codes "/r/golang") (codes "reddit")).platform
            ≡ codes "reddit"))
classify-Formed_example =
    classify-Formed text_beq rules (codes "/r/golang") (codes "reddit") (λ e i. i)

-- ===== src/Search/Promote.antt =====
-- internal/storage/sqlite_search.go: `promoteLanguagePerDomain`, which puts the best candidate of a
-- domain before the domain's first one. The effective domain of a domain is a parameter.
pub mod Laws
use duvycrawl.Shared.{
  ℕ, suc, Bool, true, false, not, ◌&&◌, ◌||◌, Option, none, some, List, [], ◌∷◌, ◌++◌,
  if◌then◌else◌, ltb, leb, length, get_elem?, ◌==◌, nat_eq, any,
}
use duvycrawl.Shared.Maps.{lookup, insert, or_zero}
use duvycrawl.Shared.Text.{Text, text_beq, text_eq, member}

-- The fields of a candidate that the function reads.
pub record Ranked : Type 0 where
  pub id : ℕ
  pub domain : Text
  pub language : Text

-- `bestForDomain` and `bestScoreForDomain`.
pub record BestForDomain : Type 0 where
  pub index : List (Text × ℕ)
  pub score : List (Text × ℕ)

abbrev pub or_domain : Text → Text → Text
or_domain [] domain = domain
or_domain (c ∷ d) domain = c ∷ d

abbrev pub is_language : Text → Text → Bool
is_language [] language = false
is_language (c ∷ s) language = text_beq language (c ∷ s)

module _ (effective_domain : Text → Text) (lang secondary_lang : Text) where
  abbrev pub domain_of : Ranked → Text
  domain_of c = or_domain (effective_domain c.domain) c.domain

  unfoldable pub language_score : Ranked → ℕ
  unfolding text_beq
  language_score c =
      if text_beq c.language lang then 2 else if is_language secondary_lang c.language then 1 else 0

  -- The first loop, from the index i on.
  unfoldable pub best_loop : ℕ → List Ranked → BestForDomain → BestForDomain
  unfolding language_score
  best_loop i [] best = best
  best_loop i (c ∷ cs) best =
      let d = domain_of c in
      let better = best_loop (suc i) cs (record {
        index = insert d i best.index;
        score = insert d (language_score c) best.score;
      }) in
      let same = best_loop (suc i) cs best in
      if ltb (or_zero (lookup d best.score)) (language_score c) then better else same

-- The state of the second loop: `result`, `seenBest` and `domainSeen`.
pub record Promoting : Type 0 where
  pub result : List Ranked
  pub seen_best : List ℕ
  pub domain_seen : List Text

abbrev pub has_index : ℕ → List ℕ → Bool
has_index i seen = any (λ (j : ℕ). j == i) seen

module _ (all_candidates : List Ranked) where
  -- The promotion of the candidate with an index, which is in range.
  unfoldable pub promote_index : ℕ → Promoting → Promoting
  promote_index best p = elim (get_elem? all_candidates best) [
    | none ↦ p
    | some b ↦ record p { result = p.result ++ (b ∷ []); seen_best = best ∷ p.seen_best }
  ]

  unfoldable pub promote_best : Option ℕ → ℕ → Promoting → Promoting
  unfolding promote_index
  promote_best none i p = p
  promote_best (some best) i p = if best == i then p else promote_index best p

  -- What happens at the first candidate of a domain, and then the candidate itself.
  unfoldable pub visit_domain : List (Text × ℕ) → Text → ℕ → Promoting → Promoting
  unfolding promote_best member
  visit_domain best d i p =
      if member d p.domain_seen
      then p
      else promote_best (lookup d best) i (record p { domain_seen = d ∷ p.domain_seen })

  unfoldable pub push_candidate : Ranked → ℕ → Promoting → Promoting
  push_candidate c i p =
      if has_index i p.seen_best then p else record p { result = p.result ++ (c ∷ []) }

  unfoldable pub promote_loop :
      (Ranked → Text) → List (Text × ℕ) → ℕ → List Ranked → Promoting → Promoting
  unfolding visit_domain push_candidate
  promote_loop domain best i [] p = p
  promote_loop domain best i (c ∷ cs) p =
      promote_loop domain best (suc i) cs (push_candidate c i (visit_domain best (domain c) i p))

unfoldable pub promote_language_per_domain : (Text → Text) → List Ranked → Text → Text → List Ranked
unfolding best_loop promote_loop
promote_language_per_domain effective_domain candidates lang secondary_lang =
    if leb (length candidates) 1
    then candidates
    else (promote_loop candidates (domain_of effective_domain lang secondary_lang)
        (best_loop effective_domain lang secondary_lang 0 candidates
          (record { index = []; score = [] })).index
        0 candidates (record { result = []; seen_best = []; domain_seen = [] })).result

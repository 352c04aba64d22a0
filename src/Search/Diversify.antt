-- ===== src/Search/Diversify.antt =====
-- internal/storage/sqlite_search.go: the filters and the diversity of domains after the ranking. A
-- candidate keeps the fields that these functions read.
pub mod Passes
pub mod Laws
use duvycrawl.Shared.{
  ℕ, zero, suc, ◌+◌, Bool, true, false, Option, none, some, List, [], ◌∷◌, ◌++◌, if◌then◌else◌, ltb,
  leb, length, nat_eq,
}
use duvycrawl.Shared.Maps.{lookup, insert, or_zero}
use duvycrawl.Shared.Text.{Text, text_eq}

pub record Candidate : Type 0 where
  pub id : ℕ
  pub domain : Text
  pub schema_type : Text

unfoldable pub max_per_domain_at_position : ℕ → ℕ
max_per_domain_at_position pos = if ltb pos 3 then 1 else if ltb pos 10 then 2 else 3

-- `domainCount[d]`.
abbrev pub count_of : Text → List (Text × ℕ) → ℕ
count_of d counts = or_zero (lookup d counts)

-- `result` and `domainCount`, the candidates put off by a loop, and its `placed`.
pub record Placing : Type 0 where
  pub result : List Candidate
  pub domain_count : List (Text × ℕ)
  pub deferred : List Candidate
  pub placed : Bool

-- The body of both loops, and a loop over candidates.
unfoldable pub place : Candidate → Placing → Placing
unfolding max_per_domain_at_position
place c p =
    if ltb (count_of c.domain p.domain_count) (max_per_domain_at_position (length p.result))
    then record {
      result = p.result ++ c ∷ [];
      domain_count = insert c.domain (count_of c.domain p.domain_count + 1) p.domain_count;
      deferred = p.deferred;
      placed = true;
    }
    else record p { deferred = p.deferred ++ c ∷ [] }

unfoldable pub place_all : List Candidate → Placing → Placing
unfolding place
place_all [] p = p
place_all (c ∷ cs) p = place_all cs (place c p)

-- The passes over what is put off, until one of them places nothing; none is out of fuel.
unfoldable pub place_deferred :
    ℕ → List Candidate → List Candidate → List (Text × ℕ) → Option (List Candidate)
unfolding place_all
place_deferred n [] result domain_count = some result
place_deferred zero (c ∷ cs) result domain_count = none
place_deferred (suc n) (c ∷ cs) result domain_count =
    let next =
      place_all (c ∷ cs)
        (record { result = result; domain_count = domain_count; deferred = []; placed = false }) in
    let rest = place_deferred n next.deferred next.result next.domain_count in
    if next.placed then rest else some (next.result ++ next.deferred)

abbrev pub nothing_placed : Placing
nothing_placed = record { result = []; domain_count = []; deferred = []; placed = false }

unfoldable pub diversify_by_domain : ℕ → List Candidate → Option (List Candidate)
unfolding place_all place_deferred
diversify_by_domain n cs =
    let first = place_all cs nothing_placed in
    if leb (length cs) 3
    then some cs
    else place_deferred n first.deferred first.result first.domain_count

unfoldable pub filter_by : (Candidate → Bool) → List Candidate → List Candidate
filter_by p [] = []
filter_by p (c ∷ cs) = if p c then c ∷ filter_by p cs else filter_by p cs

abbrev pub is_blank : Text → Bool
is_blank [] = true
is_blank (c ∷ s) = false

-- `filterAndDiversifyCandidates`; `equal_fold` is `strings.EqualFold`.
unfoldable pub filter_and_diversify :
    (Text → Text → Bool) → ℕ → List Candidate → Text → Text → Option (List Candidate)
unfolding filter_by diversify_by_domain
filter_and_diversify equal_fold n reranked domain schema_type =
    let in_domain =
      if is_blank domain then reranked else filter_by (λ c. equal_fold c.domain domain) reranked in
    let of_type =
      if is_blank schema_type
      then in_domain
      else filter_by (λ c. equal_fold c.schema_type schema_type) in_domain in
    if is_blank domain then diversify_by_domain n of_type else some of_type

-- ===== src/Queue/Defs.antt =====
-- internal/queue/queue.go: the state of the queue and the functions on its parts. The Bloom
-- filter is a third-party package and a parameter, and so are the float64 scores, of which the
-- queue uses the order alone.
use duvycrawl.Shared.{
  ℕ, zero, suc, ◌+◌, ◌/◌, ◌≡◌, Bool, true, false, none, some, List, [], ◌∷◌, ◌++◌, ltb,
  if◌then◌else◌, length, get_elem?, take, drop,
}
use duvycrawl.Shared.Text.{Text, text_eq}

-- The order of float64 values other than NaN.
pub record ScoreOrder (F : Type 0) : Type 0 where
  pub lt : F → F → Bool
  pub asym : (x y : F) → lt x y ≡ true → lt y x ≡ false
  pub lt_of_not_lt : (x y z : F) → lt x y ≡ false → lt x z ≡ true → lt y z ≡ true

-- What a Bloom filter documents: it starts empty and has no false negatives.
pub record Bloom (B : Type 0) : Type 0 where
  pub empty : B
  pub test : B → Text → Bool
  pub add : B → Text → B
  pub test-empty : (k : Text) → test empty k ≡ false
  pub test-add_self : (b : B) (k : Text) → test (add b k) k ≡ true
  pub test-add_mono : (b : B) (j k : Text) → test b k ≡ true → test (add b j) k ≡ true

-- `Job`; an identifier is the 64-bit pattern of the counter.
pub record Job (F : Type 0) : Type 0 where
  pub id : ℕ
  pub url : Text
  pub domain : Text
  pub depth : ℕ
  pub score : F
  pub base_score : F
  pub fingerprint : Text
  pub retries : ℕ
  pub anchor_text : Text
  pub source_page_title : Text
  pub source_schema_type : Text
  pub source_language : Text

pub record Stats : Type 0 where
  pub pending : ℕ
  pub domains : ℕ
  pub enqueued : ℕ
  pub dequeued : ℕ

-- `Queue`. `sleeping` stands for the condition variable: how many workers are suspended in its
-- `Wait` and have not been woken. It is at most `worker_waiters`, which a worker lowers itself
-- once it runs again.
pub record Queue (F B : Type 0) : Type 0 where
  pub domains : List (Text × List (Job F))
  pub bloom : B
  pub next_id : ℕ
  pub round : ℕ
  pub worker_waiters : ℕ
  pub sleeping : ℕ
  pub enqueued : ℕ
  pub dequeued : ℕ

-- `sort.Search(n, f)` of the standard library: the halving loop over [i, j), with fuel.
unfoldable pub search : ℕ → (ℕ → Bool) → ℕ → ℕ → ℕ
search zero f i j = i
search (suc fuel) f i j =
    let h = (i + j) / 2 in
    let right = search fuel f (h + 1) j in
    let left = search fuel f i h in if ltb i j then (if f h then left else right) else i

-- `dedupKey`.
unfoldable pub dedup_key : {F : Type 0} → Job F → Text
dedup_key job = elim job.fingerprint [ [] ↦ job.url | c ∷ s ↦ c ∷ s ]

-- `insertSorted`: `append`, `copy` and the assignment at position i.
unfoldable pub insert_at : {A : Type 0} → ℕ → A → List A → List A
insert_at i x xs = take i xs ++ x ∷ drop i xs

-- The predicate that `insertSorted` searches by.
unfoldable pub score_below : {F : Type 0} ⦃o : ScoreOrder F⦄ → List (Job F) → F → ℕ → Bool
score_below ⦃o⦄ jobs s i = elim (get_elem? jobs i) [ none ↦ false | some j ↦ o.lt j.score s ]

unfoldable pub insert_sorted : {F : Type 0} ⦃o : ScoreOrder F⦄ → List (Job F) → Job F → List (Job F)
unfolding search insert_at score_below
insert_sorted jobs job =
    insert_at (search (length jobs) (score_below jobs job.score) 0 (length jobs)) job jobs

-- `candidate`.
pub record Candidate (F : Type 0) : Type 0 where
  pub domain : Text
  pub score : F

-- The domains with pending jobs, in the order in which `range q.domains` visits the map.
unfoldable pub candidates : {F : Type 0} → List (Text × List (Job F)) → List (Candidate F)
candidates [] = []
candidates ((d, []) ∷ es) = candidates es
candidates ((d, job ∷ jobs) ∷ es) = record { domain = d; score = job.score } ∷ candidates es

-- `DomainCount`.
pub record DomainCount : Type 0 where
  pub domain : Text
  pub pending : ℕ

unfoldable pub insert_count : DomainCount → List DomainCount → List DomainCount
insert_count c [] = c ∷ []
insert_count c (d ∷ ds) = if ltb d.pending c.pending then c ∷ d ∷ ds else d ∷ insert_count c ds

unfoldable pub domain_counts : {F : Type 0} → List (Text × List (Job F)) → List DomainCount
domain_counts [] = []
domain_counts ((d, []) ∷ es) = domain_counts es
domain_counts ((d, job ∷ jobs) ∷ es) =
    record { domain = d; pending = length (job ∷ jobs) } ∷ domain_counts es

unfoldable pub sort_counts : List DomainCount → List DomainCount
unfolding insert_count
sort_counts [] = []
sort_counts (c ∷ cs) = insert_count c (sort_counts cs)

-- `DomainBreakdown`, for the entries in the order in which the map is visited.
unfoldable pub domain_breakdown : {F : Type 0} → List (Text × List (Job F)) → List DomainCount
unfolding domain_counts sort_counts
domain_breakdown order = sort_counts (domain_counts order)

-- ===== src/Queue/Insert.antt =====
-- internal/queue/queue.go: `insertSorted`. The binary search finds the first job of a lower score,
-- so the insertion is that of a sorted list, and newer jobs stand behind older ones of equal score.
use duvycrawl.Shared.{
  ℕ, zero, suc, ◌+◌, ◌-◌, ◌/◌, ◌≤◌, ◌<◌, ◌≡◌, refl, ap, ◌∙◌, Bool, true, false, List, [], ◌∷◌, inl,
  inr, arith, if◌then◌else◌, length, All, Bool-cases, All-map,
}
use duvycrawl.Queue.Defs.{ScoreOrder, Job, search, insert_at, score_below, insert_sorted}

-- The halving loop finds the threshold of a test that is false below it and true from it on.
search_lem :
    (f : ℕ → Bool) (t n : ℕ)
    → ((i : ℕ) → i < t → f i ≡ false)
    → ((i : ℕ) → t ≤ i → i < n → f i ≡ true)
    → (fuel i j : ℕ) → j - i ≤ fuel
    → i ≤ t
    → t ≤ j
    → j ≤ n
    → search fuel f i j ≡ t
unfolding search
search_lem f t n lo hi zero i j enough a b c = omega arith
search_lem f t n lo hi (suc fuel) i j enough a b c = ground (
  arith,
  lo ((i + j) / 2),
  hi ((i + j) / 2),
  search_lem f t n lo hi fuel ((i + j) / 2 + 1) j,
  search_lem f t n lo hi fuel i ((i + j) / 2),
)

module _ {F : Type 0} ⦃o : ScoreOrder F⦄ where
  -- Scores fall along the list: no job is below a later one.
  abbrev pub IsSorted : List (Job F) → Type 0
  IsSorted [] = Unit
  IsSorted (x ∷ xs) = All (λ y. o.lt x.score y.score ≡ false) xs × IsSorted xs

  -- The reference: pass the jobs that are not below the new one.
  unfoldable pub insert_desc : List (Job F) → Job F → List (Job F)
  insert_desc [] job = job ∷ []
  insert_desc (x ∷ xs) job = if o.lt x.score job.score then job ∷ x ∷ xs else x ∷ insert_desc xs job

  -- How many jobs the new one stands behind.
  rank : List (Job F) → F → ℕ
  rank [] s = 0
  rank (x ∷ xs) s = if o.lt x.score s then 0 else suc (rank xs s)

  rank-le-length : (xs : List (Job F)) (s : F) → rank xs s ≤ length xs
  unfolding rank
  rank-le-length [] s = omega arith
  rank-le-length (x ∷ xs) s = ground (arith, rank-le-length xs s)

  score_below_before :
      (xs : List (Job F)) (s : F) (i : ℕ) → i < rank xs s → score_below xs s i ≡ false
  unfolding rank score_below
  score_below_before [] s i h = refl
  score_below_before (x ∷ xs) s zero h = ground arith
  score_below_before (x ∷ xs) s (suc i) h = ground (arith, score_below_before xs s i)

  -- Behind a job that is below the score, all are.
  score_below-All :
      (x : Job F) (xs : List (Job F)) (s : F) (i : ℕ)
      → o.lt x.score s ≡ true
      → All (λ y. o.lt x.score y.score ≡ false) xs
      → i < length xs
      → score_below xs s i ≡ true
  unfolding score_below
  score_below-All x [] s i b a h = absurd (omega arith)
  score_below-All x (y ∷ ys) s zero b a h = o.lt_of_not_lt x.score y.score s a.0 b
  score_below-All x (y ∷ ys) s (suc i) b a h = score_below-All x ys s i b a.1 (omega arith)

  score_below_from :
      (xs : List (Job F)) (s : F) (i : ℕ)
      → IsSorted xs
      → rank xs s ≤ i
      → i < length xs
      → score_below xs s i ≡ true
  unfolding rank score_below
  score_below_from [] s i v r h = absurd (omega arith)
  score_below_from (x ∷ xs) s zero v r h = ground arith
  score_below_from (x ∷ xs) s (suc i) v r h = elim (Bool-cases (o.lt x.score s)) [
    | inl b ↦ score_below-All x xs s i b v.0 (omega arith)
    | inr b ↦ score_below_from xs s i v.1 (ground arith) (omega arith)
  ]

  insert_at-rank :
      (xs : List (Job F)) (job : Job F) → insert_at (rank xs job.score) job xs ≡ insert_desc xs job
  unfolding rank insert_at insert_desc
  insert_at-rank [] job = refl
  insert_at-rank (x ∷ xs) job = elim (Bool-cases (o.lt x.score job.score)) [
    | inl b ↦ rw b
    | inr b ↦ rw b (ap (λ l. x ∷ l) (insert_at-rank xs job))
  ]

  -- The binary insertion is the reference insertion, on every sorted list.
  pub insert_sorted-eq-insert_desc :
      (xs : List (Job F)) (job : Job F) → IsSorted xs → insert_sorted xs job ≡ insert_desc xs job
  unfolding insert_sorted
  insert_sorted-eq-insert_desc xs job v =
      ap (λ i. insert_at i job xs)
        (search_lem (score_below xs job.score) (rank xs job.score) (length xs)
          (score_below_before xs job.score) (λ i r h. score_below_from xs job.score i v r h)
          (length xs) 0 (length xs) (omega arith) (omega arith) (rank-le-length xs job.score)
          (omega arith))
      ∙ insert_at-rank xs job

  insert_desc-All :
      (P : Job F → Type 0) (xs : List (Job F)) (job : Job F)
      → P job
      → All P xs
      → All P (insert_desc xs job)
  unfolding insert_desc
  insert_desc-All P [] job p h = (p, tt)
  insert_desc-All P (x ∷ xs) job p h = elim (Bool-cases (o.lt x.score job.score)) [
    | inl b ↦ rw b (p, h)
    | inr b ↦ rw b (h.0, insert_desc-All P xs job p h.1)
  ]

  insert_desc-IsSorted :
      (xs : List (Job F)) (job : Job F) → IsSorted xs → IsSorted (insert_desc xs job)
  unfolding insert_desc
  insert_desc-IsSorted [] job v = (tt, tt)
  insert_desc-IsSorted (x ∷ xs) job v = elim (Bool-cases (o.lt x.score job.score)) [
    | inl b ↦ rw b (
      (
        o.asym x.score job.score b,
        All-map _ _ xs
            (λ y h. o.asym y.score job.score (o.lt_of_not_lt x.score y.score job.score h b)) v.0,
      ),
      v,
    )
    | inr b ↦ rw b (insert_desc-All _ xs job b v.0, insert_desc-IsSorted xs job v.1)
  ]

  -- The insertion keeps the list sorted.
  pub insert_sorted-IsSorted :
      (xs : List (Job F)) (job : Job F) → IsSorted xs → IsSorted (insert_sorted xs job)
  insert_sorted-IsSorted xs job v =
      rw (insert_sorted-eq-insert_desc xs job v) (insert_desc-IsSorted xs job v)

  pub insert_sorted-All :
      (P : Job F → Type 0) (xs : List (Job F)) (job : Job F)
      → IsSorted xs
      → P job
      → All P xs
      → All P (insert_sorted xs job)
  insert_sorted-All P xs job v p h =
      rw (insert_sorted-eq-insert_desc xs job v) (insert_desc-All P xs job p h)

  insert_desc-length :
      (xs : List (Job F)) (job : Job F) → length (insert_desc xs job) ≡ suc (length xs)
  unfolding insert_desc
  insert_desc-length [] job = refl
  insert_desc-length (x ∷ xs) job = ground (arith, insert_desc-length xs job)

  pub length-insert_sorted :
      (xs : List (Job F)) (job : Job F)
      → IsSorted xs
      → length (insert_sorted xs job) ≡ suc (length xs)
  length-insert_sorted xs job v =
      ap length (insert_sorted-eq-insert_desc xs job v) ∙ insert_desc-length xs job

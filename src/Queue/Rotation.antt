-- ===== src/Queue/Rotation.antt =====
-- internal/queue/queue.go: the indices and the candidates of the rotation in `dequeueLocked`.
use native.Mathlib.Decide.{dec_le}
use native.Mathlib.Nat.{mod-eq_of_lt, add-mod_right}
use duvycrawl.Shared.{
  ℕ, suc, ◌+◌, ◌-◌, ◌%◌, ◌^◌, ◌<◌, ◌≡◌, some, List, [], ◌∷◌, inl, inr, arith, length, get_elem?, In,
}
use duvycrawl.Shared.Text.{Text, text_eq}
use duvycrawl.Shared.Int.{pos, ◌+ℤ◌, rem, to_int}
use duvycrawl.Queue.Defs.{Job, Candidate, candidates}

-- Below n, `(offset + i) % n` takes the value k at one of the n rounds.
pub rotation_hits : (k n o : ℕ) → k < n → o < n → (i : ℕ) × (i < n) × ((o + i) % n ≡ k)
rotation_hits k n o h g = elim (dec_le o k) [
  | yes p ↦
      (k - o, omega arith, let here : o + (k - o) ≡ k = omega arith in rw here (mod-eq_of_lt h))
  | no p ↦ (
    k + n - o,
    omega arith,
    let here : o + (k + n - o) ≡ k + n = omega arith in
        rw (here, add-mod_right k n) (mod-eq_of_lt h),
  )
]

pub rem_nonneg : (a i n : ℕ) → rem (pos a +ℤ pos i) n ≡ pos ((a + i) % n)
unfolding rem ◌+ℤ◌
rem_nonneg a i n = ground arith

-- The candidates are the domains that the visit of the map found with a job.
pub In-candidates :
    {F : Type 0} (d : Text) (j : Job F) (jobs : List (Job F)) (order : List (Text × List (Job F)))
    → In (d, j ∷ jobs) order
    → In (record { domain = d; score = j.score }) (candidates order)
unfolding candidates
In-candidates d j jobs ((c, []) ∷ es) (inl e) = absurd (cc)
In-candidates d j jobs ((c, []) ∷ es) (inr m) = In-candidates d j jobs es m
In-candidates d j jobs ((c, x ∷ xs) ∷ es) (inl e) = inl (ground arith)
In-candidates d j jobs ((c, x ∷ xs) ∷ es) (inr m) = inr (In-candidates d j jobs es m)
In-candidates d j jobs [] m = absurd m

pub candidates-In :
    {F : Type 0} (order : List (Text × List (Job F))) (c : Candidate F)
    → In c (candidates order)
    → (j : Job F) × (jobs : List (Job F)) × In (c.domain, j ∷ jobs) order
unfolding candidates
candidates-In [] c m = absurd m
candidates-In ((d, []) ∷ es) c m = let (j, js, i) = candidates-In es c m in (j, js, inr i)
candidates-In ((d, x ∷ xs) ∷ es) c (inl e) = (x, xs, inl (ground arith))
candidates-In ((d, x ∷ xs) ∷ es) c (inr m) = let (j, js, i) = candidates-In es c m in (j, js, inr i)

pub get_elem?-In :
    {A : Type 0} (xs : List A) (a : A)
    → In a xs
    → (i : ℕ) × (i < length xs) × (get_elem? xs i ≡ some a)
get_elem?-In [] a m = absurd m
get_elem?-In (x ∷ xs) a (inl e) = (0, omega arith, ground arith)
get_elem?-In (x ∷ xs) a (inr m) = let (i, h, e) = get_elem?-In xs a m in (suc i, omega arith, e)

-- The offset of a round below 2^63 is a remainder, not below zero.
pub offset_nonneg : (r n : ℕ) → r < 2 ^ 63 → rem (to_int r) n ≡ pos (r % n)
unfolding to_int rem
offset_nonneg r n h = ground arith

-- ===== src/DomainStats/Laws.antt =====
-- internal/crawler/domainstats.go: with a database that does not fail, no crawled page is lost or
-- counted twice.
use duvycrawl.Shared.{
  ℕ, ◌==◌, ◌+◌, ◌≡◌, refl, ◌∙◌, Option, none, some, List, [], ◌∷◌, arith, if◌then◌else◌, inl, inr,
  Bool-cases,
}
use duvycrawl.Shared.Maps.{lookup, lookup-insert, Distinct, Distinct-insert}
use duvycrawl.Shared.Text.{Text, text_eq, text_beq, text_beq_iff}
use duvycrawl.DomainStats.{
  Accum, Row, DomainStore, Pending, or_empty, add_page, record_crawl, merge_row, stored_row,
  upsert_merged, flush_domain, flush_all, flush_stats,
}

-- What the database does while it does not fail: GetDomain finds the row of the domain, and
-- UpsertDomain leaves its merge with the row that was there.
pub record Reliable {S : Type 0} (db : DomainStore S) : Type 0 where
  pub rows : S → Text → Option Row
  pub gets : (s : S) (d : Text) → db.get_domain s d ≡ some (rows s d)
  pub put : S → Row → S
  pub puts : (s : S) (r : Row) → db.upsert_domain s r ≡ some (put s r)
  pub rows-put :
      (s : S) (r : Row) (d : Text)
      → rows (put s r) d
        ≡ (if text_beq r.domain d then some (stored_row r (rows s d)) else rows s d)

abbrev pub pages_in : Option Row → ℕ
pages_in none = 0
pages_in (some r) = r.pages_count

stored_row-pages_count :
    (r : Row) (old : Option Row) → (stored_row r old).pages_count ≡ r.pages_count
unfolding stored_row
stored_row-pages_count r none = refl
stored_row-pages_count r (some old) = refl

abbrev pub pages_of : Option Accum → ℕ
pages_of none = 0
pages_of (some acc) = acc.pages_count

-- A call of the collector: a page of a domain was crawled in some time, or the ticker fired.
pub data Call : Type 0 where
  crawl : ℕ → Text → ℕ → Call
  tick : Call

-- The pages of `d` that the calls report.
abbrev pub crawls_of : Text → List Call → ℕ
crawls_of d [] = 0
crawls_of d (crawl now c t ∷ cs) = (if text_beq c d then 1 else 0) + crawls_of d cs
crawls_of d (tick ∷ cs) = crawls_of d cs

crawls_of-cons :
    (d : Text) (c : Call) (cs : List Call)
    → crawls_of d (c ∷ cs) ≡ crawls_of d (c ∷ []) + crawls_of d cs
crawls_of-cons d (crawl now c t) cs = omega arith
crawls_of-cons d tick cs = omega arith

record_crawl-pages :
    (now duration : ℕ) (stats : Pending) (c d : Text)
    → pages_of (lookup d (record_crawl now stats c duration))
      ≡ pages_of (lookup d stats) + (if text_beq c d then 1 else 0)
unfolding record_crawl
record_crawl-pages now duration stats c d =
    rw (lookup-insert c d (add_page now duration (or_empty (lookup c stats))) stats)
      (ground (arith, text_beq_iff c d))

module _ {S : Type 0} (db : DomainStore S) (ema : ℕ → ℕ → ℕ) where
  unfoldable pub step : S × Pending → Call → S × Pending
  unfolding record_crawl flush_stats
  step (s, stats) (crawl now c duration) = (s, record_crawl now stats c duration)
  step (s, stats) tick = flush_stats db ema s stats

  unfoldable pub run : S × Pending → List Call → S × Pending
  unfolding step
  run s [] = s
  run s (c ∷ cs) = run (step s c) cs

module _ {S : Type 0} (db : DomainStore S) (ema : ℕ → ℕ → ℕ) (ok : Reliable db) where
  flush_domain-pages :
      (s : S) (c d : Text) (acc : Accum)
      → pages_in (ok.rows (flush_domain db ema s c acc) d)
        ≡ pages_in (ok.rows s d) + (if text_beq c d then acc.pages_count else 0)
  unfolding flush_domain
  flush_domain-pages s c d acc = elim (Bool-cases (acc.pages_count == 0)) [
    | inl z ↦ rw z (ground arith)
    | inr n ↦ rw (n, ok.gets s c) (merged (ok.rows s c) refl)
  ]
    where
      merged :
          (r : Option Row)
          → ok.rows s c ≡ r
          → pages_in (ok.rows (upsert_merged db ema s c acc (some r)) d)
            ≡ pages_in (ok.rows s d) + (if text_beq c d then acc.pages_count else 0)
      merged none e = rw (ok.puts s (merge_row ema c acc none)) (
          rw (ok.rows-put s (merge_row ema c acc none) d) (
            ground (
              arith,
              text_beq_iff c d,
              e,
              stored_row-pages_count (merge_row ema c acc none) (ok.rows s d),
            )))
      merged (some r) e = rw (ok.puts s (merge_row ema c acc (some r))) (
          rw (ok.rows-put s (merge_row ema c acc (some r)) d) (
            ground (
              arith,
              text_beq_iff c d,
              e,
              stored_row-pages_count (merge_row ema c acc (some r)) (ok.rows s d),
            )))

  flush_all-pages :
      (s : S) (m : Pending) (d : Text)
      → Distinct m
      → pages_in (ok.rows (flush_all db ema s m) d) ≡ pages_in (ok.rows s d) + pages_of (lookup d m)
  unfolding flush_all lookup
  flush_all-pages s [] d v = omega arith
  flush_all-pages s ((c, acc) ∷ m) d v =
      flush_all-pages (flush_domain db ema s c acc) m d v.1
      ∙ ground (arith, flush_domain-pages s c d acc, text_beq_iff c d)

  step-pages :
      (s : S) (stats : Pending) (c : Call) (d : Text)
      → Distinct stats
      → pages_in (ok.rows (step db ema (s, stats) c).0 d)
          + pages_of (lookup d (step db ema (s, stats) c).1)
        ≡ pages_in (ok.rows s d) + pages_of (lookup d stats) + crawls_of d (c ∷ [])
  unfolding step flush_stats lookup
  step-pages s stats (crawl now c duration) d v =
      omega (arith, record_crawl-pages now duration stats c d)
  step-pages s stats tick d v = omega (arith, flush_all-pages s stats d v)

  step-Distinct :
      (s : S) (stats : Pending) (c : Call) → Distinct stats → Distinct (step db ema (s, stats) c).1
  unfolding step record_crawl flush_stats
  step-Distinct s stats (crawl now c duration) v =
      Distinct-insert c (add_page now duration (or_empty (lookup c stats))) stats v
  step-Distinct s stats tick v = tt

  -- With a database that does not fail and whose UpsertDomain merges rows as the storage does, the
  -- pages in the row of a domain and those still to be flushed are together the pages that were
  -- there before and those that the calls report. No domain stands twice in the pending statistics.
  pub run-pages :
      (s : S) (stats : Pending) (cs : List Call) (d : Text)
      → Distinct stats
      → pages_in (ok.rows (run db ema (s, stats) cs).0 d)
          + pages_of (lookup d (run db ema (s, stats) cs).1)
        ≡ pages_in (ok.rows s d) + pages_of (lookup d stats) + crawls_of d cs
  unfolding run
  run-pages s stats [] d v = omega arith
  run-pages s stats (c ∷ cs) d v =
      run-pages (step db ema (s, stats) c).0 (step db ema (s, stats) c).1 cs d
        (step-Distinct s stats c v)
      ∙ omega (arith, step-pages s stats c d v, crawls_of-cons d c cs)

-- ===== src/DomainStats.antt =====
-- internal/crawler/domainstats.go: crawl statistics gathered in memory and merged into the rows of
-- the domains at each flush, and UpsertDomain of internal/storage/sqlite_crawler.go for the row it
-- leaves. The database is a parameter, and so is the float64 average; times
-- are numbers, durations are in nanoseconds, and the counts do not overflow.
pub mod Laws
use duvycrawl.Shared.{ℕ, ◌==◌, ◌+◌, ◌/◌, ◌≡◌, Option, none, some, List, [], ◌∷◌, if◌then◌else◌}
use duvycrawl.Shared.Maps.{lookup, insert}
use duvycrawl.Shared.Text.{Text, text_eq, text_beq}

-- `domainStatsAccum`.
pub record Accum : Type 0 where
  pub pages_count : ℕ
  pub total_duration : ℕ
  pub last_crawled : ℕ

-- The fields of `storage.Domain` that a flush reads or writes.
pub record Row : Type 0 where
  pub domain : Text
  pub robots_txt : Text
  pub robots_fetched : ℕ
  pub pages_count : ℕ
  pub avg_response_ms : ℕ
  pub last_crawled : ℕ

-- `GetDomain` and `UpsertDomain`; the outer none is an error.
pub record DomainStore (S : Type 0) : Type 0 where
  pub get_domain : S → Text → Option (Option Row)
  pub upsert_domain : S → Row → Option S

-- The row that `UpsertDomain` leaves in the table, by what was there: an empty text and a zero time,
-- which is written as NULL, do not replace what is stored.
unfoldable pub or_text : Text → Text → Text
or_text [] old = old
or_text (c ∷ s) old = c ∷ s

unfoldable pub stored_row : Row → Option Row → Row
unfolding or_text
stored_row r none = r
stored_row r (some old) = record {
  domain = r.domain;
  robots_txt = or_text r.robots_txt old.robots_txt;
  robots_fetched = if r.robots_fetched == 0 then old.robots_fetched else r.robots_fetched;
  pages_count = r.pages_count;
  avg_response_ms = r.avg_response_ms;
  last_crawled = if r.last_crawled == 0 then old.last_crawled else r.last_crawled;
}

abbrev pub Pending : Type 0
Pending = List (Text × Accum)

unfoldable pub or_empty : Option Accum → Accum
or_empty none = record { pages_count = 0; total_duration = 0; last_crawled = 0 }
or_empty (some acc) = acc

unfoldable pub add_page : ℕ → ℕ → Accum → Accum
add_page now duration acc = record {
  pages_count = acc.pages_count + 1;
  total_duration = acc.total_duration + duration;
  last_crawled = now;
}

-- `Record`.
unfoldable pub record_crawl : ℕ → Pending → Text → ℕ → Pending
unfolding or_empty add_page
record_crawl now stats domain duration =
    insert domain (add_page now duration (or_empty (lookup domain stats))) stats

-- The row that a flush writes. `ema` is the moving average of the new and the old response time.
unfoldable pub merge_row : (ℕ → ℕ → ℕ) → Text → Accum → Option Row → Row
merge_row ema domain acc none = record {
  domain = domain;
  robots_txt = [];
  robots_fetched = 0;
  pages_count = acc.pages_count;
  avg_response_ms = acc.total_duration / 1000000 / acc.pages_count;
  last_crawled = acc.last_crawled;
}
merge_row ema domain acc (some existing) = record {
  domain = domain;
  robots_txt = existing.robots_txt;
  robots_fetched = existing.robots_fetched;
  pages_count = existing.pages_count + acc.pages_count;
  avg_response_ms = ema (acc.total_duration / 1000000 / acc.pages_count) existing.avg_response_ms;
  last_crawled = acc.last_crawled;
}

unfoldable pub or_same {ℓ} : {A : Type ℓ} → A → Option A → A
or_same a none = a
or_same a (some b) = b

module _ {S : Type 0} (db : DomainStore S) (ema : ℕ → ℕ → ℕ) where
  -- One round of the loop of `flush`: after an error the domain is skipped.
  unfoldable pub upsert_merged : S → Text → Accum → Option (Option Row) → S
  unfolding merge_row or_same
  upsert_merged s domain acc none = s
  upsert_merged s domain acc (some existing) =
      or_same s (db.upsert_domain s (merge_row ema domain acc existing))

  unfoldable pub flush_domain : S → Text → Accum → S
  unfolding upsert_merged
  flush_domain s domain acc =
      if acc.pages_count == 0 then s else upsert_merged s domain acc (db.get_domain s domain)

  -- The loop over the snapshot, in the order in which the map is visited.
  unfoldable pub flush_all : S → Pending → S
  unfolding flush_domain
  flush_all s [] = s
  flush_all s ((domain, acc) ∷ snapshot) = flush_all (flush_domain s domain acc) snapshot

  -- `flush`: the statistics are taken before the database is asked, and are not put back.
  unfoldable pub flush_stats : S → Pending → S × Pending
  unfolding flush_all
  flush_stats s stats = (flush_all s stats, [])

-- ===== src/Scheduler.antt =====
-- internal/scheduler/scheduler.go: one tick. The database is a parameter, in which none is an error,
-- and so are the time and the priorities, which are float64s. A setting that is not positive is 0.
pub mod Laws
use duvycrawl.Shared.{
  ℕ, ◌==◌, Bool, Option, none, some, List, [], ◌∷◌, ◌++◌, map, if◌then◌else◌, ltb,
}
use duvycrawl.Shared.Text.{Text, codes}
use duvycrawl.Url.{Std}
use duvycrawl.Queue.Defs.{ScoreOrder, Bloom}
use duvycrawl.Frontier.State.{Store, Scorer, Frontier}
use duvycrawl.Frontier.Ops.{add_batch_direct}
use duvycrawl.DomainStats.{or_same}

-- The calls of `storage.Storage` that a tick makes. A stale seed is its URL, a stale domain its name,
-- and a manual job its identifier and its URL.
pub record SchedulerStore (S : Type 0) : Type 0 where
  pub get_stale_seed_urls : S → ℕ → Option (List Text)
  pub update_seed_url_last_enqueued : S → Text → ℕ → Option S
  pub reset_stalled_jobs : S → ℕ → Option S
  pub get_stale_domains_for_recrawl : S → ℕ → ℕ → ℕ → Option (List Text)
  pub update_domain_homepage_recrawl : S → Text → ℕ → Option S
  pub dequeue_urls : S → ℕ → S × Option (List (ℕ × Text))
  pub complete_job : S → ℕ → Option S

-- `config.SchedulerConfig`, and `PriorityRecrawl+5`, `PriorityRecrawl` and `PriorityNormal`.
pub record SchedulerConfig (F : Type 0) : Type 0 where
  pub domain_recrawl_interval : ℕ
  pub domain_recrawl_min_pages : ℕ
  pub domain_recrawl_batch_limit : ℕ
  pub domain_recrawl_depth : ℕ
  pub priority_seed_recrawl : F
  pub priority_recrawl : F
  pub priority_normal : F

-- A loop of updates, each of which is only logged when it fails.
unfoldable pub update_all {ℓ} : {S : Type 0} {A : Type ℓ} → (S → A → Option S) → S → List A → S
unfolding or_same
update_all update s [] = s
update_all update s (x ∷ xs) = update_all update (or_same s (update s x)) xs

abbrev pub or_default : ℕ → ℕ → ℕ
or_default n default = if n == 0 then default else n

abbrev pub homepage : Text → Text
homepage domain = codes "https://" ++ (domain ++ codes "/")

module _ {S F B : Type 0} ⦃std : Std⦄ ⦃o : ScoreOrder F⦄ ⦃bl : Bloom B⦄ (db : SchedulerStore S)
    (pages : Store) (sc : Scorer F) (cfg : SchedulerConfig F) where
  -- The stale seeds; no seeds make no call. `AddBatchDirect` returns no error.
  unfoldable pub enqueue_seeds : ℕ → S → Frontier F B → List Text → S × Frontier F B
  unfolding add_batch_direct update_all
  enqueue_seeds now s f [] = (s, f)
  enqueue_seeds now s f (seed ∷ seeds) = (
    update_all (λ t url. db.update_seed_url_last_enqueued t url now) s (seed ∷ seeds),
    (add_batch_direct pages sc f (seed ∷ seeds) 0 cfg.priority_seed_recrawl).0,
  )

  -- The homepages of stale domains.
  unfoldable pub enqueue_homepages : ℕ → S → Frontier F B → Option (List Text) → S × Frontier F B
  unfolding add_batch_direct update_all
  enqueue_homepages now s f none = (s, f)
  enqueue_homepages now s f (some []) = (s, f)
  enqueue_homepages now s f (some (d ∷ ds)) = (
    update_all (λ t domain. db.update_domain_homepage_recrawl t domain now) s (d ∷ ds),
    (add_batch_direct pages sc f (map homepage (d ∷ ds)) cfg.domain_recrawl_depth
        cfg.priority_recrawl).0,
  )

  unfoldable pub recrawl_domains : ℕ → S × Frontier F B → S × Frontier F B
  unfolding enqueue_homepages
  recrawl_domains now (s, f) =
      if ltb 0 cfg.domain_recrawl_interval
      then enqueue_homepages now s f (
          db.get_stale_domains_for_recrawl s (or_default cfg.domain_recrawl_min_pages 10)
            cfg.domain_recrawl_interval (or_default cfg.domain_recrawl_batch_limit 50))
      else (s, f)

  -- The jobs that were put into the database by hand; they are completed in any case.
  unfoldable pub enqueue_manual : S × Option (List (ℕ × Text)) → Frontier F B → S × Frontier F B
  unfolding add_batch_direct update_all
  enqueue_manual (s, none) f = (s, f)
  enqueue_manual (s, some []) f = (s, f)
  enqueue_manual (s, some (j ∷ js)) f = (
    update_all (λ t id. db.complete_job t id) s (map (λ (j : ℕ × Text). j.0) (j ∷ js)),
    (add_batch_direct pages sc f (map (λ (j : ℕ × Text). j.1) (j ∷ js)) 0 cfg.priority_normal).0,
  )

  unfoldable pub manual_jobs : S × Frontier F B → S × Frontier F B
  unfolding enqueue_manual
  manual_jobs (s, f) = enqueue_manual (db.dequeue_urls s 100) f

  -- `tick`, with the stall limit of 30 minutes in nanoseconds.
  unfoldable pub after_seeds : ℕ → S × Frontier F B → S × Frontier F B
  unfolding or_same recrawl_domains manual_jobs
  after_seeds now (s, f) =
      manual_jobs (recrawl_domains now (or_same s (db.reset_stalled_jobs s 1800000000000), f))

  unfoldable pub tick : ℕ → S × Frontier F B → S × Frontier F B
  unfolding enqueue_seeds after_seeds
  tick now (s, f) = elim (db.get_stale_seed_urls s 100) [
    | none ↦ (s, f)
    | some seeds ↦ after_seeds now (enqueue_seeds now s f seeds)
  ]

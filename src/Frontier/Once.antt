-- ===== src/Frontier/Once.antt =====
-- internal/frontier/frontier.go: at most one job for each fingerprint gets through `Add`.
use duvycrawl.Shared.{
  ℕ, ◌≡◌, ◌≢◌, refl, ap, ◌∙◌, subst, Bool, true, false, Option, none, some, [], ◌∷◌, inl, inr,
  arith, Bool-cases,
}
use duvycrawl.Shared.Text.{Text, text_eq}
use duvycrawl.Url.{Std}
use duvycrawl.Queue.Defs.{ScoreOrder, Bloom, Job, dedup_key}
use duvycrawl.Queue.Ops.{has_seen, mark_seen, enqueue}
use duvycrawl.Queue.Dedup.{enqueue-marks}
use duvycrawl.Frontier.Fingerprint.{fingerprint_url}
use duvycrawl.Frontier.State.{Store, Scorer, Frontier, reserve, admit, make_job, no_context}
use duvycrawl.Frontier.Ops.{add_unseen, add_reserved, add_admitted, add}

dedup_key-fingerprint :
    {F : Type 0} (job : Job F) → job.fingerprint ≢ [] → dedup_key job ≡ job.fingerprint
unfolding dedup_key
dedup_key-fingerprint job h = go job.fingerprint h
  where
    go : (s : Text) → s ≢ [] → elim s as (λ _. Text) [ [] ↦ job.url | c ∷ r ↦ c ∷ r ] ≡ s
    go [] k = absurd (k refl)
    go (c ∷ r) k = refl

module _ {F B : Type 0} ⦃std : Std⦄ ⦃o : ScoreOrder F⦄ ⦃bl : Bloom B⦄ (store : Store)
    (sc : Scorer F) where
  pub reserve-queue : (f g : Frontier F B) (fp : Text) → reserve f fp ≡ some g → g.queue ≡ f.queue
  unfolding reserve
  reserve-queue f g fp e = ground arith

  -- A fingerprint that the filter has seen never reaches the queue again.
  add_reserved-seen :
      (r : Option (Frontier F B)) (f : Frontier F B) (job : Job F)
      → ((g : Frontier F B) → r ≡ some g → g.queue ≡ f.queue)
      → has_seen f.queue job.fingerprint ≡ true
      → (add_reserved store sc r f job).0.queue ≡ f.queue
  unfolding add_reserved
  add_reserved-seen none f job k h = refl
  add_reserved-seen (some g) f job k h =
      let same : g.queue ≡ f.queue = k g refl in
      let seen : has_seen g.queue job.fingerprint ≡ true =
        ap (λ q. has_seen q job.fingerprint) same ∙ h in
      rw seen same

  add_unseen-marks :
      (r : Option Bool) (g : Frontier F B) (job : Job F)
      → job.fingerprint ≢ []
      → (add_unseen store sc r g job).0.queue ≢ g.queue
      → has_seen (add_unseen store sc r g job).0.queue job.fingerprint ≡ true
  unfolding add_unseen has_seen mark_seen
  add_unseen-marks none g job n h = absurd (h refl)
  add_unseen-marks (some true) g job n h = bl.test-add_self g.queue.bloom job.fingerprint
  add_unseen-marks (some false) g job n h =
      subst (λ k. bl.test (enqueue g.queue job).0.bloom k ≡ true) (dedup_key-fingerprint job n)
        (enqueue-marks g.queue job)

  add_reserved-marks :
      (r : Option (Frontier F B)) (f : Frontier F B) (job : Job F)
      → ((g : Frontier F B) → r ≡ some g → g.queue ≡ f.queue)
      → job.fingerprint ≢ []
      → (add_reserved store sc r f job).0.queue ≢ f.queue
      → has_seen (add_reserved store sc r f job).0.queue job.fingerprint ≡ true
  unfolding add_reserved
  add_reserved-marks none f job k n h = absurd (h refl)
  add_reserved-marks (some g) f job k n h = elim (Bool-cases (has_seen g.queue job.fingerprint)) [
    | inl e ↦ rw e e
    | inr e ↦ rw e (
        add_unseen-marks (store.get_page_by_url job.url) g job n
          (λ same. h (rw e (same ∙ k g refl))))
  ]

  add-eq :
      (f : Frontier F B) (raw url dom : Text) (depth : ℕ) (base : F)
      → admit f.blacklisted_domains raw ≡ some (url, dom)
      → add store sc f raw depth base
        ≡ add_reserved store sc
            (reserve f (fingerprint_url url))
            f
            (make_job sc url dom (fingerprint_url url) no_context depth base)
  unfolding add add_admitted
  add-eq f raw url dom depth base a = ap (λ r. add_admitted store sc r f depth base) a

  add-seen :
      (f : Frontier F B) (raw url dom : Text) (depth : ℕ) (base : F)
      → admit f.blacklisted_domains raw ≡ some (url, dom)
      → has_seen f.queue (fingerprint_url url) ≡ true
      → (add store sc f raw depth base).0.queue ≡ f.queue
  unfolding make_job
  add-seen f raw url dom depth base a h =
      ap (λ r. r.0.queue) (add-eq f raw url dom depth base a)
      ∙ add_reserved-seen (reserve f (fingerprint_url url)) f
          (make_job sc url dom (fingerprint_url url) no_context depth base)
          (λ g. reserve-queue f g (fingerprint_url url)) h

  add-marks :
      (f : Frontier F B) (raw url dom : Text) (depth : ℕ) (base : F)
      → admit f.blacklisted_domains raw ≡ some (url, dom)
      → fingerprint_url url ≢ []
      → (add store sc f raw depth base).0.queue ≢ f.queue
      → has_seen (add store sc f raw depth base).0.queue (fingerprint_url url) ≡ true
  unfolding make_job
  add-marks f raw url dom depth base a n changed =
      let e = add-eq f raw url dom depth base a in
      ap (λ r. has_seen r.0.queue (fingerprint_url url)) e
      ∙ add_reserved-marks (reserve f (fingerprint_url url)) f
          (make_job sc url dom (fingerprint_url url) no_context depth base)
          (λ g. reserve-queue f g (fingerprint_url url)) n
          (λ same. changed (ap (λ r. r.0.queue) e ∙ same))

  -- If Add changed the queue for one URL, a next Add of an accepted URL with the same
  -- fingerprint, not the empty one, leaves the queue alone, whatever `max_pages_per_fingerprint` is.
  pub add_once_per_fingerprint :
      (f : Frontier F B) (raw raw' url dom url' dom' : Text) (depth depth' : ℕ) (base base' : F)
      → admit f.blacklisted_domains raw ≡ some (url, dom)
      → admit (add store sc f raw depth base).0.blacklisted_domains raw' ≡ some (url', dom')
      → fingerprint_url url' ≡ fingerprint_url url
      → fingerprint_url url ≢ []
      → (add store sc f raw depth base).0.queue ≢ f.queue
      → (add store sc (add store sc f raw depth base).0 raw' depth' base').0.queue
        ≡ (add store sc f raw depth base).0.queue
  add_once_per_fingerprint f raw raw' url dom url' dom' depth depth' base base' a a' same n
        changed =
      add-seen (add store sc f raw depth base).0 raw' url' dom' depth' base' a' (
        ap (has_seen (add store sc f raw depth base).0.queue) same
        ∙ add-marks f raw url dom depth base a n changed)

-- ===== src/Frontier/Direct.antt =====
-- internal/frontier/frontier.go: AddBatchDirect files a job for every URL that is admitted, and
-- keeps the jobs that wait.
use duvycrawl.Shared.{ℕ, ◌≡◌, refl, subst, some, List, [], ◌∷◌, ◌++◌, In, inl, inr}
use duvycrawl.Shared.Text.{Text}
use duvycrawl.Url.{Std}
use duvycrawl.Queue.Defs.{ScoreOrder, Bloom, Job}
use duvycrawl.Queue.Waiting.{Waits, enqueue_batch_direct-keeps, enqueue_batch_direct-adds}
use duvycrawl.Frontier.State.{Store, Scorer, Frontier, admit, direct_job, direct_jobs, make_job}
use duvycrawl.Frontier.Ops.{add_batch_direct, enqueue_direct}

In-append_right : {A : Type 0} (a : A) (xs ys : List A) → In a ys → In a (xs ++ ys)
In-append_right a [] ys h = h
In-append_right a (x ∷ xs) ys h = inr (In-append_right a xs ys h)

-- Among the jobs of AddBatchDirect is one for each URL that the frontier admits.
direct_jobs-In :
    {F : Type 0} ⦃std : Std⦄ (sc : Scorer F) (blacklist raws : List Text) (depth : ℕ) (base : F)
    (raw url domain : Text)
    → In raw raws
    → admit blacklist raw ≡ some (url, domain)
    → (j : Job F) × In j (direct_jobs sc blacklist raws depth base)
      × (j.url ≡ url)
      × (j.domain ≡ domain)
unfolding direct_jobs direct_job make_job
direct_jobs-In sc blacklist [] depth base raw url domain i h = absurd i
direct_jobs-In sc blacklist (r ∷ raws) depth base raw url domain (inl e) h =
    let here : admit blacklist r ≡ some (url, domain) =
      subst (λ x. admit blacklist x ≡ some (url, domain)) e h in
    rw (here, direct_job) (_, inl refl, refl, refl)
direct_jobs-In sc blacklist (r ∷ raws) depth base raw url domain (inr i) h =
    let (j, m, e, d) = direct_jobs-In sc blacklist raws depth base raw url domain i h in
    (j, In-append_right j (direct_job sc (admit blacklist r) depth base) _ m, e, d)

module _ {F B : Type 0} ⦃std : Std⦄ ⦃o : ScoreOrder F⦄ ⦃bl : Bloom B⦄ (pages : Store)
    (sc : Scorer F) where
  enqueue_direct-keeps :
      (f : Frontier F B) (jobs : List (Job F)) (domain url : Text)
      → Waits f.queue domain url
      → Waits (enqueue_direct pages sc f jobs).0.queue domain url
  unfolding enqueue_direct
  enqueue_direct-keeps f [] domain url w = w
  enqueue_direct-keeps f (j ∷ jobs) domain url w =
      enqueue_batch_direct-keeps f.queue (j ∷ jobs) domain url w

  enqueue_direct-adds :
      (f : Frontier F B) (jobs : List (Job F)) (j : Job F)
      → In j jobs
      → Waits (enqueue_direct pages sc f jobs).0.queue j.domain j.url
  unfolding enqueue_direct
  enqueue_direct-adds f [] j i = absurd i
  enqueue_direct-adds f (k ∷ jobs) j i = enqueue_batch_direct-adds f.queue (k ∷ jobs) j i

  pub add_batch_direct-keeps :
      (f : Frontier F B) (raws : List Text) (depth : ℕ) (base : F) (domain url : Text)
      → Waits f.queue domain url
      → Waits (add_batch_direct pages sc f raws depth base).0.queue domain url
  unfolding add_batch_direct
  add_batch_direct-keeps f raws depth base domain url w =
      enqueue_direct-keeps f (direct_jobs sc f.blacklisted_domains raws depth base) domain url w

  pub add_batch_direct-adds :
      (f : Frontier F B) (raws : List Text) (depth : ℕ) (base : F) (raw url domain : Text)
      → In raw raws
      → admit f.blacklisted_domains raw ≡ some (url, domain)
      → Waits (add_batch_direct pages sc f raws depth base).0.queue domain url
  unfolding add_batch_direct
  add_batch_direct-adds f raws depth base raw url domain i h =
      let (j, m, e, d) =
        direct_jobs-In sc f.blacklisted_domains raws depth base raw url domain i h in
      subst
        (λ x.
          Waits
            (enqueue_direct pages sc f
              (direct_jobs sc f.blacklisted_domains raws depth base)).0.queue
            x url)
        d
        (subst
          (λ x.
            Waits
              (enqueue_direct pages sc f
                (direct_jobs sc f.blacklisted_domains raws depth base)).0.queue
              j.domain x)
          e (enqueue_direct-adds f (direct_jobs sc f.blacklisted_domains raws depth base) j m))

  pub add_batch_direct-blacklist :
      (f : Frontier F B) (raws : List Text) (depth : ℕ) (base : F)
      → (add_batch_direct pages sc f raws depth base).0.blacklisted_domains ≡ f.blacklisted_domains
  unfolding add_batch_direct
  add_batch_direct-blacklist f raws depth base =
      kept (direct_jobs sc f.blacklisted_domains raws depth base)
    where
      kept :
          (jobs : List (Job F))
          → (enqueue_direct pages sc f jobs).0.blacklisted_domains ≡ f.blacklisted_domains
      kept [] = unfold enqueue_direct in refl
      kept (j ∷ jobs) = unfold enqueue_direct in refl

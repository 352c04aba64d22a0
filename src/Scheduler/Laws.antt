-- ===== src/Scheduler/Laws.antt =====
-- internal/scheduler/scheduler.go: what a tick puts into the queue.
use duvycrawl.Shared.{
  ℕ, ◌≡◌, ap, Option, none, some, List, [], ◌∷◌, map, ltb, In, inl, inr, Bool-cases,
}
use duvycrawl.Shared.Text.{Text}
use duvycrawl.Url.{Std}
use duvycrawl.Queue.Defs.{ScoreOrder, Bloom}
use duvycrawl.Queue.Waiting.{Waits}
use duvycrawl.Frontier.State.{Store, Scorer, Frontier, admit}
use duvycrawl.Frontier.Direct.{add_batch_direct-keeps, add_batch_direct-adds}
use duvycrawl.Scheduler.{
  SchedulerStore, SchedulerConfig, enqueue_seeds, enqueue_homepages, recrawl_domains,
  enqueue_manual, manual_jobs, after_seeds, tick, homepage,
}

In-map : {A C : Type 0} (g : A → C) (a : A) (xs : List A) → In a xs → In (g a) (map g xs)
In-map g a [] h = absurd h
In-map g a (x ∷ xs) (inl e) = inl (ap g e)
In-map g a (x ∷ xs) (inr h) = inr (In-map g a xs h)

module _ {S F B : Type 0} ⦃std : Std⦄ ⦃o : ScoreOrder F⦄ ⦃bl : Bloom B⦄ (db : SchedulerStore S)
    (pages : Store) (sc : Scorer F) (cfg : SchedulerConfig F) where
  enqueue_seeds-adds :
      (now : ℕ) (s : S) (f : Frontier F B) (seeds : List Text) (raw url domain : Text)
      → In raw seeds
      → admit f.blacklisted_domains raw ≡ some (url, domain)
      → Waits (enqueue_seeds db pages sc cfg now s f seeds).1.queue domain url
  unfolding enqueue_seeds
  enqueue_seeds-adds now s f [] raw url domain i h = absurd i
  enqueue_seeds-adds now s f (seed ∷ seeds) raw url domain i h =
      add_batch_direct-adds pages sc f (seed ∷ seeds) 0 cfg.priority_seed_recrawl raw url domain i h

  enqueue_homepages-keeps :
      (now : ℕ) (s : S) (f : Frontier F B) (found : Option (List Text)) (domain url : Text)
      → Waits f.queue domain url
      → Waits (enqueue_homepages db pages sc cfg now s f found).1.queue domain url
  unfolding enqueue_homepages
  enqueue_homepages-keeps now s f none domain url w = w
  enqueue_homepages-keeps now s f (some []) domain url w = w
  enqueue_homepages-keeps now s f (some (d ∷ ds)) domain url w =
      add_batch_direct-keeps pages sc f (map homepage (d ∷ ds)) cfg.domain_recrawl_depth
        cfg.priority_recrawl domain url w

  recrawl_domains-keeps :
      (now : ℕ) (s : S) (f : Frontier F B) (domain url : Text)
      → Waits f.queue domain url
      → Waits (recrawl_domains db pages sc cfg now (s, f)).1.queue domain url
  unfolding recrawl_domains
  recrawl_domains-keeps now s f domain url w =
      elim (Bool-cases (ltb 0 cfg.domain_recrawl_interval)) [
        | inl on ↦ rw on (enqueue_homepages-keeps now s f _ domain url w)
        | inr off ↦ rw off w
      ]

  enqueue_manual-keeps :
      (s : S) (found : Option (List (ℕ × Text))) (f : Frontier F B) (domain url : Text)
      → Waits f.queue domain url
      → Waits (enqueue_manual db pages sc cfg (s, found) f).1.queue domain url
  unfolding enqueue_manual
  enqueue_manual-keeps s none f domain url w = w
  enqueue_manual-keeps s (some []) f domain url w = w
  enqueue_manual-keeps s (some (j ∷ js)) f domain url w =
      add_batch_direct-keeps pages sc f (map (λ (j : ℕ × Text). j.1) (j ∷ js)) 0 cfg.priority_normal
        domain url w

  -- After a tick in which the stale seeds could be read, a job waits for every stale seed that the
  -- frontier admits, whatever else fails in the database and whatever else the tick enqueues.
  pub tick-seeds :
      (now : ℕ) (s : S) (f : Frontier F B) (seeds : List Text) (raw url domain : Text)
      → db.get_stale_seed_urls s 100 ≡ some seeds
      → In raw seeds
      → admit f.blacklisted_domains raw ≡ some (url, domain)
      → Waits (tick db pages sc cfg now (s, f)).1.queue domain url
  unfolding tick after_seeds manual_jobs
  tick-seeds now s f seeds raw url domain stale i h =
      rw (stale, tick)
        (enqueue_manual-keeps _ _ _ domain url (
          recrawl_domains-keeps now _ _ domain url
            (enqueue_seeds-adds now s f seeds raw url domain i h)))

  -- A manual job that DequeueURLs gives and the frontier admits waits in the queue after it was
  -- completed in the database.
  pub manual_jobs-adds :
      (s s' : S) (f : Frontier F B) (js : List (ℕ × Text)) (id : ℕ) (raw url domain : Text)
      → db.dequeue_urls s 100 ≡ (s', some js)
      → In (id, raw) js
      → admit f.blacklisted_domains raw ≡ some (url, domain)
      → Waits (manual_jobs db pages sc cfg (s, f)).1.queue domain url
  unfolding manual_jobs
  manual_jobs-adds s s' f js id raw url domain given i h = rw given (filed js i)
    where
      filed :
          (js : List (ℕ × Text))
          → In (id, raw) js
          → Waits (enqueue_manual db pages sc cfg (s', some js) f).1.queue domain url
      filed [] i = absurd i
      filed (j ∷ js) i =
          unfold enqueue_manual in
          add_batch_direct-adds pages sc f (map (λ (j : ℕ × Text). j.1) (j ∷ js)) 0
            cfg.priority_normal raw url domain (In-map (λ (j : ℕ × Text). j.1) (id, raw) (j ∷ js) i)
            h

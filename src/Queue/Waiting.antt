-- ===== src/Queue/Waiting.antt =====
-- internal/queue/queue.go: jobs that wait. EnqueueBatchDirect keeps them and adds its own.
use duvycrawl.Shared.{
  ℕ, zero, suc, ◌+◌, ◌≡◌, refl, sym, subst, List, [], ◌∷◌, In, inl, inr, Bool-cases,
}
use duvycrawl.Shared.Maps.{lookup, lookup-insert_same, lookup-insert_other, or_nil}
use duvycrawl.Shared.Text.{Text, text_eq}
use duvycrawl.Queue.Defs.{ScoreOrder, Job, Queue, insert_sorted, insert_at}
use duvycrawl.Queue.Ops.{domain_jobs, add_job, direct_loop, finish_batch, enqueue_batch_direct}
use duvycrawl.Shared.Int.{add64}
use duvycrawl.Queue.Retries.{finish_batch-domains}

-- A job for the URL stands in the list of the domain.
pub record Waits {F B : Type 0} (q : Queue F B) (domain url : Text) : Type 0 where
  pub job : Job F
  pub is_for : job.url ≡ url
  pub filed : In job (or_nil (lookup domain q.domains))

insert_at-here : {A : Type 0} (i : ℕ) (x : A) (xs : List A) → In x (insert_at i x xs)
unfolding insert_at
insert_at-here zero x xs = inl refl
insert_at-here (suc i) x [] = inl refl
insert_at-here (suc i) x (y ∷ ys) = inr (insert_at-here i x ys)

insert_at-keeps : {A : Type 0} (i : ℕ) (x a : A) (xs : List A) → In a xs → In a (insert_at i x xs)
unfolding insert_at
insert_at-keeps zero x a xs h = inr h
insert_at-keeps (suc i) x a [] h = absurd h
insert_at-keeps (suc i) x a (y ∷ ys) (inl e) = inl e
insert_at-keeps (suc i) x a (y ∷ ys) (inr h) = inr (insert_at-keeps i x a ys h)

module _ {F : Type 0} ⦃o : ScoreOrder F⦄ where
  insert_sorted-here : (jobs : List (Job F)) (j : Job F) → In j (insert_sorted jobs j)
  unfolding insert_sorted
  insert_sorted-here jobs j = insert_at-here _ j jobs

  insert_sorted-keeps :
      (jobs : List (Job F)) (j k : Job F) → In k jobs → In k (insert_sorted jobs j)
  unfolding insert_sorted
  insert_sorted-keeps jobs j k h = insert_at-keeps _ j k jobs h

module _ {F B : Type 0} ⦃o : ScoreOrder F⦄ where
  add_job-here : (q : Queue F B) (j : Job F) → Waits (add_job q j) j.domain j.url
  unfolding add_job
  add_job-here q j =
      let filed = record j { id = add64 q.next_id 1 } in
      record {
        job = filed;
        is_for = refl;
        filed =
            subst (λ x. In filed (or_nil x))
              (sym (
                lookup-insert_same j.domain j.domain (insert_sorted (domain_jobs q j.domain) filed)
                  q.domains ((text_eq.beq_iff j.domain j.domain).1 refl)))
              (insert_sorted-here (domain_jobs q j.domain) filed);
      }

  add_job-keeps :
      (q : Queue F B) (j : Job F) (domain url : Text)
      → Waits q domain url
      → Waits (add_job q j) domain url
  unfolding add_job
  add_job-keeps q j domain url w =
      let filed = record j { id = add64 q.next_id 1 } in
      let jobs = insert_sorted (domain_jobs q j.domain) filed in
      elim (Bool-cases (text_eq.beq j.domain domain)) [
        | inl same ↦ record {
          job = w.job;
          is_for = w.is_for;
          filed =
              subst (λ x. In w.job (or_nil x))
                (sym (lookup-insert_same j.domain domain jobs q.domains same))
                (insert_sorted-keeps (domain_jobs q j.domain) filed w.job (
                  subst (λ x. In w.job (or_nil (lookup x q.domains)))
                    (sym ((text_eq.beq_iff j.domain domain).0 same)) w.filed));
        }
        | inr other ↦ record {
          job = w.job;
          is_for = w.is_for;
          filed =
              subst (λ x. In w.job (or_nil x))
                (sym (lookup-insert_other j.domain domain jobs q.domains other)) w.filed;
        }
      ]

  direct_loop-keeps :
      (jobs : List (Job F)) (q : Queue F B) (added : ℕ) (domain url : Text)
      → Waits q domain url
      → Waits (direct_loop jobs q added).0 domain url
  unfolding direct_loop
  direct_loop-keeps [] q added domain url w = w
  direct_loop-keeps (j ∷ jobs) q added domain url w =
      direct_loop-keeps jobs (add_job q j) (added + 1) domain url (add_job-keeps q j domain url w)

  direct_loop-adds :
      (jobs : List (Job F)) (q : Queue F B) (added : ℕ) (j : Job F)
      → In j jobs
      → Waits (direct_loop jobs q added).0 j.domain j.url
  unfolding direct_loop
  direct_loop-adds [] q added j i = absurd i
  direct_loop-adds (k ∷ jobs) q added j (inl e) =
      rw e (direct_loop-keeps jobs (add_job q k) (added + 1) k.domain k.url (add_job-here q k))
  direct_loop-adds (k ∷ jobs) q added j (inr i) =
      direct_loop-adds jobs (add_job q k) (added + 1) j i

  finish_batch-Waits :
      (q : Queue F B) (added : ℕ) (domain url : Text)
      → Waits q domain url
      → Waits (finish_batch (q, added)).0 domain url
  finish_batch-Waits q added domain url w = record {
    job = w.job;
    is_for = w.is_for;
    filed =
        subst (λ m. In w.job (or_nil (lookup domain m))) (sym (finish_batch-domains q added))
          w.filed;
  }

  pub enqueue_batch_direct-keeps :
      (q : Queue F B) (jobs : List (Job F)) (domain url : Text)
      → Waits q domain url
      → Waits (enqueue_batch_direct q jobs).0 domain url
  unfolding enqueue_batch_direct
  enqueue_batch_direct-keeps q jobs domain url w =
      finish_batch-Waits (direct_loop jobs q 0).0 (direct_loop jobs q 0).1 domain url
        (direct_loop-keeps jobs q 0 domain url w)

  pub enqueue_batch_direct-adds :
      (q : Queue F B) (jobs : List (Job F)) (j : Job F)
      → In j jobs
      → Waits (enqueue_batch_direct q jobs).0 j.domain j.url
  unfolding enqueue_batch_direct
  enqueue_batch_direct-adds q jobs j i =
      finish_batch-Waits (direct_loop jobs q 0).0 (direct_loop jobs q 0).1 j.domain j.url
        (direct_loop-adds jobs q 0 j i)

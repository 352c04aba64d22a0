-- ===== src/BatchWriter/Laws.antt =====
-- internal/storage/batchwriter.go: the pages under any calls, ticks and failures.
use mathlib.Core.List.{append_assoc, append-nil}
use duvycrawl.Shared.{
  ℕ, ◌+◌, ◌≡◌, refl, sym, ap, ◌∙◌, Bool, true, false, List, [], ◌∷◌, ◌++◌, inl, inr, leb, length,
  Bool-cases,
}
use duvycrawl.Shared.Maps.{or_nil, lookup, insert, total}
use duvycrawl.Shared.Text.{Text, text_eq}
use duvycrawl.BatchWriter.{
  Batch, BatchWriter, empty_batch, new_batch_writer, is_empty, flush, flush_if, write_page,
  write_links, write_images,
}

pub data Call (P L I : Type 0) : Type 0 where
  page : P → Call P L I
  links : Text → List L → Call P L I
  images : List I → Call P L I
  tick : Call P L I

module _ {P L I : Type 0} where
  -- The pages of a list of batches, oldest first.
  unfoldable pub pages_of : List (Batch P L I) → List P
  pages_of [] = []
  pages_of (b ∷ bs) = b.pages ++ pages_of bs

  pages_of-append : (bs cs : List (Batch P L I)) → pages_of (bs ++ cs) ≡ pages_of bs ++ pages_of cs
  unfolding pages_of
  pages_of-append [] cs = refl
  pages_of-append (b ∷ bs) cs =
      ap (λ x. b.pages ++ x) (pages_of-append bs cs)
      ∙ sym (append_assoc b.pages (pages_of bs) (pages_of cs))

  -- The pages handed over so far: those stored and then those buffered.
  abbrev pub all_pages : BatchWriter P L I → List P
  all_pages bw = pages_of bw.stored ++ bw.pages

  unfoldable pub submitted_pages : List (Call P L I) → List P
  submitted_pages [] = []
  submitted_pages (page p ∷ cs) = p ∷ submitted_pages cs
  submitted_pages (links s ls ∷ cs) = submitted_pages cs
  submitted_pages (images is ∷ cs) = submitted_pages cs
  submitted_pages (tick ∷ cs) = submitted_pages cs

module _ {P L I : Type 0} (commit : ℕ → Batch P L I → Bool) where
  -- The writer under a sequence of calls and ticks; the databases may answer each one differently.
  unfoldable pub step : ℕ → BatchWriter P L I → Call P L I → BatchWriter P L I
  unfolding write_page write_links write_images flush
  step n bw (page p) = write_page (commit n) bw p
  step n bw (links source ls) = write_links (commit n) bw source ls
  step n bw (images is) = write_images (commit n) bw is
  step n bw tick = (flush (commit n) bw).0

  unfoldable pub run : ℕ → BatchWriter P L I → List (Call P L I) → BatchWriter P L I
  unfolding step
  run n bw [] = bw
  run n bw (c ∷ cs) = run (n + 1) (step n bw c) cs

module _ {P L I : Type 0} (commit : Batch P L I → Bool) where
  -- A flush moves the buffer as a whole or leaves it.
  flush-pages : (bw : BatchWriter P L I) → all_pages (flush commit bw).0 ≡ all_pages bw
  unfolding flush empty_batch
  flush-pages bw = elim (Bool-cases (is_empty bw.buffer)) [
    | inl e ↦ rw e refl
    | inr e ↦ elim (Bool-cases (commit bw.buffer)) [
      | inl f ↦
          rw (e, f)
            (append-nil (pages_of (bw.stored ++ bw.buffer ∷ []))
              ∙ (pages_of-append bw.stored (bw.buffer ∷ [])
                  ∙ ap (λ x. pages_of bw.stored ++ x) (unfold pages_of in append-nil bw.pages)))
      | inr f ↦ rw (e, f) refl
    ]
  ]

  flush_if-pages :
      (b : Bool) (bw : BatchWriter P L I) → all_pages (flush_if commit b bw) ≡ all_pages bw
  unfolding flush_if
  flush_if-pages true bw = flush-pages bw
  flush_if-pages false bw = refl

module _ {P L I : Type 0} (commit : ℕ → Batch P L I → Bool) where
  step-pages :
      (n : ℕ) (bw : BatchWriter P L I) (c : Call P L I) (cs : List (Call P L I))
      → all_pages (step commit n bw c) ++ submitted_pages cs
        ≡ all_pages bw ++ submitted_pages (c ∷ cs)
  unfolding step write_page write_links write_images submitted_pages
  step-pages n bw (page p) cs =
      ap (λ x. x ++ submitted_pages cs)
        (flush_if-pages (commit n) (leb bw.max_pages (length (bw.pages ++ p ∷ [])))
            (record bw { buffer = record bw.buffer { pages = bw.pages ++ p ∷ [] } })
          ∙ sym (append_assoc (pages_of bw.stored) bw.pages (p ∷ [])))
      ∙ append_assoc (all_pages bw) (p ∷ []) (submitted_pages cs)
  step-pages n bw (links s []) cs = refl
  step-pages n bw (links s (l ∷ ls)) cs =
      let new_links = insert s (or_nil (lookup s bw.links) ++ l ∷ ls) bw.links in
      ap (λ x. x ++ submitted_pages cs)
        (flush_if-pages (commit n) (leb bw.max_links (total length new_links))
          (record bw { buffer = record bw.buffer { links = new_links } }))
  step-pages n bw (images []) cs = refl
  step-pages n bw (images (i ∷ is)) cs =
      let new_images = bw.images ++ i ∷ is in
      ap (λ x. x ++ submitted_pages cs)
        (flush_if-pages (commit n) (leb bw.max_images (length new_images))
          (record bw { buffer = record bw.buffer { images = new_images } }))
  step-pages n bw tick cs = ap (λ x. x ++ submitted_pages cs) (flush-pages (commit n) bw)

  run-pages :
      (n : ℕ) (bw : BatchWriter P L I) (cs : List (Call P L I))
      → all_pages (run commit n bw cs) ≡ all_pages bw ++ submitted_pages cs
  unfolding run
  run-pages n bw [] = sym (unfold submitted_pages in append-nil (all_pages bw))
  run-pages n bw (c ∷ cs) = run-pages (n + 1) (step commit n bw c) cs ∙ step-pages n bw c cs

  -- Whatever transactions fail, the pages that the committed ones were given and then the buffered
  -- ones are all the pages handed over, each once and in their order.
  pub run-new-pages :
      (cs : List (Call P L I)) → all_pages (run commit 0 new_batch_writer cs) ≡ submitted_pages cs
  unfolding new_batch_writer empty_batch pages_of
  run-new-pages cs = run-pages 0 new_batch_writer cs

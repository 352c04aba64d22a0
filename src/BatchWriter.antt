-- ===== src/BatchWriter.antt =====
-- internal/storage/batchwriter.go: the buffers, their thresholds and the flush. The transaction on
-- the databases is a parameter: it commits or fails. What one statement of a committed transaction
-- did with its row is not modelled; the code logs such an error and goes on.
pub mod Laws
use duvycrawl.Shared.{
  ℕ, ◌==◌, ◌+◌, Bool, true, false, ◌&&◌, Option, none, some, List, [], ◌∷◌, ◌++◌, if◌then◌else◌,
  ltb, leb, length,
}
use duvycrawl.Shared.Maps.{or_nil, lookup, insert, total}
use duvycrawl.Shared.Text.{Text, text_eq}

-- `BatchWriter`, for any types of pages, links and images. `stored` is what the
-- committed transactions were given, oldest first.
pub record Batch (P L I : Type 0) : Type 0 where
  pub pages : List P
  pub links : List (Text × List L)
  pub images : List I

pub record BatchWriter (P L I : Type 0) : Type 0 where
  pub buffer : Batch P L I
  pub open buffer use *
  pub stored : List (Batch P L I)
  pub max_pages : ℕ
  pub max_links : ℕ
  pub max_images : ℕ

module _ {P L I : Type 0} where
  unfoldable pub empty_batch : Batch P L I
  empty_batch = record { pages = []; links = []; images = [] }

  -- `NewBatchWriter`.
  unfoldable pub new_batch_writer : BatchWriter P L I
  unfolding empty_batch
  new_batch_writer = record {
    buffer = empty_batch;
    stored = [];
    max_pages = 100;
    max_links = 500;
    max_images = 500;
  }

  unfoldable pub is_empty : Batch P L I → Bool
  is_empty b = length b.pages == 0 && length b.links == 0 && length b.images == 0

module _ {P L I : Type 0} (commit : Batch P L I → Bool) where
  -- `flushLocked` and `Flush`: the buffers are cleared only after a commit. The result is the error.
  unfoldable pub flush : BatchWriter P L I → BatchWriter P L I × Bool
  unfolding is_empty empty_batch
  flush bw =
      if is_empty bw.buffer
      then (bw, false)
      else (if commit bw.buffer
          then (record bw { buffer = empty_batch; stored = bw.stored ++ bw.buffer ∷ [] }, false)
          else (bw, true))

  unfoldable pub flush_if : Bool → BatchWriter P L I → BatchWriter P L I
  unfolding flush
  flush_if full bw = if full then (flush bw).0 else bw

  -- `WritePage`.
  unfoldable pub write_page : BatchWriter P L I → P → BatchWriter P L I
  unfolding flush_if
  write_page bw page =
      let pages = bw.pages ++ page ∷ [] in
      flush_if (leb bw.max_pages (length pages))
        (record bw { buffer = record bw.buffer { pages = pages } })

  -- `WriteLinks`.
  unfoldable pub write_links : BatchWriter P L I → Text → List L → BatchWriter P L I
  unfolding flush_if
  write_links bw source [] = bw
  write_links bw source (l ∷ ls) =
      let links = insert source (or_nil (lookup source bw.links) ++ l ∷ ls) bw.links in
      flush_if (leb bw.max_links (total length links))
        (record bw { buffer = record bw.buffer { links = links } })

  -- `WriteImages`.
  unfoldable pub write_images : BatchWriter P L I → List I → BatchWriter P L I
  unfolding flush_if
  write_images bw [] = bw
  write_images bw (i ∷ is) =
      let images = bw.images ++ i ∷ is in
      flush_if (leb bw.max_images (length images))
        (record bw { buffer = record bw.buffer { images = images } })

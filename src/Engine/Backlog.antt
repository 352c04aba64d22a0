-- ===== src/Engine/Backlog.antt =====
-- internal/crawler/engine.go: the backlog of pages that wait for the browser. An item has one key,
-- and the set of keys is the keys of the items.
pub mod Laws
use duvycrawl.Shared.{
  ℕ, zero, suc, ltb, ◌+◌, ◌/◌, ◌%◌, ◌≡◌, refl, sym, ap, ◌∙◌, Bool, true, false, not, ◌&&◌, ◌||◌,
  Option, none, some, List, [], ◌∷◌, ◌++◌, map, if◌then◌else◌, filter, All, arith, Bool-cases, inl,
  inr,
}
use mathlib.Core.List.{map-append}
use duvycrawl.Shared.Text.{Text, codes, text_beq, text_beq_iff, member}
use duvycrawl.Url.{Std}
use duvycrawl.UrlFilter.{is_non_indexable_document_url}
use duvycrawl.Queue.Defs.{Job}
use duvycrawl.Frontier.Canonical.{Canonical, ok, err, canonicalize_url}
use duvycrawl.Frontier.Fingerprint.{fingerprint_url}
use duvycrawl.Render.{
  Reason, force, javascript_required_message, browser_interstitial, empty_spa_shell,
  weak_http_parse, status, rendering_enabled,
}
use duvycrawl.Engine.State.{Config, BacklogItem, Backlog}

-- `normalized`, or the URL as it is after an error.
unfoldable pub canonical_or : Canonical → Text → Text
canonical_or (ok url domain) raw = url
canonical_or (err e) raw = raw

-- `delete(e.renderQueued, key)`.
unfoldable pub remove_key : Text → List Text → List Text
unfolding text_beq
remove_key key keys = filter (λ k. not (text_beq key k)) keys

-- The decimal digits of a number, which has fewer of them than its successor counts.
unfoldable pub decimal_loop : ℕ → ℕ → Text → Text
decimal_loop zero n digits = digits
decimal_loop (suc fuel) n digits =
    let digits' = (b'0' + n % 10) ∷ digits in
    let rest = decimal_loop fuel (n / 10) digits' in if ltb n 10 then digits' else rest

-- The reasons as the code writes them.
unfoldable pub reason_text : Reason → Text
unfolding decimal_loop
reason_text force = codes "force"
reason_text javascript_required_message = codes "javascript_required_message"
reason_text browser_interstitial = codes "browser_interstitial"
reason_text empty_spa_shell = codes "empty_spa_shell"
reason_text weak_http_parse = codes "weak_http_parse"
reason_text (status code) = codes "status_" ++ decimal_loop (suc code) code []

module _ ⦃std : Std⦄ where
  -- `frontier.FingerprintURL(targetURL) + ":" + reason`.
  unfoldable pub backlog_key : Text → Reason → Text
  unfolding fingerprint_url reason_text
  backlog_key url reason = fingerprint_url url ++ b':' ∷ reason_text reason

module _ {F : Type 0} ⦃std : Std⦄ where
  abbrev pub key_of : BacklogItem F → Text
  key_of item = backlog_key item.target_url item.reason

  -- `pushRenderBacklog`.
  unfoldable pub push_render_backlog : Backlog F → BacklogItem F → Backlog F
  unfolding member
  push_render_backlog b item =
      if member (key_of item) b.queued
      then b
      else record { items = b.items ++ item ∷ []; queued = key_of item ∷ b.queued }

  -- `enqueueRenderBacklog`, and whether the page is left to the browser.
  unfoldable pub enqueue_render_backlog :
      Config → ℕ → Backlog F → Job F → Text → Reason → Backlog F × Bool
  unfolding rendering_enabled is_non_indexable_document_url canonicalize_url canonical_or
      push_render_backlog
  enqueue_render_backlog cfg now b job target reason =
      if not cfg.has_renderer || not (rendering_enabled cfg.rendering_cfg)
      then (b, false)
      else if is_non_indexable_document_url target
      then (b, false)
      else (
        push_render_backlog b (record {
          job = job;
          target_url = canonical_or (canonicalize_url target) target;
          reason = reason;
          attempts = 0;
          available = now;
        }),
        true,
      )

  -- `popRenderBacklog`.
  unfoldable pub pop_items : List (BacklogItem F) → Backlog F → Backlog F × Option (BacklogItem F)
  unfolding remove_key
  pop_items [] b = (b, none)
  pop_items (item ∷ items) b =
      (record { items = items; queued = remove_key (key_of item) b.queued }, some item)

  unfoldable pub pop_render_backlog : Backlog F → Backlog F × Option (BacklogItem F)
  unfolding pop_items
  pop_render_backlog b = pop_items b.items b

-- ===== src/Render/Laws.antt =====
-- internal/crawler/render_decider.go: what a decision says of the configuration and the page.
use duvycrawl.Shared.{
  ℕ, ◌==◌, ◌≡◌, ◌≢◌, Bool, true, ◌&&◌, none, some, List, [], ◌∷◌, arith, In, inl, inr, Bool-cases,
}
use duvycrawl.Shared.Text.{Text, codes, text_beq}
use duvycrawl.Render.{
  RenderingConfig, FetchResult, Reason, force, status, Decision, rendering_enabled, status_decision,
  should_render_status,
}

-- A status code leads to a rendering only if it is configured, and is the one that is reported.
status_decision-In :
    (cs : List ℕ) (code : ℕ) (r : Reason)
    → status_decision cs code ≡ some r
    → (r ≡ status code) × In code cs
unfolding status_decision
status_decision-In [] code r e = absurd (cc)
status_decision-In (c ∷ cs) code r e = elim (Bool-cases (code == c)) [
  | inl h ↦ (ground arith, inl (ground arith))
  | inr h ↦ let (same, m) = status_decision-In cs code r (rw h at e) in (same, inr m)
]

-- `shouldRenderStatus` renders only while rendering is on, for a forced HTML page or for a
-- configured status code.
pub should_render_status-inv :
    (is_html : Text → Bool) (cfg : RenderingConfig) (result : FetchResult) (r : Reason)
    → should_render_status is_html cfg (some result) ≡ some r
    → (rendering_enabled cfg ≡ true)
      × (r ≢ force
          → (r ≡ status result.status_code) × In result.status_code cfg.render_on_status_codes)
unfolding should_render_status
should_render_status-inv is_html cfg result r e = elim (Bool-cases (rendering_enabled cfg)) [
  | inr off ↦ absurd (nothing r (rw off at e))
  | inl on ↦ elim (Bool-cases (text_beq cfg.mode (codes "force") && is_html result.content_type)) [
    | inl f ↦ (on, λ n. absurd (n (forced r (rw (on, f) at e))))
    | inr f ↦ (
      on,
      λ _. status_decision-In cfg.render_on_status_codes result.status_code r (rw (on, f) at e),
    )
  ]
]
  where
    nothing : (r : Reason) → ◌≡◌ {A = Decision} none (some r) → ⊥
    nothing r h = cc

    forced : (r : Reason) → ◌≡◌ {A = Decision} (some force) (some r) → r ≡ force
    forced r h = cc

-- ===== src/DnsCache/Laws.antt =====
-- internal/crawler/dnscache.go: an answer serves for its lifetime, and pruning drops dead ones only.
use duvycrawl.Shared.{
  ℕ, ◌≤◌, ◌≡◌, refl, sym, ap, ◌∙◌, true, none, some, [], ◌∷◌, arith, ltb, inl, inr, Bool-cases,
}
use duvycrawl.Shared.Maps.{lookup, Distinct}
use duvycrawl.Shared.Text.{Text, text_eq, text_beq, text_beq_iff}
use duvycrawl.DnsCache.{DnsEntry, Entries, hit, prune}

-- Pruning at a time keeps every answer that is live then or later, for distinct hosts.
pub hit-prune :
    (now later : ℕ) (m : Entries) (host : Text)
    → Distinct m
    → now ≤ later
    → hit later (lookup host (prune now m)) ≡ hit later (lookup host m)
unfolding prune lookup
hit-prune now later [] host d h = refl
hit-prune now later ((j, e) ∷ m) host d h = elim (Bool-cases (ltb e.expires now)) [
  | inl dead ↦ elim (Bool-cases (text_beq j host)) [
    | inl same ↦
        rw (dead, same)
          (hit-prune now later m host d.1 h
            ∙ (ap (hit later) (ap (λ k. lookup k m) (sym ((text_beq_iff j host).0 same)) ∙ d.0)
                ∙ sym (dead_hit e dead)))
    | inr other ↦ rw (dead, other) (hit-prune now later m host d.1 h)
  ]
  | inr alive ↦ elim (Bool-cases (text_beq j host)) [
    | inl same ↦ rw (alive, same) refl
    | inr other ↦ rw (alive, other) (hit-prune now later m host d.1 h)
  ]
]
  where
    dead_hit : (e : DnsEntry) → ltb e.expires now ≡ true → hit later (some e) ≡ hit later none
    dead_hit e k = unfold hit in ground arith

-- ===== src/DnsCache.antt =====
-- internal/crawler/dnscache.go: the cache of DNS lookups. The resolver's answer is an argument,
-- with the time at which it comes; the zero time of a new entry is 0.
pub mod Laws
use duvycrawl.Shared.{
  ℕ, ◌+◌, Bool, true, false, Option, none, some, List, [], ◌∷◌, if◌then◌else◌, ltb,
}
use duvycrawl.Shared.Maps.{lookup, insert}
use duvycrawl.Shared.Text.{Text, text_eq}

-- `dnsEntry`.
pub record DnsEntry : Type 0 where
  pub ips : List Text
  pub expires : ℕ

abbrev pub Entries : Type 0
Entries = List (Text × DnsEntry)

-- The answer of the cache and the addresses; none stands for the error of the resolver.
abbrev pub Answer : Type 0
Answer = Entries × Option (List Text)

unfoldable pub or_new : Option DnsEntry → DnsEntry
or_new none = record { ips = []; expires = 0 }
or_new (some e) = e

-- The resolver's part of `Lookup`, for the entry that the host has.
unfoldable pub resolve : ℕ → ℕ → Option (List Text) → Entries → Text → DnsEntry → Answer
resolve ttl done none m host e = (insert host e m, none)
resolve ttl done (some ips) m host e =
    (insert host (record { ips = ips; expires = done + ttl }) m, some ips)

-- `Lookup` by one worker: the check, the new entry, the check behind the lock of the host at time
-- `locked`, and the resolver.
unfoldable pub lookup_locked : ℕ → ℕ → ℕ → Option (List Text) → Entries → Text → DnsEntry → Answer
unfolding resolve
lookup_locked ttl locked done result m host e =
    if ltb locked e.expires then (insert host e m, some e.ips) else resolve ttl done result m host e

unfoldable pub hit : ℕ → Option DnsEntry → Option (List Text)
hit now none = none
hit now (some e) = if ltb now e.expires then some e.ips else none

unfoldable pub or_locked : Option (List Text) → Entries → Answer → Answer
or_locked (some ips) m answer = (m, some ips)
or_locked none m answer = answer

unfoldable pub lookup_host : ℕ → ℕ → ℕ → ℕ → Option (List Text) → Entries → Text → Answer
unfolding lookup_locked or_new hit or_locked
lookup_host ttl now locked done result m host =
    or_locked (hit now (lookup host m)) m
      (lookup_locked ttl locked done result m host (or_new (lookup host m)))

-- `prune`: `now.After(e.expires)`.
unfoldable pub prune : ℕ → Entries → Entries
prune now [] = []
prune now ((host, e) ∷ m) = if ltb e.expires now then prune now m else (host, e) ∷ prune now m

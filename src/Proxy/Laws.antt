-- ===== src/Proxy/Laws.antt =====
-- internal/crawler/proxy_manager.go: the choice of a proxy, the failure threshold and recovery.
use mathlib.Core.Option.{some-injective}
use duvycrawl.Shared.{
  ℕ, zero, suc, ◌+◌, ◌%◌, ◌^◌, ◌<◌, ◌≡◌, ◌≢◌, refl, sym, ap, ◌∙◌, Bool, true, false, ◌&&◌, ◌⊎◌, inl,
  inr, Option, none, some, List, [], ◌∷◌, ◌++◌, arith, ltb, leb, All, Bool-cases,
}
use duvycrawl.Shared.Text.{Text}
use duvycrawl.Proxy.{
  healthy, ProxyClient, is_healthy, configure, or_direct, new_proxy_manager, first_healthy,
  or_first, get_client, at_threshold, mark_down, answered, check_proxy, check_all_proxies,
}

abbrev pub AllDown : List ProxyClient → Type 0
AllDown = All (λ p. is_healthy p ≡ false)

-- The client is healthy and those before it are down, or all are down and it is the first.
abbrev pub Chosen : List ProxyClient → ProxyClient → Type 0
Chosen ps p =
    ((pre : List ProxyClient) × (post : List ProxyClient) × (ps ≡ pre ++ p ∷ post)
      × AllDown pre
      × (is_healthy p ≡ true))
    ⊎ (AllDown ps × ((post : List ProxyClient) × (ps ≡ p ∷ post)))

first_healthy-none : (ps : List ProxyClient) → first_healthy ps ≡ none → AllDown ps
unfolding first_healthy
first_healthy-none [] e = tt
first_healthy-none (p ∷ ps) e = elim (Bool-cases (is_healthy p)) [
  | inl h ↦ absurd (none≢some p (sym (rw h at e)))
  | inr h ↦ (h, first_healthy-none ps (rw h at e))
]
  where
    none≢some : (p : ProxyClient) → ◌≡◌ {A = Option ProxyClient} none (some p) → ⊥
    none≢some p f = cc

first_healthy-some :
    (ps : List ProxyClient) (p : ProxyClient)
    → first_healthy ps ≡ some p
    → (pre : List ProxyClient) × (post : List ProxyClient) × (ps ≡ pre ++ p ∷ post)
      × AllDown pre
      × (is_healthy p ≡ true)
unfolding first_healthy
first_healthy-some [] p e = absurd (cc)
first_healthy-some (q ∷ ps) p e = elim (Bool-cases (is_healthy q)) [
  | inl h ↦
      let same = some-injective q p (rw h at e) in
      ([], ps, ap (λ x. x ∷ ps) same, tt, rw (← same) h)
  | inr h ↦
      let (pre, post, split, all_down, up) = first_healthy-some ps p (rw h at e) in
      (q ∷ pre, post, ap (λ xs. q ∷ xs) split, (h, all_down), up)
]

-- A manager with proxies always gives a client: the first healthy one, or the first of all.
pub get_client-Chosen :
    (ps : List ProxyClient) → ps ≢ [] → (p : ProxyClient) × (get_client ps ≡ some p) × Chosen ps p
unfolding get_client
get_client-Chosen ps n = go (first_healthy ps) refl
  where
    first :
        (qs : List ProxyClient)
        → qs ≢ []
        → AllDown qs
        → (p : ProxyClient) × (or_first none qs ≡ some p) × Chosen qs p
    first [] k d = absurd (k refl)
    first (q ∷ qs) k d = (q, unfold or_first in refl, inr (d, (qs, refl)))

    go :
        (r : Option ProxyClient)
        → first_healthy ps ≡ r
        → (p : ProxyClient) × (or_first r ps ≡ some p) × Chosen ps p
    go none e = first ps n (first_healthy-none ps e)
    go (some p) e = (p, unfold or_first in refl, inl (first_healthy-some ps p e))

-- So does one that `NewProxyManager` made, whatever the URLs, and its client is healthy.
pub new_proxy_manager-nonempty :
    (usable : Text → Bool) (urls : List Text) → new_proxy_manager usable urls ≢ []
unfolding new_proxy_manager or_direct
new_proxy_manager-nonempty usable urls = go (configure usable urls)
  where
    go : (ps : List ProxyClient) → or_direct ps ≢ []
    go [] e = absurd (cc)
    go (p ∷ ps) e = absurd (cc)

pub mark_down_times : ℕ → ProxyClient → ProxyClient
unfolding mark_down
mark_down_times zero p = p
mark_down_times (suc n) p = mark_down (mark_down_times n p)

count_fits : (n : ℕ) → suc n < 2 ^ 31 → (n + 1) % 2 ^ 32 ≡ suc n
count_fits n h = omega arith

threshold_fits : (n : ℕ) → n < 2 ^ 31 → at_threshold n ≡ leb 3 n
unfolding at_threshold
threshold_fits n h = rw (below n (2 ^ 31) h) (and_true (leb 3 n))
  where
    below : (a b : ℕ) → a < b → ltb a b ≡ true
    below a b k = ground arith

    and_true : (b : Bool) → (b && true) ≡ b
    and_true b = ground arith

-- One more failure, from a count and a health that fit each other.
mark_down_step :
    (n : ℕ) (p : ProxyClient)
    → p.is_direct ≡ false
    → at_threshold ((p.failures + 1) % 2 ^ 32) ≡ leb 3 (suc n)
    → is_healthy p ≡ ltb n 3
    → is_healthy (mark_down p) ≡ ltb (suc n) 3
unfolding mark_down is_healthy
mark_down_step n p d t h = rw (d, t) (ground (arith, h))

mark_down-failures :
    (p : ProxyClient)
    → p.is_direct ≡ false
    → ((mark_down p).failures ≡ (p.failures + 1) % 2 ^ 32) × ((mark_down p).is_direct ≡ false)
unfolding mark_down
mark_down-failures p d =
    elim (Bool-cases (at_threshold ((p.failures + 1) % 2 ^ 32) && is_healthy p)) [
      | inl e ↦ rw (d, e) (refl, refl)
      | inr e ↦ rw (d, e) (refl, refl)
    ]

mark_down_count :
    (n : ℕ) (p : ProxyClient)
    → p.is_direct ≡ false
    → p.status ≡ healthy
    → p.failures ≡ 0
    → n < 2 ^ 31
    → ((mark_down_times n p).failures ≡ n)
      × ((mark_down_times n p).is_direct ≡ false)
      × (is_healthy (mark_down_times n p) ≡ ltb n 3)
unfolding mark_down_times
mark_down_count zero p d h f k = (f, d, unfold is_healthy in rw h refl)
mark_down_count (suc n) p d h f k =
    let (count, indirect, health) = mark_down_count n p d h f (omega arith) in
    let q : ProxyClient = mark_down_times n p in
    let (failures, still) = mark_down-failures q indirect in
    let fails : (q.failures + 1) % 2 ^ 32 ≡ suc n =
      ap (λ (x : ℕ). (x + 1) % 2 ^ 32) count ∙ count_fits n k in
    (
      failures ∙ fails,
      still,
      mark_down_step n q indirect (ap at_threshold fails ∙ threshold_fits (suc n) k) health,
    )

-- A proxy that is not direct, healthy and with no failures counted is healthy after n < 2^31
-- failures in a row exactly when n is below 3.
pub mark_down_threshold :
    (n : ℕ) (p : ProxyClient)
    → p.is_direct ≡ false
    → p.status ≡ healthy
    → p.failures ≡ 0
    → n < 2 ^ 31
    → is_healthy (mark_down_times n p) ≡ ltb n 3
mark_down_threshold n p d h f k = (mark_down_count n p d h f k).2

-- An answer of any status code makes a proxy healthy with no failures counted.
pub check_proxy_recovers :
    (code : ℕ) (p : ProxyClient)
    → (is_healthy (check_proxy (answered code) p) ≡ true)
      × ((check_proxy (answered code) p).failures ≡ 0)
unfolding check_proxy is_healthy
check_proxy_recovers code p = ground arith

-- Failures of fetches never mark the direct connection down.
mark_down-direct : (n : ℕ) (p : ProxyClient) → p.is_direct ≡ true → mark_down_times n p ≡ p
unfolding mark_down_times mark_down
mark_down-direct zero p d = refl
mark_down-direct (suc n) p d = rw (mark_down-direct n p d, d) refl

-- After a round of checks that all got an answer, GetClient gives the first proxy, as the check
-- left it.
pub get_client-check_all_proxies :
    (code : ProxyClient → ℕ) (p : ProxyClient) (ps : List ProxyClient)
    → get_client (check_all_proxies (λ x. answered (code x)) (p ∷ ps))
      ≡ some (check_proxy (answered (code p)) p)
unfolding get_client check_all_proxies
get_client-check_all_proxies code p ps = rw ((check_proxy_recovers (code p) p).0) refl

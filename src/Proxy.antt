-- ===== src/Proxy.antt =====
-- internal/crawler/proxy_manager.go: the list of proxies with their health. The HTTP clients and
-- the dialers are left out; whether a proxy URL can be set up is a parameter.
pub mod Laws
use duvycrawl.Shared.{
  ℕ, ◌==◌, ◌+◌, ◌%◌, ◌^◌, Bool, true, false, not, ◌&&◌, ◌||◌, Option, none, some, List, [], ◌∷◌,
  map, if◌then◌else◌, ltb, leb, length,
}
use duvycrawl.Shared.Text.{Text, codes, text_beq}

-- `ProxyStatus`.
pub data ProxyStatus : Type 0 where
  healthy down : ProxyStatus

-- `ProxyClient`; the failures are the 32-bit pattern of an `atomic.Int32`.
pub record ProxyClient : Type 0 where
  pub url : Text
  pub is_direct : Bool
  pub status : ProxyStatus
  pub failures : ℕ

-- `ProxyFailThreshold`.
abbrev pub proxy_fail_threshold : ℕ
proxy_fail_threshold = 3

unfoldable pub is_healthy : ProxyClient → Bool
is_healthy p = elim p.status [ healthy ↦ true | down ↦ false ]

unfoldable pub direct_client : ProxyClient
direct_client = record { url = codes "direct"; is_direct = true; status = healthy; failures = 0 }

-- The loop of `NewProxyManager`. `usable` says that the URL parses and that its dialer, where it
-- needs one, could be made; the others are ignored.
unfoldable pub configure : (Text → Bool) → List Text → List ProxyClient
unfolding direct_client text_beq
configure usable [] = []
configure usable (url ∷ urls) =
    let rest = configure usable urls in
    if text_beq url (codes "direct") || length url == 0
    then direct_client ∷ rest
    else (if usable url
        then record { url = url; is_direct = false; status = healthy; failures = 0 } ∷ rest
        else rest)

-- `NewProxyManager`: without a URL, or without a usable one, a single direct connection.
unfoldable pub or_direct : List ProxyClient → List ProxyClient
unfolding direct_client
or_direct [] = direct_client ∷ []
or_direct (p ∷ ps) = p ∷ ps

unfoldable pub new_proxy_manager : (Text → Bool) → List Text → List ProxyClient
unfolding or_direct configure
new_proxy_manager usable urls = or_direct (configure usable urls)

-- `GetClient`; none stands for the panic of `pm.proxies[0]`.
unfoldable pub first_healthy : List ProxyClient → Option ProxyClient
unfolding is_healthy
first_healthy [] = none
first_healthy (p ∷ ps) = if is_healthy p then some p else first_healthy ps

unfoldable pub or_first : Option ProxyClient → List ProxyClient → Option ProxyClient
or_first (some p) ps = some p
or_first none [] = none
or_first none (p ∷ ps) = some p

unfoldable pub get_client : List ProxyClient → Option ProxyClient
unfolding first_healthy or_first
get_client ps = or_first (first_healthy ps) ps

-- `fails >= ProxyFailThreshold` on a signed 32-bit number.
unfoldable pub at_threshold : ℕ → Bool
at_threshold fails = leb proxy_fail_threshold fails && ltb fails (2 ^ 31)

-- `MarkDown`.
unfoldable pub mark_down : ProxyClient → ProxyClient
unfolding at_threshold is_healthy
mark_down p =
    if p.is_direct
    then p
    else (let fails = (p.failures + 1) % 2 ^ 32 in
        if at_threshold fails && is_healthy p
        then record p { failures = fails; status = down }
        else record p { failures = fails })

-- `ResetFailures`.
unfoldable pub reset_failures : ProxyClient → ProxyClient
reset_failures p = record p { failures = 0 }

-- What a health check met: no request could be made, it failed, or a status code came back.
pub data CheckResult : Type 0 where
  no_request failed : CheckResult
  answered : ℕ → CheckResult

-- `checkProxy`.
unfoldable pub check_proxy : CheckResult → ProxyClient → ProxyClient
unfolding reset_failures is_healthy
check_proxy no_request p = p
check_proxy failed p = if is_healthy p then record p { status = down } else p
check_proxy (answered code) p =
    if code == 204 || code == 200
    then (let q = reset_failures p in if is_healthy p then q else record q { status = healthy })
    else (let q = reset_failures p in if is_healthy p then q else record q { status = healthy })

-- `PrimaryProxyURL`.
unfoldable pub primary_proxy_url : List ProxyClient → Text
primary_proxy_url [] = []
primary_proxy_url (p ∷ ps) = if p.is_direct then [] else p.url

-- `checkAllProxies`: each goroutine changes its own proxy only, so their order does not matter.
unfoldable pub check_all_proxies : (ProxyClient → CheckResult) → List ProxyClient → List ProxyClient
unfolding check_proxy
check_all_proxies met ps = map (λ p. check_proxy (met p) p) ps

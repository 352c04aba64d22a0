-- ===== src/Frontier/Blacklist.antt =====
-- internal/frontier/frontier.go: `isBlacklistedDomain`. The fuel is one more than the bytes of the
-- domain, and each round drops at least one.
use mathlib.Core.Bool.{false≢true}
use mathlib.Core.List.{append_assoc}
use duvycrawl.Shared.{
  ℕ, zero, suc, ◌==◌, ◌<◌, ◌≡◌, refl, sym, ap, ◌∙◌, Bool, true, false, ◌⊎◌, inl, inr, Option, none,
  some, List, [], ◌∷◌, ◌++◌, if◌then◌else◌, arith, length, Bool-cases, ◌↔◌,
}
use duvycrawl.Shared.Text.{Text, member, after_byte}

unfoldable pub parent_loop : List Text → ℕ → Text → Bool
unfolding member after_byte
parent_loop blacklist zero d = false
parent_loop blacklist (suc fuel) d =
    if member d blacklist
    then true
    else elim (after_byte b'.' d) [ none ↦ false | some parent ↦ parent_loop blacklist fuel parent ]

unfoldable pub is_blacklisted_domain : List Text → Text → Bool
unfolding parent_loop
is_blacklisted_domain blacklist domain = parent_loop blacklist (suc (length domain)) domain

-- The domain itself, or one that it is a subdomain of.
abbrev pub IsParent : Text → Text → Type 0
IsParent x d = (d ≡ x) ⊎ ((sub : Text) × (d ≡ sub ++ b'.' ∷ x))

after_byte-parent : (s r : Text) → after_byte b'.' s ≡ some r → (sub : Text) × (s ≡ sub ++ b'.' ∷ r)
unfolding after_byte
after_byte-parent [] r h = absurd (cc)
after_byte-parent (c ∷ s) r h = elim (Bool-cases (c == b'.')) [
  | inl e ↦ ([], ground arith)
  | inr e ↦ let (sub, p) = after_byte-parent s r (rw e at h) in (c ∷ sub, ap (λ x. c ∷ x) p)
]

after_byte-length : (s r : Text) → after_byte b'.' s ≡ some r → length r < length s
unfolding after_byte
after_byte-length [] r h = absurd (cc)
after_byte-length (c ∷ s) r h = ground (arith, after_byte-length s r)

-- Behind a dot there is a first dot, and what follows that is as near to the end.
after_byte_first :
    (sub x : Text) → (r : Text) × (after_byte b'.' (sub ++ b'.' ∷ x) ≡ some r) × IsParent x r
unfolding after_byte
after_byte_first [] x = (x, refl, inl refl)
after_byte_first (c ∷ sub) x = elim (Bool-cases (c == b'.')) [
  | inl e ↦ (sub ++ b'.' ∷ x, rw e refl, inr (sub, refl))
  | inr e ↦ let (r, p, q) = after_byte_first sub x in (r, rw e p, q)
]

loop_sound :
    (blacklist : List Text) (fuel : ℕ) (d : Text)
    → parent_loop blacklist fuel d ≡ true
    → (x : Text) × (member x blacklist ≡ true) × IsParent x d
unfolding parent_loop
loop_sound blacklist zero d h = absurd (false≢true h)
loop_sound blacklist (suc fuel) d h = elim (Bool-cases (member d blacklist)) [
  | inl e ↦ (d, e, inl refl)
  | inr e ↦ go (loop_sound blacklist fuel) (after_byte b'.' d) refl (rw e at h)
]
  where
    up : (x r : Text) → after_byte b'.' d ≡ some r → IsParent x r → IsParent x d
    up x r p (inl e) =
        let (sub, f) = after_byte-parent d r p in inr (sub, f ∙ ap (λ y. sub ++ b'.' ∷ y) e)
    up x r p (inr (s, e)) =
        let (sub, f) = after_byte-parent d r p in
        inr (
          sub ++ b'.' ∷ s,
          f ∙ (ap (λ y. sub ++ b'.' ∷ y) e ∙ sym (append_assoc sub (b'.' ∷ s) (b'.' ∷ x))),
        )

    go :
        ((r : Text)
          → parent_loop blacklist fuel r ≡ true
          → (x : Text) × (member x blacklist ≡ true) × IsParent x r)
        → (r : Option Text) → after_byte b'.' d ≡ r
        → elim r as (λ _. Bool) [ none ↦ false | some parent ↦ parent_loop blacklist fuel parent ]
          ≡ true
        → (x : Text) × (member x blacklist ≡ true) × IsParent x d
    go ih none p f = absurd (false≢true f)
    go ih (some r) p f = let (x, m, q) = ih r f in (x, m, up x r p q)

loop_complete :
    (blacklist : List Text) (fuel : ℕ) (d x : Text)
    → length d < fuel
    → member x blacklist ≡ true
    → IsParent x d
    → parent_loop blacklist fuel d ≡ true
unfolding parent_loop
loop_complete blacklist zero d x h m p = absurd (omega arith)
loop_complete blacklist (suc fuel) d x h m (inl e) = rw (e, m) refl
loop_complete blacklist (suc fuel) d x h m (inr (sub, e)) = elim (Bool-cases (member d blacklist)) [
  | inl f ↦ rw f refl
  | inr f ↦
      let (r, p, q) = after_byte_first sub x in
      let here : after_byte b'.' d ≡ some r = rw e p in
      rw (f, here)
        (loop_complete blacklist fuel r x (omega (arith, after_byte-length d r here)) m q)
]

-- A domain is blocked exactly when it, or a domain that it is a subdomain of, is in the blacklist.
pub is_blacklisted_domain_iff :
    (blacklist : List Text) (domain : Text)
    → (is_blacklisted_domain blacklist domain ≡ true)
      ↔ ((x : Text) × (member x blacklist ≡ true) × IsParent x domain)
unfolding is_blacklisted_domain
is_blacklisted_domain_iff blacklist domain = (
  loop_sound blacklist (suc (length domain)) domain,
  λ (x, m, p). loop_complete blacklist (suc (length domain)) domain x (omega arith) m p,
)

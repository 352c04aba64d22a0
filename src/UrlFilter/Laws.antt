-- ===== src/UrlFilter/Laws.antt =====
-- internal/urlfilter/urlfilter.go: what the filter lets through and what it stops.
use mathlib.Core.Bool.{false≢true}
use duvycrawl.Shared.{
  ◌≡◌, ◌≢◌, refl, ◌∙◌, sym, Bool, true, false, ◌||◌, Option, none, some, List, [], ◌∷◌, arith, inl,
  inr, In, any-In, any-elim, all, any, Bool-cases, subst,
}
use duvycrawl.Shared.Text.{Text, has_prefix, contains, member, text_beq, text_beq_iff}
use duvycrawl.Url.{Url, Std}
use duvycrawl.UrlFilter.{
  extension, is_binary_extension, is_asset_extension, is_image_extension, is_challenge_path,
  is_disallowed_path, is_non_indexable_document_url,
}
use duvycrawl.UrlFilter.Tables.{
  binary_extensions, discovery_extensions, image_extensions, disallowed_path_prefixes,
  challenge_path_markers,
}

or_right : (a b : Bool) → b ≡ true → (a || b) ≡ true
or_right a b h = ground arith

or_false : (a b : Bool) → (a || b) ≡ false → (a ≡ false) × (b ≡ false)
or_false a b h = ground arith

any-false :
    {A : Type 0} (p : A → Bool) (xs : List A) (x : A) → any p xs ≡ false → In x xs → p x ≡ false
any-false p xs x h m = elim (Bool-cases (p x)) [
  | inl e ↦ absurd (false≢true (sym h ∙ any-In p xs x m e))
  | inr e ↦ e
]

image_table : all (λ ext. member ext binary_extensions) image_extensions ≡ true
unfolding member text_beq image_extensions binary_extensions
image_table = refl

all-In : {A : Type 0} (p : A → Bool) (xs : List A) (x : A) → all p xs ≡ true → In x xs → p x ≡ true
all-In p [] x h m = absurd m
all-In p (y ∷ ys) x h (inl e) = ground arith
all-In p (y ∷ ys) x h (inr m) = ground (arith, all-In p ys x)

member-In : (s : Text) (ts : List Text) → member s ts ≡ true → In s ts
unfolding member
member-In s ts h =
    let (t, m, e) = any-elim (text_beq s) ts h in
    subst (λ x. In x ts) (sym ((text_beq_iff s t).0 e)) m

module _ ⦃std : Std⦄ where
  -- A challenge path is always disallowed.
  pub challenge-disallowed :
      (raw : Text) → is_challenge_path raw ≡ true → is_disallowed_path raw ≡ true
  unfolding is_disallowed_path is_challenge_path
  challenge-disallowed raw h =
      or_right (any (has_prefix (std.to_lower raw)) disallowed_path_prefixes)
        (is_challenge_path (std.to_lower raw)) (rw (std.to_lower-idem raw) h)

  -- Letter case does not matter to the path filter.
  pub disallowed_case :
      (a b : Text) → std.to_lower a ≡ std.to_lower b → is_disallowed_path a ≡ is_disallowed_path b
  unfolding is_disallowed_path
  disallowed_case a b h = rw h

  -- What the filter lets through parses, has neither a binary nor an asset extension, and its path
  -- has none of the prefixes and none of the markers, in lower case.
  pub record Indexable (raw : Text) : Type 0 where
    pub url : Url
    pub parses : std.parse raw ≡ some url
    pub not_binary : member (extension raw) binary_extensions ≡ false
    pub not_asset : member (extension raw) discovery_extensions ≡ false
    pub no_prefix :
        (p : Text) → In p disallowed_path_prefixes → has_prefix (std.to_lower url.path) p ≡ false
    pub no_marker :
        (m : Text) → In m challenge_path_markers → contains (std.to_lower url.path) m ≡ false

  pub Indexable-inv : (raw : Text) → is_non_indexable_document_url raw ≡ false → Indexable raw
  unfolding is_non_indexable_document_url is_binary_extension is_asset_extension is_disallowed_path
      is_challenge_path
  Indexable-inv raw h = elim (Bool-cases (is_binary_extension raw || is_asset_extension raw)) [
    | inl e ↦ absurd (false≢true (sym (rw e at h)))
    | inr e ↦ go e (std.parse raw) refl (rw e at h)
  ]
    where
      go :
          (is_binary_extension raw || is_asset_extension raw) ≡ false
          → (r : Option Url) → std.parse raw ≡ r
          → elim r as (λ _. Bool) [ none ↦ true | some u ↦ is_disallowed_path u.path ] ≡ false
          → Indexable raw
      go e none p f = absurd (false≢true (sym f))
      go e (some u) p f =
          let parts = or_false (is_binary_extension raw) (is_asset_extension raw) e in
          let paths =
            or_false (any (has_prefix (std.to_lower u.path)) disallowed_path_prefixes)
              (is_challenge_path (std.to_lower u.path)) f in
          record {
            url = u;
            parses = p;
            not_binary = parts.0;
            not_asset = parts.1;
            no_prefix = λ x m.
                any-false (has_prefix (std.to_lower u.path)) disallowed_path_prefixes x paths.0 m;
            no_marker = λ x m.
                any-false (contains (std.to_lower u.path)) challenge_path_markers x
                  (rw (std.to_lower-idem u.path) at paths.1) m;
          }

  -- A URL with an image extension is never crawled as a page.
  pub image-binary :
      (raw : Text)
      → extension raw ≢ []
      → is_image_extension raw ≡ true
      → is_non_indexable_document_url raw ≡ true
  unfolding is_image_extension is_non_indexable_document_url is_binary_extension
  image-binary raw n h = go (extension raw) refl n h
    where
      go :
          (ext : Text)
          → extension raw ≡ ext
          → extension raw ≢ []
          → elim ext as (λ _. Bool) [ [] ↦ true | c ∷ s ↦ member (c ∷ s) image_extensions ] ≡ true
          → is_non_indexable_document_url raw ≡ true
      go [] e k f = absurd (k e)
      go (c ∷ s) e k f =
          let found : is_binary_extension raw ≡ true = rw e (
            all-In (λ x. member x binary_extensions) image_extensions (c ∷ s) image_table
              (member-In (c ∷ s) image_extensions f)) in
          rw found refl

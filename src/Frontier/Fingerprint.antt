-- ===== src/Frontier/Fingerprint.antt =====
-- internal/frontier/fingerprint.go: the structural fingerprint of a URL. The anchored regular
-- expressions are matchers by recursion on the segment.
use duvycrawl.Shared.{
  ℕ, zero, suc, ◌==◌, Bool, true, false, ◌&&◌, ◌||◌, Option, none, some, List, [], ◌∷◌, ◌++◌, map,
  if◌then◌else◌, leb, length, any, all,
}
use duvycrawl.Shared.Text.{Text, codes, text_beq, trim, split, join, has_suffix, sort_texts}
use duvycrawl.Url.{Url, Std}

-- The classes `[0-9]` and `[0-9a-fA-F]`.
unfoldable pub is_digit : ℕ → Bool
is_digit c = leb b'0' c && leb c b'9'

-- `containsHexLetter` tests each character by this.
unfoldable pub is_hex_letter : ℕ → Bool
is_hex_letter c = leb b'a' c && leb c b'f' || leb b'A' c && leb c b'F'

unfoldable pub is_hex : ℕ → Bool
unfolding is_digit is_hex_letter
is_hex c = is_digit c || is_hex_letter c

unfoldable pub contains_hex_letter : Text → Bool
unfolding is_hex_letter
contains_hex_letter s = any is_hex_letter s

-- Exactly n characters of a class and then the rest.
unfoldable pub after_class : (ℕ → Bool) → ℕ → Text → Option Text
after_class p zero s = some s
after_class p (suc n) [] = none
after_class p (suc n) (c ∷ s) = if p c then after_class p n s else none

unfoldable pub after_dash : Option Text → Option Text
after_dash none = none
after_dash (some []) = none
after_dash (some (c ∷ s)) = if c == b'-' then some s else none

-- Groups of characters of a class, of these lengths, with dashes between them.
unfoldable pub match_groups : (ℕ → Bool) → List ℕ → Text → Bool
unfolding after_class after_dash
match_groups p [] s = false
match_groups p (n ∷ []) s = elim (after_class p n s) [ none ↦ false | some r ↦ length r == 0 ]
match_groups p (n ∷ m ∷ ns) s = elim (after_dash (after_class p n s)) [
  | none ↦ false
  | some r ↦ match_groups p (m ∷ ns) r
]

-- `segmentPattern`, with the regular expression as its matcher.
pub record SegmentPattern : Type 0 where
  pub matches : Text → Bool
  pub placeholder : Text
  pub validate : Text → Bool

abbrev hex_run : ℕ → Text → Bool
hex_run n s = all is_hex s && length s == n

-- `segmentPatterns`; a nil `validate` accepts everything.
unfoldable pub segment_patterns : List SegmentPattern
unfolding match_groups contains_hex_letter is_hex is_digit
segment_patterns =
    record {
      matches = match_groups is_hex (8 ∷ 4 ∷ 4 ∷ 4 ∷ 12 ∷ []);
      placeholder = codes "{uuid}";
      validate = λ _. true;
    }
    ∷ record {
      matches = hex_run 64;
      placeholder = codes "{sha256}";
      validate = contains_hex_letter;
    }
    ∷ record { matches = hex_run 40; placeholder = codes "{sha1}"; validate = contains_hex_letter }
    ∷ record { matches = hex_run 32; placeholder = codes "{md5}"; validate = contains_hex_letter }
    ∷ record { matches = hex_run 24; placeholder = codes "{oid}"; validate = contains_hex_letter }
    ∷ record {
      matches = λ s. all is_hex s && leb 8 (length s);
      placeholder = codes "{hex}";
      validate = contains_hex_letter;
    }
    ∷ record {
      matches = match_groups is_digit (4 ∷ 2 ∷ 2 ∷ []);
      placeholder = codes "{date}";
      validate = λ _. true;
    }
    ∷ record {
      matches = λ s. all is_digit s && (length s == 10 || length s == 13);
      placeholder = codes "{ts}";
      validate = λ _. true;
    }
    ∷ record {
      matches = λ s. all is_digit s && leb 1 (length s);
      placeholder = codes "{num}";
      validate = λ _. true;
    }
    ∷ []

-- The loop of `normalizeSegment`, and the function.
unfoldable pub first_match : List SegmentPattern → Text → Text × Bool
first_match [] s = (s, false)
first_match (p ∷ ps) s =
    if p.matches s && p.validate s then (p.placeholder, true) else first_match ps s

unfoldable pub normalize_segment : Text → Text × Bool
unfolding first_match segment_patterns
normalize_segment s = first_match segment_patterns s

-- `sortedQueryKeys`, for the keys in the order of a visit.
unfoldable pub sorted_query_keys : List (Text × List Text) → List Text
unfolding sort_texts
sorted_query_keys params = sort_texts (map (λ p. p.0) params)

-- The path of the fingerprint.
unfoldable pub fingerprint_segments : Text → Text → Text
unfolding split join normalize_segment has_suffix
fingerprint_segments path trimmed =
    b'/' ∷ join b'/' (map (λ s. (normalize_segment s).0) (split b'/' trimmed))
    ++ (if has_suffix path (codes "/") then codes "/" else [])

unfoldable pub fingerprint_path : Text → Text
unfolding fingerprint_segments trim text_beq
fingerprint_path path =
    if length path == 0 || text_beq path (codes "/")
    then path
    else (if length (trim b'/' path) == 0
        then codes "/"
        else fingerprint_segments path (trim b'/' path))

module _ ⦃std : Std⦄ where
  unfoldable pub query_part : Text → Text
  unfolding sorted_query_keys join
  query_part [] = []
  query_part (c ∷ raw) = elim (sorted_query_keys (std.query (c ∷ raw))) [
    | [] ↦ []
    | k ∷ ks ↦ b'?' ∷ join b'&' (k ∷ ks)
  ]

  -- `buildFingerprint`.
  unfoldable pub build_fingerprint : Url → Text → Text
  unfolding query_part
  build_fingerprint u path =
      (if length u.scheme == 0 then [] else u.scheme ++ codes "://")
      ++ u.host
      ++ path
      ++ query_part u.raw_query

  -- `FingerprintURL`.
  unfoldable pub fingerprint_url : Text → Text
  unfolding build_fingerprint fingerprint_path
  fingerprint_url raw = elim (std.parse raw) [
    | none ↦ raw
    | some u ↦ build_fingerprint u (fingerprint_path u.path)
  ]

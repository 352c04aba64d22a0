-- ===== src/Frontier/Segments.antt =====
-- internal/frontier/fingerprint.go: `normalizeSegment`, on numbers and on its own results.
use duvycrawl.Shared.{
  ℕ, zero, suc, ◌==◌, ◌≤◌, ◌≡◌, refl, sym, ap, subst, Bool, true, false, ◌&&◌, ◌||◌, ◌⊎◌, inl, inr,
  none, some, List, [], ◌∷◌, if◌then◌else◌, arith, length, all, All, All-In, In, Bool-cases,
}
use duvycrawl.Shared.Text.{Text, codes}
use duvycrawl.Frontier.Fingerprint.{
  SegmentPattern, is_digit, is_hex_letter, is_hex, contains_hex_letter, after_class, after_dash,
  match_groups, segment_patterns, first_match, normalize_segment,
}

digit-not_letter : (c : ℕ) → is_digit c ≡ true → is_hex_letter c ≡ false
unfolding is_digit is_hex_letter
digit-not_letter c h = ground arith

digit-hex : (c : ℕ) → is_digit c ≡ true → is_hex c ≡ true
unfolding is_hex
digit-hex c h = rw h refl

digits_no_letter : (s : Text) → all is_digit s ≡ true → contains_hex_letter s ≡ false
unfolding contains_hex_letter
digits_no_letter [] h = refl
digits_no_letter (c ∷ s) h = ground (arith, digit-not_letter c, digits_no_letter s)

digits_no_dash : (r : Text) → all is_digit r ≡ true → after_dash (some r) ≡ none
unfolding after_dash is_digit
digits_no_dash [] h = refl
digits_no_dash (c ∷ s) h = ground arith

-- A number has no dash, so none of the dashed patterns fits it.
after_class_digits :
    (p : ℕ → Bool) (n : ℕ) (s : Text)
    → all is_digit s ≡ true
    → after_dash (after_class p n s) ≡ none
unfolding after_class
after_class_digits p zero s h = digits_no_dash s h
after_class_digits p (suc n) [] h = dash_none
  where
    dash_none : after_dash none ≡ none
    dash_none = unfold after_dash in refl
after_class_digits p (suc n) (c ∷ s) h = elim (Bool-cases (p c)) [
  | inl e ↦ rw e (after_class_digits p n s (ground arith))
  | inr e ↦ rw e (unfold after_dash in refl)
]

groups_digits :
    (p : ℕ → Bool) (n m : ℕ) (ns : List ℕ) (s : Text)
    → all is_digit s ≡ true
    → match_groups p (n ∷ m ∷ ns) s ≡ false
unfolding match_groups
groups_digits p n m ns s h = rw (after_class_digits p n s h, match_groups) refl

abbrev pub number_placeholder : Text → Text
number_placeholder s = if length s == 10 || length s == 13 then codes "{ts}" else codes "{num}"

-- A segment of digits alone, at least one, becomes `{ts}` at 10 or 13 digits and `{num}` at every
-- other length, the lengths of hashes and identifiers included.
pub normalize_segment-digits :
    (s : Text)
    → all is_digit s ≡ true
    → 1 ≤ length s
    → normalize_segment s ≡ (number_placeholder s, true)
unfolding normalize_segment
normalize_segment-digits s h k =
    rw
      (
        groups_digits is_hex 8 4 (4 ∷ 4 ∷ 12 ∷ []) s h,
        groups_digits is_digit 4 2 (2 ∷ []) s h,
        digits_no_letter s h,
        h,
      )
      (ground arith)

first_match_cases :
    (ps : List SegmentPattern) (s : Text)
    → (first_match ps s ≡ (s, false))
      ⊎ ((p : SegmentPattern) × In p ps × (first_match ps s ≡ (p.placeholder, true)))
unfolding first_match
first_match_cases [] s = inl refl
first_match_cases (p ∷ ps) s = elim (Bool-cases (p.matches s && p.validate s)) [
  | inl e ↦ inr (p, inl refl, rw e refl)
  | inr e ↦ elim (first_match_cases ps s) [
    | inl f ↦ inl (rw e f)
    | inr (x, m, f) ↦ inr (x, inr m, rw e f)
  ]
]

abbrev IsFixed : Text → Type 0
IsFixed s = normalize_segment s ≡ (s, false)

placeholders-IsFixed : All (λ (p : SegmentPattern). IsFixed p.placeholder) segment_patterns
unfolding normalize_segment segment_patterns
placeholders-IsFixed = (refl, (refl, (refl, (refl, (refl, (refl, (refl, (refl, (refl, tt)))))))))

-- No pattern fits a placeholder, so a second normalisation changes nothing.
pub normalize_segment_idem :
    (s : Text) → normalize_segment (normalize_segment s).0 ≡ ((normalize_segment s).0, false)
normalize_segment_idem s = elim (cases s) [
  | inl e ↦ subst IsFixed (sym (ap (λ x. x.0) e)) e
  | inr (p, m, e) ↦ subst IsFixed (sym (ap (λ x. x.0) e)) (
      All-In (λ (p : SegmentPattern). IsFixed p.placeholder) segment_patterns p placeholders-IsFixed
        m)
]
  where
    cases :
        (s : Text)
        → (normalize_segment s ≡ (s, false))
          ⊎ ((p : SegmentPattern) × In p segment_patterns
              × (normalize_segment s ≡ (p.placeholder, true)))
    cases s = unfold normalize_segment in first_match_cases segment_patterns s

-- ===== src/SpellCheck.antt =====
-- internal/storage/spellcheck.go: the trigram index, the edit distance and the suggestion for a
-- word. Words are lists of runes; the vocabulary comes from the database, float64 scores from a
-- parameter, and `strings.ToLower` and `TrimSpace` from another.
pub mod Distance
pub mod Index
pub mod Suggest

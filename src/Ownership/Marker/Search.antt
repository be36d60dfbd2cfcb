-- ===== src/Ownership/Marker/Search.antt =====
-- Searching a memo that ends in a built marker: the search goes on to the marker, if nothing in
-- front of it matches.
use mackerel_operator.Prelude.{
  ℕ, zero, ◌≡◌, refl, ◌∙◌, ap, none, some, List, [], ◌∷◌, ◌++◌, append-nil, arith, Text, length,
  strip_prefix,
}
use native.Mathlib.Nat.{sub-zero}
use mackerel_operator.Ownership.Pattern.{Match, match_here, find_submatch, remove_all}
use mackerel_operator.Ownership.Marker.{Marker, marker_pattern, build_marker}
use mackerel_operator.Ownership.Marker.Match.{IsMarker, match-build_marker, groups}
use mackerel_operator.Ownership.Marker.Local.{Inert, before_marker, no_match-Inert}

-- Nothing in the text matches the pattern.
abbrev pub Unmarked : Text → Type 0
Unmarked s = find_submatch marker_pattern s ≡ none

-- A search that finds nothing has found no match at its first byte, and none behind it.
Unmarked-cons :
    (b : ℕ) (s : Text) → Unmarked (b ∷ s) → (match_here marker_pattern (b ∷ s) ≡ none) × Unmarked s
unfolding find_submatch
Unmarked-cons b s h = ground arith

find-no_match :
    (b : ℕ) (s : Text)
    → match_here marker_pattern (b ∷ s) ≡ none
    → find_submatch marker_pattern (b ∷ s) ≡ find_submatch marker_pattern s
unfolding find_submatch
find-no_match b s h = rw (h, find_submatch)

remove-no_match :
    (b : ℕ) (s : Text)
    → match_here marker_pattern (b ∷ s) ≡ none
    → remove_all marker_pattern zero (b ∷ s) ≡ b ∷ remove_all marker_pattern zero s
unfolding remove_all
remove-no_match b s h = rw (h, remove_all)

line_break-no_match : (s : Text) → match_here marker_pattern (b'\n' ∷ s) ≡ none
unfolding match_here strip_prefix
line_break-no_match s = refl

-- The last byte of a built marker's match is its last byte, so all of it is dropped.
remove_all-length : (s : Text) → remove_all marker_pattern (length s) s ≡ []
unfolding remove_all
remove_all-length [] = refl
remove_all-length (b ∷ s) = remove_all-length s

find-match :
    (b : ℕ) (s : Text) (m : Match)
    → match_here marker_pattern (b ∷ s) ≡ some m
    → find_submatch marker_pattern (b ∷ s) ≡ some m.0
unfolding find_submatch
find-match b s m h = rw (h, find_submatch)

remove-match :
    (b : ℕ) (s : Text) (found : List Text)
    → match_here marker_pattern (b ∷ s) ≡ some (found, [])
    → remove_all marker_pattern zero (b ∷ s) ≡ []
unfolding remove_all
remove-match b s found h = rw (h, remove_all) (rw sub-zero (remove_all-length s))

module _ (marker : Marker) (h : IsMarker marker) where
  whole_match : match_here marker_pattern (build_marker marker) ≡ some (groups marker, [])
  whole_match = rw append-nil at (match-build_marker marker [] h)

  pub find-build_marker : find_submatch marker_pattern (build_marker marker) ≡ some (groups marker)
  unfolding build_marker
  find-build_marker = find-match _ _ _ whole_match

  pub remove-build_marker : remove_all marker_pattern zero (build_marker marker) ≡ []
  unfolding build_marker
  remove-build_marker = remove-match _ _ _ whole_match

  -- Behind unmarked text and a line break, the search finds the marker.
  pub find-behind :
      {t : Text} (s : Text)
      → Inert t
      → Unmarked (s ++ t)
      → find_submatch marker_pattern (s ++ b'\n' ∷ build_marker marker) ≡ some (groups marker)
  unfolding build_marker
  find-behind [] it u = find-no_match _ _ (line_break-no_match _) ∙ find-build_marker
  find-behind (b ∷ s) it u =
      let (no_match, later) = Unmarked-cons b _ u in
      find-no_match b _ (no_match-Inert it (before_marker _) (b ∷ s) no_match)
      ∙ find-behind s it later

  -- Removal keeps unmarked text and the line break.
  pub remove-behind :
      {t : Text} (s : Text)
      → Inert t
      → Unmarked (s ++ t)
      → remove_all marker_pattern zero (s ++ b'\n' ∷ build_marker marker) ≡ s ++ b'\n' ∷ []
  unfolding build_marker
  remove-behind [] it u =
      remove-no_match _ _ (line_break-no_match _) ∙ ap (◌∷◌ b'\n') remove-build_marker
  remove-behind (b ∷ s) it u =
      let (no_match, later) = Unmarked-cons b _ u in
      remove-no_match b _ (no_match-Inert it (before_marker _) (b ∷ s) no_match)
      ∙ ap (◌∷◌ b) (remove-behind s it later)

-- Unmarked text stays as it is.
pub remove-Unmarked : (s : Text) → Unmarked s → remove_all marker_pattern zero s ≡ s
remove-Unmarked [] u = unfold remove_all in refl
remove-Unmarked (b ∷ s) u =
    let (no_match, later) = Unmarked-cons b s u in
    remove-no_match b s no_match ∙ ap (◌∷◌ b) (remove-Unmarked s later)

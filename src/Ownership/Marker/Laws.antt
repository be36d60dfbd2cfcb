-- ===== src/Ownership/Marker/Laws.antt =====
-- The laws of the marker functions: what is written is read back, and writing again replaces it.
use mackerel_operator.Prelude.{
  ◌≡◌, refl, sym, ap, subst, true, some, [], ◌∷◌, ◌++◌, append-nil, append_assoc, Text, ends_with,
  nat_beq_iff, Bool-cases, inl, inr, ◌⊎◌,
}
use mackerel_operator.Ownership.Pattern.{find_submatch}
use mackerel_operator.Ownership.Escape.{unescape-escape}
use mackerel_operator.Ownership.Marker.{
  Marker, marker_pattern, build_marker, read_groups, parse_marker, remove_marker, append_marker,
  apply_marker,
}
use mackerel_operator.Ownership.Marker.Match.{IsMarker, groups}
use mackerel_operator.Ownership.Marker.Local.{Inert, at_end, line_end}
use mackerel_operator.Ownership.Marker.Search.{
  Unmarked, find-build_marker, remove-build_marker, find-behind, remove-behind, remove-Unmarked,
}

read_groups-groups : (marker : Marker) → IsMarker marker → read_groups (groups marker) ≡ some marker
unfolding read_groups
read_groups-groups marker h = rw (
  unescape-escape marker.resource h.resource_bytes,
  unescape-escape marker.owner h.owner_bytes,
  unescape-escape marker.hash h.hash_bytes,
)

parse-found :
    (memo : Text) (marker : Marker)
    → IsMarker marker
    → find_submatch marker_pattern memo ≡ some (groups marker)
    → parse_marker memo ≡ some marker
unfolding parse_marker
parse-found memo marker h e = rw e (read_groups-groups marker h)

-- `ParseMarker` reads back a marker that `BuildMarker` wrote, if its fields are not empty and
-- consist of bytes.
pub parse-build :
    (marker : Marker) → IsMarker marker → parse_marker (build_marker marker) ≡ some marker
parse-build marker h = parse-found _ marker h (find-build_marker marker h)

-- A text that ends in a line break, split there.
ends_with-split : (s : Text) → ends_with b'\n' s ≡ true → (l : Text) × (s ≡ l ++ b'\n' ∷ [])
unfolding ends_with
ends_with-split [] h = absurd (cc)
ends_with-split (c ∷ []) h = ([], ap (λ b. b ∷ []) ((nat_beq_iff c b'\n').0 h))
ends_with-split (c ∷ d ∷ s) h = let (l, e) = ends_with-split (d ∷ s) h in (c ∷ l, ap (◌∷◌ c) e)

ends_with-append : (s : Text) → ends_with b'\n' (s ++ b'\n' ∷ []) ≡ true
unfolding ends_with
ends_with-append [] = refl
ends_with-append (c ∷ []) = refl
ends_with-append (c ∷ d ∷ s) = ends_with-append (d ∷ s)

-- What `ApplyMarker` puts in front of the marker: nothing, or the text up to a line break.
data Front (base front : Text) : Type 0 where
  alone : base ≡ [] → front ≡ [] → Front base front
  lines :
      (l : Text) {t : Text} → Inert t → base ≡ l ++ t → front ≡ l ++ b'\n' ∷ [] → Front base front

abbrev Appends : Text → Text → Type 0
Appends base front = (marker : Marker) → append_marker base marker ≡ front ++ build_marker marker

-- At most a line break is added.
abbrev Extends : Text → Text → Type 0
Extends base front = (front ≡ base) ⊎ (front ≡ base ++ b'\n' ∷ [])

append_marker-Front :
    (base : Text) → (front : Text) × Front base front × Appends base front × Extends base front
unfolding append_marker
append_marker-Front [] = ([], alone refl refl, λ marker. refl, inl refl)
append_marker-Front (b ∷ s) = elim (Bool-cases (ends_with b'\n' (b ∷ s))) [
  | inl closed ↦
      let (l, e) = ends_with-split (b ∷ s) closed in
      (b ∷ s, lines l line_end e e, λ marker. rw closed, inl refl)
  | inr still_open ↦ (
    b ∷ s ++ b'\n' ∷ [],
    lines (b ∷ s) at_end (sym (append-nil (b ∷ s))) refl,
    λ marker. rw still_open (sym (append_assoc (b ∷ s) (b'\n' ∷ []) (build_marker marker))),
    inr refl,
  )
]

Front-Appends : {base front : Text} → Front base front → Appends front front
unfolding append_marker ends_with
Front-Appends (alone e f) marker = rw f refl
Front-Appends {front = front} (lines l it e f) marker =
    closed_front front (rw f (ends_with-append l))
  where
    closed_front :
        (s : Text) → ends_with b'\n' s ≡ true → append_marker s marker ≡ s ++ build_marker marker
    closed_front [] h = cc
    closed_front (b ∷ s) h = rw h

module _ {base front : Text} (join : Front base front) (u : Unmarked base) (marker : Marker)
    (h : IsMarker marker) where
  find-front : find_submatch marker_pattern (front ++ build_marker marker) ≡ some (groups marker)
  find-front = found join
    where
      found :
          Front base front
          → find_submatch marker_pattern (front ++ build_marker marker) ≡ some (groups marker)
      found (alone e f) = rw f (find-build_marker marker h)
      found (lines l it e f) = rw (f, append_assoc) (find-behind marker h l it (rw e at u))

  remove-front : remove_marker (front ++ build_marker marker) ≡ front
  unfolding remove_marker
  remove-front = removed join
    where
      removed : Front base front → remove_marker (front ++ build_marker marker) ≡ front
      removed (alone e f) = rw f (remove-build_marker marker h)
      removed (lines l it e f) = rw (f, append_assoc) (remove-behind marker h l it (rw e at u))

remove-marker_Unmarked : (memo : Text) → Unmarked memo → remove_marker memo ≡ memo
unfolding remove_marker
remove-marker_Unmarked = remove-Unmarked

-- `ParseMarker` reads back the marker that `ApplyMarker` wrote, if its three fields are non-empty
-- and consist of bytes and `RemoveMarker` leaves no match of the pattern in the memo.
pub parse-apply :
    (memo : Text) (marker : Marker)
    → IsMarker marker
    → Unmarked (remove_marker memo)
    → parse_marker (apply_marker memo marker) ≡ some marker
unfolding apply_marker
parse-apply memo marker h u =
    let (front, join, appends, _) = append_marker-Front (remove_marker memo) in
    rw (appends marker) (parse-found _ marker h (find-front join u marker h))

-- `ApplyMarker` replaces the marker that an earlier `ApplyMarker` wrote, if the earlier marker's
-- three fields are non-empty and consist of bytes and `RemoveMarker` left no match of the pattern
-- in the memo: the earlier marker leaves no trace.
pub apply-apply :
    (memo : Text) (earlier later : Marker)
    → IsMarker earlier
    → Unmarked (remove_marker memo)
    → apply_marker (apply_marker memo earlier) later ≡ apply_marker memo later
unfolding apply_marker
apply-apply memo earlier later h u =
    let (front, join, appends, _) = append_marker-Front (remove_marker memo) in
    rw (appends earlier, appends later, remove-front join u earlier h) (Front-Appends join later)

-- Text that holds no marker is still there after `ApplyMarker` and `RemoveMarker`, if the marker's
-- three fields are non-empty and consist of bytes: at most a line break is added at its end.
pub remove-apply :
    (memo : Text) (marker : Marker)
    → IsMarker marker
    → Unmarked memo
    → (remove_marker (apply_marker memo marker) ≡ memo)
      ⊎ (remove_marker (apply_marker memo marker) ≡ memo ++ b'\n' ∷ [])
unfolding apply_marker
remove-apply memo marker h u =
    let (front, join, appends, extends) = append_marker-Front (remove_marker memo) in
    let kept = remove-marker_Unmarked memo u in
    rw (appends marker, remove-front join (rw kept u) marker h)
      (subst (λ base. Extends base front) kept extends)

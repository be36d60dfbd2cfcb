-- ===== src/Ownership/Marker.antt =====
-- The ownership marker of internal/ownership/marker.go: `BuildMarker`, `ParseMarker`,
-- `ApplyMarker` and `RemoveMarker`. The proofs are in the children.
pub mod Match
mod Local
pub mod Search
pub mod Laws
use mackerel_operator.Prelude.{
  zero, Bool, Option, none, some, List, [], ◌∷◌, ◌++◌, Text, codes, ends_with, ◌>>=◌, if◌then◌else◌,
}
use mackerel_operator.Ownership.Pattern.{Piece, lit, many, capture_some, find_submatch, remove_all}
use mackerel_operator.Ownership.Escape.{
  is_space, is_field_byte, escape_marker_value, unescape_marker_value,
}

abbrev pub heritage : Text
heritage = codes "mackerel-operator"

-- The pattern
-- `<!--\s*heritage=mackerel-operator,resource=([^,\s]+),owner=([^,\s]+),hash=([^,\s]+)\s*-->`.
abbrev pub marker_pattern : List Piece
marker_pattern =
    lit (codes "<!--")
    ∷ many is_space
    ∷ lit (codes "heritage=mackerel-operator,resource=")
    ∷ capture_some is_field_byte
    ∷ lit (codes ",owner=")
    ∷ capture_some is_field_byte
    ∷ lit (codes ",hash=")
    ∷ capture_some is_field_byte
    ∷ many is_space
    ∷ lit (codes "-->")
    ∷ []

pub record Marker : Type 0 where
  pub resource : Text
  pub owner : Text
  pub hash : Text

unfoldable pub build_marker : Marker → Text
build_marker marker =
    codes "<!-- heritage="
    ++ (heritage
        ++ (codes ",resource="
            ++ (escape_marker_value marker.resource
                ++ (codes ",owner="
                    ++ (escape_marker_value marker.owner
                        ++ (codes ",hash="
                            ++ (escape_marker_value marker.hash ++ codes " -->")))))))

-- `matches[1]`, `matches[2]` and `matches[3]`.
unfoldable pub read_groups : List Text → Option Marker
read_groups (a ∷ b ∷ c ∷ rest) = do
  resource ← unescape_marker_value a
  owner ← unescape_marker_value b
  hash ← unescape_marker_value c
  some (record { resource = resource; owner = owner; hash = hash })
read_groups _ = none

-- `none` is the result `false`.
unfoldable pub parse_marker : Text → Option Marker
unfolding read_groups
parse_marker memo = do groups ← find_submatch marker_pattern memo; read_groups groups

unfoldable pub remove_marker : Text → Text
remove_marker memo = remove_all marker_pattern zero memo

-- `base` is `RemoveMarker(memo)`.
unfoldable pub append_marker : Text → Marker → Text
append_marker [] marker = build_marker marker
append_marker (b ∷ s) marker =
    if ends_with b'\n' (b ∷ s)
    then b ∷ s ++ build_marker marker
    else b ∷ s ++ b'\n' ∷ build_marker marker

unfoldable pub apply_marker : Text → Marker → Text
unfolding append_marker remove_marker
apply_marker memo marker = append_marker (remove_marker memo) marker

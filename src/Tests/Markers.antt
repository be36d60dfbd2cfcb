-- ===== src/Tests/Markers.antt =====
-- The theorems on markers at concrete texts.
use mackerel_operator.Prelude.{
  ◌≡◌, refl, Bool, true, ◌&&◌, some, [], ◌∷◌, Text, codes, IsBytes, ltb, arith, strip_prefix,
}
use mackerel_operator.Ownership.Pattern.{find_submatch, match_here, remove_all}
use mackerel_operator.Ownership.Escape.{escape_marker_value, unescape_marker_value, unescape-escape}
use mackerel_operator.Ownership.Marker.{parse_marker, remove_marker, apply_marker}
use mackerel_operator.Ownership.Marker.Match.{IsMarker}
use mackerel_operator.Ownership.Marker.Search.{Unmarked}
use mackerel_operator.Ownership.Marker.Laws.{parse-apply}
use mackerel_operator.Tests.Samples.{shop_marker, spaced_marker}

abbrev pub all_bytes : Text → Bool
all_bytes [] = true
all_bytes (b ∷ s) = ltb b 256 && all_bytes s

pub all_bytes-IsBytes : (s : Text) → all_bytes s ≡ true → IsBytes s
all_bytes-IsBytes [] h = tt
all_bytes-IsBytes (b ∷ s) h = (ground arith, all_bytes-IsBytes s (ground arith))

pub shop_marker-IsMarker : IsMarker shop_marker
shop_marker-IsMarker = record {
  resource_ne = λ e. cc;
  owner_ne = λ e. cc;
  hash_ne = λ e. cc;
  resource_bytes = all_bytes-IsBytes shop_marker.resource refl;
  owner_bytes = all_bytes-IsBytes shop_marker.owner refl;
  hash_bytes = all_bytes-IsBytes shop_marker.hash refl;
}

spaced_marker-IsMarker : IsMarker spaced_marker
spaced_marker-IsMarker = record {
  resource_ne = λ e. cc;
  owner_ne = λ e. cc;
  hash_ne = λ e. cc;
  resource_bytes = all_bytes-IsBytes spaced_marker.resource refl;
  owner_bytes = all_bytes-IsBytes spaced_marker.owner refl;
  hash_bytes = all_bytes-IsBytes spaced_marker.hash refl;
}

abbrev pub plain_memo : Text
plain_memo = codes "by hand"

plain-removed : remove_marker plain_memo ≡ plain_memo
unfolding remove_marker remove_all strip_prefix
plain-removed = refl

plain-Unmarked : Unmarked plain_memo
unfolding find_submatch match_here strip_prefix
plain-Unmarked = refl

pub removed-Unmarked : Unmarked (remove_marker plain_memo)
removed-Unmarked = rw plain-removed plain-Unmarked

parse-apply_example : parse_marker (apply_marker plain_memo spaced_marker) ≡ some spaced_marker
parse-apply_example = parse-apply plain_memo spaced_marker spaced_marker-IsMarker removed-Unmarked

unescape-escape_example :
    unescape_marker_value (escape_marker_value (codes "a, b%")) ≡ some (codes "a, b%")
unescape-escape_example = unescape-escape (codes "a, b%") (all_bytes-IsBytes (codes "a, b%") refl)

-- ===== src/Tests/Nested.antt =====
-- A memo in which removing the markers leaves a marker.
use mackerel_operator.Prelude.{◌≡◌, refl, some, ◌++◌, Text, codes, strip_prefix}
use mackerel_operator.Ownership.Pattern.{find_submatch, match_here, remove_all}
use mackerel_operator.Ownership.Escape.{is_space, is_field_byte, unescape_marker_value}
use mackerel_operator.Ownership.Marker.{parse_marker, read_groups, remove_marker}

abbrev nested : Text
nested =
    codes "<!-- heritage=mackerel-operator,resource=a,owner=b,hash=c"
    ++ codes "<!-- heritage=mackerel-operator,resource=a,owner=b,hash=c -->-->"

nested-removed :
    parse_marker (remove_marker nested)
    ≡ some (record { resource = codes "a"; owner = codes "b"; hash = codes "c" })
unfolding parse_marker read_groups remove_marker find_submatch match_here remove_all strip_prefix
    unescape_marker_value is_space is_field_byte
nested-removed = refl

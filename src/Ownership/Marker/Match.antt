-- ===== src/Ownership/Marker/Match.antt =====
-- A built marker is matched, with its three escaped fields as the groups, before any text.
use mackerel_operator.Prelude.{
  ℕ, ◌≡◌, ◌≢◌, refl, Bool, true, false, Option, some, List, [], ◌∷◌, ◌++◌, ◌∙◌, append_assoc,
  append-nil, Text, codes, strip_prefix-append, All, IsBytes,
}
use mackerel_operator.Ownership.Pattern.{
  Match, Piece, lit, many, capture_some, match_here, greedy, greedy_capture, close,
}
use mackerel_operator.Ownership.Escape.{
  is_space, is_field_byte, IsField, escape_marker_value, escape-IsField, escape-ne-nil,
}
use mackerel_operator.Ownership.Marker.{Marker, marker_pattern, build_marker}

close-some :
    (run s : Text) (next : Text → Option Match) (m : Match)
    → run ≢ []
    → next s ≡ some m
    → close run next s ≡ some (run ∷ m.0, m.1)
unfolding close
close-some [] s next m h e = absurd (h refl)
close-some (b ∷ run) s next m h e = rw e

-- The longest run is taken, where the rest of the pattern matches behind it.
greedy_capture-append :
    (class : ℕ → Bool) (next : Text → Option Match) (run v : Text) (c : ℕ) (s whole : Text)
    (m : Match)
    → All (λ b. class b ≡ true) v
    → class c ≡ false
    → run ++ v ≡ whole
    → whole ≢ []
    → next (c ∷ s) ≡ some m
    → greedy_capture class next run (v ++ c ∷ s) ≡ some (whole ∷ m.0, m.1)
unfolding greedy_capture
greedy_capture-append class next run [] c s whole m hv hc hw hne e =
    rw hc (rw (← append-nil run, hw) (close-some whole (c ∷ s) next m hne e))
greedy_capture-append class next run (b ∷ v) c s whole m (hb, hv) hc hw hne e = rw (
  hb,
  greedy_capture-append class next (run ++ b ∷ []) v c s whole m hv hc
      (append_assoc run (b ∷ []) v ∙ hw) hne e,
)

-- A captured field in front of a byte that no field holds.
capture_field :
    (ps : List Piece) (v : Text) (c : ℕ) (s : Text) (m : Match)
    → IsField v
    → v ≢ []
    → is_field_byte c ≡ false
    → match_here ps (c ∷ s) ≡ some m
    → match_here (capture_some is_field_byte ∷ ps) (v ++ c ∷ s) ≡ some (v ∷ m.0, m.1)
unfolding match_here
capture_field ps v c s m hv hne hc e =
    greedy_capture-append is_field_byte (match_here ps) [] v c s v m hv hc refl hne e

greedy_one :
    (class : ℕ → Bool) (next : Text → Option Match) (a c : ℕ) (s : Text) (m : Match)
    → class a ≡ true
    → class c ≡ false
    → next (c ∷ s) ≡ some m
    → greedy class next (a ∷ c ∷ s) ≡ some m
unfolding greedy
greedy_one class next a c s m ha hc e = rw (ha, hc, e)

-- One space before a byte that is none.
one_space :
    (ps : List Piece) (c : ℕ) (s : Text) (m : Match)
    → is_space c ≡ false
    → match_here ps (c ∷ s) ≡ some m
    → match_here (many is_space ∷ ps) (b' ' ∷ c ∷ s) ≡ some m
unfolding match_here
one_space ps c s m hc e =
    greedy_one is_space (match_here ps) b' ' c s m (unfold is_space in refl) hc e

literal :
    (ps : List Piece) (w s : Text) (m : Match)
    → match_here ps s ≡ some m
    → match_here (lit w ∷ ps) (w ++ s) ≡ some m
unfolding match_here
literal ps w s m e = rw (strip_prefix-append w s, e)

match_nil : (s : Text) → match_here [] s ≡ some ([], s)
unfolding match_here
match_nil s = refl

h_no_space : is_space b'h' ≡ false
unfolding is_space
h_no_space = refl

dash_no_space : is_space b'-' ≡ false
unfolding is_space
dash_no_space = refl

comma_no_field : is_field_byte b',' ≡ false
unfolding is_field_byte
comma_no_field = refl

space_no_field : is_field_byte b' ' ≡ false
unfolding is_field_byte
space_no_field = refl

-- A built marker, with the text behind it, bracketed to the right.
abbrev marker_text : Text → Text → Text → Text → Text
marker_text resource owner hash rest =
    codes "<!-- heritage=mackerel-operator,resource="
    ++ (resource
        ++ (codes ",owner=" ++ (owner ++ (codes ",hash=" ++ (hash ++ (codes " -->" ++ rest))))))

build_marker-text :
    (marker : Marker) (rest : Text)
    → build_marker marker ++ rest
      ≡ marker_text
          (escape_marker_value marker.resource)
          (escape_marker_value marker.owner)
          (escape_marker_value marker.hash)
          rest
unfolding build_marker
build_marker-text marker rest = simp append_assoc

match-marker_text :
    (resource owner hash rest : Text)
    → IsField resource
    → resource ≢ []
    → IsField owner
    → owner ≢ []
    → IsField hash
    → hash ≢ []
    → match_here marker_pattern (marker_text resource owner hash rest)
      ≡ some (resource ∷ owner ∷ hash ∷ [], rest)
match-marker_text resource owner hash rest hr nr ho no' hh nh = literal _ (codes "<!--") _ _ (
    one_space _ b'h' _ _ h_no_space (
      literal _ (codes "heritage=mackerel-operator,resource=") _ _ (
        capture_field _ resource b',' _ _ hr nr comma_no_field (
          literal _ (codes ",owner=") _ _ (
            capture_field _ owner b',' _ _ ho no' comma_no_field (
              literal _ (codes ",hash=") _ _ (
                capture_field _ hash b' ' _ _ hh nh space_no_field (
                  one_space _ b'-' _ _ dash_no_space
                    (literal _ (codes "-->") rest _ (match_nil rest))))))))))

-- A marker whose fields are not empty.
pub record IsMarker (marker : Marker) : Type 0 where
  pub resource_ne : marker.resource ≢ []
  pub owner_ne : marker.owner ≢ []
  pub hash_ne : marker.hash ≢ []
  pub resource_bytes : IsBytes marker.resource
  pub owner_bytes : IsBytes marker.owner
  pub hash_bytes : IsBytes marker.hash

-- What the pattern captures of a built marker.
abbrev pub groups : Marker → List Text
groups marker =
    escape_marker_value marker.resource
    ∷ escape_marker_value marker.owner
    ∷ escape_marker_value marker.hash
    ∷ []

-- The pattern takes a whole built marker, and leaves what stands behind it.
pub match-build_marker :
    (marker : Marker) (rest : Text)
    → IsMarker marker
    → match_here marker_pattern (build_marker marker ++ rest) ≡ some (groups marker, rest)
match-build_marker marker rest h = rw build_marker-text (
    match-marker_text _ _ _ rest (escape-IsField marker.resource) (escape-ne-nil _ h.resource_ne)
      (escape-IsField marker.owner) (escape-ne-nil _ h.owner_ne) (escape-IsField marker.hash)
      (escape-ne-nil _ h.hash_ne))

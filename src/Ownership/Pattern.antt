-- ===== src/Ownership/Pattern.antt =====
-- The part of Go's `regexp` that internal/ownership/marker.go uses: a pattern is a sequence of
-- literals, `class*` and captured `(class+)`, matched by leftmost-first backtracking, in which a
-- repetition takes the longest run first.
use mackerel_operator.Prelude.{
  ℕ, zero, suc, ◌-◌, Bool, Option, none, some, List, [], ◌∷◌, ◌++◌, Text, length, strip_prefix,
  or_else, ◌>>=◌, if◌then◌else◌,
}

pub data Piece : Type 0 where
  lit : Text → Piece
  many : (ℕ → Bool) → Piece
  capture_some : (ℕ → Bool) → Piece

-- The groups that a match captured, and the text behind the match.
abbrev pub Match : Type 0
Match = List Text × Text

-- `class*` before `next`: the longest run first, then shorter ones.
unfoldable pub greedy : (ℕ → Bool) → (Text → Option Match) → Text → Option Match
greedy class next [] = next []
greedy class next (b ∷ s) =
    if class b then or_else (greedy class next s) (next (b ∷ s)) else next (b ∷ s)

-- The end of a captured run, which may not be empty.
unfoldable pub close : Text → (Text → Option Match) → Text → Option Match
close [] next s = none
close (b ∷ run) next s = do m ← next s; some ((b ∷ run) ∷ m.0, m.1)

-- `(class+)` before `next`, with `run` taken so far.
unfoldable pub greedy_capture : (ℕ → Bool) → (Text → Option Match) → Text → Text → Option Match
unfolding close
greedy_capture class next run [] = close run next []
greedy_capture class next run (b ∷ s) =
    let longer = greedy_capture class next (run ++ b ∷ []) s in
    if class b then or_else longer (close run next (b ∷ s)) else close run next (b ∷ s)

-- A match at the start of the text.
unfoldable pub match_here : List Piece → Text → Option Match
unfolding greedy greedy_capture
match_here [] s = some ([], s)
match_here (lit w ∷ ps) s = do rest ← strip_prefix w s; match_here ps rest
match_here (many class ∷ ps) s = greedy class (match_here ps) s
match_here (capture_some class ∷ ps) s = greedy_capture class (match_here ps) [] s

-- `FindStringSubmatch`: the groups of the leftmost match.
unfoldable pub find_submatch : List Piece → Text → Option (List Text)
unfolding match_here
find_submatch ps [] = do m ← match_here ps []; some m.0
find_submatch ps (b ∷ s) =
    let later = find_submatch ps s in
    elim (match_here ps (b ∷ s)) [ some m ↦ some m.0 | none ↦ later ]

-- `ReplaceAllString(s, "")` for a pattern that matches no empty text: the first argument counts the
-- bytes of the last match that are still to be dropped.
unfoldable pub remove_all : List Piece → ℕ → Text → Text
unfolding match_here
remove_all ps skip [] = []
remove_all ps (suc skip) (b ∷ s) = remove_all ps skip s
remove_all ps zero (b ∷ s) = elim (match_here ps (b ∷ s)) [
  | some m ↦ remove_all ps (length s - length m.1) s
  | none ↦ b ∷ remove_all ps zero s
]

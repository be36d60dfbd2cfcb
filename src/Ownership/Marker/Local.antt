-- ===== src/Ownership/Marker/Local.antt =====
-- What stands behind a line break does not decide whether the pattern matches in front of it.
use mackerel_operator.Prelude.{
  ℕ, ◌≡◌, ◌≢◌, refl, Bool, false, Option, none, List, [], ◌∷◌, ◌++◌, arith, Text, strip_prefix,
  ◌>>=◌, All,
}
use mackerel_operator.Ownership.Pattern.{
  Match, Piece, lit, many, capture_some, match_here, greedy, greedy_capture, close,
}
use mackerel_operator.Ownership.Escape.{is_space, is_field_byte}
use mackerel_operator.Ownership.Marker.{marker_pattern}

-- The texts behind the part that is looked at: the end, a last line break, or a line break and
-- the first byte of a marker.
pub data Inert : Text → Type 0 where
  at_end : Inert []
  line_end : Inert (b'\n' ∷ [])
  before_marker : (r : Text) → Inert (b'\n' ∷ b'<' ∷ r)

abbrev Begins : List Piece → Type 0
Begins (lit (a ∷ w) ∷ ps) = (a ≢ b'\n') × (a ≢ b'<')
Begins _ = ⊥

-- No piece of the pattern reaches over such a text.
abbrev IsLocal : List Piece → Type 0
IsLocal [] = Unit {0}
IsLocal (lit w ∷ ps) = All (λ a. a ≢ b'\n') w × IsLocal ps
IsLocal (many class ∷ ps) = (class b'<' ≡ false) × Begins ps × IsLocal ps
IsLocal (capture_some class ∷ ps) = (class b'\n' ≡ false) × IsLocal ps

module _ {t u : Text} (it : Inert t) (iu : Inert u) where
  abbrev Carries : (Text → Option Match) → Type 0
  Carries next = (s : Text) → next (s ++ t) ≡ none → next (s ++ u) ≡ none

  strip-Inert :
      (next : Text → Option Match) (w s : Text)
      → All (λ a. a ≢ b'\n') w
      → Carries next
      → (do rest ← strip_prefix w (s ++ t); next rest) ≡ none
      → (do rest ← strip_prefix w (s ++ u); next rest) ≡ none
  unfolding strip_prefix
  strip-Inert next [] s hw carries e = carries s e
  strip-Inert next (a ∷ w) [] (ha, hw) carries e = mismatch a w iu ha
    where
      mismatch :
          {v : Text} (a : ℕ) (w : Text)
          → Inert v
          → a ≢ b'\n'
          → (do rest ← strip_prefix (a ∷ w) v; next rest) ≡ none
      mismatch a w at_end h = refl
      mismatch a w line_end h = ground arith
      mismatch a w (before_marker r) h = ground arith
  strip-Inert next (a ∷ w) (b ∷ s) (ha, hw) carries e =
      ground (arith, strip-Inert next w s hw carries)

  close-Inert :
      (next : Text → Option Match) (run s : Text)
      → Carries next
      → close run next (s ++ t) ≡ none
      → close run next (s ++ u) ≡ none
  unfolding close
  close-Inert next [] s carries e = refl
  close-Inert next (b ∷ run) s carries e = ground (arith, carries s)

  capture-Inert :
      (class : ℕ → Bool) (next : Text → Option Match) (run s : Text)
      → class b'\n' ≡ false
      → Carries next
      → greedy_capture class next run (s ++ t) ≡ none
      → greedy_capture class next run (s ++ u) ≡ none
  unfolding greedy_capture
  capture-Inert class next run [] hc carries e =
      stop iu (close-Inert next run [] carries (stopped it e))
    where
      stopped :
          {v : Text} → Inert v → greedy_capture class next run v ≡ none → close run next v ≡ none
      stopped at_end e = e
      stopped line_end e = rw hc at e
      stopped (before_marker r) e = rw hc at e

      stop : {v : Text} → Inert v → close run next v ≡ none → greedy_capture class next run v ≡ none
      stop at_end e = e
      stop line_end e = rw hc e
      stop (before_marker r) e = rw hc e
  capture-Inert class next run (b ∷ s) hc carries e = ground (
    arith,
    capture-Inert class next (run ++ b ∷ []) s hc carries,
    close-Inert next run (b ∷ s) carries,
  )

  -- `next` fails wherever a run of white space may end in such a text.
  Fails : (Text → Option Match) → Type 0
  Fails next = (v : Text) → Inert v → (next v ≡ none) × ((r : Text) → next (b'<' ∷ r) ≡ none)

  greedy-Inert :
      (class : ℕ → Bool) (next : Text → Option Match) (s : Text)
      → class b'<' ≡ false
      → Carries next
      → Fails next
      → greedy class next (s ++ t) ≡ none
      → greedy class next (s ++ u) ≡ none
  unfolding greedy Fails
  greedy-Inert class next [] hc carries fails e = failing iu
    where
      failing : {v : Text} → Inert v → greedy class next v ≡ none
      failing at_end = (fails [] at_end).0
      failing line_end = ground (arith, fails [] at_end, fails (b'\n' ∷ []) line_end)
      failing (before_marker r) =
          ground (arith, (fails (b'\n' ∷ b'<' ∷ r) (before_marker r)).0, (fails [] at_end).1 r)
  greedy-Inert class next (b ∷ s) hc carries fails e =
      ground (arith, greedy-Inert class next s hc carries fails, carries (b ∷ s))

  Begins-Fails : (ps : List Piece) → Begins ps → Fails (match_here ps)
  unfolding Fails match_here strip_prefix
  Begins-Fails [] h = absurd h
  Begins-Fails (lit [] ∷ ps) h = absurd h
  Begins-Fails (lit (a ∷ w) ∷ ps) h = λ v iv. (failing v iv, λ r. ground arith)
    where
      failing : (v : Text) → Inert v → match_here (lit (a ∷ w) ∷ ps) v ≡ none
      failing v at_end = refl
      failing v line_end = ground arith
      failing v (before_marker r) = ground arith
  Begins-Fails (many class ∷ ps) h = absurd h
  Begins-Fails (capture_some class ∷ ps) h = absurd h

  match-Inert : (ps : List Piece) → IsLocal ps → Carries (match_here ps)
  unfolding match_here
  match-Inert [] h s e = cc
  match-Inert (lit w ∷ ps) (hw, h) s e = strip-Inert (match_here ps) w s hw (match-Inert ps h) e
  match-Inert (many class ∷ ps) (hc, hb, h) s e =
      greedy-Inert class (match_here ps) s hc (match-Inert ps h) (Begins-Fails ps hb) e
  match-Inert (capture_some class ∷ ps) (hc, h) s e =
      capture-Inert class (match_here ps) [] s hc (match-Inert ps h) e

marker_pattern-IsLocal : IsLocal marker_pattern
unfolding is_space is_field_byte
marker_pattern-IsLocal = ground arith

module _ {t u : Text} (it : Inert t) (iu : Inert u) where
  -- Where the pattern does not match in front of such a text, it does not match in front of any.
  pub no_match-Inert :
      (s : Text)
      → match_here marker_pattern (s ++ t) ≡ none
      → match_here marker_pattern (s ++ u) ≡ none
  no_match-Inert = match-Inert it iu marker_pattern marker_pattern-IsLocal

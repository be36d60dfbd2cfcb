-- ===== src/Prelude/Strings.antt =====
-- A Go string is its bytes.
use Prim.Native.Nat.{ℕ, ◌<◌}
use Prim.Native.Char.{code}
use Prim.Native.String.{String}
use mathlib.Core.Path.{◌≡◌, refl}
use mathlib.Core.Bool.{Bool, false}
use mathlib.Core.Option.{Option, none, some}
use mathlib.Core.List.{List, [], ◌∷◌, ◌++◌}
use native.Mathlib.Omega.{arith}
use mackerel_operator.Prelude.Tests.{nat_beq, if◌then◌else◌}
use mackerel_operator.Prelude.Lists.{All}

abbrev pub Text : Type 0
Text = List ℕ

-- The code points of a literal, which are its bytes when it is ASCII.
abbrev pub codes : String → Text
codes String.[] = []
codes (String.◌∷◌ c s) = code c ∷ codes s

-- Every element is a byte.
abbrev pub IsBytes : Text → Type 0
IsBytes = All (λ b. b < 256)

-- The rest of `s` behind the prefix `w`.
unfoldable pub strip_prefix : Text → Text → Option Text
strip_prefix [] s = some s
strip_prefix (a ∷ w) [] = none
strip_prefix (a ∷ w) (b ∷ s) = if nat_beq a b then strip_prefix w s else none

-- `strings.HasSuffix(s, "\n")`, for one byte.
unfoldable pub ends_with : ℕ → Text → Bool
ends_with b [] = false
ends_with b (c ∷ []) = nat_beq c b
ends_with b (c ∷ d ∷ s) = ends_with b (d ∷ s)

pub strip_prefix-append : (w s : Text) → strip_prefix w (w ++ s) ≡ some s
unfolding strip_prefix
strip_prefix-append [] s = refl
strip_prefix-append (a ∷ w) s = ground (arith, strip_prefix-append w s)

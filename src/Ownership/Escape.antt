-- ===== src/Ownership/Escape.antt =====
-- `escapeMarkerValue`, `unescapeMarkerValue` and `isMarkerValueSafe` of
-- internal/ownership/marker.go, with the parts of `fmt` and `strconv` that they use.
use mackerel_operator.Prelude.{
  ℕ, ◌+◌, ◌-◌, ◌*◌, ◌/◌, ◌%◌, ◌<◌, ◌≡◌, ◌≢◌, refl, Bool, true, ◌||◌, ◌&&◌, not, Option, none, some,
  [], ◌∷◌, ◌++◌, arith, Text, IsBytes, All, leb, ltb, nat_beq, if◌then◌else◌, ◌>>=◌, Bool-cases,
  inl, inr,
}

unfoldable pub is_marker_value_safe : ℕ → Bool
is_marker_value_safe b =
    if leb b'a' b && leb b b'z'
    then true
    else if leb b'A' b && leb b b'Z'
    then true
    else if leb b'0' b && leb b b'9'
    then true
    else nat_beq b b'-' || nat_beq b b'_' || nat_beq b b'.' || nat_beq b b'/'

-- `\s` and `[^,\s]` of the pattern.
unfoldable pub is_space : ℕ → Bool
is_space b = nat_beq b b'\t' || nat_beq b b'\n' || nat_beq b 12 || nat_beq b b'\r' || nat_beq b b' '

unfoldable pub is_field_byte : ℕ → Bool
unfolding is_space
is_field_byte b = not (nat_beq b b',' || is_space b)

-- The digit of `%X`.
unfoldable pub hex_digit : ℕ → ℕ
hex_digit d = if ltb d 10 then b'0' + d else b'A' + (d - 10)

-- `fmt.Sprintf("%%%02X", b)`
unfoldable pub percent_escape : ℕ → Text
unfolding hex_digit
percent_escape b = b'%' ∷ hex_digit (b / 16) ∷ hex_digit (b % 16) ∷ []

unfoldable pub escape_marker_value : Text → Text
unfolding is_marker_value_safe percent_escape
escape_marker_value [] = []
escape_marker_value (b ∷ s) =
    (if is_marker_value_safe b then b ∷ [] else percent_escape b) ++ escape_marker_value s

-- The value of a hexadecimal digit of either case.
unfoldable pub hex_value : ℕ → Option ℕ
hex_value c =
    if leb b'0' c && leb c b'9'
    then some (c - b'0')
    else if leb b'a' c && leb c b'f'
    then some (c - b'a' + 10)
    else if leb b'A' c && leb c b'F'
    then some (c - b'A' + 10)
    else none

-- `strconv.ParseUint(s, 16, 8)` of two bytes.
unfoldable pub parse_hex : ℕ → ℕ → Option ℕ
unfolding hex_value
parse_hex hi lo = do h ← hex_value hi; l ← hex_value lo; some (h * 16 + l)

-- `none` is the error "invalid percent escape".
unfoldable pub unescape_marker_value : Text → Option Text
unfolding parse_hex
unescape_marker_value [] = some []
unescape_marker_value (c ∷ []) = if nat_beq c b'%' then none else some (c ∷ [])
unescape_marker_value (c ∷ d ∷ []) =
    if nat_beq c b'%' then none else do rest ← unescape_marker_value (d ∷ []); some (c ∷ rest)
unescape_marker_value (c ∷ d ∷ e ∷ s) =
    let decoded = (do b ← parse_hex d e; rest ← unescape_marker_value s; some (b ∷ rest)) in
    let copied = (do rest ← unescape_marker_value (d ∷ e ∷ s); some (c ∷ rest)) in
    if nat_beq c b'%' then decoded else copied

parse_hex-hex_digit :
    (b : ℕ) → b < 256 → parse_hex (hex_digit (b / 16)) (hex_digit (b % 16)) ≡ some b
unfolding parse_hex hex_digit
parse_hex-hex_digit b h = ground arith

unescape-safe :
    (b : ℕ) (s : Text)
    → b ≢ b'%'
    → unescape_marker_value (b ∷ s) ≡ (do rest ← unescape_marker_value s; some (b ∷ rest))
unfolding unescape_marker_value
unescape-safe b [] h = ground arith
unescape-safe b (d ∷ []) h = ground arith
unescape-safe b (d ∷ e ∷ s) h = ground arith

unescape-percent :
    (b d e : ℕ) (s : Text)
    → parse_hex d e ≡ some b
    → unescape_marker_value (b'%' ∷ d ∷ e ∷ s)
      ≡ (do rest ← unescape_marker_value s; some (b ∷ rest))
unfolding unescape_marker_value
unescape-percent b d e s h = rw h

safe-ne-percent : (b : ℕ) → is_marker_value_safe b ≡ true → b ≢ b'%'
unfolding is_marker_value_safe
safe-ne-percent b h = ground arith

escaped_byte :
    (b : ℕ) (s rest : Text)
    → b < 256
    → unescape_marker_value s ≡ some rest
    → unescape_marker_value ((if is_marker_value_safe b then b ∷ [] else percent_escape b) ++ s)
      ≡ some (b ∷ rest)
unfolding percent_escape
escaped_byte b s rest hb hs = elim (Bool-cases (is_marker_value_safe b)) [
  | inl safe ↦ rw (safe, unescape-safe b s (safe-ne-percent b safe), hs)
  | inr unsafe ↦ rw (unsafe, unescape-percent b _ _ s (parse_hex-hex_digit b hb), hs)
]

-- A value is read back from its escaped form, if it consists of bytes.
pub unescape-escape :
    (s : Text) → IsBytes s → unescape_marker_value (escape_marker_value s) ≡ some s
unfolding escape_marker_value
unescape-escape [] _ = unfold unescape_marker_value in refl
unescape-escape (b ∷ s) (hb, hs) =
    escaped_byte b (escape_marker_value s) s hb (unescape-escape s hs)

-- What may stand in a marker's field: no comma and no white space.
abbrev pub IsField : Text → Type 0
IsField = All (λ b. is_field_byte b ≡ true)

safe-field : (b : ℕ) → is_marker_value_safe b ≡ true → is_field_byte b ≡ true
unfolding is_marker_value_safe is_field_byte
safe-field b h = ground arith

hex_digit-field : (d : ℕ) → is_field_byte (hex_digit d) ≡ true
unfolding hex_digit is_field_byte
hex_digit-field d = ground arith

percent_field : is_field_byte b'%' ≡ true
unfolding is_field_byte
percent_field = refl

-- Escaping leaves only bytes that may stand in a field, whatever the value was.
pub escape-IsField : (s : Text) → IsField (escape_marker_value s)
unfolding escape_marker_value percent_escape
escape-IsField [] = tt
escape-IsField (b ∷ s) = elim (Bool-cases (is_marker_value_safe b)) [
  | inl safe ↦ rw safe (safe-field b safe, escape-IsField s)
  | inr unsafe ↦
      rw unsafe
        (percent_field, (hex_digit-field (b / 16), (hex_digit-field (b % 16), escape-IsField s)))
]

-- The field of a non-empty value is not empty.
pub escape-ne-nil : (s : Text) → s ≢ [] → escape_marker_value s ≢ []
unfolding escape_marker_value percent_escape
escape-ne-nil [] h = absurd (h refl)
escape-ne-nil (b ∷ s) h = ground arith

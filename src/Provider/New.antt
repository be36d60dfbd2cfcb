-- ===== src/Provider/New.antt =====
-- `NewMackerelProvider` of internal/provider/mackerel.go, with the test of `strings.TrimSpace` for
-- a text of white space only.
use mackerel_operator.Prelude.{
  ℕ, Bool, true, false, ◌&&◌, ◌||◌, [], ◌∷◌, Text, nat_beq, leb, if◌then◌else◌,
}
use mackerel_operator.Prelude.Outcome.{Outcome, ok, err}

-- `unicode.IsSpace`, by the length of the encoding. The code points of one byte;
unfoldable pub is_space_1 : ℕ → Bool
is_space_1 a = nat_beq a b' ' || (leb 9 a && leb a 13)

-- U+0085 and U+00A0;
unfoldable pub is_space_2 : ℕ → ℕ → Bool
is_space_2 a b = nat_beq a 0xC2 && (nat_beq b 0x85 || nat_beq b 0xA0)

-- U+1680, U+2000 to U+200A, U+2028, U+2029, U+202F, U+205F and U+3000.
unfoldable pub is_space_3 : ℕ → ℕ → ℕ → Bool
is_space_3 a b c =
    (nat_beq a 0xE1 && nat_beq b 0x9A && nat_beq c 0x80)
    || (nat_beq a 0xE2
        && ((nat_beq b 0x80
              && (leb 0x80 c && leb c 0x8A || leb 0xA8 c && leb c 0xA9 || nat_beq c 0xAF))
            || (nat_beq b 0x81 && nat_beq c 0x9F)))
    || (nat_beq a 0xE3 && nat_beq b 0x80 && nat_beq c 0x80)

-- `strings.TrimSpace(s) == ""`
unfoldable pub is_blank : Text → Bool
unfolding is_space_1 is_space_2 is_space_3
is_blank [] = true
is_blank (a ∷ []) = is_space_1 a
is_blank (a ∷ b ∷ []) = is_space_2 a b || (is_space_1 a && is_space_1 b)
is_blank (a ∷ b ∷ c ∷ s) =
    let one = is_blank (b ∷ c ∷ s) in
    let two = is_blank (c ∷ s) in
    let three = is_blank s in
    if is_space_1 a
    then one
    else if is_space_2 a b
    then two
    else if is_space_3 a b c
    then three
    else false

-- The client of mackerel-client-go is made from the key.
pub record MackerelProvider : Type 0 where
  pub api_key : Text

pub data ProviderError : Type 0 where
  empty_api_key : ProviderError

unfoldable pub new_mackerel_provider : Text → Outcome ProviderError MackerelProvider
unfolding is_blank
new_mackerel_provider api_key =
    if is_blank api_key then err empty_api_key else ok (record { api_key = api_key })

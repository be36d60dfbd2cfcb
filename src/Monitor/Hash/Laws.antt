-- ===== src/Monitor/Hash/Laws.antt =====
-- What `HashDesired` returns, and when it succeeds.
use mackerel_operator.Prelude.{
  ℕ, zero, suc, ◌*◌, ◌/◌, ◌%◌, ◌≤◌, ◌<◌, ◌≡◌, ◌↔◌, ◌⊎◌, inl, inr, refl, Option, none, some, [], ◌∷◌,
  Text, IsBytes, All, length, take, ltb, Bool-cases, arith,
}
use mackerel_operator.Prelude.Int.{ℤ, pos, negsuc}
use mackerel_operator.Prelude.Outcome.{ok}
use mackerel_operator.Monitor.{DesiredExternalMonitor}
use mackerel_operator.Monitor.Hash.{Digest, hex_lower, hex_encode, marshalled_hash, hash_desired}

length-hex_encode : (s : Text) → length (hex_encode s) ≡ 2 * length s
unfolding hex_encode
length-hex_encode [] = omega arith
length-hex_encode (b ∷ s) = omega (arith, length-hex_encode s)

length-take_le : (n : ℕ) (s : Text) → n ≤ length s → length (take n s) ≡ n
length-take_le zero s h = refl
length-take_le (suc n) [] h = absurd (omega arith)
length-take_le (suc n) (b ∷ s) h = omega (arith, length-take_le n s)

-- A lower-case hexadecimal digit.
abbrev pub IsHexDigit : ℕ → Type 0
IsHexDigit c = ((b'0' ≤ c) × (c ≤ b'9')) ⊎ ((b'a' ≤ c) × (c ≤ b'f'))

hex_lower-IsHexDigit : (d : ℕ) → d < 16 → IsHexDigit (hex_lower d)
unfolding hex_lower
hex_lower-IsHexDigit d h = elim (Bool-cases (ltb d 10)) [
  | inl small ↦ inl (ground arith)
  | inr large ↦ inr (ground arith)
]

hex_encode-IsHexDigit : (s : Text) → IsBytes s → All IsHexDigit (hex_encode s)
unfolding hex_encode
hex_encode-IsHexDigit [] h = tt
hex_encode-IsHexDigit (b ∷ s) (hb, hs) = (
  hex_lower-IsHexDigit (b / 16) (omega arith),
  (hex_lower-IsHexDigit (b % 16) (omega arith), hex_encode-IsHexDigit s hs),
)

take-All : (n : ℕ) (s : Text) → All IsHexDigit s → All IsHexDigit (take n s)
take-All zero s h = tt
take-All (suc n) [] h = tt
take-All (suc n) (b ∷ s) (hb, hs) = (hb, take-All n s hs)

module _ (digest : Digest) where
  marshalled_hash-ok :
      (o : Option Text) (n : ℕ) (h : Text)
      → marshalled_hash digest o n ≡ ok h
      → (t : Text) × (take n (hex_encode (digest.sum256 t)) ≡ h)
  unfolding marshalled_hash
  marshalled_hash-ok none n h e = cc
  marshalled_hash-ok (some t) n h e = (t, ground arith)

  in_range :
      (d : DesiredExternalMonitor) (n : ℕ) (h : Text)
      → hash_desired digest d (pos n) ≡ ok h
      → (1 ≤ n)
        × (n ≤ 64)
        × (marshalled_hash digest (digest.marshal (record d { hash = [] })) n ≡ ok h)
  unfolding hash_desired
  in_range d n h e = ground arith

  sum_digits : (t : Text) → length (hex_encode (digest.sum256 t)) ≡ 64
  sum_digits t = omega (arith, length-hex_encode (digest.sum256 t), digest.length_sum256 t)

  -- A hash that is returned has the length that was asked for, which is between 1 and 64, and
  -- consists of lower-case hexadecimal digits.
  pub hash_desired-ok :
      (d : DesiredExternalMonitor) (n : ℤ) (h : Text)
      → hash_desired digest d n ≡ ok h
      → (m : ℕ) × (n ≡ pos m) × (1 ≤ m) × (m ≤ 64) × (length h ≡ m) × All IsHexDigit h
  hash_desired-ok d (negsuc n) h e = absurd (unfold hash_desired in cc)
  hash_desired-ok d (pos n) h e =
      let (lo, hi, marshalled) = in_range d n h e in
      let (t, hex) = marshalled_hash-ok (digest.marshal (record d { hash = [] })) n h marshalled in
      (
        n,
        refl,
        lo,
        hi,
        rw (← hex) (length-take_le n _ (rw sum_digits hi)),
        rw (← hex) (take-All n _ (hex_encode-IsHexDigit _ (digest.sum256_bytes t))),
      )

  -- `HashDesired` succeeds on a state that can be marshalled exactly when the length is between 1
  -- and 64.
  pub hash_desired_iff :
      (d : DesiredExternalMonitor) (n : ℤ) (text : Text)
      → digest.marshal (record d { hash = [] }) ≡ some text
      → ((h : Text) × (hash_desired digest d n ≡ ok h))
        ↔ ((m : ℕ) × (n ≡ pos m) × (1 ≤ m) × (m ≤ 64))
  hash_desired_iff d n text e = (
    λ (h, made). let (m, eq, lo, hi, _, _) = hash_desired-ok d n h made in (m, eq, lo, hi),
    λ (m, eq, lo, hi). (
      take m (hex_encode (digest.sum256 text)),
      rw eq (unfold hash_desired marshalled_hash in ground arith),
    ),
  )

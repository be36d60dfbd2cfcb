-- ===== src/Monitor/Hash.antt =====
-- internal/monitor/hash.go. `json.Marshal` and `sha256.Sum256` are parameters.
pub mod Laws
use mackerel_operator.Prelude.{
  ℕ, zero, suc, ◌+◌, ◌-◌, ◌*◌, ◌/◌, ◌%◌, ◌≤◌, ◌<◌, ◌≡◌, refl, ◌||◌, Bool, true, false, Option, none,
  some, List, [], ◌∷◌, Text, IsBytes, All, length, take, ltb, if◌then◌else◌, arith,
}
use mackerel_operator.Prelude.Int.{ℤ, pos, negsuc}
use mackerel_operator.Prelude.Outcome.{Outcome, ok, err}
use mackerel_operator.Monitor.{DesiredExternalMonitor}

-- `none` is an error of `json.Marshal`. A digest has `sha256.Size` bytes.
pub record Digest : Type 0 where
  pub marshal : DesiredExternalMonitor → Option Text
  pub sum256 : Text → Text
  pub length_sum256 : (t : Text) → length (sum256 t) ≡ 32
  pub sum256_bytes : (t : Text) → IsBytes (sum256 t)

pub data HashError : Type 0 where
  length_out_of_range : ℤ → HashError
  marshal_failed : HashError

unfoldable pub hex_lower : ℕ → ℕ
hex_lower d = if ltb d 10 then b'0' + d else b'a' + (d - 10)

-- `hex.EncodeToString`
unfoldable pub hex_encode : Text → Text
unfolding hex_lower
hex_encode [] = []
hex_encode (b ∷ s) = hex_lower (b / 16) ∷ hex_lower (b % 16) ∷ hex_encode s

-- `sha256.Size*2`
abbrev pub max_hash_length : ℕ
max_hash_length = 64

module _ (digest : Digest) where
  open digest use {marshal, sum256}

  -- `HashDesired` behind `json.Marshal`.
  unfoldable pub marshalled_hash : Option Text → ℕ → Outcome HashError Text
  unfolding hex_encode
  marshalled_hash none n = err marshal_failed
  marshalled_hash (some text) n = ok (take n (hex_encode (sum256 text)))

  unfoldable pub hash_desired : DesiredExternalMonitor → ℤ → Outcome HashError Text
  hash_desired desired (negsuc n) = err (length_out_of_range (negsuc n))
  hash_desired desired (pos n) =
      if ltb n 1 || ltb max_hash_length n
      then err (length_out_of_range (pos n))
      else marshalled_hash (marshal (record desired { hash = [] })) n

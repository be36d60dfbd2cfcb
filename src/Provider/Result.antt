-- ===== src/Provider/Result.antt =====
-- The errors of internal/provider, and results that may be one of them.
use mackerel_operator.Prelude.{ℕ, Bool, true, false, Text, nat_beq, if◌then◌else◌}
use mackerel_operator.Prelude.Int.{ℤ}
use mackerel_operator.Prelude.Outcome.{Outcome}

-- An error of the client: a `*mackerel.APIError` with its status code somewhere in its chain, or
-- none.
pub data ClientError : Type 0 where
  api_error : ℕ → ClientError
  other_error : Text → ClientError

-- `ErrNotFound`, `ErrRateLimited` and `ErrInvalid`.
pub data Sentinel : Type 0 where
  err_not_found err_rate_limited err_invalid : Sentinel

pub data Error : Type 0 where
  client_error : ClientError → Error
  wrapped : Sentinel → ClientError → Error
  unexpected_monitor_type : Text → Error
  negative_int_value : ℤ → Error

abbrev pub Result : Type 0 → Type 0
Result A = Outcome Error A

-- `errors.Is(err, target)` for the three sentinels.
unfoldable pub is_sentinel : Sentinel → Error → Bool
is_sentinel err_not_found (wrapped err_not_found e) = true
is_sentinel err_rate_limited (wrapped err_rate_limited e) = true
is_sentinel err_invalid (wrapped err_invalid e) = true
is_sentinel err_invalid (unexpected_monitor_type t) = true
is_sentinel _ _ = false

-- `http.StatusNotFound`, `http.StatusTooManyRequests` and `http.StatusBadRequest`.
abbrev pub status_not_found : ℕ
status_not_found = 404

abbrev pub status_too_many_requests : ℕ
status_too_many_requests = 429

abbrev pub status_bad_request : ℕ
status_bad_request = 400

unfoldable pub map_mackerel_error : ClientError → Error
map_mackerel_error (other_error text) = client_error (other_error text)
map_mackerel_error (api_error status) =
    if nat_beq status status_not_found
    then wrapped err_not_found (api_error status)
    else if nat_beq status status_too_many_requests
    then wrapped err_rate_limited (api_error status)
    else if nat_beq status status_bad_request
    then wrapped err_invalid (api_error status)
    else client_error (api_error status)

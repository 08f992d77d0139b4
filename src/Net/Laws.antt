-- ===== src/Net/Laws.antt =====
-- How the promise of a refused request settles.
use chis.Base.{ℕ, ◌≡◌, ◌≤◌, arith}
use chis.Net.{
  ApiErrorBody, api_request_error, api_error, rejected, Response, json, answered, reject_with,
  settle,
}

abbrev pub IsOk : ℕ → Type 0
IsOk status = (200 ≤ status) × (status ≤ 299)

pub settle-refused :
    {A : Type 0} (no_content : A) (r : Response A) (b : ApiErrorBody)
    → (IsOk r.status → ⊥)
    → r.error_body ≡ json b
    → settle no_content (answered r) ≡ rejected (api_error (api_request_error r.status b))
unfolding settle reject_with
settle-refused no_content r b k h = ground arith

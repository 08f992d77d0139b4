-- ===== src/Hooks/Message.antt =====
-- The text that every hook shows for a failed request.
use chis.Base.{String}
use chis.Net.{Failure, api_error, other_error, not_error}

-- `if (err instanceof ApiRequestError) setError(err.message) else setError("…")`
abbrev pub message_of : Failure → String
message_of (api_error e) = e.message
message_of (other_error _) = "An unexpected error occurred"
message_of not_error = "An unexpected error occurred"

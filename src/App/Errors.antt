-- ===== src/App/Errors.antt =====
-- api/app/errors.py: the HTTP status and the code of each typed error.
use cosmos3_nano_web_ui.Common.{ℕ, String}
use cosmos3_nano_web_ui.Jobs.Model.{JobError, transition, conflict, not_found, key_error}
use cosmos3_nano_web_ui.Preprocessing.Media.{
  MediaErrorCode, MediaValidationError, payload_too_large, unsupported_media_type,
  invalid_dimension, invalid_param,
}
use cosmos3_nano_web_ui.Preprocessing.Action.{ErrorCode, ActionValidationError}
use cosmos3_nano_web_ui.Engines.ContextCap.{
  ReasoningErrorCode, ReasoningValidationError, empty_prompt, bad_max_tokens, context_over_cap,
}

-- The exceptions that reach the handlers; `unexpected` is any that has no handler.
pub data ApiError : Type 0 where
  media : MediaValidationError → ApiError
  action : ActionValidationError → ApiError
  reasoning : ReasoningValidationError → ApiError
  untrusted_path checkpoint_unavailable : ApiError
  job : JobError → ApiError
  unexpected : String → ApiError

-- `_MEDIA_STATUS`.
unfoldable pub media_status : MediaErrorCode → ℕ
media_status payload_too_large = 413
media_status unsupported_media_type = 415
media_status invalid_dimension = 422
media_status invalid_param = 422

-- `MediaErrorCode.value`, `ErrorCode.value`, `ReasoningErrorCode.value`.
unfoldable pub media_code : MediaErrorCode → String
media_code payload_too_large = "payload_too_large"
media_code unsupported_media_type = "unsupported_media_type"
media_code invalid_dimension = "invalid_dimension"
media_code invalid_param = "invalid_param"

unfoldable pub action_code : ErrorCode → String
action_code ErrorCode.unknown_embodiment = "unknown_embodiment"
action_code ErrorCode.unsupported_for_inference = "unsupported_for_inference"
action_code ErrorCode.width_mismatch = "width_mismatch"
action_code ErrorCode.frame_window = "frame_window"
action_code ErrorCode.bad_chunk = "bad_chunk"
action_code ErrorCode.bad_resolution_tier = "bad_resolution_tier"
action_code ErrorCode.condition_missing = "condition_missing"
action_code ErrorCode.condition_conflict = "condition_conflict"

unfoldable pub reasoning_code : ReasoningErrorCode → String
reasoning_code empty_prompt = "empty_prompt"
reasoning_code bad_max_tokens = "bad_max_tokens"
reasoning_code context_over_cap = "context_over_cap"

-- `to_error_response`, without the message and the details.
unfoldable pub to_error_response : ApiError → ℕ × String
unfolding media_status media_code action_code reasoning_code
to_error_response (media e) = (media_status e.code, media_code e.code)
to_error_response (action e) = (422, action_code e.code)
to_error_response (reasoning e) = (422, reasoning_code e.code)
to_error_response untrusted_path = (422, "untrusted_path")
to_error_response checkpoint_unavailable = (422, "checkpoint_unavailable")
to_error_response (job (conflict key)) = (409, "idempotency_conflict")
to_error_response (job (transition frm to)) = (409, "illegal_transition")
to_error_response (job (not_found id)) = (404, "not_found")
to_error_response (job (key_error key)) = (500, "internal_error")
to_error_response (unexpected name) = (500, "internal_error")

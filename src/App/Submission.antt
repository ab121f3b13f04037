-- ===== src/App/Submission.antt =====
-- api/app/jobs_router.py: `validate_submission`, the check of a job before it is stored. What the
-- code takes of Python's libraries (`int` and `str` of a value, base64, `wave`, `realpath`, the two
-- tests on a path) is given by `Env`, with the limits and the allowlist.
pub mod Accepted
use cosmos3_nano_web_ui.Common.{
  ◌+◌, ℕ, ◌*◌, ℤ, pos, pos_part, Bool, true, false, ◌&&◌, ◌||◌, not, String, Option, none, some,
  List, [], ◌∷◌, Result, ok, err, ◌>>=◌, has, ltb_ℤ, str_eq, if◌then◌else◌,
}
use cosmos3_nano_web_ui.Common.Value
use cosmos3_nano_web_ui.Common.Value.{Value, Fields, str, truthy}
use cosmos3_nano_web_ui.Orchestrator.Planes.{Plane, generation}
use cosmos3_nano_web_ui.Preprocessing.Limits.{MediaLimits}
use cosmos3_nano_web_ui.Preprocessing.Media.{
  MediaValidationError, ProbedMedia, plain, invalid_param, unsupported_media_type,
  payload_too_large, validate_image, validate_video, validate_audio, validate_resolution,
  validate_dimension, validate_num_frames,
}
use cosmos3_nano_web_ui.Preprocessing.Header.{WaveHeader, probe_image, probe_video, probe_audio}
use cosmos3_nano_web_ui.Preprocessing.Action.{
  ActionMode, forward_dynamics, inverse_dynamics, policy, ActionSpec, ActionValidationError,
  validate,
}
use cosmos3_nano_web_ui.Preprocessing.Paths.{resolve_within}
use cosmos3_nano_web_ui.App.Errors.{ApiError, media, action, untrusted_path, unexpected}
use cosmos3_nano_web_ui.App.Numbers.{require_int, int_or, opt_int}

pub record Env : Type 0 where
  pub limits : MediaLimits
  pub allowlist : List String
  pub realpath : String → String
  pub parse : String → Option ℤ
  pub text_of : Value → String
  pub size_of : String → ℤ
  pub decode : String → Option (List ℕ)
  pub wave : List ℕ → Option WaveHeader

pub record InlineMedia : Type 0 where
  pub kind : String
  pub data_base64 : String

pub record JobSubmit : Type 0 where
  pub mode : String
  pub params : Fields
  pub inline : Option InlineMedia

-- `GENERATION_MODES` and `ACTION_MODES`.
abbrev pub generation_modes : List String
generation_modes = "t2i" ∷ "t2v" ∷ "i2v" ∷ "t2v_audio" ∷ []

abbrev pub action_modes : List String
action_modes = "forward_dynamics" ∷ "inverse_dynamics" ∷ "policy" ∷ []

-- A validator's error is raised, and what follows goes on without one.
abbrev pub checked : Option MediaValidationError → Result ApiError Unit
checked none = ok tt
checked (some e) = err (media e)

abbrev pub checked_action : Option ActionValidationError → Result ApiError Unit
checked_action none = ok tt
checked_action (some e) = err (action e)

unfoldable pub plane_for_mode : String → Result ApiError Plane
plane_for_mode mode =
    if has generation_modes mode || has action_modes mode
    then ok generation
    else err (media (plain invalid_param))

-- One key of `_validate_conditioning_paths`.
unfoldable pub check_path : Env → Option Value → Result ApiError Unit
check_path env none = ok tt
check_path env (some v) =
    if truthy v
    then elim (resolve_within env.realpath (env.text_of v) env.allowlist) [
      | none ↦ err untrusted_path
      | some real ↦ ok tt
    ]
    else ok tt

unfoldable pub validate_conditioning_paths : Env → Fields → Result ApiError Unit
unfolding check_path
validate_conditioning_paths env params = check_path env (Value.get params "image_path") >>= λ a.
    check_path env (Value.get params "video_path") >>= λ b.
    check_path env (Value.get params "audio_path")

-- One parameter of `_validate_output_params`: absent, or an integer that the validator takes.
unfoldable pub check_output :
    Env → Fields → String → (ℤ → MediaLimits → Option MediaValidationError) → Result ApiError Unit
check_output env params key validator = elim (Value.get params key) [
  | none ↦ ok tt
  | some v ↦ require_int env.parse params key >>= λ z. checked (validator z env.limits)
]

unfoldable pub validate_output_params : Env → Fields → Result ApiError Unit
unfolding check_output
validate_output_params env params =
    check_output env params "resolution" validate_resolution >>= λ a.
    check_output env params "height" validate_dimension >>= λ b.
    check_output env params "width" validate_dimension >>= λ c.
    check_output env params "num_frames" validate_num_frames

-- `_PROBE[kind]` with its validator, and `cap[kind]`.
unfoldable pub check_media : Env → String → List ℕ → Option MediaValidationError
check_media env kind bytes =
    if str_eq kind "image"
    then validate_image (probe_image bytes) env.limits
    else if str_eq kind "video"
    then validate_video (probe_video bytes) env.limits
    else validate_audio (probe_audio env.wave bytes) env.limits

unfoldable pub byte_cap : MediaLimits → String → ℤ
byte_cap limits kind =
    if str_eq kind "image"
    then limits.max_image_bytes
    else if str_eq kind "video"
    then limits.max_video_bytes
    else limits.max_audio_bytes

-- `cap * 2`.
abbrev pub twice : ℤ → ℤ
twice (ℤ.pos n) = ℤ.pos (n * 2)
twice (ℤ.negsuc n) = ℤ.negsuc (n * 2 + 1)

unfoldable pub validate_inline_media : Env → InlineMedia → Result ApiError Unit
unfolding check_media byte_cap
validate_inline_media env m =
    if not (has ("image" ∷ "video" ∷ "audio" ∷ []) m.kind)
    then err (media (plain unsupported_media_type))
    else if ltb_ℤ (twice (byte_cap env.limits m.kind)) (env.size_of m.data_base64)
    then err (media (plain payload_too_large))
    else elim (env.decode m.data_base64) [
      | none ↦ err (media (plain invalid_param))
      | some raw ↦ checked (check_media env m.kind raw)
    ]

-- `ActionMode(mode)`.
abbrev pub action_mode : String → Option ActionMode
action_mode mode =
    if str_eq mode "forward_dynamics"
    then some forward_dynamics
    else if str_eq mode "inverse_dynamics"
    then some inverse_dynamics
    else if str_eq mode "policy"
    then some policy
    else none

abbrev pub text_or : Env → Option Value → String
text_or env none = ""
text_or env (some v) = env.text_of v

-- `bool(params.get(key))`.
abbrev pub is_given : Option Value → Bool
is_given none = false
is_given (some v) = truthy v

unfoldable pub validate_action_params : Env → String → Fields → Bool → Bool → Result ApiError Unit
validate_action_params env mode params has_inline_image has_inline_video = elim (action_mode mode) [
  | none ↦ err (unexpected "ValueError")
  | some m ↦ int_or env.parse params "chunk_size" (pos 0) >>= λ chunk.
      opt_int env.parse params "raw_action_width" >>= λ width.
      int_or env.parse params "resolution_tier" (pos 480) >>= λ tier. checked_action (
        validate (record {
          mode = m;
          domain_name = text_or env (Value.get params "domain_name");
          chunk_size = chunk;
          raw_action_width = width;
          resolution_tier = tier;
          has_image = is_given (Value.get params "image_path") || has_inline_image;
          has_video = is_given (Value.get params "video_path") || has_inline_video;
        }))
]

abbrev pub has_inline : Option InlineMedia → String → Bool
has_inline none kind = false
has_inline (some m) kind = str_eq m.kind kind

abbrev pub check_inline : Env → Option InlineMedia → Result ApiError Unit
check_inline env none = ok tt
check_inline env (some m) = validate_inline_media env m

unfoldable pub validate_submission : Env → JobSubmit → Result ApiError Plane
unfolding plane_for_mode validate_conditioning_paths validate_output_params validate_action_params
validate_submission env submit = plane_for_mode submit.mode >>= λ plane.
    validate_conditioning_paths env submit.params >>= λ a. check_inline env submit.inline >>= λ b.
    validate_output_params env submit.params >>= λ c.
    (if has action_modes submit.mode
      then validate_action_params env submit.mode submit.params (has_inline submit.inline "image")
          (has_inline submit.inline "video")
      else ok tt)
    >>= λ d. ok plane

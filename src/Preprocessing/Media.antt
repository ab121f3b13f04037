-- ===== src/Preprocessing/Media.antt =====
-- The validators of api/preprocessing/media.py, over the metadata that the probes read. An error
-- keeps its code and its two details; the message for the reader is left out.
pub mod Accept
use cosmos3_nano_web_ui.Common.{
  ℤ, pos, Bool, true, false, ◌&&◌, ◌||◌, not, Option, none, some, String, List, [], ◌∷◌, has, leb_ℤ,
  ltb_ℤ, if◌then◌else◌, any,
}
use cosmos3_nano_web_ui.Common.Float
use cosmos3_nano_web_ui.Common.Float.{Float}
use cosmos3_nano_web_ui.Preprocessing.Limits.{MediaLimits}

-- `IMAGE_MIMES`, `VIDEO_MIMES`, `AUDIO_MIMES`.
abbrev pub image_mimes : List String
image_mimes = "image/png" ∷ "image/jpeg" ∷ "image/webp" ∷ []

abbrev pub video_mimes : List String
video_mimes = "video/mp4" ∷ "video/webm" ∷ []

abbrev pub audio_mimes : List String
audio_mimes = "audio/wav" ∷ "audio/x-wav" ∷ "audio/flac" ∷ []

pub data MediaErrorCode : Type 0 where
  payload_too_large unsupported_media_type invalid_dimension invalid_param : MediaErrorCode

pub record ProbedMedia : Type 0 where
  pub size_bytes : ℤ
  pub mime : Option String
  pub width : Option ℤ
  pub height : Option ℤ
  pub frames : Option ℤ
  pub sample_rate : Option ℤ
  pub channels : Option ℤ
  pub duration_s : Option Float

-- A detail of an error: a number, or the text of a set.
pub data Detail : Type 0 where
  number : ℤ → Detail
  members : List ℤ → Detail

pub record MediaValidationError : Type 0 where
  pub code : MediaErrorCode
  pub expected : Option Detail
  pub got : Option ℤ

abbrev pub plain : MediaErrorCode → MediaValidationError
plain code = record { code = code; expected = none; got = none }

abbrev pub out_of : MediaErrorCode → ℤ → ℤ → MediaValidationError
out_of code expected got = record { code = code; expected = some (number expected); got = some got }

-- `meta.mime in MIMES`.
abbrev pub mime_in : Option String → List String → Bool
mime_in none mimes = false
mime_in (some m) mimes = has mimes m

abbrev pub min : ℤ → ℤ → ℤ
min a b = if leb_ℤ a b then a else b

abbrev pub max : ℤ → ℤ → ℤ
max a b = if leb_ℤ a b then b else a

-- `x or 0`.
abbrev pub or_zero : Option ℤ → ℤ
or_zero none = pos 0
or_zero (some x) = x

abbrev pub equal : ℤ → ℤ → Bool
equal a b = leb_ℤ a b && leb_ℤ b a

abbrev pub member : List ℤ → ℤ → Bool
member xs x = any (λ y. equal y x) xs

-- `meta.width is not None and meta.height is not None`, and the two dimensions.
unfoldable pub image_dimensions : Option ℤ → Option ℤ → ℤ → Option MediaValidationError
image_dimensions none height cap = none
image_dimensions (some w) none cap = none
image_dimensions (some w) (some h) cap =
    if leb_ℤ (min w h) (pos 0) || ltb_ℤ cap (max w h)
    then some (out_of invalid_dimension cap (max w h))
    else none

unfoldable pub validate_image : ProbedMedia → MediaLimits → Option MediaValidationError
unfolding image_dimensions
validate_image m limits =
    if ltb_ℤ limits.max_image_bytes m.size_bytes
    then some (out_of payload_too_large limits.max_image_bytes m.size_bytes)
    else if not (mime_in m.mime image_mimes)
    then some (plain unsupported_media_type)
    else image_dimensions m.width m.height limits.max_image_dimension

-- The frame count of a video, if it was probed.
unfoldable pub bad_frames : Option ℤ → ℤ → Option MediaValidationError
bad_frames none cap = none
bad_frames (some f) cap =
    if leb_ℤ f (pos 0) || ltb_ℤ cap f then some (out_of invalid_param cap f) else none

-- `meta.width or meta.height`.
abbrev pub is_set : Option ℤ → Bool
is_set none = false
is_set (some x) = not (equal x (pos 0))

unfoldable pub validate_video : ProbedMedia → MediaLimits → Option MediaValidationError
unfolding bad_frames
validate_video m limits =
    if ltb_ℤ limits.max_video_bytes m.size_bytes
    then some (out_of payload_too_large limits.max_video_bytes m.size_bytes)
    else if not (mime_in m.mime video_mimes)
    then some (plain unsupported_media_type)
    else elim (bad_frames m.frames limits.max_num_frames) [
      | some e ↦ some e
      | none ↦
          let side = max (or_zero m.width) (or_zero m.height) in
          if (is_set m.width || is_set m.height) && ltb_ℤ limits.max_image_dimension side
          then some (out_of invalid_dimension limits.max_image_dimension side)
          else none
    ]

-- `x is not None and x != required`.
abbrev pub differs : Option ℤ → ℤ → Bool
differs none required = false
differs (some x) required = not (equal x required)

-- `x is not None and x > cap`.
abbrev pub longer : Option Float → Float → Bool
longer none cap = false
longer (some x) cap = Float.lt cap x

unfoldable pub validate_audio : ProbedMedia → MediaLimits → Option MediaValidationError
validate_audio m limits =
    if ltb_ℤ limits.max_audio_bytes m.size_bytes
    then some (out_of payload_too_large limits.max_audio_bytes m.size_bytes)
    else if not (mime_in m.mime audio_mimes)
    then some (plain unsupported_media_type)
    else if differs m.sample_rate limits.audio_sample_rate
    then some (out_of invalid_param limits.audio_sample_rate (or_zero m.sample_rate))
    else if differs m.channels limits.audio_channels
    then some (out_of invalid_param limits.audio_channels (or_zero m.channels))
    else if longer m.duration_s limits.max_audio_seconds
    then some (plain invalid_param)
    else none

unfoldable pub validate_resolution : ℤ → MediaLimits → Option MediaValidationError
validate_resolution value limits =
    if member limits.resolutions value
    then none
    else some (record {
      code = invalid_dimension;
      expected = some (members limits.resolutions);
      got = some value;
    })

unfoldable pub validate_dimension : ℤ → MediaLimits → Option MediaValidationError
validate_dimension value limits =
    if member limits.valid_dimensions value
    then none
    else some (record {
      code = invalid_dimension;
      expected = some (members limits.valid_dimensions);
      got = some value;
    })

unfoldable pub validate_num_frames : ℤ → MediaLimits → Option MediaValidationError
validate_num_frames value limits =
    if leb_ℤ value (pos 0) || ltb_ℤ limits.max_num_frames value
    then some (out_of invalid_param limits.max_num_frames value)
    else none

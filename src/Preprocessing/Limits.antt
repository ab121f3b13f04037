-- ===== src/Preprocessing/Limits.antt =====
-- `MediaLimits` of api/preprocessing/limits.py. A frozenset is a list of its members.
use cosmos3_nano_web_ui.Common.{ℤ, pos, List, [], ◌∷◌, ◌*◌}
use cosmos3_nano_web_ui.Common.Float
use cosmos3_nano_web_ui.Common.Float.{Float, fin}

pub record MediaLimits : Type 0 where
  pub resolutions : List ℤ
  pub valid_dimensions : List ℤ
  pub max_num_frames : ℤ
  pub audio_sample_rate : ℤ
  pub audio_channels : ℤ
  pub max_audio_seconds : Float
  pub max_image_bytes : ℤ
  pub max_video_bytes : ℤ
  pub max_audio_bytes : ℤ
  pub max_image_dimension : ℤ

-- `MediaLimits()`.
unfoldable pub default_limits : MediaLimits
default_limits = record {
  resolutions = pos 256 ∷ pos 480 ∷ pos 720 ∷ [];
  valid_dimensions = pos 256 ∷ pos 480 ∷ pos 640 ∷ pos 720 ∷ pos 960 ∷ pos 1280 ∷ [];
  max_num_frames = pos 720;
  audio_sample_rate = pos 48000;
  audio_channels = pos 2;
  max_audio_seconds = fin (pos (60 * Float.unit));
  max_image_bytes = pos (32 * (1024 * 1024));
  max_video_bytes = pos (512 * (1024 * 1024));
  max_audio_bytes = pos (64 * (1024 * 1024));
  max_image_dimension = pos 4096;
}

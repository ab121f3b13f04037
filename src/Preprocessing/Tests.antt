-- ===== src/Preprocessing/Tests.antt =====
-- Runs of the checks on small inputs, and instances of their theorems.
use cosmos3_nano_web_ui.Common.{
  ℕ, pos, ◌≡◌, ◌↔◌, ◌≤ℤ◌, refl, true, false, none, some, List, [], ◌∷◌, arith,
}
use cosmos3_nano_web_ui.Preprocessing.Limits.{default_limits}
use cosmos3_nano_web_ui.Preprocessing.Media.{
  ProbedMedia, validate_image, validate_video, image_mimes, video_mimes,
}
use cosmos3_nano_web_ui.Preprocessing.Media.Accept.{
  validate_image_iff, validate_video_iff, MimeIn, InFrame, InCount, SideIn,
}
use cosmos3_nano_web_ui.Preprocessing.Header.{
  jpeg_dims, found, jpeg_loop, jpeg_round, jpeg_marker, is_sof, is_bare,
}
use cosmos3_nano_web_ui.Preprocessing.Header.Jpeg.{jpeg_dims_total, Ends}
use cosmos3_nano_web_ui.Preprocessing.Action.{
  ActionSpec, forward_dynamics, validate, raw_action_dim_of,
}
use cosmos3_nano_web_ui.Preprocessing.Action.Registry.{validate_iff, Conditioned, IsTier, Widths}

abbrev png : ProbedMedia
png = record {
  size_bytes = pos 100;
  mime = some "image/png";
  width = some (pos 640);
  height = some (pos 480);
  frames = none;
  sample_rate = none;
  channels = none;
  duration_s = none;
}

validate_image_iff_example : (validate_image png default_limits ≡ none) ↔ (
    (pos 100 ≤ℤ (default_limits).max_image_bytes)
    × MimeIn (some "image/png") image_mimes
    × InFrame (some (pos 640)) (some (pos 480)) (default_limits).max_image_dimension)
validate_image_iff_example = validate_image_iff png default_limits

validate_video_iff_example : (validate_video png default_limits ≡ none) ↔ (
    (pos 100 ≤ℤ (default_limits).max_video_bytes)
    × MimeIn (some "image/png") video_mimes
    × InCount none (default_limits).max_num_frames
    × SideIn (some (pos 640)) (default_limits).max_image_dimension
    × SideIn (some (pos 480)) (default_limits).max_image_dimension)
validate_video_iff_example =
    validate_video_iff png default_limits (unfold default_limits in omega arith)

-- SOI, one COM segment of two bytes of length, then a frame header of 32 by 16.
abbrev jpeg : List ℕ
jpeg = 0xFF ∷ 0xD8 ∷ 0xFF ∷ 0xFE ∷ 0 ∷ 2 ∷ 0xFF ∷ 0xC0 ∷ 0 ∷ 11 ∷ 8 ∷ 0 ∷ 16 ∷ 0 ∷ 32 ∷ 1 ∷ 1 ∷ []

jpeg_size : jpeg_dims jpeg ≡ found 32 16
unfolding jpeg_dims jpeg_loop jpeg_round jpeg_marker is_sof is_bare
jpeg_size = refl

jpeg_dims_total_example : Ends jpeg 2 (jpeg_dims jpeg)
jpeg_dims_total_example = jpeg_dims_total jpeg

abbrev request : ActionSpec
request = record {
  mode = forward_dynamics;
  domain_name = "av";
  chunk_size = pos 16;
  raw_action_width = some (pos 9);
  resolution_tier = pos 480;
  has_image = true;
  has_video = false;
}

validate_iff_example : (validate request ≡ none) ↔ (
    (expected : ℕ) × (raw_action_dim_of "av" ≡ some expected)
    × Conditioned forward_dynamics true false
    × IsTier (pos 480)
    × (pos 16 ≤ℤ pos 16)
    × (pos 16 ≤ℤ pos 400)
    × Widths forward_dynamics (some (pos 9)) expected)
validate_iff_example = validate_iff request

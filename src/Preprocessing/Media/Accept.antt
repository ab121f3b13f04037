-- ===== src/Preprocessing/Media/Accept.antt =====
-- Exactly which media the validators accept, said without their order of checks.
use cosmos3_nano_web_ui.Common.{
  ℤ, pos, ◌≡◌, ◌↔◌, ◌≤ℤ◌, true, false, Option, none, some, String, List, [], ◌∷◌, refl, ◌&&◌, ◌||◌,
  eq_iff, arith, In, ltb_ℤ,
}
use cosmos3_nano_web_ui.Common.Float
use cosmos3_nano_web_ui.Common.Float.{Float}
use cosmos3_nano_web_ui.Preprocessing.Limits.{MediaLimits}
use cosmos3_nano_web_ui.Preprocessing.Media.{
  ProbedMedia, validate_image, validate_video, validate_audio, image_dimensions, bad_frames,
  mime_in, image_mimes, video_mimes, audio_mimes, is_set, or_zero, max, differs, longer,
}

-- Two known dimensions are positive and within the cap.
abbrev pub InFrame : Option ℤ → Option ℤ → ℤ → Type 0
InFrame (some w) (some h) cap = (pos 1 ≤ℤ w) × (pos 1 ≤ℤ h) × (w ≤ℤ cap) × (h ≤ℤ cap)
InFrame _ _ cap = Unit

in_frame_lem : (w h : Option ℤ) (cap : ℤ) → (image_dimensions w h cap ≡ none) ↔ InFrame w h cap
unfolding image_dimensions
in_frame_lem none h cap = ground arith
in_frame_lem (some w) none cap = ground arith
in_frame_lem (some w) (some h) cap = ground arith

abbrev pub MimeIn : Option String → List String → Type 0
MimeIn none mimes = ⊥
MimeIn (some t) mimes = In t mimes

mime_iff : (t : Option String) (mimes : List String) → (mime_in t mimes ≡ true) ↔ MimeIn t mimes
mime_iff none mimes = ground arith
mime_iff (some t) [] = ground arith
mime_iff (some t) (x ∷ mimes) = ground (arith, eq_iff x t, mime_iff (some t) mimes)

-- An image is accepted exactly when it is within the byte cap, of a sniffed image type, and, where
-- both dimensions were probed, both are positive and within the dimension cap.
pub validate_image_iff :
    (m : ProbedMedia) (limits : MediaLimits)
    → (validate_image m limits ≡ none) ↔ (
        (m.size_bytes ≤ℤ limits.max_image_bytes)
        × MimeIn m.mime image_mimes
        × InFrame m.width m.height limits.max_image_dimension)
unfolding validate_image
validate_image_iff m limits =
    ground
      (arith, in_frame_lem m.width m.height limits.max_image_dimension, mime_iff m.mime image_mimes)

-- The frame count of a video, where it was probed, is in 1 .. cap.
abbrev pub InCount : Option ℤ → ℤ → Type 0
InCount none cap = Unit
InCount (some f) cap = (pos 1 ≤ℤ f) × (f ≤ℤ cap)

in_count_lem : (f : Option ℤ) (cap : ℤ) → (bad_frames f cap ≡ none) ↔ InCount f cap
unfolding bad_frames
in_count_lem none cap = ground arith
in_count_lem (some f) cap = ground arith

-- A side of a video's frame, where it was probed, is within the cap.
abbrev pub SideIn : Option ℤ → ℤ → Type 0
SideIn none cap = Unit
SideIn (some s) cap = s ≤ℤ cap

sides_lem :
    (w h : Option ℤ) (cap : ℤ)
    → pos 0 ≤ℤ cap
    → (((is_set w || is_set h) && ltb_ℤ cap (max (or_zero w) (or_zero h))) ≡ false)
      ↔ (SideIn w cap × SideIn h cap)
sides_lem none none cap p = ground arith
sides_lem none (some h) cap p = ground arith
sides_lem (some w) none cap p = ground arith
sides_lem (some w) (some h) cap p = ground arith

-- A video is accepted exactly when it is within the byte cap, of a sniffed video type, and, where
-- they were probed, its frame count is in 1 .. the cap and each side is within the dimension cap
-- (a cap that is not negative).
pub validate_video_iff :
    (m : ProbedMedia) (limits : MediaLimits)
    → pos 0 ≤ℤ limits.max_image_dimension
    → (validate_video m limits ≡ none) ↔ (
        (m.size_bytes ≤ℤ limits.max_video_bytes)
        × MimeIn m.mime video_mimes
        × InCount m.frames limits.max_num_frames
        × SideIn m.width limits.max_image_dimension
        × SideIn m.height limits.max_image_dimension)
unfolding validate_video
validate_video_iff m limits p = ground (
  arith,
  mime_iff m.mime video_mimes,
  in_count_lem m.frames limits.max_num_frames,
  sides_lem m.width m.height limits.max_image_dimension p,
)

longer_lem :
    (x : Option Float) (cap : Float)
    → (longer x cap ≡ false) ↔ ((d : Float) → x ≡ some d → Float.lt cap d ≡ false)
longer_lem none cap = (λ h d e. cc, λ h. refl)
longer_lem (some x) cap = (λ h d e. ground arith, λ h. h x refl)

abbrev pub Matches : Option ℤ → ℤ → Type 0
Matches none required = Unit
Matches (some x) required = (x ≤ℤ required) × (required ≤ℤ x)

matches_lem : (x : Option ℤ) (required : ℤ) → (differs x required ≡ false) ↔ Matches x required
matches_lem none required = ground arith
matches_lem (some x) required = ground arith

-- An audio is accepted exactly when it is within the byte cap, of a sniffed audio type, and, where
-- they were probed, it has the required sample rate and channels and is not longer than the cap.
pub validate_audio_iff :
    (m : ProbedMedia) (limits : MediaLimits)
    → (validate_audio m limits ≡ none) ↔ (
        (m.size_bytes ≤ℤ limits.max_audio_bytes)
        × MimeIn m.mime audio_mimes
        × Matches m.sample_rate limits.audio_sample_rate
        × Matches m.channels limits.audio_channels
        × ((d : Float) → m.duration_s ≡ some d → Float.lt limits.max_audio_seconds d ≡ false))
unfolding validate_audio
validate_audio_iff m limits = ground (
  arith,
  mime_iff m.mime audio_mimes,
  matches_lem m.sample_rate limits.audio_sample_rate,
  matches_lem m.channels limits.audio_channels,
  longer_lem m.duration_s limits.max_audio_seconds,
)

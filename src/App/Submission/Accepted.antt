-- ===== src/App/Submission/Accepted.antt =====
-- What a submission that passes the check is known to satisfy.
use cosmos3_nano_web_ui.Common.{
  ℕ, ℤ, pos, ◌≡◌, ◌≤ℤ◌, inl, inr, refl, true, ◌||◌, String, Option, none, some, List, Result, ok,
  err, ◌>>=◌, has, if◌then◌else◌, arith, Option-cases, Bool-cases, Result-cases,
}
use cosmos3_nano_web_ui.Common.Value
use cosmos3_nano_web_ui.Common.Value.{Value, Fields, truthy}
use cosmos3_nano_web_ui.Orchestrator.Planes.{Plane, generation}
use cosmos3_nano_web_ui.Preprocessing.Limits.{MediaLimits}
use cosmos3_nano_web_ui.Preprocessing.Media.{
  MediaValidationError, member, validate_resolution, validate_dimension, validate_num_frames,
}
use cosmos3_nano_web_ui.Preprocessing.Paths.{resolve_within}
use cosmos3_nano_web_ui.App.Errors.{ApiError}
use cosmos3_nano_web_ui.App.Numbers.{require_int}
use cosmos3_nano_web_ui.App.Submission.{
  Env, InlineMedia, JobSubmit, generation_modes, action_modes, plane_for_mode, check_path,
  validate_conditioning_paths, check_output, validate_output_params, check_media,
  validate_inline_media, check_inline, validate_action_params, has_inline, validate_submission,
}

bind_ok :
    {A B : Type 0} (r : Result ApiError A) (f : A → Result ApiError B) (b : B)
    → (r >>= f) ≡ ok b
    → (a : A) × (r ≡ ok a) × (f a ≡ ok b)
bind_ok (ok a) f b h = (a, refl, h)
bind_ok (err e) f b h = absurd (ground arith)

-- The parameter, where it is given, is an integer of which `P` holds.
abbrev pub Holds : Env → Fields → String → (ℤ → Type 0) → Type 0
Holds env params key P =
    (v : Value)
    → Value.get params key ≡ some v
    → (z : ℤ) × (require_int env.parse params key ≡ ok z) × P z

-- The path, where it is given and not empty, is one that the allowlist contains.
abbrev pub IsContained : Env → Fields → String → Type 0
IsContained env params key =
    (v : Value)
    → Value.get params key ≡ some v
    → truthy v ≡ true
    → (real : String) × (resolve_within env.realpath (env.text_of v) env.allowlist ≡ some real)

pub record IsAccepted (env : Env) (submit : JobSubmit) : Type 0 where
  pub known : (has generation_modes submit.mode || has action_modes submit.mode) ≡ true
  pub image : IsContained env submit.params "image_path"
  pub video : IsContained env submit.params "video_path"
  pub audio : IsContained env submit.params "audio_path"
  pub inline :
      (m : InlineMedia)
      → submit.inline ≡ some m
      → (raw : List ℕ) × (env.decode m.data_base64 ≡ some raw) × (check_media env m.kind raw ≡ none)
  pub resolution :
      Holds env submit.params "resolution" (λ z. member env.limits.resolutions z ≡ true)
  pub height : Holds env submit.params "height" (λ z. member env.limits.valid_dimensions z ≡ true)
  pub width : Holds env submit.params "width" (λ z. member env.limits.valid_dimensions z ≡ true)
  pub num_frames :
      Holds env submit.params "num_frames" (λ z. (pos 1 ≤ℤ z) × (z ≤ℤ env.limits.max_num_frames))
  pub actions :
      has action_modes submit.mode ≡ true
      → validate_action_params env submit.mode submit.params
          (has_inline submit.inline "image")
          (has_inline submit.inline "video")
        ≡ ok tt

module _ (env : Env) (params : Fields) where
  contained_lem :
      (key : String) (u : Unit {0})
      → check_path env (Value.get params key) ≡ ok u
      → IsContained env params key
  unfolding check_path
  contained_lem key u h v e t =
      elim (Option-cases (resolve_within env.realpath (env.text_of v) env.allowlist)) [
        | inl n ↦ absurd (ground arith)
        | inr (real, s) ↦ (real, s)
      ]

  paths_lem :
      (u : Unit {0})
      → validate_conditioning_paths env params ≡ ok u
      → IsContained env params "image_path"
        × IsContained env params "video_path"
        × IsContained env params "audio_path"
  unfolding validate_conditioning_paths
  paths_lem u h =
      let (a, p, q) =
        bind_ok (check_path env (Value.get params "image_path"))
          (λ a. check_path env (Value.get params "video_path") >>= λ b.
            check_path env (Value.get params "audio_path"))
          u h in
      let (b, r, s) =
        bind_ok (check_path env (Value.get params "video_path"))
          (λ b. check_path env (Value.get params "audio_path")) u q in
      (
        contained_lem "image_path" a p,
        contained_lem "video_path" b r,
        contained_lem "audio_path" u s,
      )

  output_lem :
      (key : String) (validator : ℤ → MediaLimits → Option MediaValidationError) (u : Unit {0})
      → check_output env params key validator ≡ ok u
      → Holds env params key (λ z. validator z env.limits ≡ none)
  unfolding check_output
  output_lem key validator u h v e = elim (Result-cases (require_int env.parse params key)) [
    | inr (x, r) ↦ absurd (ground arith)
    | inl (z, r) ↦ elim (Option-cases (validator z env.limits)) [
      | inl n ↦ (z, r, n)
      | inr (x, n) ↦ absurd (ground arith)
    ]
  ]

  outputs_lem :
      (u : Unit {0})
      → validate_output_params env params ≡ ok u
      → Holds env params "resolution" (λ z. validate_resolution z env.limits ≡ none)
        × Holds env params "height" (λ z. validate_dimension z env.limits ≡ none)
        × Holds env params "width" (λ z. validate_dimension z env.limits ≡ none)
        × Holds env params "num_frames" (λ z. validate_num_frames z env.limits ≡ none)
  unfolding validate_output_params
  outputs_lem u h =
      let frames = check_output env params "num_frames" validate_num_frames in
      let (a, p, q) =
        bind_ok (check_output env params "resolution" validate_resolution)
          (λ a. check_output env params "height" validate_dimension >>= λ b.
            check_output env params "width" validate_dimension >>= λ c. frames)
          u h in
      let (b, r, s) =
        bind_ok (check_output env params "height" validate_dimension)
          (λ b. check_output env params "width" validate_dimension >>= λ c. frames) u q in
      let (c, t, w) =
        bind_ok (check_output env params "width" validate_dimension) (λ c. frames) u s in
      (
        output_lem "resolution" validate_resolution a p,
        output_lem "height" validate_dimension b r,
        output_lem "width" validate_dimension c t,
        output_lem "num_frames" validate_num_frames u w,
      )

resolution_ok :
    (l : MediaLimits) (z : ℤ) → validate_resolution z l ≡ none → member l.resolutions z ≡ true
unfolding validate_resolution
resolution_ok l z h = ground arith

dimension_ok :
    (l : MediaLimits) (z : ℤ) → validate_dimension z l ≡ none → member l.valid_dimensions z ≡ true
unfolding validate_dimension
dimension_ok l z h = ground arith

frames_ok :
    (l : MediaLimits) (z : ℤ)
    → validate_num_frames z l ≡ none
    → (pos 1 ≤ℤ z) × (z ≤ℤ l.max_num_frames)
unfolding validate_num_frames
frames_ok l z h = ground arith

inline_ok :
    (env : Env) (inline : Option InlineMedia) (u : Unit {0})
    → check_inline env inline ≡ ok u
    → (m : InlineMedia) → inline ≡ some m
    → (raw : List ℕ) × (env.decode m.data_base64 ≡ some raw) × (check_media env m.kind raw ≡ none)
unfolding validate_inline_media
inline_ok env inline u h m e = elim (Option-cases (env.decode m.data_base64)) [
  | inl n ↦ absurd (ground arith)
  | inr (raw, n) ↦ (raw, n, ground arith)
]

with_fact :
    {P Q : ℤ → Type 0} (env : Env) (params : Fields) (key : String)
    → ((z : ℤ) → P z → Q z)
    → Holds env params key P
    → Holds env params key Q
with_fact env params key f h v e = let (z, r, p) = h v e in (z, r, f z p)

mode_ok :
    (mode : String) (p : Plane)
    → plane_for_mode mode ≡ ok p
    → ((has generation_modes mode || has action_modes mode) ≡ true) × (p ≡ generation)
unfolding plane_for_mode
mode_ok mode p h = elim (Bool-cases (has generation_modes mode || has action_modes mode)) [
  | inl e ↦ (e, ground arith)
  | inr e ↦ absurd (ground arith)
]

-- A submission that passes the check has a known mode; each conditioning path that it gives is inside
-- the allowlist; its inline media decodes and passes the validator of its kind; its resolution,
-- height, width and frame count, where given, are integers within the limits; and, for an action
-- mode, its action parameters pass their check. It goes to the generation plane.
pub validate_submission_lem :
    (env : Env) (submit : JobSubmit) (plane : Plane)
    → validate_submission env submit ≡ ok plane
    → IsAccepted env submit × (plane ≡ generation)
unfolding validate_submission
validate_submission_lem env submit plane h =
    let act : Result ApiError Unit =
      if has action_modes submit.mode
      then validate_action_params env submit.mode submit.params (has_inline submit.inline "image")
          (has_inline submit.inline "video")
      else ok tt in
    let f4 = λ (p : Plane). act >>= λ d. ok p in
    let f3 = λ (p : Plane). validate_output_params env submit.params >>= λ c. f4 p in
    let f2 = λ (p : Plane). check_inline env submit.inline >>= λ b. f3 p in
    let (p, a, h1) =
      bind_ok (plane_for_mode submit.mode)
        (λ p. validate_conditioning_paths env submit.params >>= λ a. f2 p) plane h in
    let (u1, b, h2) =
      bind_ok (validate_conditioning_paths env submit.params) (λ a. f2 p) plane h1 in
    let (u2, c, h3) = bind_ok (check_inline env submit.inline) (λ b. f3 p) plane h2 in
    let (u3, d, h4) = bind_ok (validate_output_params env submit.params) (λ c. f4 p) plane h3 in
    let (u4, e, h5) = bind_ok act (λ d. ok p) plane h4 in
    let (image, video, audio) = paths_lem env submit.params u1 b in
    let (res, height, width, frames) = outputs_lem env submit.params u3 d in
    let (k, g) = mode_ok submit.mode p a in
    (
      record {
        known = k;
        image = image;
        video = video;
        audio = audio;
        inline = inline_ok env submit.inline u2 c;
        resolution = with_fact env submit.params "resolution" (resolution_ok env.limits) res;
        height = with_fact env submit.params "height" (dimension_ok env.limits) height;
        width = with_fact env submit.params "width" (dimension_ok env.limits) width;
        num_frames = with_fact env submit.params "num_frames" (frames_ok env.limits) frames;
        actions = λ t. ground (arith, e);
      },
      ground (arith, h5),
    )

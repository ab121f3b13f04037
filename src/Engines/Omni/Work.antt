-- ===== src/Engines/Omni/Work.antt =====
-- api/engines/vllm_omni/work.py: which of the client's calls a job makes, what it writes, and what
-- it records. The transport's and the file system's answers are arguments.
pub mod Written
use cosmos3_nano_web_ui.Common.{
  ℕ, zero, suc, Bool, true, false, ◌||◌, not, Option, none, some, String, List, [], ◌∷◌, ◌++◌, has,
  length, ltb, str_eq, if◌then◌else◌, Result, ok, err, ◌>>=◌,
}
use cosmos3_nano_web_ui.Common.Dict
use cosmos3_nano_web_ui.Common.Dict.{Dict}
use cosmos3_nano_web_ui.Common.Value.{Items}
use cosmos3_nano_web_ui.Common.Float.{Float}
use cosmos3_nano_web_ui.Common.Float
use cosmos3_nano_web_ui.Engines.Omni.{
  Failure, untrusted_path, unsupported_mode, invalid_input, payload_too_large, generation_failed,
  raised, Round, Job, run_video_job, run_action_job, run_image_job, run_forward_dynamics_job,
}

abbrev pub async_video_modes : List String
async_video_modes = "t2v" ∷ "i2v" ∷ "t2v_audio" ∷ []

abbrev pub action_predict_modes : List String
action_predict_modes = "policy" ∷ "inverse_dynamics" ∷ []

-- `_SUPPORTED_MODES`.
abbrev pub is_supported : String → Bool
is_supported mode =
    has async_video_modes mode
    || has action_predict_modes mode
    || has ("t2i" ∷ "forward_dynamics" ∷ []) mode

-- A conditioning file: its size and, if it can be read, its bytes.
pub record Media : Type 0 where
  pub bytes : Option (List ℕ)
  pub size : ℕ

pub record FilePart : Type 0 where
  pub content : List ℕ

-- What comes of writing a file: it is written, under its path; or it fails before the file is opened;
-- or after, and what is written so far stays.
pub data Write : Type 0 where
  wrote : String → Write
  unopened cut : Write

-- What is outside of the adapter: `resolve_within`, the byte caps, the files, the submission's id,
-- the polling's rounds and how many are gone through, the downloads, the base64 decoder, and what
-- comes of the writes.
pub record Outside : Type 0 where
  pub resolve : String → Option String
  pub image_cap : ℕ
  pub video_cap : ℕ
  pub media : String → Media
  pub id : Option (Option String)
  pub fuel : ℕ
  pub rounds : ℕ → Round
  pub expected : Float
  pub download : Option (List ℕ)
  pub image : Option (Option String)
  pub decode : String → Option (List ℕ)
  pub write_png : List ℕ → Write
  pub write_video : List ℕ → Write
  pub write_trajectory : Items → Write

-- A job: its mode and its conditioning parameters, an empty one left out.
pub record Record : Type 0 where
  pub mode : String
  pub image_path : Option String
  pub video_path : Option String
  pub audio_path : Option String

pub record Conditioning : Type 0 where
  pub image : Option String
  pub video : Option String
  pub audio : Option String

abbrev pub resolved : Outside → Option String → Result Failure (Option String)
resolved o none = ok none
resolved o (some p) = elim (o.resolve p) [ none ↦ err untrusted_path | some q ↦ ok (some q) ]

-- `_resolve_conditioning`.
unfoldable pub resolve_conditioning : Outside → Record → Result Failure Conditioning
resolve_conditioning o r = resolved o r.image_path >>= (λ i.
    resolved o r.video_path
    >>= (λ v. resolved o r.audio_path >>= (λ a. ok record { image = i; video = v; audio = a })))

-- `_read_filepart`: the cap is tested before the file is read.
unfoldable pub read_filepart : Outside → ℕ → String → Result Failure FilePart
read_filepart o cap path =
    if ltb cap (o.media path).size
    then err payload_too_large
    else elim ((o.media path).bytes) [ none ↦ err raised | some b ↦ ok record { content = b } ]

-- What a job asks of the server.
pub data Request : Type 0 where
  image_request video_request : Request
  conditioned_request dynamics_request action_request : FilePart → Request

-- What a job has written.
pub data Artifact : Type 0 where
  png mp4 : List ℕ → Artifact
  trajectory : Items → Artifact

-- A file that is there: with all of the artifact, or, of a write that failed, with some or none of it.
pub data Piece : Type 0 where
  whole torn : Artifact → Piece

-- The outcome: the result and its path and sidecar, the requests in order, the fractions reported and
-- the files left, in order.
pub record Outcome : Type 0 where
  pub result : Result Failure (String × Option String)
  pub requests : List Request
  pub reports : List Float
  pub artifacts : List Piece

abbrev pub refuse : Failure → Outcome
refuse e = record { result = err e; requests = []; reports = []; artifacts = [] }

abbrev pub broke : Request → List Float → List Piece → Failure → Outcome
broke q reports written e = record {
  result = err e;
  requests = q ∷ [];
  reports = reports;
  artifacts = written;
}

-- The end of the work: `report(1.0)` after the artifact is there.
abbrev pub finished : Request → List Float → List Piece → String → Option String → Outcome
finished q reports written path sidecar = record {
  result = ok (path, sidecar);
  requests = q ∷ [];
  reports = reports ++ (Float.one ∷ []);
  artifacts = written;
}

-- One artifact is written, and its path is the job's.
unfoldable pub save : Request → List Float → Artifact → Write → Outcome
save q reports a unopened = broke q reports [] raised
save q reports a cut = broke q reports (torn a ∷ []) raised
save q reports a (wrote path) = finished q reports (whole a ∷ []) path none

unfoldable pub image_work : Outside → Outcome
unfolding save
image_work o = elim (run_image_job o.decode o.image) [
  | err e ↦ broke image_request [] [] e
  | ok bytes ↦ save image_request [] (png bytes) (o.write_png bytes)
]

-- A rollout or a video: the bytes that come back are the artifact.
unfoldable pub video_work : Outside → Request → Job (List ℕ) → Outcome
unfolding save
video_work o q job = elim (job.result) [
  | err e ↦ broke q job.reports [] e
  | ok bytes ↦ save q job.reports (mp4 bytes) (o.write_video bytes)
]

-- `policy`: the video, which may not be empty, and then the trajectory beside it.
unfoldable pub policy_save : Outside → Request → List Float → Items → Option (List ℕ) → Outcome
policy_save o q reports xs none = broke q reports [] generation_failed
policy_save o q reports xs (some []) = broke q reports [] generation_failed
policy_save o q reports xs (some (b ∷ bs)) = elim (o.write_video (b ∷ bs)) [
  | unopened ↦ broke q reports [] raised
  | cut ↦ broke q reports (torn (mp4 (b ∷ bs)) ∷ []) raised
  | wrote path ↦ elim (o.write_trajectory xs) [
    | unopened ↦ broke q reports (whole (mp4 (b ∷ bs)) ∷ []) raised
    | cut ↦ broke q reports (whole (mp4 (b ∷ bs)) ∷ torn (trajectory xs) ∷ []) raised
    | wrote sidecar ↦
        finished q reports (whole (mp4 (b ∷ bs)) ∷ whole (trajectory xs) ∷ []) path (some sidecar)
  ]
]

unfoldable pub action_work : Outside → Bool → Request → Job (Items × Option (List ℕ)) → Outcome
unfolding save policy_save
action_work o want_video q job = elim (job.result) [
  | err e ↦ broke q job.reports [] e
  | ok found ↦
      if want_video
      then policy_save o q job.reports found.0 found.1
      else save q job.reports (trajectory found.0) (o.write_trajectory found.0)
]

-- A mode that needs a file: without one nothing is asked of the server.
unfoldable pub needing : Outside → ℕ → Option String → (FilePart → Outcome) → Outcome
unfolding read_filepart
needing o cap none work = refuse invalid_input
needing o cap (some path) work = elim (read_filepart o cap path) [
  | err e ↦ refuse e
  | ok part ↦ work part
]

-- The dispatch of `vllm_omni_work` by mode.
unfoldable pub dispatch : Outside → String → Conditioning → Outcome
unfolding image_work video_work action_work needing
dispatch o mode c =
    if str_eq mode "t2i"
    then image_work o
    else if str_eq mode "forward_dynamics"
    then needing o o.image_cap c.image
        (λ part. video_work o (dynamics_request part) (run_forward_dynamics_job o.download))
    else if str_eq mode "policy"
    then needing o o.image_cap c.image (λ part.
      action_work o true (action_request part)
        (run_action_job true o.id o.fuel o.rounds o.expected o.download))
    else if str_eq mode "inverse_dynamics"
    then needing o o.video_cap c.video (λ part.
      action_work o false (action_request part)
        (run_action_job false o.id o.fuel o.rounds o.expected o.download))
    else if str_eq mode "i2v"
    then needing o o.image_cap c.image (λ part.
      video_work o (conditioned_request part)
        (run_video_job o.id o.fuel o.rounds o.expected o.download))
    else video_work o video_request (run_video_job o.id o.fuel o.rounds o.expected o.download)

-- `vllm_omni_work`: the paths are checked before the mode.
unfoldable pub vllm_omni_work : Outside → Record → Outcome
unfolding resolve_conditioning dispatch
vllm_omni_work o r = elim (resolve_conditioning o r) [
  | err e ↦ refuse e
  | ok c ↦ if is_supported r.mode then dispatch o r.mode c else refuse unsupported_mode
]

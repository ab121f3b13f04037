-- ===== src/Engines/Omni/Work/Written.antt =====
-- What a job of api/engines/vllm_omni/work.py asks of the server and what it leaves behind.
use cosmos3_nano_web_ui.Common.{
  ℕ, ◌≤◌, true, Option, some, String, List, [], ◌∷◌, ◌++◌, All, str_eq, if◌then◌else◌, ◌≡◌, ◌≢◌,
  ◌⊎◌, ok, err,
}
use cosmos3_nano_web_ui.Common.Float
use cosmos3_nano_web_ui.Common.Float.{Float}
use cosmos3_nano_web_ui.Engines.Omni.{Failure, raised}
use cosmos3_nano_web_ui.Engines.Omni.Work.{
  Outside, Record, FilePart, Request, image_request, video_request, conditioned_request,
  dynamics_request, action_request, Artifact, png, mp4, trajectory, Outcome, Piece, whole, torn,
  is_supported,
}

pub data Sort : Type 0 where
  picture video path : Sort

abbrev pub sort_of : Artifact → Sort
sort_of (png b) = picture
sort_of (mp4 b) = video
sort_of (trajectory xs) = path

-- The files are whole, and of these sorts.
abbrev pub Complete : List Sort → List Piece → Type 0
Complete [] [] = Unit
Complete [] (p ∷ ps) = ⊥
Complete (x ∷ xs) [] = ⊥
Complete (x ∷ xs) (torn a ∷ ps) = ⊥
Complete (x ∷ xs) (whole a ∷ ps) = (sort_of a ≡ x) × Complete xs ps

-- One of these sorts at least is missing: the files are whole up to there, and the next is torn or not
-- there, with none after it.
abbrev pub Begun : List Sort → List Piece → Type 0
Begun [] ps = ⊥
Begun (x ∷ xs) [] = Unit
Begun (x ∷ xs) (torn a ∷ ps) = (sort_of a ≡ x) × (ps ≡ [])
Begun (x ∷ xs) (whole a ∷ ps) = (sort_of a ≡ x) × Begun xs ps

-- What a job of a mode is to leave behind.
abbrev pub expected_sorts : String → List Sort
expected_sorts mode =
    if str_eq mode "t2i"
    then picture ∷ []
    else if str_eq mode "policy"
    then video ∷ path ∷ []
    else if str_eq mode "inverse_dynamics"
    then path ∷ []
    else video ∷ []

-- The job succeeds, reports 1.0 last and has left all that it is to leave, whole; or it fails and has
-- left nothing; or it fails for an untyped exception, as of a write, and has left a beginning of it.
abbrev pub Leaves : List Sort → Outcome → Type 0
Leaves wanted w =
    ((p : String × Option String) × (rs : List Float) × (w.result ≡ ok p)
      × Complete wanted w.artifacts
      × (w.reports ≡ rs ++ (Float.one ∷ [])))
    ⊎ ((e : Failure) × (w.result ≡ err e) × (w.artifacts ≡ []))
    ⊎ ((w.result ≡ err raised) × Begun wanted w.artifacts)

-- The part is a file of the record's own, under a path that `resolve_within` gave, below the cap.
abbrev pub From : Outside → Option String → ℕ → FilePart → Type 0
From o source cap part =
    (p : String) × (q : String) × (source ≡ some p)
    × (o.resolve p ≡ some q)
    × ((o.media q).size ≤ cap)
    × ((o.media q).bytes ≡ some part.content)

-- The request is one that the mode calls for, with the file that it needs.
abbrev pub Allowed : Outside → Record → Request → Type 0
Allowed o r image_request = r.mode ≡ "t2i"
Allowed o r video_request = (is_supported r.mode ≡ true) × (r.mode ≢ "i2v")
Allowed o r (conditioned_request part) = (r.mode ≡ "i2v") × From o r.image_path o.image_cap part
Allowed o r (dynamics_request part) =
    (r.mode ≡ "forward_dynamics") × From o r.image_path o.image_cap part
Allowed o r (action_request part) =
    ((r.mode ≡ "policy") × From o r.image_path o.image_cap part)
    ⊎ ((r.mode ≡ "inverse_dynamics") × From o r.video_path o.video_cap part)

abbrev Fine : Outside → Record → List Sort → Outcome → Type 0
Fine o r wanted w = Leaves wanted w × All (Allowed o r) w.requests

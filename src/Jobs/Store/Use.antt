-- ===== src/Jobs/Store/Use.antt =====
-- Everything that the program does to a store, as steps: its clients call only these methods, and
-- update only by the lifecycle operations.
use cosmos3_nano_web_ui.Common.{
  ◌≡◌, sym, subst, ◌⊎◌, inl, inr, String, Bool, true, false, Option, none, Result, Option-cases, ok,
  arith,
}
use cosmos3_nano_web_ui.Common.Value.{Fields}
use cosmos3_nano_web_ui.Common.Dict
use cosmos3_nano_web_ui.Common.Dict.{get-put}
use cosmos3_nano_web_ui.Orchestrator.Planes.{Plane}
use cosmos3_nano_web_ui.Jobs.Model.{JobRecord, JobError, is_terminal}
use cosmos3_nano_web_ui.Jobs.Model.Lifecycle.{Op, apply, apply-SameJob, apply_terminal, SameJob}
use cosmos3_nano_web_ui.Jobs.Store.{
  JobStore, append_event, create, new_job, submit, replay, update, owner_of,
}
use cosmos3_nano_web_ui.Jobs.Store.Invariant.{
  IsValid, append_event-IsValid, create-IsValid, update-IsValid,
}

-- The functions that the program updates a record by: each leaves it as it was, or applies one
-- lifecycle operation.
abbrev pub IsLifecycle : (JobRecord → Result JobError JobRecord) → Type 0
IsLifecycle fn = (a b : JobRecord) → fn a ≡ ok b → (b ≡ a) ⊎ ((op : Op) × (apply op a ≡ ok b))

pub IsLifecycle-SameJob :
    (fn : JobRecord → Result JobError JobRecord) (a b : JobRecord)
    → IsLifecycle fn
    → fn a ≡ ok b
    → SameJob b a
IsLifecycle-SameJob fn a b l h = elim (l a b h) [
  | inl e ↦ ground arith
  | inr (op, e) ↦ apply-SameJob op a e
]

-- A lifecycle function leaves a terminal record as it was, if it returns.
pub IsLifecycle-terminal :
    (fn : JobRecord → Result JobError JobRecord) (a b : JobRecord)
    → IsLifecycle fn
    → fn a ≡ ok b
    → is_terminal a.status ≡ true
    → b ≡ a
IsLifecycle-terminal fn a b l h d = elim (l a b h) [
  | inl e ↦ e
  | inr (op, e) ↦ absurd (ground (arith, apply_terminal op a d))
]

pub data Use (s : JobStore) : JobStore → Type 0 where
  logged : (job_id type : String) (payload : Fields) → Use s (append_event job_id type payload s).1
  updated :
      (job_id : String) (fn : JobRecord → Result JobError JobRecord) (job : JobRecord)
      {t : JobStore}
      → IsLifecycle fn
      → update job_id fn s ≡ ok (job, t)
      → Use s t
  -- The id that the factory returns is new.
  submitted :
      (fp job_id now mode : String) (plane : Plane) (params : Fields) (key : Option String)
      (job : JobRecord) (replayed : Bool) {t : JobStore}
      → Dict.get s.jobs job_id ≡ none
      → submit fp job_id now mode plane params key s ≡ ok (job, replayed, t)
      → Use s t

pub data Uses (s : JobStore) : JobStore → Type 0 where
  here : Uses s s
  next : {t u : JobStore} → Uses s t → Use t u → Uses s u

-- A submission that returns has replayed a job and written nothing, or created one.
pub submit_lem :
    (fp job_id now mode : String) (plane : Plane) (params : Fields) (key : Option String)
    (s : JobStore) {out : JobRecord × Bool × JobStore}
    → submit fp job_id now mode plane params key s ≡ ok out
    → ((out.1 ≡ true) × (out.2 ≡ s))
      ⊎ ((owner_of key s ≡ none)
          × (out.0 ≡ new_job fp job_id now mode plane params key)
          × (out.1 ≡ false)
          × (out.2 ≡ create out.0 key s))
unfolding submit replay
submit_lem fp job_id now mode plane params key s {out} h = elim (Option-cases (owner_of key s)) [
  | inl e ↦ inr (e, ground arith, ground arith, ground arith)
  | inr (o, e) ↦ inl (ground arith, ground arith)
]

pub Use-IsValid : {s t : JobStore} → Use s t → IsValid s → IsValid t
Use-IsValid {s} (logged job_id type payload) v = append_event-IsValid job_id type payload s v
Use-IsValid {s} (updated job_id fn job l h) v =
    update-IsValid job_id fn s (λ a b e. (IsLifecycle-SameJob fn a b l e).id) v h
Use-IsValid {s} (submitted fp job_id now mode plane params key job replayed fresh h) v =
    elim (submit_lem fp job_id now mode plane params key s h) [
      | inl e ↦ subst IsValid (sym e.1) v
      | inr e ↦ subst IsValid (sym e.3) (create-IsValid job key s v)
    ]

-- Whatever calls are made on a valid store, in any order, it stays valid.
pub Uses-IsValid : {s t : JobStore} → Uses s t → IsValid s → IsValid t
Uses-IsValid here v = v
Uses-IsValid (next r u) v = Use-IsValid u (Uses-IsValid r v)

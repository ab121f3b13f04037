-- ===== src/Jobs/Store/Invariant.antt =====
-- What holds of the store between two calls, and that each method keeps it.
use cosmos3_nano_web_ui.Common.{
  ℕ, suc, ◌+◌, ◌≤◌, ◌≡◌, ◌∙◌, subst, sym, refl, inl, inr, String, Option, none, some, List, [], ◌∷◌,
  ◌++◌, Result, ok, arith, ltb, length, length-append, tail, Bool-cases, Option-cases, str_cases,
  eq_iff,
}
use cosmos3_nano_web_ui.Common.Value.{Fields}
use cosmos3_nano_web_ui.Common.Dict
use cosmos3_nano_web_ui.Common.Dict.{Dict, get-put, get-put_self}
use cosmos3_nano_web_ui.Jobs.Events.{JobEvent}
use cosmos3_nano_web_ui.Jobs.Events.Replay.{CountsFrom, CountsFrom-append}
use cosmos3_nano_web_ui.Jobs.Model.{JobRecord, JobError}
use cosmos3_nano_web_ui.Jobs.Store.{
  JobStore, init, event_log_bound, or_else, push, append_event, create, stored, register, update,
}

-- The log of one job: at most 1024 events, with consecutive ids that end at the job's counter.
pub record IsLog (n : ℕ) (log : List JobEvent) : Type 0 where
  pub first : ℕ
  pub counts : CountsFrom first log
  pub ends : first + length log ≡ n + 1
  pub bounded : length log ≤ event_log_bound

pub record IsValid (s : JobStore) : Type 0 where
  pub keyed : (j : String) (r : JobRecord) → Dict.get s.jobs j ≡ some r → r.id ≡ j
  pub logged :
      (j : String) → IsLog (or_else (Dict.get s.seq j) 0) (or_else (Dict.get s.events j) [])
  pub owned :
      (k j : String) → Dict.get s.idem k ≡ some j → (r : JobRecord) × (Dict.get s.jobs j ≡ some r)

drop_oldest :
    (n : ℕ) (log : List JobEvent) (first : ℕ)
    → CountsFrom first log
    → first + length log ≡ n + 1
    → length log ≡ event_log_bound + 1
    → IsLog n (tail log)
drop_oldest n [] first c e b = absurd (omega arith)
drop_oldest n (x ∷ log) first c e b = record {
  first = suc first;
  counts = c.1;
  ends = omega arith;
  bounded = omega arith;
}

pub push-IsLog :
    (n : ℕ) (log : List JobEvent) (e : JobEvent)
    → IsLog n log
    → e.id ≡ n + 1
    → IsLog (n + 1) (push log e)
unfolding push
push-IsLog n log e h p =
    let c = CountsFrom-append h.first log e h.counts (omega (arith, h.ends)) in
    let l = length-append log (e ∷ []) in
    elim (Bool-cases (ltb event_log_bound (length (log ++ e ∷ [])))) [
      | inl full ↦ rw full (
          drop_oldest (n + 1) (log ++ e ∷ []) h.first c (omega (arith, l, h.ends))
            (ground (arith, l, h.bounded)))
      | inr room ↦ rw room (record {
        first = h.first;
        counts = c;
        ends = omega (arith, l, h.ends);
        bounded = ground arith;
      })
    ]

pub init-IsValid : IsValid init
unfolding init Dict.get
init-IsValid = record {
  keyed = λ j r h. cc;
  logged = λ j. record { first = 1; counts = tt; ends = omega arith; bounded = omega arith };
  owned = λ k j h. cc;
}

pub append_event-IsValid :
    (job_id type : String) (payload : Fields) (s : JobStore)
    → IsValid s
    → IsValid (append_event job_id type payload s).1
unfolding append_event
append_event-IsValid job_id type payload s v = record {
  keyed = v.keyed;
  logged = λ j. elim (str_cases job_id j) [
    | inl e ↦ simp (get-put, e.1) (push-IsLog _ _ _ (v.logged job_id) refl)
    | inr e ↦ simp (get-put, e.1) (v.logged j)
  ];
  owned = v.owned;
}

module _ (job : JobRecord) (key : Option String) (s : JobStore) (v : IsValid s) where
  owned_after :
      (k j : String)
      → Dict.get s.idem k ≡ some j
      → (r : JobRecord) × (Dict.get (Dict.put s.jobs job.id job) j ≡ some r)
  owned_after k j h = elim (str_cases job.id j) [
    | inl e ↦ (job, rw (get-put, e.1))
    | inr e ↦ rw (get-put, e.1) (v.owned k j h)
  ]

  stored-owned :
      (key : Option String) (k j : String)
      → Dict.get (register key job.id s.idem) k ≡ some j
      → (r : JobRecord) × (Dict.get (Dict.put s.jobs job.id job) j ≡ some r)
  stored-owned none k j h = owned_after k j h
  stored-owned (some key) k j h = elim (str_cases key k) [
    | inl e ↦ (
      job,
      ground (arith, get-put s.idem key k job.id, get-put s.jobs job.id j job, eq_iff job.id j),
    )
    | inr e ↦ owned_after k j (ground (arith, get-put s.idem key k job.id))
  ]

  stored-IsValid : IsValid (stored job key s)
  unfolding stored
  stored-IsValid = record {
    keyed = λ j r h. ground (arith, get-put s.jobs job.id j job, eq_iff job.id j, v.keyed j r);
    logged = λ j. elim (str_cases job.id j) [
      | inl e ↦
          simp (get-put, e.1)
            (record { first = 1; counts = tt; ends = omega arith; bounded = omega arith })
      | inr e ↦ simp (get-put, e.1) (v.logged j)
    ];
    owned = stored-owned key;
  }

  pub create-IsValid : IsValid (create job key s)
  unfolding create
  create-IsValid = append_event-IsValid _ _ _ (stored job key s) stored-IsValid

-- What an update that returns has done.
pub update_lem :
    (job_id : String) (fn : JobRecord → Result JobError JobRecord) (s : JobStore)
    {after : JobRecord × JobStore}
    → update job_id fn s ≡ ok after
    → (job : JobRecord) × (Dict.get s.jobs job_id ≡ some job)
      × (fn job ≡ ok after.0)
      × (after.1 ≡ record s { jobs = Dict.put s.jobs job_id after.0 })
unfolding update
update_lem job_id fn s h = elim (Option-cases (Dict.get s.jobs job_id)) [
  | inl e ↦ absurd (ground arith)
  | inr (job, e) ↦ (job, e, ground arith, ground arith)
]

updated-IsValid :
    (job_id : String) (job : JobRecord) (s : JobStore)
    → IsValid s
    → job.id ≡ job_id
    → IsValid (record s { jobs = Dict.put s.jobs job_id job })
updated-IsValid job_id job s v e = record {
  keyed = λ j r h. ground (arith, get-put s.jobs job_id j job, eq_iff job_id j, v.keyed j r);
  logged = v.logged;
  owned = λ k j h.
      subst (λ i. (r : JobRecord) × (Dict.get (Dict.put s.jobs i job) j ≡ some r)) e
        (owned_after job none s v k j h);
}

-- An update by a function that keeps the id keeps the invariant.
pub update-IsValid :
    (job_id : String) (fn : JobRecord → Result JobError JobRecord) (s : JobStore)
    {after : JobRecord × JobStore}
    → ((a b : JobRecord) → fn a ≡ ok b → b.id ≡ a.id)
    → IsValid s
    → update job_id fn s ≡ ok after
    → IsValid after.1
update-IsValid job_id fn s {after} same v h =
    let (job, there, done, e) = update_lem job_id fn s h in
    subst IsValid (sym e)
      (updated-IsValid job_id after.0 s v (same job after.0 done ∙ v.keyed job_id job there))

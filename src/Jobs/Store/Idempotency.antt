-- ===== src/Jobs/Store/Idempotency.antt =====
-- An `Idempotency-Key`, from its first submission on, and what no call to the store can undo.
use cosmos3_nano_web_ui.Common.{
  ◌≡◌, ◌∙◌, ap, refl, sym, subst, inl, inr, String, true, false, Option, none, some, ok, err, arith,
  str_eq, eq_refl, str_cases, if◌then◌else◌,
}
use cosmos3_nano_web_ui.Common.Value.{Fields}
use cosmos3_nano_web_ui.Common.Dict
use cosmos3_nano_web_ui.Common.Dict.{get-put, get-put_ne, get-put_self}
use cosmos3_nano_web_ui.Orchestrator.Planes.{Plane}
use cosmos3_nano_web_ui.Jobs.Model.{JobRecord, is_terminal, conflict}
use cosmos3_nano_web_ui.Jobs.Model.Lifecycle.{SameJob}
use cosmos3_nano_web_ui.Jobs.Store.{
  JobStore, append_event, create, stored, new_job, submit, replay, owner_of, register,
}
use cosmos3_nano_web_ui.Jobs.Store.Invariant.{update_lem}
use cosmos3_nano_web_ui.Jobs.Store.Use.{
  Use, logged, updated, submitted, Uses, here, next, submit_lem, IsLifecycle-SameJob,
  IsLifecycle-terminal,
}

-- The key is registered for a job that has the identity and the payload of `job`.
pub record IsRegistered (key : String) (job : JobRecord) (s : JobStore) : Type 0 where
  pub owner : Dict.get s.idem key ≡ some job.id
  pub kept : JobRecord
  pub stored_as : Dict.get s.jobs job.id ≡ some kept
  pub same : SameJob kept job

SameJob-trans : {a b c : JobRecord} → SameJob a b → SameJob b c → SameJob a c
SameJob-trans p q = record {
  id = p.id ∙ q.id;
  mode = p.mode ∙ q.mode;
  plane = p.plane ∙ q.plane;
  created_at = p.created_at ∙ q.created_at;
  params = p.params ∙ q.params;
  fingerprint = p.fingerprint ∙ q.fingerprint;
}

SameJob-refl : (a : JobRecord) → SameJob a a
SameJob-refl a = record {
  id = refl;
  mode = refl;
  plane = refl;
  created_at = refl;
  params = refl;
  fingerprint = refl;
}

-- What `create` does to the two tables.
pub create-jobs :
    (job : JobRecord) (key : Option String) (s : JobStore) (j : String)
    → Dict.get (create job key s).jobs j ≡ (if str_eq job.id j then some job else Dict.get s.jobs j)
unfolding create stored append_event
create-jobs job key s j = get-put s.jobs job.id j job

create-idem :
    (job : JobRecord) (key : Option String) (s : JobStore)
    → (create job key s).idem ≡ register key job.id s.idem
unfolding create stored append_event
create-idem job key s = refl

Use-terminal :
    (j : String) (job : JobRecord) {s t : JobStore}
    → Use s t
    → Dict.get s.jobs j ≡ some job
    → is_terminal job.status ≡ true
    → Dict.get t.jobs j ≡ some job
Use-terminal j job (logged i type payload) e d = unfold append_event in e
Use-terminal j job {s} (updated i fn after l h) e d =
    let (old, there, done, w) = update_lem i fn s h in
    elim (str_cases i j) [
      | inl p ↦ rw w (
          simp (get-put, p.1)
            (ap some (same_record old there (IsLifecycle-terminal fn old after l done) p.0)))
      | inr p ↦ rw (w) (get-put_ne s.jobs i j after p.0 ∙ e)
    ]
  where
    same_record :
        (old : JobRecord)
        → Dict.get s.jobs i ≡ some old
        → (is_terminal old.status ≡ true → after ≡ old)
        → i ≡ j
        → after ≡ job
    same_record old there stays p =
        let q : old ≡ job = ground (arith, ap (λ x. Dict.get s.jobs x) p) in stays (rw q d) ∙ q
Use-terminal j job {s} (submitted fp i now mode plane params other new replayed fresh h) e d =
    elim (submit_lem fp i now mode plane params other s h) [
      | inl q ↦ rw (q.1) e
      | inr q ↦ rw (q.3, create-jobs) (other_id q.1)
    ]
  where
    other_id :
        new ≡ new_job fp i now mode plane params other
        → (if str_eq new.id j then some new else Dict.get s.jobs j) ≡ some job
    other_id q = elim (str_cases new.id j) [
      | inl p ↦ absurd (
          ground (
            arith,
            ap (λ x. Dict.get s.jobs x) p.0,
            ap (λ (r : JobRecord). Dict.get s.jobs r.id) q,
          ))
      | inr p ↦ rw (p.1) e
    ]

register-keeps :
    (other : Option String) (key i o : String) (s : JobStore)
    → owner_of other s ≡ none
    → Dict.get s.idem key ≡ some o
    → Dict.get (register other i s.idem) key ≡ some o
register-keeps none key i o s free h = h
register-keeps (some k) key i o s free h = elim (str_cases k key) [
  | inl e ↦ absurd (ground (arith, ap (λ x. Dict.get s.idem x) e.0))
  | inr e ↦ get-put_ne s.idem k key i e.0 ∙ h
]

module _ (key : String) (job : JobRecord) where
  create-IsRegistered : (s : JobStore) → IsRegistered key job (create job (some key) s)
  create-IsRegistered s = record {
    owner = rw create-idem (get-put_self s.idem key job.id);
    kept = job;
    stored_as = simp (create-jobs, eq_refl);
    same = SameJob-refl job;
  }

  update-IsRegistered :
      (j : String) (s : JobStore) (old after : JobRecord)
      → Dict.get s.jobs j ≡ some old
      → SameJob after old
      → IsRegistered key job s
      → IsRegistered key job (record s { jobs = Dict.put s.jobs j after })
  update-IsRegistered j s old after there same r = elim (str_cases j job.id) [
    | inl e ↦ record {
      owner = r.owner;
      kept = after;
      stored_as = simp (get-put, e.1);
      same = SameJob-trans same (subst (λ x. SameJob x job) (sym (is_kept e.0)) r.same);
    }
    | inr e ↦ record {
      owner = r.owner;
      kept = r.kept;
      stored_as = simp (get-put, e.1) r.stored_as;
      same = r.same;
    }
  ]
    where
      is_kept : j ≡ job.id → old ≡ r.kept
      is_kept e = ground (arith, ap (λ x. Dict.get s.jobs x) e, r.stored_as, there)

  create-keeps :
      (new : JobRecord) (other : Option String) (s : JobStore)
      → owner_of other s ≡ none
      → Dict.get s.jobs new.id ≡ none
      → IsRegistered key job s
      → IsRegistered key job (create new other s)
  create-keeps new other s free fresh r = elim (str_cases new.id job.id) [
    | inl e ↦ absurd (ground (arith, ap (λ x. Dict.get s.jobs x) e.0, r.stored_as))
    | inr e ↦ record {
      owner = rw create-idem (register-keeps other key new.id job.id s free r.owner);
      kept = r.kept;
      stored_as = simp (create-jobs, e.1) r.stored_as;
      same = r.same;
    }
  ]

  Use-IsRegistered : {s t : JobStore} → Use s t → IsRegistered key job s → IsRegistered key job t
  Use-IsRegistered (logged j type payload) r = record {
    owner = unfold append_event in r.owner;
    kept = r.kept;
    stored_as = unfold append_event in r.stored_as;
    same = r.same;
  }
  Use-IsRegistered {s} (updated j fn after l h) r =
      let (old, there, done, e) = update_lem j fn s h in
      subst (IsRegistered key job) (sym e)
        (update-IsRegistered j s old after there (IsLifecycle-SameJob fn old after l done) r)
  Use-IsRegistered {s} (submitted fp j now mode plane params other new replayed fresh h) r =
      elim (submit_lem fp j now mode plane params other s h) [
        | inl e ↦ subst (IsRegistered key job) (sym e.1) r
        | inr e ↦
            subst (IsRegistered key job) (sym e.3) (create-keeps new other s e.0 (rw (e.1) fresh) r)
      ]

  Uses-IsRegistered : {s t : JobStore} → Uses s t → IsRegistered key job s → IsRegistered key job t
  Uses-IsRegistered here r = r
  Uses-IsRegistered (next w u) r = Use-IsRegistered u (Uses-IsRegistered w r)

replay-IsRegistered :
    (key fp : String) (job : JobRecord) (s : JobStore) (r : IsRegistered key job s)
    → job.idempotency_fingerprint ≡ some fp
    → (fp' id now mode : String) (plane : Plane) (params : Fields)
    → submit fp' id now mode plane params (some key) s
      ≡ (if str_eq fp fp' then ok (r.kept, true, s) else err (conflict key))
unfolding submit replay
replay-IsRegistered key fp job s r e fp' id now mode plane params =
    ground (arith, r.owner, r.stored_as, r.same.fingerprint, e)

created-IsRegistered :
    (fp id now mode key : String) (plane : Plane) (params : Fields) (s : JobStore) (job : JobRecord)
    {s' : JobStore}
    → submit fp id now mode plane params (some key) s ≡ ok (job, false, s')
    → IsRegistered key (new_job fp id now mode plane params (some key)) s'
created-IsRegistered fp id now mode key plane params s job {s'} h =
    elim (submit_lem fp id now mode plane params (some key) s h) [
      | inl e ↦ cc (e.0)
      | inr e ↦
          subst (IsRegistered key (new_job fp id now mode plane params (some key)))
            (sym (e.3 ∙ ap (λ x. create x (some key) s) e.1))
            (create-IsRegistered key (new_job fp id now mode plane params (some key)) s)
    ]

-- A job submitted under a key that was free is replayed for ever: whatever is done to the store
-- afterwards (events, lifecycle updates, other submissions), a further submission under that key
-- returns the stored job, with the identity and payload it was made with, when the fingerprints
-- agree, and raises the conflict when they differ; neither writes anything.
pub submit_again :
    (fp id now mode key : String) (plane : Plane) (params : Fields) (s : JobStore) (job : JobRecord)
    {s' t : JobStore}
    → submit fp id now mode plane params (some key) s ≡ ok (job, false, s')
    → Uses s' t
    → (kept : JobRecord) × (Dict.get t.jobs id ≡ some kept)
      × SameJob kept (new_job fp id now mode plane params (some key))
      × ((fp' id' now' mode' : String) (plane' : Plane) (params' : Fields)
          → submit fp' id' now' mode' plane' params' (some key) t
            ≡ (if str_eq fp fp' then ok (kept, true, t) else err (conflict key)))
submit_again fp id now mode key plane params s job h w =
    let r =
      Uses-IsRegistered key (new_job fp id now mode plane params (some key)) w
        (created-IsRegistered fp id now mode key plane params s job h) in
    (r.kept, r.stored_as, r.same, replay-IsRegistered key fp _ _ r refl)

-- A job that has reached a terminal state keeps it, whatever is done to the store afterwards: no
-- progress report, result, failure or cancellation brings it back.
pub Uses-terminal :
    (j : String) (job : JobRecord) {s t : JobStore}
    → Uses s t
    → Dict.get s.jobs j ≡ some job
    → is_terminal job.status ≡ true
    → Dict.get t.jobs j ≡ some job
Uses-terminal j job here e d = e
Uses-terminal j job (next w u) e d = Use-terminal j job u (Uses-terminal j job w e d) d

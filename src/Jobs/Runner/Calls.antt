-- ===== src/Jobs/Runner/Calls.antt =====
-- The take of an id and the submissions keep the runner's invariant.
use cosmos3_nano_web_ui.Common.{
  ◌≡◌, ◌≢◌, refl, sym, ap, subst, ◌⊎◌, inl, inr, true, false, Option, none, some, String, List, [],
  ◌∷◌, ◌++◌, has, arith, str_eq, eq_refl, Option-cases, Bool-cases, Result-cases,
}
use cosmos3_nano_web_ui.Common.Dict
use cosmos3_nano_web_ui.Common.Value.{Fields}
use cosmos3_nano_web_ui.Orchestrator.Planes.{Plane}
use cosmos3_nano_web_ui.Jobs.Model.{JobRecord, queued, is_queued}
use cosmos3_nano_web_ui.Jobs.Store.{try_get, submit, create, new_job}
use cosmos3_nano_web_ui.Jobs.Store.Use.{submit_lem}
use cosmos3_nano_web_ui.Jobs.Store.Idempotency.{create-jobs}
use cosmos3_nano_web_ui.Jobs.Runner.{World, waiting, leasing, discard, dequeued, submitted}
use cosmos3_nano_web_ui.Jobs.Runner.Status.{status_in, status_of}
use cosmos3_nano_web_ui.Jobs.Runner.Serial.{IsSerial, local_lem, has-discard, has-append}
use cosmos3_nano_web_ui.Jobs.Runner.Fits.{
  elsewhere, place, fits, fits_dropped, fits_skipped, fits_taken, fits_new,
}

module _ (j : String) (rest : List String) (w : World) (l : w.loop ≡ waiting)
    (u : w.queue ≡ j ∷ rest) (s : IsSerial w) where
  fit_there :
      fits
        (status_of w.store j)
        (has w.queue j)
        (has w.cancelled_ids j)
        (has w.evicting j)
        elsewhere
      ≡ true
  fit_there =
      subst
        (λ x.
          fits (status_of w.store j) (has w.queue j) (has w.cancelled_ids j) (has w.evicting j) x
          ≡ true)
        (rw l refl) (s.fit j)

  queue_self : has w.queue j ≡ true
  queue_self = rw u (rw (eq_refl j) refl)

  queue_other : (i : String) → str_eq j i ≡ false → has rest i ≡ has w.queue i
  queue_other i n = rw (u) (rw n refl)

  skipped : status_of w.store j ≢ some queued → IsSerial (record w { queue = rest })
  skipped a =
      local_lem j w (record w { queue = rest }) s
        (subst
          (λ x.
            fits (status_of w.store j) (has rest j) (has w.cancelled_ids j) (has w.evicting j)
              (place x j)
            ≡ true)
          (sym l)
          (fits_skipped (status_of w.store j) (has w.queue j) (has w.cancelled_ids j) (has rest j)
            (has w.evicting j) queue_self a fit_there))
        (λ i n. (refl, queue_other i n, refl, refl, refl)) s.current s.single s.evicts

  pub dequeued-IsSerial : IsSerial (dequeued j (record w { queue = rest }))
  unfolding dequeued
  dequeued-IsSerial = elim (Bool-cases (has w.cancelled_ids j)) [
    | inl c ↦ rw c (
        local_lem j w (record w { queue = rest; cancelled_ids = discard j w.cancelled_ids }) s
          (rw l (
            fits_dropped (status_of w.store j) (has w.queue j) (has w.cancelled_ids j) (has rest j)
              (has (discard j w.cancelled_ids) j) (has w.evicting j) c fit_there))
          (λ i n. (refl, queue_other i n, rw (has-discard, n) refl, refl, refl)) s.current s.single
          s.evicts)
    | inr c ↦ elim (Option-cases (Dict.get w.store.jobs j)) [
      | inl e ↦ rw (c, e) (skipped (ground arith))
      | inr (r, e) ↦ elim (Bool-cases (is_queued r.status)) [
        | inr d ↦ rw (c, e, d) (skipped (ground arith))
        | inl d ↦
            rw (c, e, d)
              (local_lem j w (record w { queue = rest; current = some j; loop = leasing j }) s
                (let p : status_of w.store j ≡ some queued = ground arith in
                  rw (p, eq_refl j)
                    (fits_taken (has w.queue j) (has w.cancelled_ids j) (has rest j)
                      (has w.evicting j)
                      (subst
                        (λ x.
                          fits x (has w.queue j) (has w.cancelled_ids j) (has w.evicting j)
                            elsewhere
                          ≡ true)
                        p fit_there)))
                (λ i n. (refl, queue_other i n, refl, refl, rw (l, n) refl)) refl s.single
                (λ i k h. ground arith))
      ]
    ]
  ]

-- A new job, put in the queue.
created_lem :
    (new : JobRecord) (key : Option String) (w : World)
    → new.status ≡ queued
    → Dict.get w.store.jobs new.id ≡ none
    → IsSerial w
    → IsSerial (record w { store = create new key w.store; queue = w.queue ++ new.id ∷ [] })
created_lem new key w q f s =
    local_lem new.id w (record w { store = create new key w.store; queue = w.queue ++ new.id ∷ [] })
      s
      (rw (has-append, create-jobs, eq_refl new.id, q)
        (fits_new (has w.queue new.id) (has w.cancelled_ids new.id) (has w.evicting new.id)
          (place w.loop new.id)
          (subst
            (λ x.
              fits (status_in x) (has w.queue new.id) (has w.cancelled_ids new.id)
                (has w.evicting new.id) (place w.loop new.id)
              ≡ true)
            f (s.fit new.id))))
      (λ i n. (rw (create-jobs, n) refl, rw (has-append, n) refl, refl, refl, refl)) s.current
      s.single s.evicts

-- The world after a submission: the same, or with a new job in the store and in the queue.
pub submitted_lem :
    (fp job_id now mode : String) (plane : Plane) (params : Fields) (key : Option String)
    (w : World)
    → ((submitted fp job_id now mode plane params key w).1 ≡ w)
      ⊎ ((submitted fp job_id now mode plane params key w).1 ≡ (
          let job = new_job fp job_id now mode plane params key in
          record w { store = create job key w.store; queue = w.queue ++ job_id ∷ [] }))
unfolding submitted
submitted_lem fp job_id now mode plane params key w =
    elim (Result-cases (submit fp job_id now mode plane params key w.store)) [
      | inr (e, h) ↦ inl (ground arith)
      | inl ((job, replayed, t), h) ↦
          elim (submit_lem fp job_id now mode plane params key w.store h) [
            | inl (a, b) ↦ inl (ground arith)
            | inr (a, b, c, d) ↦ inr (ground (arith, ap (λ (j : JobRecord). j.id) b))
          ]
    ]

pub submitted-IsSerial :
    (fp job_id now mode : String) (plane : Plane) (params : Fields) (key : Option String)
    (w : World)
    → try_get job_id w.store ≡ none
    → IsSerial w
    → IsSerial (submitted fp job_id now mode plane params key w).1
submitted-IsSerial fp job_id now mode plane params key w f s =
    elim (submitted_lem fp job_id now mode plane params key w) [
      | inl e ↦ subst IsSerial (sym e) s
      | inr e ↦
          subst IsSerial (sym e)
            (created_lem (new_job fp job_id now mode plane params key) key w refl f s)
    ]

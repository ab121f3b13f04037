-- ===== src/Jobs/Runner/Cancels.antt =====
-- The cancels keep the runner's invariant, at their call and when they go on after the eviction.
use cosmos3_nano_web_ui.Common.{
  ◌≡◌, ◌∙◌, refl, sym, ap, subst, ◌⊎◌, inl, inr, Bool, true, false, ◌&&◌, ◌||◌, Option, none, some,
  String, List, [], ◌∷◌, ◌++◌, has, arith, str_eq, eq_iff, eq_refl, Option-cases, Bool-cases,
  str_cases,
}
use cosmos3_nano_web_ui.Common.Dict
use cosmos3_nano_web_ui.Jobs.Model.{JobStatus, running, cancelled, is_terminal, is_running}
use cosmos3_nano_web_ui.Jobs.Store.{JobStore}
use cosmos3_nano_web_ui.Jobs.Runner.{
  World, working, cancel_called, cancel_resumed, is_current, mark_cancelled,
}
use cosmos3_nano_web_ui.Jobs.Runner.Status.{status_of, mark_cancelled_lem, mark_cancelled_again}
use cosmos3_nano_web_ui.Jobs.Runner.Serial.{IsSerial, local_lem, set_other, set_self, has-append}
use cosmos3_nano_web_ui.Jobs.Runner.Fits.{
  Place, place, fits, job_of, fits_marked, fits_resumed, fits_evicted, fits_cancelled, at_work_is,
  fits_absent,
}

-- The fit of a job of a known status.
fit_of :
    (w : World) (j : String) (x : JobStatus)
    → IsSerial w
    → status_of w.store j ≡ some x
    → fits (some x) (has w.queue j) (has w.cancelled_ids j) (has w.evicting j) (place w.loop j)
      ≡ true
fit_of w j x s h =
    subst
      (λ y.
        fits y (has w.queue j) (has w.cancelled_ids j) (has w.evicting j) (place w.loop j) ≡ true)
      h (s.fit j)

-- The job is not there or has ended.
abbrev pub HasEnded : Option JobStatus → Type 0
HasEnded none = Unit
HasEnded (some x) = is_terminal x ≡ true

-- The world after a call of `cancel`, branch by branch.
pub cancel_called_lem :
    (j : String) (w : World)
    → (((cancel_called j w).1 ≡ w) × HasEnded (status_of w.store j))
      ⊎ ((status_of w.store j ≡ some running)
          × (is_current w.current j ≡ true)
          × ((cancel_called j w).1
              ≡ record w { cancelled_ids = j ∷ w.cancelled_ids; evicting = w.evicting ++ j ∷ [] }))
      ⊎ ((x : JobStatus) × (status_of w.store j ≡ some x)
          × (is_terminal x ≡ false)
          × ((cancel_called j w).1
              ≡ (mark_cancelled j (record w { cancelled_ids = j ∷ w.cancelled_ids })).1))
unfolding cancel_called
cancel_called_lem j w = elim (Option-cases (Dict.get w.store.jobs j)) [
  | inl e ↦ inl (ground arith, rw e tt)
  | inr (r, e) ↦ elim (Bool-cases (is_terminal r.status)) [
    | inl t ↦ inl (ground arith, rw e t)
    | inr t ↦ elim (Bool-cases (is_running r.status && is_current w.current j)) [
      | inl b ↦ inr (inl (ground arith, ground arith, ground arith))
      | inr b ↦ inr (inr (r.status, ground arith, t, ground arith))
    ]
  ]
]

module _ (j : String) (w : World) (s : IsSerial w) where
  marked_at_once :
      (x : JobStatus)
      → status_of w.store j ≡ some x
      → is_terminal x ≡ false
      → IsSerial (mark_cancelled j (record w { cancelled_ids = j ∷ w.cancelled_ids })).1
  marked_at_once x h t =
      let v : World = record w { cancelled_ids = j ∷ w.cancelled_ids } in
      let (u, p, d) = mark_cancelled_lem j v x h t in
      subst IsSerial (sym p) (
        local_lem j w (record v { store = u }) s
          (rw (set_self j cancelled w.store u d, eq_refl j)
            (fits_marked x (has w.queue j) (has w.cancelled_ids j) (has w.evicting j)
              (place w.loop j) t (fit_of w j x s h)))
          (λ i n. (set_other j i cancelled w.store u d n, refl, rw n refl, refl, refl)) s.current
          s.single s.evicts)

  suspended-IsSerial :
      status_of w.store j ≡ some running
      → is_current w.current j ≡ true
      → IsSerial (record w { cancelled_ids = j ∷ w.cancelled_ids; evicting = w.evicting ++ j ∷ [] })
  suspended-IsSerial h c =
      let a : job_of w.loop ≡ some j = current_is w.current c (sym s.current) in
      let b =
        at_work_is w.loop j (has w.queue j) (has w.cancelled_ids j) (has w.evicting j) a
          (fit_of w j running s h) in
      let only : (i : String) → has (w.evicting ++ j ∷ []) i ≡ true → i ≡ j =
        λ i e. only_is i b (sym (has-append j i w.evicting) ∙ e) in
      local_lem j w
        (record w { cancelled_ids = j ∷ w.cancelled_ids; evicting = w.evicting ++ j ∷ [] }) s
        (rw (h, has-append, eq_refl j, b) fits_suspended)
        (λ i n. (refl, refl, rw n refl, rw (has-append, n) refl, refl)) s.current
        (λ i k p q. only i p ∙ sym (only k q)) (λ i k p q. ground (arith, only i p))
    where
      current_is :
          (o : Option String) → is_current o j ≡ true → job_of w.loop ≡ o → job_of w.loop ≡ some j
      current_is none c p = cc
      current_is (some i) c p = ground (arith, eq_iff i j)

      only_is : (i : String) → w.loop ≡ working j → (str_eq j i || has w.evicting i) ≡ true → i ≡ j
      only_is i b e = elim (str_cases j i) [
        | inl p ↦ sym p.0
        | inr p ↦ s.evicts i j (ground arith) b
      ]

      fits_suspended : fits (some running) (has w.queue j) true true (place (working j) j) ≡ true
      fits_suspended = rw (eq_refl j) (unfold fits in refl)

  pub cancel_called-IsSerial : IsSerial (cancel_called j w).1
  cancel_called-IsSerial = elim (cancel_called_lem j w) [
    | inl (e, o) ↦ subst IsSerial (sym e) s
    | inr (inl (a, b, e)) ↦ subst IsSerial (sym e) (suspended-IsSerial a b)
    | inr (inr (x, a, t, e)) ↦ subst IsSerial (sym e) (marked_at_once x a t)
  ]

  -- When the eviction of a cancel is over, the job is running still or cancelled already, and it is
  -- cancelled afterwards.
  pub cancel_resumed_lem :
      (rest : List String)
      → w.evicting ≡ j ∷ rest
      → (u : JobStore) × ((cancel_resumed j rest w).1 ≡ record w { store = u; evicting = rest })
        × (status_of u j ≡ some cancelled)
        × ((i : String) → str_eq j i ≡ false → status_of u i ≡ status_of w.store i)
        × (fits
              (some cancelled)
              (has w.queue j)
              (has w.cancelled_ids j)
              (has rest j)
              (place w.loop j)
            ≡ true)
  unfolding cancel_resumed
  cancel_resumed_lem rest h = elim (Option-cases (status_of w.store j)) [
    | inl e ↦ absurd (
        not_none (status_of w.store j) (has w.queue j) (has w.cancelled_ids j) (has w.evicting j)
          (place w.loop j) e evicted (s.fit j))
    | inr (x, e) ↦ elim (Bool-cases (is_terminal x)) [
      | inl t ↦
          let c =
            fits_evicted x (has w.queue j) (has w.cancelled_ids j) (has w.evicting j)
              (place w.loop j) t evicted (fit_of w j x s e) in
          (
            w.store,
            mark_cancelled_again j v x e t,
            e ∙ ap some c,
            λ i n. refl,
            fits_cancelled (has w.queue j) (has w.cancelled_ids j) (has w.evicting j) (has rest j)
                (place w.loop j)
                (subst
                  (λ x.
                    fits (some x) (has w.queue j) (has w.cancelled_ids j) (has w.evicting j)
                      (place w.loop j)
                    ≡ true)
                  c (fit_of w j x s e)),
          )
      | inr t ↦
          let (u, p, d) = mark_cancelled_lem j v x e t in
          (
            u,
            p,
            set_self j cancelled w.store u d,
            λ i n. set_other j i cancelled w.store u d n,
            resumed x t (fit_of w j x s e),
          )
    ]
  ]
    where
      v : World
      v = record w { evicting = rest }

      evicted : has w.evicting j ≡ true
      evicted = rw h (rw (eq_refl j) refl)

      not_none :
          (x : Option JobStatus) (q c e : Bool) (p : Place)
          → x ≡ none
          → e ≡ true
          → fits x q c e p ≡ true
          → ⊥
      not_none x q c e p a b f = fits_absent q c e p b (subst (λ x. fits x q c e p ≡ true) a f)

      resumed :
          (x : JobStatus)
          → is_terminal x ≡ false
          → fits
              (some x)
              (has w.queue j)
              (has w.cancelled_ids j)
              (has w.evicting j)
              (place w.loop j)
            ≡ true
          → fits
              (some cancelled)
              (has w.queue j)
              (has w.cancelled_ids j)
              (has rest j)
              (place w.loop j)
            ≡ true
      resumed x t f =
          fits_resumed x (has w.queue j) (has w.cancelled_ids j) (has w.evicting j) (has rest j)
            (place w.loop j) t evicted f

  pub cancel_resumed-IsSerial :
      (rest : List String) → w.evicting ≡ j ∷ rest → IsSerial (cancel_resumed j rest w).1
  cancel_resumed-IsSerial rest h =
      let (u, p, c, o, f) = cancel_resumed_lem rest h in
      subst IsSerial (sym p) (
        local_lem j w (record w { store = u; evicting = rest }) s (rw c f)
          (λ i n. (o i n, refl, refl, rw (h) (rw n refl), refl)) s.current
          (λ i k a b. s.single i k (weaken i a) (weaken k b))
          (λ i k a b. s.evicts i k (weaken i a) b))
    where
      weaken : (i : String) → has rest i ≡ true → has w.evicting i ≡ true
      weaken i e = rw h (ground arith)

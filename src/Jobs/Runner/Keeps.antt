-- ===== src/Jobs/Runner/Keeps.antt =====
-- Each step of the runner keeps its invariant.
use cosmos3_nano_web_ui.Common.{
  ◌≡◌, ◌∙◌, refl, sym, subst, inl, inr, true, false, some, String, [], has, arith, eq_refl,
  Bool-cases,
}
use cosmos3_nano_web_ui.Common.Float.{Float}
use cosmos3_nano_web_ui.Jobs.Model.{JobStatus, queued, running, succeeded, failed, is_terminal}
use cosmos3_nano_web_ui.Jobs.Runner.{
  World, acquiring, working, releasing, finish, acquired, failed_with, reported, worked, WorkResult,
  Failure,
}
use cosmos3_nano_web_ui.Jobs.Runner.Status.{
  status_of, acquired_lem, acquired_cancelled, failed_lem, failed_cancelled, worked_lem,
  worked_cancelled, reported_lem,
}
use cosmos3_nano_web_ui.Jobs.Runner.Serial.{
  IsSerial, local_lem, set_other, set_self, finish_lem, has-discard,
}
use cosmos3_nano_web_ui.Jobs.Runner.Fits.{
  Place, elsewhere, before, at_work, after, place, fits, job_of, place_other, before_cancelled,
  before_queued, work_cancelled, work_running,
}

-- The fit of the loop's job, at the loop's place.
pub fit_at :
    (w : World) (j : String) (p : Place)
    → IsSerial w
    → place w.loop j ≡ p
    → fits (status_of w.store j) (has w.queue j) (has w.cancelled_ids j) (has w.evicting j) p ≡ true
fit_at w j p s e =
    subst
      (λ x.
        fits (status_of w.store j) (has w.queue j) (has w.cancelled_ids j) (has w.evicting j) x
        ≡ true)
      e (s.fit j)

pub place_before : (w : World) (j : String) → w.loop ≡ acquiring j → place w.loop j ≡ before
place_before w j h = rw h (rw (eq_refl j) refl)

pub place_work : (w : World) (j : String) → w.loop ≡ working j → place w.loop j ≡ at_work
place_work w j h = rw h (rw (eq_refl j) refl)

pub acquired-IsSerial :
    (j : String) (w : World)
    → w.loop ≡ acquiring j
    → w.evicting ≡ []
    → IsSerial w
    → IsSerial (acquired j w)
acquired-IsSerial j w l v s = elim (Bool-cases (has w.cancelled_ids j)) [
  | inl c ↦
      let (a, b) =
        before_cancelled (status_of w.store j) (has w.queue j) (has w.cancelled_ids j)
          (has w.evicting j) c (fit_at w j before s (place_before w j l)) in
      subst IsSerial (sym (acquired_cancelled j w c))
        (finish_lem j w s (rw l refl) a (λ p. absurd (b p)))
  | inr c ↦
      let (a, b) =
        before_queued (status_of w.store j) (has w.queue j) (has w.cancelled_ids j)
          (has w.evicting j) c (fit_at w j before s (place_before w j l)) in
      let (t, e, d) = acquired_lem j w a c in
      subst IsSerial (sym e) (
        local_lem j w (record w { store = t; loop = working j }) s
          (rw (set_self j running w.store t d, c, b, eq_refl j) fits_working)
          (λ i n. (
            set_other j i running w.store t d n,
            refl,
            refl,
            refl,
            rw n (sym (place_other w.loop j i (rw l refl) n)),
          ))
          (s.current ∙ rw l refl) s.single (λ i k h. absurd (ground (arith))))
]
  where
    fits_working : fits (some running) (has w.queue j) false false at_work ≡ true
    fits_working = unfold fits in refl

-- `_fail` while the loop acquires or works.
fail_lem :
    (j : String) (x : JobStatus) (f : Failure) (w : World)
    → status_of w.store j ≡ some x
    → is_terminal x ≡ false
    → has w.cancelled_ids j ≡ false
    → has w.evicting j ≡ false
    → job_of w.loop ≡ some j
    → IsSerial w
    → IsSerial (failed_with j f w)
fail_lem j x f w h t c e l s =
    let (t, p, d) = failed_lem j w x f h t c in
    subst IsSerial (sym p) (
      local_lem j w (record w { store = t; loop = releasing j }) s
        (rw (set_self j failed w.store t d, c, e, eq_refl j) fits_failed)
        (λ i n. (
          set_other j i failed w.store t d n,
          refl,
          refl,
          refl,
          rw n (sym (place_other w.loop j i l n)),
        ))
        (s.current ∙ l) s.single (λ i k h. ground arith))
  where
    fits_failed : fits (some failed) (has w.queue j) false false after ≡ true
    fits_failed = unfold fits in refl

pub failed-IsSerial_acquiring :
    (j : String) (f : Failure) (w : World)
    → w.loop ≡ acquiring j
    → IsSerial w
    → IsSerial (failed_with j f w)
failed-IsSerial_acquiring j f w l s = elim (Bool-cases (has w.cancelled_ids j)) [
  | inl c ↦
      let (a, b) =
        before_cancelled (status_of w.store j) (has w.queue j) (has w.cancelled_ids j)
          (has w.evicting j) c (fit_at w j before s (place_before w j l)) in
      subst IsSerial (sym (failed_cancelled j w f c))
        (finish_lem j w s (rw l refl) a (λ p. absurd (b p)))
  | inr c ↦
      let (a, b) =
        before_queued (status_of w.store j) (has w.queue j) (has w.cancelled_ids j)
          (has w.evicting j) c (fit_at w j before s (place_before w j l)) in
      fail_lem j queued f w a refl c b (rw l refl) s
]

pub failed-IsSerial_working :
    (j : String) (f : Failure) (w : World)
    → w.loop ≡ working j
    → IsSerial w
    → IsSerial (failed_with j f w)
failed-IsSerial_working j f w l s = elim (Bool-cases (has w.cancelled_ids j)) [
  | inl c ↦
      let (a, b) =
        work_cancelled (status_of w.store j) (has w.queue j) (has w.cancelled_ids j)
          (has w.evicting j) c (fit_at w j at_work s (place_work w j l)) in
      subst IsSerial (sym (failed_cancelled j w f c)) (finish_lem j w s (rw l refl) a b)
  | inr c ↦
      let (a, b) =
        work_running (status_of w.store j) (has w.queue j) (has w.cancelled_ids j)
          (has w.evicting j) c (fit_at w j at_work s (place_work w j l)) in
      fail_lem j running f w a refl c b (rw l refl) s
]

pub worked-IsSerial :
    (j : String) (r : WorkResult) (w : World)
    → w.loop ≡ working j
    → IsSerial w
    → IsSerial (worked j r w)
worked-IsSerial j r w l s = elim (Bool-cases (has w.cancelled_ids j)) [
  | inl c ↦
      let (a, b) =
        work_cancelled (status_of w.store j) (has w.queue j) (has w.cancelled_ids j)
          (has w.evicting j) c (fit_at w j at_work s (place_work w j l)) in
      subst IsSerial (sym (worked_cancelled j w r c)) (finish_lem j w s (rw l refl) a b)
  | inr c ↦
      let (a, b) =
        work_running (status_of w.store j) (has w.queue j) (has w.cancelled_ids j)
          (has w.evicting j) c (fit_at w j at_work s (place_work w j l)) in
      let (t, p, d) = worked_lem j w r a c in
      subst IsSerial (sym p) (
        unfold finish in
        local_lem j w (finish j (record w { store = t })) s
          (rw (set_self j succeeded w.store t d, has-discard, eq_refl j, b) fits_succeeded)
          (λ i n. (
            set_other j i succeeded w.store t d n,
            refl,
            rw (has-discard, n) refl,
            refl,
            sym (place_other w.loop j i (rw l refl) n),
          ))
          refl s.single (λ i k h. ground arith))
]
  where
    fits_succeeded : fits (some succeeded) (has w.queue j) false false elsewhere ≡ true
    fits_succeeded = unfold fits in refl

pub reported-IsSerial :
    (j : String) (f : Float) (w : World) → IsSerial w → IsSerial (reported j f w)
reported-IsSerial j f w s =
    let (t, p, d) = reported_lem j f w in
    subst IsSerial (sym p) record {
      fit = λ i.
          subst
            (λ z.
              fits (z i) (has w.queue i) (has w.cancelled_ids i) (has w.evicting i) (place w.loop i)
              ≡ true)
            (sym d) (s.fit i);
      current = s.current;
      single = s.single;
      evicts = s.evicts;
    }

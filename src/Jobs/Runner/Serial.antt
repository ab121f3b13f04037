-- ===== src/Jobs/Runner/Serial.antt =====
-- The runner's invariant: for each job, how its status, the queue, the cancelled set, the pending
-- evictions and the place of the drain loop fit together.
use cosmos3_nano_web_ui.Common.{
  ◌≡◌, ◌≢◌, ◌∙◌, refl, sym, ap, subst, inl, inr, true, false, ◌||◌, some, String, List, [], ◌∷◌,
  ◌++◌, has, arith, str_eq, eq_iff, eq_refl, if◌then◌else◌, str_cases,
}
use cosmos3_nano_web_ui.Jobs.Model.{JobStatus, queued, running}
use cosmos3_nano_web_ui.Jobs.Store.{JobStore}
use cosmos3_nano_web_ui.Jobs.Runner.{World, working, finish, discard}
use cosmos3_nano_web_ui.Jobs.Runner.Fits.{
  elsewhere, place, fits, job_of, place_other, running_is, fits_finish,
}
use cosmos3_nano_web_ui.Jobs.Runner.Status.{status_of, set_status}

pub record IsSerial (w : World) : Type 0 where
  pub fit :
      (i : String)
      → fits
          (status_of w.store i)
          (has w.queue i)
          (has w.cancelled_ids i)
          (has w.evicting i)
          (place w.loop i)
        ≡ true
  pub current : w.current ≡ job_of w.loop
  pub single : (i k : String) → has w.evicting i ≡ true → has w.evicting k ≡ true → i ≡ k
  pub evicts : (i k : String) → has w.evicting i ≡ true → w.loop ≡ working k → i ≡ k

-- At most one job is running.
pub IsSerial-alone :
    (w : World) (i k : String)
    → IsSerial w
    → status_of w.store i ≡ some running
    → status_of w.store k ≡ some running
    → i ≡ k
IsSerial-alone w i k s a b =
    elim (running_is w.loop i (has w.queue i) (has w.cancelled_ids i) (has w.evicting i) (
      subst
        (λ x.
          fits x (has w.queue i) (has w.cancelled_ids i) (has w.evicting i) (place w.loop i) ≡ true)
        a (s.fit i))) [
          | inl p ↦
              elim (running_is w.loop k (has w.queue k) (has w.cancelled_ids k) (has w.evicting k) (
                subst
                  (λ x.
                    fits x (has w.queue k) (has w.cancelled_ids k) (has w.evicting k)
                      (place w.loop k)
                    ≡ true)
                  b (s.fit k))) [ inl q ↦ ground (arith) | inr q ↦ sym (s.evicts k i q p) ]
          | inr p ↦
              elim (running_is w.loop k (has w.queue k) (has w.cancelled_ids k) (has w.evicting k) (
                subst
                  (λ x.
                    fits x (has w.queue k) (has w.cancelled_ids k) (has w.evicting k)
                      (place w.loop k)
                    ≡ true)
                  b (s.fit k))) [ inl q ↦ s.evicts i k p q | inr q ↦ s.single i k p q ]
        ]

pub has-discard :
    (j i : String) (ids : List String)
    → has (discard j ids) i ≡ (if str_eq j i then false else has ids i)
has-discard j i [] = ground arith
has-discard j i (x ∷ ids) = ground (arith, has-discard j i ids, eq_iff x j, eq_iff j i, eq_iff x i)

pub has-append :
    (j i : String) (ids : List String) → has (ids ++ j ∷ []) i ≡ (str_eq j i || has ids i)
has-append j i [] = ground arith
has-append j i (x ∷ ids) = ground (arith, has-append j i ids)

pub finish_lem :
    (j : String) (w : World)
    → IsSerial w
    → job_of w.loop ≡ some j
    → status_of w.store j ≢ some queued
    → (status_of w.store j ≡ some running → has w.evicting j ≡ true)
    → IsSerial (finish j w)
unfolding finish
finish_lem j w s l a b = record {
  fit = λ i. elim (str_cases j i) [
    | inl p ↦
        rw (has-discard, p.1)
          (subst
            (λ i.
              fits (status_of w.store i) (has w.queue i) false (has w.evicting i) elsewhere ≡ true)
            p.0
            (fits_finish (status_of w.store j) (has w.queue j) (has w.cancelled_ids j)
              (has w.evicting j) w.loop j l (s.fit j) a b))
    | inr p ↦
        rw (has-discard, p.1)
          (subst
            (λ x.
              fits (status_of w.store i) (has w.queue i) (has w.cancelled_ids i) (has w.evicting i)
                x
              ≡ true)
            (place_other w.loop j i l p.1) (s.fit i))
  ];
  current = refl;
  single = s.single;
  evicts = λ i k h e. ground arith;
}

-- A handler that concerns the job `j` only: the other jobs' fits stay.
pub local_lem :
    (j : String) (w w' : World)
    → IsSerial w
    → fits
        (status_of w'.store j)
        (has w'.queue j)
        (has w'.cancelled_ids j)
        (has w'.evicting j)
        (place w'.loop j)
      ≡ true
    → ((i : String)
        → str_eq j i ≡ false
        → (status_of w'.store i ≡ status_of w.store i)
          × (has w'.queue i ≡ has w.queue i)
          × (has w'.cancelled_ids i ≡ has w.cancelled_ids i)
          × (has w'.evicting i ≡ has w.evicting i)
          × (place w'.loop i ≡ place w.loop i))
    → w'.current ≡ job_of w'.loop
    → ((i k : String) → has w'.evicting i ≡ true → has w'.evicting k ≡ true → i ≡ k)
    → ((i k : String) → has w'.evicting i ≡ true → w'.loop ≡ working k → i ≡ k)
    → IsSerial w'
local_lem j w w' s f o c g e = record {
  fit = λ i. elim (str_cases j i) [
    | inl p ↦
        subst
          (λ i.
            fits (status_of w'.store i) (has w'.queue i) (has w'.cancelled_ids i)
              (has w'.evicting i) (place w'.loop i)
            ≡ true)
          p.0 f
    | inr p ↦ let (a, b, c, d, e) = o i p.1 in rw (a, b, c, d, e) (s.fit i)
  ];
  current = c;
  single = g;
  evicts = e;
}

-- The record of a status that another one has replaced.
pub set_other :
    (j i : String) (x : JobStatus) (s t : JobStore)
    → status_of t ≡ set_status j x (status_of s)
    → str_eq j i ≡ false
    → status_of t i ≡ status_of s i
set_other j i x s t c n = ap (λ z. z i) c ∙ (rw n refl)

pub set_self :
    (j : String) (x : JobStatus) (s t : JobStore)
    → status_of t ≡ set_status j x (status_of s)
    → status_of t j ≡ some x
set_self j x s t c = ap (λ z. z j) c ∙ (rw (eq_refl j) refl)

-- ===== src/Jobs/Runner/Fits.antt =====
-- How the status of a job, the queue, the cancelled set, the pending evictions and the place of the
-- drain loop fit together, for one job.
use cosmos3_nano_web_ui.Common.{
  ◌≡◌, ◌≢◌, refl, ap, ◌⊎◌, inl, inr, Bool, true, false, ◌&&◌, not, Option, none, some, String,
  arith, str_eq, eq_iff, if◌then◌else◌, str_cases,
}
use cosmos3_nano_web_ui.Jobs.Model.{
  JobStatus, queued, running, succeeded, failed, cancelled, is_terminal,
}
use cosmos3_nano_web_ui.Jobs.Runner.{Loop, waiting, leasing, acquiring, working, releasing}

-- Where the drain loop stands, as one job sees it.
pub data Place : Type 0 where
  elsewhere before at_work after : Place

abbrev pub place : Loop → String → Place
place waiting i = elsewhere
place (leasing j) i = if str_eq j i then before else elsewhere
place (acquiring j) i = if str_eq j i then before else elsewhere
place (working j) i = if str_eq j i then at_work else elsewhere
place (releasing j) i = if str_eq j i then after else elsewhere

-- What a job may look like: its status, whether it is in the queue, in the cancelled set and among
-- the pending evictions, and where the loop is.
unfoldable pub fits : Option JobStatus → Bool → Bool → Bool → Place → Bool
fits none q c e elsewhere = not q && not c && not e
fits none q c e before = false
fits none q c e at_work = false
fits none q c e after = false
fits (some queued) q c e elsewhere = q && not c && not e
fits (some queued) q c e before = not c && not e
fits (some queued) q c e at_work = false
fits (some queued) q c e after = false
fits (some running) q c e elsewhere = e
fits (some running) q c e before = false
fits (some running) q c e at_work = if c then e else not e
fits (some running) q c e after = false
fits (some cancelled) q c e elsewhere = true
fits (some cancelled) q c e before = c
fits (some cancelled) q c e at_work = c
fits (some cancelled) q c e after = false
fits (some succeeded) q c e elsewhere = not c && not e
fits (some succeeded) q c e before = false
fits (some succeeded) q c e at_work = false
fits (some succeeded) q c e after = false
fits (some failed) q c e elsewhere = not c && not e
fits (some failed) q c e before = false
fits (some failed) q c e at_work = false
fits (some failed) q c e after = not c && not e

abbrev pub job_of : Loop → Option String
job_of waiting = none
job_of (leasing j) = some j
job_of (acquiring j) = some j
job_of (working j) = some j
job_of (releasing j) = some j

-- A running job is in the work, or a cancel waits for its eviction.
pub running_is :
    (l : Loop) (i : String) (q c e : Bool)
    → fits (some running) q c e (place l i) ≡ true
    → (l ≡ working i) ⊎ (e ≡ true)
unfolding fits
running_is waiting i q c e h = inr h
running_is (leasing j) i q c e h = inr (ground arith)
running_is (acquiring j) i q c e h = inr (ground arith)
running_is (working j) i q c e h = elim (str_cases j i) [
  | inl p ↦ inl (ap working p.0)
  | inr p ↦ inr (ground arith)
]
running_is (releasing j) i q c e h = inr (ground arith)

pub place_other :
    (l : Loop) (j i : String) → job_of l ≡ some j → str_eq j i ≡ false → place l i ≡ elsewhere
place_other waiting j i h n = refl
place_other (leasing k) j i h n = ground arith
place_other (acquiring k) j i h n = ground arith
place_other (working k) j i h n = ground arith
place_other (releasing k) j i h n = ground arith

pub fits_finish :
    (x : Option JobStatus) (q c e : Bool) (l : Loop) (j : String)
    → job_of l ≡ some j
    → fits x q c e (place l j) ≡ true
    → x ≢ some queued
    → (x ≡ some running → e ≡ true)
    → fits x q false e elsewhere ≡ true
unfolding fits
fits_finish none q c e waiting j h f a b = cc
fits_finish none q c e (leasing k) j h f a b = ground (arith, eq_iff k j)
fits_finish none q c e (acquiring k) j h f a b = ground (arith, eq_iff k j)
fits_finish none q c e (working k) j h f a b = ground (arith, eq_iff k j)
fits_finish none q c e (releasing k) j h f a b = ground (arith, eq_iff k j)
fits_finish (some queued) q c e l j h f a b = absurd (a refl)
fits_finish (some running) q c e l j h f a b = b refl
fits_finish (some succeeded) q c e waiting j h f a b = cc
fits_finish (some succeeded) q c e (leasing k) j h f a b = ground (arith, eq_iff k j)
fits_finish (some succeeded) q c e (acquiring k) j h f a b = ground (arith, eq_iff k j)
fits_finish (some succeeded) q c e (working k) j h f a b = ground (arith, eq_iff k j)
fits_finish (some succeeded) q c e (releasing k) j h f a b = ground (arith, eq_iff k j)
fits_finish (some failed) q c e waiting j h f a b = cc
fits_finish (some failed) q c e (leasing k) j h f a b = ground (arith, eq_iff k j)
fits_finish (some failed) q c e (acquiring k) j h f a b = ground (arith, eq_iff k j)
fits_finish (some failed) q c e (working k) j h f a b = ground (arith, eq_iff k j)
fits_finish (some failed) q c e (releasing k) j h f a b = ground (arith, eq_iff k j)
fits_finish (some cancelled) q c e l j h f a b = refl

-- A cancelled job that is taken from the queue.
pub fits_dropped :
    (x : Option JobStatus) (q c q' c' e : Bool)
    → c ≡ true
    → fits x q c e elsewhere ≡ true
    → fits x q' c' e elsewhere ≡ true
unfolding fits
fits_dropped x q c q' c' e h f = ground arith

-- A job that is not queued, taken from the queue.
pub fits_skipped :
    (x : Option JobStatus) (q c q' e : Bool)
    → q ≡ true
    → x ≢ some queued
    → fits x q c e elsewhere ≡ true
    → fits x q' c e elsewhere ≡ true
unfolding fits
fits_skipped x q c q' e h n f = ground arith

pub fits_taken :
    (q c q' e : Bool)
    → fits (some queued) q c e elsewhere ≡ true
    → fits (some queued) q' c e before ≡ true
unfolding fits
fits_taken q c q' e f = ground arith

-- A job that a cancel marks at once.
pub fits_marked :
    (x : JobStatus) (q c e : Bool) (p : Place)
    → is_terminal x ≡ false
    → fits (some x) q c e p ≡ true
    → fits (some cancelled) q true e p ≡ true
unfolding fits
fits_marked queued q c e elsewhere t f = refl
fits_marked queued q c e before t f = refl
fits_marked queued q c e at_work t f = refl
fits_marked queued q c e after t f = f
fits_marked running q c e elsewhere t f = refl
fits_marked running q c e before t f = refl
fits_marked running q c e at_work t f = refl
fits_marked running q c e after t f = f
fits_marked succeeded q c e p t f = cc
fits_marked failed q c e p t f = cc
fits_marked cancelled q c e p t f = cc

-- A running job that a cancel marks when its eviction is over.
pub fits_resumed :
    (x : JobStatus) (q c e e' : Bool) (p : Place)
    → is_terminal x ≡ false
    → e ≡ true
    → fits (some x) q c e p ≡ true
    → fits (some cancelled) q c e' p ≡ true
unfolding fits
fits_resumed queued q c e e' elsewhere t d f = refl
fits_resumed queued q c e e' before t d f = ground arith
fits_resumed queued q c e e' at_work t d f = cc
fits_resumed queued q c e e' after t d f = f
fits_resumed running q c e e' elsewhere t d f = refl
fits_resumed running q c e e' before t d f = cc
fits_resumed running q c e e' at_work t d f = ground arith
fits_resumed running q c e e' after t d f = f
fits_resumed succeeded q c e e' p t d f = cc
fits_resumed failed q c e e' p t d f = cc
fits_resumed cancelled q c e e' p t d f = cc

-- A terminal job with a pending eviction has been cancelled.
pub fits_evicted :
    (x : JobStatus) (q c e : Bool) (p : Place)
    → is_terminal x ≡ true
    → e ≡ true
    → fits (some x) q c e p ≡ true
    → x ≡ cancelled
unfolding fits
fits_evicted queued q c e p t h f = cc
fits_evicted running q c e p t h f = cc
fits_evicted cancelled q c e p t h f = refl
fits_evicted succeeded q c e elsewhere t h f = ground arith
fits_evicted succeeded q c e before t h f = cc
fits_evicted succeeded q c e at_work t h f = cc
fits_evicted succeeded q c e after t h f = cc
fits_evicted failed q c e elsewhere t h f = ground arith
fits_evicted failed q c e before t h f = cc
fits_evicted failed q c e at_work t h f = cc
fits_evicted failed q c e after t h f = ground arith

pub fits_cancelled :
    (q c e e' : Bool) (p : Place)
    → fits (some cancelled) q c e p ≡ true
    → fits (some cancelled) q c e' p ≡ true
unfolding fits
fits_cancelled q c e e' elsewhere f = f
fits_cancelled q c e e' before f = f
fits_cancelled q c e e' at_work f = f
fits_cancelled q c e e' after f = f

-- A running job that the loop is at, is at work.
pub at_work_is :
    (l : Loop) (i : String) (q c e : Bool)
    → job_of l ≡ some i
    → fits (some running) q c e (place l i) ≡ true
    → l ≡ working i
unfolding fits
at_work_is waiting i q c e h f = absurd (ground arith)
at_work_is (leasing j) i q c e h f = absurd (ground (arith, eq_iff j i))
at_work_is (acquiring j) i q c e h f = absurd (ground (arith, eq_iff j i))
at_work_is (working j) i q c e h f = ground arith
at_work_is (releasing j) i q c e h f = absurd (ground (arith, eq_iff j i))

-- A job that the store does not have is nowhere.
pub fits_absent : (q c e : Bool) (p : Place) → e ≡ true → fits none q c e p ≡ true → ⊥
unfolding fits
fits_absent q c e elsewhere a f = ground arith
fits_absent q c e before a f = cc
fits_absent q c e at_work a f = cc
fits_absent q c e after a f = cc

pub fits_new :
    (q c e : Bool) (p : Place) → fits none q c e p ≡ true → fits (some queued) true c e p ≡ true
unfolding fits
fits_new q c e elsewhere f = ground arith
fits_new q c e before f = cc
fits_new q c e at_work f = cc
fits_new q c e after f = cc

pub before_cancelled :
    (x : Option JobStatus) (q c e : Bool)
    → c ≡ true
    → fits x q c e before ≡ true
    → (x ≢ some queued) × (x ≢ some running)
unfolding fits
before_cancelled x q c e d h = (λ p. ground arith, λ p. ground arith)

pub before_queued :
    (x : Option JobStatus) (q c e : Bool)
    → c ≡ false
    → fits x q c e before ≡ true
    → (x ≡ some queued) × (e ≡ false)
unfolding fits
before_queued x q c e d h = ground arith

pub work_cancelled :
    (x : Option JobStatus) (q c e : Bool)
    → c ≡ true
    → fits x q c e at_work ≡ true
    → (x ≢ some queued) × (x ≡ some running → e ≡ true)
unfolding fits
work_cancelled x q c e d h = (λ p. ground arith, λ p. ground arith)

pub work_running :
    (x : Option JobStatus) (q c e : Bool)
    → c ≡ false
    → fits x q c e at_work ≡ true
    → (x ≡ some running) × (e ≡ false)
unfolding fits
work_running x q c e d h = ground arith

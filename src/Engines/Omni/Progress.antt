-- ===== src/Engines/Omni/Progress.antt =====
-- The progress that the polling of api/engines/vllm_omni/client.py reports.
use cosmos3_nano_web_ui.Common.{
  ℕ, zero, suc, ◌≤◌, pos, negsuc, Bool, ltb, Option, none, some, List, [], ◌∷◌, ◌≡◌, ◌⊎◌, refl, sym,
  inl, inr, Bool-cases, arith, subst,
}
use cosmos3_nano_web_ui.Common.Float
use cosmos3_nano_web_ui.Common.Float.{Float, nan, neg_inf, fin, pos_inf}
use cosmos3_nano_web_ui.Engines.Omni.{
  min, max, cap, poll_progress_cap, is_nonpositive, progress_fraction, Round, Polled, Step, Ended,
  stop, reporting, ends, goes_on, poll_round, poll,
}

-- The fractions are finite, each is at least the one before, and none is above the cap.
abbrev pub Climbs : ℕ → List Float → Type 0
Climbs k [] = Unit
Climbs k (x ∷ xs) = (m : ℕ) × (x ≡ fin (pos m)) × (k ≤ m) × (m ≤ cap) × Climbs m xs

-- A fraction between 0 and the cap.
abbrev Bounded : Float → Type 0
Bounded f = (m : ℕ) × (f ≡ fin (pos m)) × (m ≤ cap)

capped : (f : Float) → Bounded (min poll_progress_cap (max Float.zero f))
capped nan = (0, ground arith, omega arith)
capped neg_inf = (0, ground arith, omega arith)
capped pos_inf = (cap, ground arith, omega arith)
capped (fin (negsuc n)) = (0, ground arith, omega arith)
capped (fin (pos n)) = elim (Bool-cases (ltb n cap)) [
  | inl e ↦ (n, ground arith, ground arith)
  | inr e ↦ (cap, ground arith, omega arith)
]

progress_fraction_lem :
    (f : Option Float) (expected ramp : Float) → Bounded (progress_fraction f expected ramp)
unfolding progress_fraction
progress_fraction_lem (some f) expected ramp = capped f
progress_fraction_lem none expected ramp = elim (Bool-cases (is_nonpositive expected)) [
  | inl e ↦ rw e (0, refl, omega arith)
  | inr e ↦ rw e (capped ramp)
]

raised_lem :
    (k : ℕ) (f : Float)
    → k ≤ cap
    → Bounded f
    → (m : ℕ) × (max (fin (pos k)) f ≡ fin (pos m)) × (k ≤ m) × (m ≤ cap)
raised_lem k f h (m, e, b) = elim (Bool-cases (ltb k m)) [
  | inl c ↦ (m, rw e (ground arith), ground arith, b)
  | inr c ↦ (k, rw e (ground arith), omega arith, h)
]

pub poll-ends :
    (fuel : ℕ) (rounds : ℕ → Round) (i : ℕ) (expected reported : Float) (e : Ended) (d : Bool)
    → poll_round (rounds i) ≡ ends e d
    → poll (suc fuel) rounds i expected reported ≡ stop e d
unfolding poll
poll-ends fuel rounds i expected reported e d h = rw (poll, h) refl

pub poll-goes_on :
    (fuel : ℕ) (rounds : ℕ → Round) (i : ℕ) (expected reported : Float) (f : Option Float)
    → poll_round (rounds i) ≡ goes_on f
    → poll (suc fuel) rounds i expected reported
      ≡ reporting (max reported (progress_fraction f expected (rounds i).ramp)) (
          poll fuel rounds
            (suc i)
            expected
            (max reported (progress_fraction f expected (rounds i).ramp)))
unfolding poll
poll-goes_on fuel rounds i expected reported f h = rw (poll, h) refl

pub Step-cases :
    (s : Step)
    → ((e : Ended) × (d : Bool) × (s ≡ ends e d)) ⊎ ((f : Option Float) × (s ≡ goes_on f))
Step-cases (ends e d) = inl (e, d, refl)
Step-cases (goes_on f) = inr (f, refl)

-- From any fraction between 0 and 0.95 on, and for any answers of the server, numbers that are no
-- fractions included, the fractions that the polling reports never go down and never pass 0.95.
pub poll-Climbs :
    (fuel : ℕ) (rounds : ℕ → Round) (i : ℕ) (expected : Float) (k : ℕ)
    → k ≤ cap
    → Climbs k (poll fuel rounds i expected (fin (pos k))).reports
poll-Climbs zero rounds i expected k h = unfold poll in tt
poll-Climbs (suc fuel) rounds i expected k h = elim (Step-cases (poll_round (rounds i))) [
  | inl (e, d, q) ↦
      subst (λ (p : Polled). Climbs k p.reports)
        (sym (poll-ends fuel rounds i expected (fin (pos k)) e d q)) tt
  | inr (f, q) ↦
      let up =
        raised_lem k (progress_fraction f expected (rounds i).ramp) h
          (progress_fraction_lem f expected (rounds i).ramp) in
      let later = poll-Climbs fuel rounds (suc i) expected up.0 up.3 in
      subst (λ (p : Polled). Climbs k p.reports)
        (sym (poll-goes_on fuel rounds i expected (fin (pos k)) f q))
        (
          up.0,
          up.1,
          up.2,
          up.3,
          subst (λ x. Climbs up.0 (poll fuel rounds (suc i) expected x).reports) (sym up.1) later,
        )
]

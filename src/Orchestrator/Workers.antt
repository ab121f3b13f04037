-- ===== src/Orchestrator/Workers.antt =====
-- The waits of api/orchestrator/worker.py and api/orchestrator/container.py. What the clock, the
-- process and the probe answer in each round is an argument: a function of the round's number. A wait
-- that outlives its fuel is `none`.
use cosmos3_nano_web_ui.Common.{
  ℕ, zero, suc, ◌+◌, ◌≤◌, ◌<◌, ◌≡◌, refl, Bool, true, false, ◌&&◌, not, Option, none, some,
  if◌then◌else◌, arith, Bool-cases, inl, inr, ◌⊎◌, ap, sym, subst, ◌∙◌,
}

-- One round: whether the deadline is still ahead, whether the worker runs, and whether its probe
-- passes (for the memory wait: whether the use is at or below the threshold).
pub record Round : Type 0 where
  pub in_time : Bool
  pub running : Bool
  pub healthy : Bool

-- `ContainerPlaneWorker.wait_ready`.
unfoldable pub container_wait : ℕ → (ℕ → Round) → ℕ → Option Bool
container_wait zero rounds i = none
container_wait (suc fuel) rounds i =
    let later = container_wait fuel rounds (suc i) in
    if (rounds i).in_time
    then if not (rounds i).running
      then some false
      else if (rounds i).healthy
      then some true
      else later
    else some ((rounds i).running && (rounds i).healthy)

-- `SubprocessPlaneWorker.wait_ready`, once there is a process.
unfoldable pub process_wait : ℕ → (ℕ → Round) → ℕ → Option Bool
process_wait zero rounds i = none
process_wait (suc fuel) rounds i =
    let later = process_wait fuel rounds (suc i) in
    if (rounds i).in_time
    then if not (rounds i).running
      then some false
      else if (rounds i).healthy
      then some true
      else later
    else some (rounds i).healthy

-- `wait_vram_below`.
unfoldable pub wait_vram_below : ℕ → (ℕ → Round) → ℕ → Option Bool
wait_vram_below zero rounds i = none
wait_vram_below (suc fuel) rounds i =
    let later = wait_vram_below fuel rounds (suc i) in
    if (rounds i).in_time
    then if (rounds i).healthy then some true else later
    else some (rounds i).healthy

-- The rounds that a wait saw before round `j`: in time and not healthy.
abbrev pub Missed : (ℕ → Round) → ℕ → ℕ → Type 0
Missed rounds i j =
    (k : ℕ) → i ≤ k → k < j → ((rounds k).in_time ≡ true) × ((rounds k).healthy ≡ false)

Missed-refl : (rounds : ℕ → Round) (i : ℕ) → Missed rounds i i
Missed-refl rounds i k a b = absurd (omega arith)

same_or_later : (i k : ℕ) → i ≤ k → (i ≡ k) ⊎ (suc i ≤ k)
same_or_later i k h = ground arith

Missed-step :
    (rounds : ℕ → Round) (i j : ℕ)
    → (rounds i).in_time ≡ true
    → (rounds i).healthy ≡ false
    → Missed rounds (suc i) j
    → Missed rounds i j
Missed-step rounds i j p q m k a b = elim (same_or_later i k a) [
  | inl e ↦ (ap (λ n. (rounds n).in_time) (sym e) ∙ p, ap (λ n. (rounds n).healthy) (sym e) ∙ q)
  | inr h ↦ m k h b
]

-- The wait for a container ends, if the deadline passes within the fuel, and tells the truth of its
-- last round: it answers true only where the container runs and the probe passes, after rounds in
-- time in which the probe did not pass, and false only where one of the two fails.
pub container_wait_total :
    (fuel : ℕ) (rounds : ℕ → Round) (i k : ℕ)
    → k < fuel
    → (rounds (i + k)).in_time ≡ false
    → (j : ℕ) × (b : Bool) × (container_wait fuel rounds i ≡ some b)
      × (i ≤ j)
      × (j ≤ i + k)
      × Missed rounds i j
      × (b ≡ ((rounds j).running && (rounds j).healthy))
unfolding container_wait
container_wait_total zero rounds i k h p = absurd (omega arith)
container_wait_total (suc fuel) rounds i zero h p =
    let q : (rounds i).in_time ≡ false = subst (λ n. (rounds n).in_time ≡ false) (omega arith) p in
    (
      i,
      (rounds i).running && (rounds i).healthy,
      ground arith,
      omega arith,
      omega arith,
      Missed-refl rounds i,
      refl,
    )
container_wait_total (suc fuel) rounds i (suc k) h p = elim (Bool-cases (rounds i).in_time) [
  | inr e ↦ (
    i,
    (rounds i).running && (rounds i).healthy,
    ground arith,
    omega arith,
    omega arith,
    Missed-refl rounds i,
    refl,
  )
  | inl e ↦ elim (Bool-cases (rounds i).running) [
    | inr d ↦ (i, false, ground arith, omega arith, omega arith, Missed-refl rounds i, ground arith)
    | inl d ↦ elim (Bool-cases (rounds i).healthy) [
      | inl c ↦
          (i, true, ground arith, omega arith, omega arith, Missed-refl rounds i, ground arith)
      | inr c ↦
          let (j, b, w, lo, hi, m, t) =
            container_wait_total fuel rounds (suc i) k (omega arith)
              (subst (λ n. (rounds n).in_time ≡ false) (omega arith) p) in
          (j, b, ground arith, omega arith, omega arith, Missed-step rounds i j e c m, t)
    ]
  ]
]

-- The wait for the memory ends, if the deadline passes within the fuel, and tells whether the use of
-- its last round is at or below the threshold, after rounds in time in which it was above.
pub wait_vram_below_total :
    (fuel : ℕ) (rounds : ℕ → Round) (i k : ℕ)
    → k < fuel
    → (rounds (i + k)).in_time ≡ false
    → (j : ℕ) × (b : Bool) × (wait_vram_below fuel rounds i ≡ some b)
      × (i ≤ j)
      × (j ≤ i + k)
      × Missed rounds i j
      × (b ≡ (rounds j).healthy)
unfolding wait_vram_below
wait_vram_below_total zero rounds i k h p = absurd (omega arith)
wait_vram_below_total (suc fuel) rounds i zero h p =
    let q : (rounds i).in_time ≡ false = subst (λ n. (rounds n).in_time ≡ false) (omega arith) p in
    (i, (rounds i).healthy, ground arith, omega arith, omega arith, Missed-refl rounds i, refl)
wait_vram_below_total (suc fuel) rounds i (suc k) h p = elim (Bool-cases (rounds i).in_time) [
  | inr e ↦
      (i, (rounds i).healthy, ground arith, omega arith, omega arith, Missed-refl rounds i, refl)
  | inl e ↦ elim (Bool-cases (rounds i).healthy) [
    | inl c ↦ (i, true, ground arith, omega arith, omega arith, Missed-refl rounds i, ground arith)
    | inr c ↦
        let (j, b, w, lo, hi, m, t) =
          wait_vram_below_total fuel rounds (suc i) k (omega arith)
            (subst (λ n. (rounds n).in_time ≡ false) (omega arith) p) in
        (j, b, ground arith, omega arith, omega arith, Missed-step rounds i j e c m, t)
  ]
]

-- The wait for a worker process ends, if the deadline passes within the fuel, after rounds in time in
-- which the probe did not pass; a last round in time answers whether the process lives and the probe
-- passes, and a last round past the deadline answers the probe alone.
pub process_wait_total :
    (fuel : ℕ) (rounds : ℕ → Round) (i k : ℕ)
    → k < fuel
    → (rounds (i + k)).in_time ≡ false
    → (j : ℕ) × (b : Bool) × (process_wait fuel rounds i ≡ some b)
      × (i ≤ j)
      × (j ≤ i + k)
      × Missed rounds i j
      × (((rounds j).in_time ≡ true → b ≡ ((rounds j).running && (rounds j).healthy))
          × ((rounds j).in_time ≡ false → b ≡ (rounds j).healthy))
unfolding process_wait
process_wait_total zero rounds i k h p = absurd (omega arith)
process_wait_total (suc fuel) rounds i zero h p =
    let q : (rounds i).in_time ≡ false = subst (λ n. (rounds n).in_time ≡ false) (omega arith) p in
    (
      i,
      (rounds i).healthy,
      ground arith,
      omega arith,
      omega arith,
      Missed-refl rounds i,
      (λ x. ground arith, λ x. refl),
    )
process_wait_total (suc fuel) rounds i (suc k) h p = elim (Bool-cases (rounds i).in_time) [
  | inr e ↦ (
    i,
    (rounds i).healthy,
    ground arith,
    omega arith,
    omega arith,
    Missed-refl rounds i,
    (λ x. ground arith, λ x. refl),
  )
  | inl e ↦ elim (Bool-cases (rounds i).running) [
    | inr d ↦ (
      i,
      false,
      ground arith,
      omega arith,
      omega arith,
      Missed-refl rounds i,
      (λ x. ground arith, λ x. ground arith),
    )
    | inl d ↦ elim (Bool-cases (rounds i).healthy) [
      | inl c ↦ (
        i,
        true,
        ground arith,
        omega arith,
        omega arith,
        Missed-refl rounds i,
        (λ x. ground arith, λ x. ground arith),
      )
      | inr c ↦
          let (j, b, w, lo, hi, m, t) =
            process_wait_total fuel rounds (suc i) k (omega arith)
              (subst (λ n. (rounds n).in_time ≡ false) (omega arith) p) in
          (j, b, ground arith, omega arith, omega arith, Missed-step rounds i j e c m, t)
    ]
  ]
]

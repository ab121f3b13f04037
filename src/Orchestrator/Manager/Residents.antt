-- ===== src/Orchestrator/Manager/Residents.antt =====
-- Which workers are up while the manager runs.
use cosmos3_nano_web_ui.Common.{
  ◌≡◌, ◌≢◌, ◌≤◌, ◌<◌, ◌↔◌, ap, inl, inr, not, ◌&&◌, ◌||◌, Bool-cases, refl, sym, Bool, true, false,
  Option, none, some, List, [], ◌∷◌, arith, length, if◌then◌else◌,
}
use cosmos3_nano_web_ui.Orchestrator.Residency.{ResidencyId, same_id, same_id_iff}
use cosmos3_nano_web_ui.Orchestrator.Manager.{
  Orchestrator, Answers, ready, not_ready, ready_raises, Effect, evict, start, returned,
  vram_not_released, acquire, evict_all,
}

-- The workers that are up after an effect. An eviction takes down its worker, or leaves it up.
abbrev pub without : ResidencyId → List ResidencyId → List ResidencyId
without w [] = []
without w (x ∷ up) = let rest = without w up in if same_id x w then rest else x ∷ rest

unfoldable pub step : Effect → List ResidencyId → List ResidencyId
step (evict true w) up = without w up
step (evict false w) up = up
step (start w) up = w ∷ up
step _ up = up

unfoldable pub replay : List Effect → List ResidencyId → List ResidencyId
replay [] up = up
replay (e ∷ es) up = replay es (step e up)

-- At every moment of the trace at most one worker is up.
abbrev pub AtMostOne : List Effect → List ResidencyId → Type 0
AtMostOne [] up = length up ≤ 1
AtMostOne (e ∷ es) up = (length up ≤ 1) × AtMostOne es (step e up)

abbrev pub held : Orchestrator → List ResidencyId
held s = elim s.worker [ none ↦ [] | some w ↦ w ∷ [] ]

-- Whether a trace starts a worker.
abbrev pub starts : List Effect → Bool
starts [] = false
starts (start w ∷ es) = true
starts (_ ∷ es) = starts es

-- The slot names the worker that the manager holds.
abbrev pub IsConsistent : Orchestrator → Type 0
IsConsistent s = s.slot ≡ s.worker

pub same_id_refl : (a : ResidencyId) → same_id a a ≡ true
same_id_refl a = (same_id_iff a a).1 refl

-- The manager between two calls: the slot names the held worker, and an idle timer is pending only
-- while a plane is resident.
pub record IsValid (s : Orchestrator) : Type 0 where
  pub consistent : s.slot ≡ s.worker
  pub timed : s.idle_handle ≡ true → s.slot ≢ none

-- The readiness check of an acquisition that gets so far does not raise, and each eviction takes its
-- worker down.
abbrev pub Orderly : Answers → Type 0
Orderly a = (a.readiness ≢ ready_raises) × (a.old_down ≡ true) × (a.new_down ≡ true)

-- Whether a load leaves its worker up though the manager does not hold it: where the readiness check
-- raises, and where the worker is not ready and its eviction fails.
abbrev pub leaves_new : Answers → Bool
leaves_new a =
    a.started
    && elim a.readiness [ ready ↦ false | not_ready ↦ not a.new_down | ready_raises ↦ true ]

-- Whether an acquisition loses a worker, from the identity in the slot: the old one, where it is
-- another and its eviction fails, or the new one, where it is loaded.
abbrev pub loses : Answers → ResidencyId → Option ResidencyId → Bool
loses a target none = leaves_new a
loses a target (some c) =
    not (same_id c target) && (not a.old_down || (a.vram_free && leaves_new a))

module _ (a : Answers) (target : ResidencyId) (s : Orchestrator) where
  pub acquire_cases :
      (slot : Option ResidencyId)
      → s.slot ≡ slot
      → s.worker ≡ slot
      → (a.old_down ≡ true → AtMostOne (acquire a target s).trace (held s))
        × ((acquire a target s).orch.slot ≡ (acquire a target s).orch.worker)
        × ((acquire a target s).orch.idle_handle ≡ false)
  unfolding acquire step
  acquire_cases none p q = ground arith
  acquire_cases (some c) p q = ground (arith, same_id_refl c)

  pub replay-acquire :
      (slot : Option ResidencyId)
      → s.slot ≡ slot
      → s.worker ≡ slot
      → Orderly a
      → replay (acquire a target s).trace (held s) ≡ held (acquire a target s).orch
  unfolding acquire step replay
  replay-acquire none p q h = ground (arith, same_id_refl target)
  replay-acquire (some c) p q h = ground (arith, same_id_refl c, same_id_refl target)

  lost :
      (slot : Option ResidencyId)
      → s.slot ≡ slot
      → s.worker ≡ slot
      → (loses a target slot ≡ false
          → replay (acquire a target s).trace (held s) ≡ held (acquire a target s).orch)
        × (loses a target slot ≡ true
            → length (held (acquire a target s).orch)
              < length (replay (acquire a target s).trace (held s)))
  unfolding acquire step replay
  lost none p q = ground (arith, same_id_refl target)
  lost (some c) p q =
      ground
        (arith, same_id_refl c, same_id_refl target, same_id_iff c target, same_id_iff target c)

  -- From any valid state, an acquisition leaves exactly the worker up that the manager then holds,
  -- unless it loses one: unless it is to evict another identity and that eviction fails, or it comes
  -- to load the requested one, and the readiness check raises, or finds the worker not ready and its
  -- eviction fails. Exactly then more workers are up than the manager holds.
  pub acquire_lost_iff :
      IsValid s
      → ((replay (acquire a target s).trace (held s) ≡ held (acquire a target s).orch)
          ↔ (loses a target s.slot ≡ false))
        × ((length (held (acquire a target s).orch)
              < length (replay (acquire a target s).trace (held s)))
            ↔ (loses a target s.slot ≡ true))
  acquire_lost_iff v =
      let known = lost s.slot refl (sym v.consistent) in
      elim (Bool-cases (loses a target s.slot)) [
        | inl t ↦
            let more = known.1 t in
            ((λ e. absurd (omega (arith, ap length e)), λ f. absurd (cc)), (λ h. t, λ h. more))
        | inr f ↦
            let same = known.0 f in
            ((λ e. f, λ h. same), (λ h. absurd (omega (arith, ap length same)), λ h. absurd (cc)))
      ]

  -- An acquisition that returns has made the requested identity resident. One that raises has left
  -- the slot cold. Where the memory was not released, nothing was started.
  pub acquire_endings :
      IsValid s
      → ((acquire a target s).ending ≡ returned → (acquire a target s).orch.slot ≡ some target)
        × ((acquire a target s).ending ≢ returned → (acquire a target s).orch.slot ≡ none)
        × ((acquire a target s).ending ≡ vram_not_released
            → starts (acquire a target s).trace ≡ false)
  unfolding acquire
  acquire_endings v = go s.slot refl (sym v.consistent)
    where
      go :
          (slot : Option ResidencyId)
          → s.slot ≡ slot
          → s.worker ≡ slot
          → ((acquire a target s).ending ≡ returned → (acquire a target s).orch.slot ≡ some target)
            × ((acquire a target s).ending ≢ returned → (acquire a target s).orch.slot ≡ none)
            × ((acquire a target s).ending ≡ vram_not_released
                → starts (acquire a target s).trace ≡ false)
      go none p q = ground arith
      go (some c) p q = ground (arith, same_id_iff c target)

-- Evicting all leaves no worker up, where it takes the held one down.
pub evict_all_safe :
    (s : Orchestrator) (worker : Option ResidencyId)
    → s.worker ≡ worker
    → (down : Bool)
    → AtMostOne (evict_all down s).trace (held s)
      × (down ≡ true → replay (evict_all down s).trace (held s) ≡ [])
unfolding evict_all replay step
evict_all_safe s none p down = ground arith
evict_all_safe s (some w) p true = ground (arith, same_id_refl w)
evict_all_safe s (some w) p false = ground (arith, same_id_refl w)

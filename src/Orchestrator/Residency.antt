-- ===== src/Orchestrator/Residency.antt =====
-- api/orchestrator/residency.py: the decision of the single-slot residency machine, and the
-- transition label of api/app/observability/instruments.py, which reads the same two identities.
use cosmos3_nano_web_ui.Common.{
  ◌≡◌, ◌↔◌, String, Bool, true, false, ◌&&◌, Option, none, some, arith, str_eq, eq_iff,
  if◌then◌else◌,
}
use cosmos3_nano_web_ui.Orchestrator.Planes.{Plane, generation, reasoning}

pub record ResidencyId : Type 0 where
  pub plane : Plane
  pub label : Option String

pub record ResidencyPlan : Type 0 where
  pub evict : Option ResidencyId
  pub load : Option ResidencyId

abbrev pub same_plane : Plane → Plane → Bool
same_plane generation generation = true
same_plane reasoning reasoning = true
same_plane _ _ = false

abbrev pub same_label : Option String → Option String → Bool
same_label none none = true
same_label (some a) (some b) = str_eq a b
same_label _ _ = false

-- `==` of the dataclass.
abbrev pub same_id : ResidencyId → ResidencyId → Bool
same_id a b = same_plane a.plane b.plane && same_label a.label b.label

-- `current == requested`, where `current` may be `None`.
abbrev pub is_resident : Option ResidencyId → ResidencyId → Bool
is_resident none requested = false
is_resident (some current) requested = same_id current requested

unfoldable pub plan_acquire : Option ResidencyId → ResidencyId → ResidencyPlan
plan_acquire current requested =
    if is_resident current requested then record { evict = none; load = none } else elim current [
      | none ↦ record { evict = none; load = some requested }
      | some c ↦ record { evict = some c; load = some requested }
    ]

-- `transition` of `MeteredOrchestrator.acquire`.
unfoldable pub transition_label : Option ResidencyId → ResidencyId → String
transition_label none target = "cold_load"
transition_label (some before) target = if same_id before target then "reacquire" else "swap"

same_plane_iff : (a b : Plane) → (same_plane a b ≡ true) ↔ (a ≡ b)
same_plane_iff a b = ground arith

same_label_iff : (a b : Option String) → (same_label a b ≡ true) ↔ (a ≡ b)
same_label_iff none none = ground arith
same_label_iff none (some b) = ground arith
same_label_iff (some a) none = ground arith
same_label_iff (some a) (some b) = ground (arith, eq_iff a b)

pub same_id_iff : (a b : ResidencyId) → (same_id a b ≡ true) ↔ (a ≡ b)
same_id_iff a b = ground (arith, same_plane_iff a.plane b.plane, same_label_iff a.label b.label)

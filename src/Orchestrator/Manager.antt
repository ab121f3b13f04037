-- ===== src/Orchestrator/Manager.antt =====
-- api/orchestrator/manager.py: the single-slot manager. A method holds the manager's lock from start
-- to end, so it is one function on the state. A worker object is named by the identity that the
-- factory built it for. What the workers and the GPU answer is given by `Answers`, and every call
-- of a worker is recorded in a trace.
pub mod Residents
pub mod Sessions
use cosmos3_nano_web_ui.Common.{
  ℕ, Bool, true, false, ◌&&◌, Option, none, some, List, [], ◌∷◌, ◌++◌, ltb, if◌then◌else◌,
}
use cosmos3_nano_web_ui.Orchestrator.Residency.{ResidencyId, ResidencyPlan, plan_acquire}

pub record Orchestrator : Type 0 where
  pub slot : Option ResidencyId
  pub worker : Option ResidencyId
  -- Whether a timer and an idle-eviction task are pending.
  pub idle_handle : Bool
  pub idle_task : Bool

unfoldable pub init : Orchestrator
init = record { slot = none; worker = none; idle_handle = false; idle_task = false }

-- What `wait_ready` does: it returns a truth value, or raises.
pub data Readiness : Type 0 where
  ready not_ready ready_raises : Readiness

-- The answers of the environment during one acquisition: `vram_free` of the wait after an eviction,
-- `started` of `worker.start` (false where it raises) and `readiness` of `worker.wait_ready`. `evict`
-- of a worker returns nothing, also where its stop failed: `old_down` and `new_down` are whether the
-- eviction of the held worker, and that of a new one that is not ready, took it down.
pub record Answers : Type 0 where
  pub vram_free : Bool
  pub started : Bool
  pub readiness : Readiness
  pub old_down : Bool
  pub new_down : Bool

-- The calls of a worker and of the memory's wait; of an eviction, whether the worker is down then.
pub data Effect : Type 0 where
  evict : Bool → ResidencyId → Effect
  start start_raised wait_ready : ResidencyId → Effect
  wait_vram : Bool → Effect

-- How an acquisition ends.
pub data Ending : Type 0 where
  returned vram_not_released start_failed never_ready wait_failed : Ending

pub record Outcome : Type 0 where
  pub ending : Ending
  pub orch : Orchestrator
  pub trace : List Effect

unfoldable pub cancel_idle_handle : Orchestrator → Orchestrator
cancel_idle_handle s = record s { idle_handle = false }

unfoldable pub cancel_idle_timer : Orchestrator → Orchestrator
unfolding cancel_idle_handle
cancel_idle_timer s = record (cancel_idle_handle s) { idle_task = false }

-- The first half of `acquire`: evict what the plan evicts, and wait for the memory.
unfoldable pub release : Answers → ResidencyPlan → Orchestrator → Outcome
release a plan s = elim plan.evict [
  | none ↦ record { ending = returned; orch = s; trace = [] }
  | some old ↦ elim s.worker [
    | none ↦ record { ending = returned; orch = s; trace = [] }
    | some w ↦ record {
      ending = if a.vram_free then returned else vram_not_released;
      orch = record s { worker = none; slot = none };
      trace = evict a.old_down w ∷ wait_vram a.vram_free ∷ [];
    }
  ]
]

-- The second half: build, start and await the worker that the plan loads.
unfoldable pub load : Answers → ResidencyPlan → ResidencyId → Orchestrator → Outcome
load a plan target s = elim plan.load [
  | none ↦ record { ending = returned; orch = s; trace = [] }
  | some new ↦
      if a.started
      then elim a.readiness [
        | ready ↦ record {
          ending = returned;
          orch = record s { worker = some target; slot = some target };
          trace = start target ∷ wait_ready target ∷ [];
        }
        | not_ready ↦ record {
          ending = never_ready;
          orch = s;
          trace = start target ∷ wait_ready target ∷ evict a.new_down target ∷ [];
        }
        | ready_raises ↦ record {
          ending = wait_failed;
          orch = s;
          trace = start target ∷ wait_ready target ∷ [];
        }
      ]
      else record { ending = start_failed; orch = s; trace = start_raised target ∷ [] }
]

abbrev pub and_then : Outcome → (Orchestrator → Outcome) → Outcome
and_then o next = elim o.ending [
  | returned ↦
      let rest = next o.orch in
      record { ending = rest.ending; orch = rest.orch; trace = o.trace ++ rest.trace }
  | _ ↦ o
]

unfoldable pub acquire : Answers → ResidencyId → Orchestrator → Outcome
unfolding cancel_idle_timer release load plan_acquire
acquire a target s =
    let idle = cancel_idle_timer s in
    let plan = plan_acquire idle.slot target in and_then (release a plan idle) (load a plan target)

abbrev pub evictions : Bool → Option ResidencyId → List Effect
evictions down none = []
evictions down (some w) = evict down w ∷ []

-- `down` is whether the eviction takes the worker down.
unfoldable pub evict_all : Bool → Orchestrator → Outcome
unfolding cancel_idle_handle
evict_all down s = record {
  ending = returned;
  orch = record (cancel_idle_handle s) { worker = none; slot = none };
  trace = evictions down s.worker;
}

-- `notify_idle`, for an idle timeout of so many units; 0 turns the timer off.
unfoldable pub notify_idle : ℕ → Orchestrator → Orchestrator
unfolding cancel_idle_timer
notify_idle idle_timeout s =
    let quiet = cancel_idle_timer s in
    elim quiet.slot [
      | none ↦ quiet
      | some r ↦ if ltb 0 idle_timeout then record quiet { idle_handle = true } else quiet
    ]

unfoldable pub on_idle_timeout : Orchestrator → Orchestrator
on_idle_timeout s = record s { idle_handle = false; idle_task = true }

-- `locked` is what `self._lock.locked()` answers.
unfoldable pub try_idle_evict : Bool → Bool → Orchestrator → Outcome
unfolding evict_all
try_idle_evict locked down s =
    if locked
    then record { ending = returned; orch = record s { idle_task = false }; trace = [] }
    else let o = evict_all down s in
      record { ending = o.ending; orch = record (o.orch) { idle_task = false }; trace = o.trace }

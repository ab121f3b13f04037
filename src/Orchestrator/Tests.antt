-- ===== src/Orchestrator/Tests.antt =====
-- Runs of the orchestrator on small inputs, and instances of its theorems.
use cosmos3_nano_web_ui.Orchestrator.Workers.{
  Round, Missed, container_wait, process_wait, wait_vram_below, container_wait_total,
  process_wait_total, wait_vram_below_total,
}
use cosmos3_nano_web_ui.Common.{
  Bool, ℕ, zero, suc, ◌+◌, ◌≤◌, ◌&&◌, ◌≡◌, ◌≢◌, refl, true, false, none, some, List, [], ◌∷◌, arith,
  All, ◌↔◌, ◌<◌, length,
}
use cosmos3_nano_web_ui.Orchestrator.Planes.{generation, reasoning}
use cosmos3_nano_web_ui.Orchestrator.Residency.{ResidencyId}
use cosmos3_nano_web_ui.Orchestrator.Manager.{
  Orchestrator, Answers, ready, ready_raises, acquire, evict, wait_vram, start, wait_ready,
  returned, vram_not_released, init,
}
use cosmos3_nano_web_ui.Orchestrator.Manager.Residents.{
  IsValid, acquire_endings, acquire_lost_iff, loses, step, starts, AtMostOne, held, replay,
}
use cosmos3_nano_web_ui.Orchestrator.Manager.Sessions.{
  Call, acquire_call, evict_all_call, notify_call, timeout_call, idle_call, calls, call, calls_safe,
  Regular,
}

abbrev video : ResidencyId
video = record { plane = generation; label = some "fp8" }

abbrev reasoner : ResidencyId
reasoner = record { plane = reasoning; label = none }

abbrev good : Answers
good = record {
  vram_free = true;
  started = true;
  readiness = ready;
  old_down = true;
  new_down = true;
}

abbrev stuck : Answers
stuck = record {
  vram_free = false;
  started = true;
  readiness = ready;
  old_down = true;
  new_down = true;
}

abbrev raises : Answers
raises = record {
  vram_free = true;
  started = true;
  readiness = ready_raises;
  old_down = true;
  new_down = true;
}

abbrev warm : Orchestrator
warm = record { slot = some video; worker = some video; idle_handle = true; idle_task = false }

warm-IsValid : IsValid warm
warm-IsValid = record { consistent = refl; timed = λ h p. cc }

init-IsValid : IsValid init
unfolding init
init-IsValid = record { consistent = refl; timed = λ h p. cc }

-- A swap evicts and waits before it starts.
swap_trace :
    (acquire good reasoner warm).trace
    ≡ evict true video ∷ wait_vram true ∷ start reasoner ∷ wait_ready reasoner ∷ []
unfolding acquire
swap_trace = refl

acquire_endings_example :
    ((acquire stuck reasoner warm).ending ≡ returned
      → (acquire stuck reasoner warm).orch.slot ≡ some reasoner)
    × ((acquire stuck reasoner warm).ending ≢ returned
        → (acquire stuck reasoner warm).orch.slot ≡ none)
    × ((acquire stuck reasoner warm).ending ≡ vram_not_released
        → starts (acquire stuck reasoner warm).trace ≡ false)
acquire_endings_example = acquire_endings stuck reasoner warm warm-IsValid

abbrev day : List Call
day =
    acquire_call good video
    ∷ notify_call 30
    ∷ acquire_call good reasoner
    ∷ timeout_call
    ∷ idle_call false true
    ∷ evict_all_call true
    ∷ []

day-Regular : All Regular day
day-Regular = ground arith

calls_safe_example :
    AtMostOne (calls day init).trace (held init)
    × (replay (calls day init).trace (held init) ≡ held (calls day init).orch)
    × IsValid (calls day init).orch
calls_safe_example = calls_safe day init init-IsValid day-Regular

-- A container whose stop fails keeps its memory, so the wait fails as well.
abbrev unstopped : Answers
unstopped = record {
  vram_free = false;
  started = true;
  readiness = ready;
  old_down = false;
  new_down = true;
}

acquire_lost_iff_example :
    ((replay (acquire unstopped reasoner warm).trace (held warm)
        ≡ held (acquire unstopped reasoner warm).orch)
      ↔ (loses unstopped reasoner (some video) ≡ false))
    × ((length (held (acquire unstopped reasoner warm).orch)
          < length (replay (acquire unstopped reasoner warm).trace (held warm)))
        ↔ (loses unstopped reasoner (some video) ≡ true))
acquire_lost_iff_example = acquire_lost_iff unstopped reasoner warm warm-IsValid

-- The acquisition after it finds the slot cold and puts a second worker beside the one that is lost.
lost_then_loaded :
    replay
      (calls (acquire_call unstopped reasoner ∷ acquire_call good reasoner ∷ []) warm).trace
      (held warm)
    ≡ reasoner ∷ video ∷ []
unfolding calls call acquire replay step
lost_then_loaded = refl

-- A worker that is ready in its second round, with a deadline after the third.
abbrev warming : ℕ → Round
warming zero = record { in_time = true; running = true; healthy = false }
warming (suc zero) = record { in_time = true; running = true; healthy = true }
warming (suc (suc n)) = record { in_time = false; running = true; healthy = true }

container_wait_total_example :
    (j : ℕ) × (b : Bool) × (container_wait 3 warming 0 ≡ some b)
    × (0 ≤ j)
    × (j ≤ 0 + 2)
    × Missed warming 0 j
    × (b ≡ ((warming j).running && (warming j).healthy))
container_wait_total_example = container_wait_total 3 warming 0 2 (omega arith) refl

process_wait_total_example :
    (j : ℕ) × (b : Bool) × (process_wait 3 warming 0 ≡ some b)
    × (0 ≤ j)
    × (j ≤ 0 + 2)
    × Missed warming 0 j
    × (((warming j).in_time ≡ true → b ≡ ((warming j).running && (warming j).healthy))
        × ((warming j).in_time ≡ false → b ≡ (warming j).healthy))
process_wait_total_example = process_wait_total 3 warming 0 2 (omega arith) refl

wait_vram_below_total_example :
    (j : ℕ) × (b : Bool) × (wait_vram_below 3 warming 0 ≡ some b)
    × (0 ≤ j)
    × (j ≤ 0 + 2)
    × Missed warming 0 j
    × (b ≡ (warming j).healthy)
wait_vram_below_total_example = wait_vram_below_total 3 warming 0 2 (omega arith) refl

-- ===== src/Orchestrator/Manager/Sessions.antt =====
-- Any sequence of calls of the manager.
use cosmos3_nano_web_ui.Common.{
  ℕ, ◌≡◌, ◌≤◌, refl, sym, ◌∙◌, Bool, true, false, List, [], ◌∷◌, ◌++◌, arith, length, All,
}
use cosmos3_nano_web_ui.Orchestrator.Residency.{ResidencyId}
use cosmos3_nano_web_ui.Orchestrator.Manager.{
  Orchestrator, Answers, Effect, acquire, evict_all, notify_idle, on_idle_timeout, try_idle_evict,
}
use cosmos3_nano_web_ui.Orchestrator.Manager.Residents.{
  IsValid, Orderly, held, AtMostOne, replay, step, acquire_cases, replay-acquire, evict_all_safe,
}

-- A call of the manager, with what its environment answers.
pub data Call : Type 0 where
  acquire_call : Answers → ResidencyId → Call
  evict_all_call : Bool → Call
  notify_call : ℕ → Call
  timeout_call : Call
  idle_call : Bool → Bool → Call

pub record Session : Type 0 where
  pub orch : Orchestrator
  pub trace : List Effect

unfoldable pub call : Call → Orchestrator → Session
unfolding acquire evict_all notify_idle on_idle_timeout try_idle_evict
call (acquire_call a target) s =
    let o = acquire a target s in record { orch = o.orch; trace = o.trace }
call (evict_all_call down) s = let o = evict_all down s in record { orch = o.orch; trace = o.trace }
call (notify_call t) s = record { orch = notify_idle t s; trace = [] }
call timeout_call s = record { orch = on_idle_timeout s; trace = [] }
call (idle_call locked down) s =
    let o = try_idle_evict locked down s in record { orch = o.orch; trace = o.trace }

unfoldable pub calls : List Call → Orchestrator → Session
calls [] s = record { orch = s; trace = [] }
calls (c ∷ cs) s =
    let one = call c s in
    let rest = calls cs one.orch in record { orch = rest.orch; trace = one.trace ++ rest.trace }

abbrev pub Regular : Call → Type 0
Regular (acquire_call a target) = Orderly a
Regular (evict_all_call down) = down ≡ true
Regular (notify_call t) = Unit
Regular timeout_call = Unit
Regular (idle_call locked down) = down ≡ true

call-IsValid : (c : Call) (s : Orchestrator) → IsValid s → IsValid (call c s).orch
unfolding call
call-IsValid (acquire_call a target) s v =
    let (_, same, quiet) = acquire_cases a target s s.slot refl (sym v.consistent) in
    record { consistent = same; timed = λ h. absurd (cc (quiet, h)) }
call-IsValid (evict_all_call down) s v = ground arith
call-IsValid (notify_call t) s v = record { consistent = ground arith; timed = ground arith }
call-IsValid timeout_call s v = ground arith
call-IsValid (idle_call locked down) s v = record {
  consistent = ground arith;
  timed = ground arith;
}

held_one : (s : Orchestrator) → length (held s) ≤ 1
held_one s = ground arith

call-AtMostOne :
    (c : Call) (s : Orchestrator) → IsValid s → Regular c → AtMostOne (call c s).trace (held s)
unfolding call
call-AtMostOne (acquire_call a target) s v h =
    (acquire_cases a target s s.slot refl (sym v.consistent)).0 h.1
call-AtMostOne (evict_all_call down) s v h = (evict_all_safe s s.worker refl down).0
call-AtMostOne (notify_call t) s v h = held_one s
call-AtMostOne timeout_call s v h = held_one s
call-AtMostOne (idle_call true down) s v h = held_one s
call-AtMostOne (idle_call false down) s v h = (evict_all_safe s s.worker refl down).0

replay-call :
    (c : Call) (s : Orchestrator)
    → IsValid s
    → Regular c
    → replay (call c s).trace (held s) ≡ held (call c s).orch
unfolding call replay
replay-call (acquire_call a target) s v h =
    replay-acquire a target s s.slot refl (sym v.consistent) h
replay-call (evict_all_call down) s v h = (evict_all_safe s s.worker refl down).1 h
replay-call (notify_call t) s v h = ground arith
replay-call timeout_call s v h = ground arith
replay-call (idle_call true down) s v h = refl
replay-call (idle_call false down) s v h = (evict_all_safe s s.worker refl down).1 h

AtMostOne-append :
    (t u : List Effect) (up : List ResidencyId)
    → AtMostOne t up
    → AtMostOne u (replay t up)
    → AtMostOne (t ++ u) up
unfolding replay
AtMostOne-append [] u up h k = k
AtMostOne-append (e ∷ t) u up h k = (h.0, AtMostOne-append t u (step e up) h.1 k)

replay-append :
    (t u : List Effect) (up : List ResidencyId) → replay (t ++ u) up ≡ replay u (replay t up)
unfolding replay
replay-append [] u up = refl
replay-append (e ∷ t) u up = replay-append t u (step e up)

-- Whatever the sequence of acquisitions, evictions, idle timers and idle tasks, and whatever else the
-- workers and the memory answer, as long as no readiness check raises and each eviction takes its
-- worker down: at every moment at most one worker is up, the workers that are up at the end are
-- exactly the one that the manager holds, and the slot names it.
pub calls_safe :
    (cs : List Call) (s : Orchestrator)
    → IsValid s
    → All Regular cs
    → AtMostOne (calls cs s).trace (held s)
      × (replay (calls cs s).trace (held s) ≡ held (calls cs s).orch)
      × IsValid (calls cs s).orch
unfolding calls replay
calls_safe [] s v h = (held_one s, refl, v)
calls_safe (c ∷ cs) s v h =
    let (safe, same, v') = calls_safe cs (call c s).orch (call-IsValid c s v) h.1 in
    let one = replay-call c s v h.0 in
    (
      AtMostOne-append (call c s).trace _ (held s) (call-AtMostOne c s v h.0) (rw one safe),
      replay-append (call c s).trace _ (held s) ∙ rw one same,
      v',
    )

-- ===== src/Jobs/Tests.antt =====
-- Runs of the job layer on small inputs, and instances of its theorems.
use cosmos3_nano_web_ui.Common.{
  List, ℕ, zero, suc, ◌<◌, ◌≤◌, ◌-◌, ◌≢◌, length, err, ◌≡◌, ◌⊎◌, refl, true, false, none, some, [],
  ◌∷◌, ◌++◌, arith, String, ok, err, has, str_eq, if◌then◌else◌,
}
use cosmos3_nano_web_ui.Common.Dict
use cosmos3_nano_web_ui.Common.Value.{Fields, end}
use cosmos3_nano_web_ui.Orchestrator.Planes.{Plane, generation}
use cosmos3_nano_web_ui.Jobs.Events.{JobEvent}
use cosmos3_nano_web_ui.Jobs.Model.{
  start, cancel as cancel_job, queued, running, cancelled, JobRecord, transition, conflict,
  is_terminal,
}
use cosmos3_nano_web_ui.Jobs.Model.Lifecycle.{
  start_op, apply, Allowed, target, apply-Allowed, SameJob,
}
use cosmos3_nano_web_ui.Jobs.Framing.{Json, max_frame, frame, unframe, Stream, read_exact, closed}
use cosmos3_nano_web_ui.Jobs.Framing.Wire.{read_exact_lem, unframe-frame}
use cosmos3_nano_web_ui.Jobs.Store
use cosmos3_nano_web_ui.Jobs.Store.{JobStore, submit, create, new_job}
use cosmos3_nano_web_ui.Jobs.Store.Invariant.{IsValid}
use cosmos3_nano_web_ui.Jobs.Store.Use.{Uses}
use cosmos3_nano_web_ui.Jobs.Store.Idempotency.{submit_again}
use cosmos3_nano_web_ui.Jobs.Runner.{
  update_event, mark_cancelled, World, waiting, leasing, acquiring, working, WorkResult, acquired,
  worked, cancel_called, cancel_resumed, submitted, dequeued, finish,
}
use cosmos3_nano_web_ui.Jobs.Runner.Status.{status_of}
use cosmos3_nano_web_ui.Jobs.Runner.Steps
use cosmos3_nano_web_ui.Jobs.Runner.Steps.{
  Run, here, next, submit as submit_step, take, lease, acquire_ok, work_ok, cancel, resume,
}
use cosmos3_nano_web_ui.Jobs.Runner.Reachable.{
  Run-alone, Run-queued, Run-running, Run-drained, Run-cancelled,
}
use cosmos3_nano_web_ui.Jobs.Runner.Durable.{Run-terminal, Run-IsValid}
use cosmos3_nano_web_ui.Jobs.Runner.Board.{Move, resumes, board_of, Run-Move}

abbrev job : JobRecord
job = new_job "fp" "a" "t0" "text2video" generation end (some "k")

abbrev running_job : JobRecord
running_job = record job { status = running }

apply-Allowed_example :
    (Allowed start_op job.status
      → (after : JobRecord) × (apply start_op job ≡ ok after) × (after.status ≡ target start_op))
    × (¬ Allowed start_op job.status
        → apply start_op job ≡ err (transition job.status (target start_op)))
apply-Allowed_example = apply-Allowed start_op job

job_starts : apply start_op job ≡ ok running_job
unfolding apply
job_starts = refl

abbrev event1 : JobEvent
event1 = record { id = 1; type = "queued"; payload = end }

abbrev event2 : JobEvent
event2 = record { id = 2; type = "running"; payload = end }

abbrev event3 : JobEvent
event3 = record { id = 3; type = "progress"; payload = end }

-- One job, from its submission: taken, leased, started, cancelled at work, its work returned, and
-- the cancel resumed.
abbrev w1 : World
w1 = (submitted "fp" "a" "t0" "text2video" generation end (some "k") Steps.init).1

abbrev w2 : World
w2 = dequeued "a" (record w1 { queue = [] })

abbrev w3 : World
w3 = record w2 { loop = acquiring "a" }

abbrev w4 : World
w4 = acquired "a" w3

abbrev w5 : World
w5 = (cancel_called "a" w4).1

abbrev result : WorkResult
result = record { artifact_path = "/out/a.mp4"; meta = end }

abbrev w6 : World
w6 = worked "a" result w5

abbrev w7 : World
w7 = (cancel_resumed "a" [] w6).1

run_facts :
    (Dict.get (Steps.init).store.jobs "a" ≡ none)
    × (w1.loop ≡ waiting)
    × (w1.queue ≡ "a" ∷ [])
    × (w2.loop ≡ leasing "a")
    × (w3.evicting ≡ [])
    × (w4.loop ≡ working "a")
    × (w5.loop ≡ working "a")
    × (w5.evicting ≡ "a" ∷ [])
    × (w6.evicting ≡ "a" ∷ [])
    × (w6.loop ≡ waiting)
    × (status_of w1.store "a" ≡ some queued)
    × (status_of w4.store "a" ≡ some running)
    × (status_of w7.store "a" ≡ some cancelled)
    × (w7.loop ≡ waiting)
    × (w7.queue ≡ [])
    × (w7.evicting ≡ [])
unfolding Steps.init Store.init Dict.get Dict.put submitted submit create Store.append_event
    Store.push Store.stored dequeued acquired finish update_event Store.update start cancel_called
    cancel_resumed mark_cancelled worked cancel_job
run_facts =
    (refl, refl, refl, refl, refl, refl, refl, refl, refl, refl, refl, refl, refl, refl, refl, refl)

run1 : Run Steps.init w1
run1 = next here (submit_step "fp" "a" "t0" "text2video" generation end (some "k") run_facts.0)

run4 : Run Steps.init w4
run4 =
    next (next (next run1 (take "a" [] run_facts.1 run_facts.2)) (lease "a" run_facts.3))
      (acquire_ok "a" refl run_facts.4)

run6 : Run Steps.init w6
run6 = next (next run4 (cancel "a")) (work_ok "a" result run_facts.6)

run7 : Run Steps.init w7
run7 = next run6 (resume "a" [] run_facts.8)

Run-alone_example : ◌≡◌ {A = String} "a" "a"
Run-alone_example = Run-alone w4 "a" "a" run4 run_facts.11 run_facts.11

Run-Move_example :
    Move (resumes "a") (board_of w6) (board_of w7)
    × ((i : String)
        → ((board_of Steps.init).status i ≡ none) × ((board_of Steps.init).asked i ≡ false))
Run-Move_example = Run-Move w6 w7 run6 (resume "a" [] run_facts.8)

Run-queued_example : (has w1.queue "a" ≡ true) ⊎ (w1.loop ≡ leasing "a") ⊎ (w1.loop ≡ acquiring "a")
Run-queued_example = Run-queued w1 "a" run1 run_facts.10

Run-running_example : (w4.loop ≡ working "a") ⊎ (has w4.evicting "a" ≡ true)
Run-running_example = Run-running w4 "a" run4 run_facts.11

-- The record of the cancelled job.
abbrev job7 : JobRecord
job7 = record job { status = cancelled }

stored7 : Dict.get w7.store.jobs "a" ≡ some job7
unfolding Steps.init Store.init Dict.get Dict.put submitted submit create Store.append_event
    Store.push Store.stored dequeued acquired finish update_event Store.update start cancel_called
    cancel_resumed mark_cancelled worked cancel_job
stored7 = refl

Run-drained_example : is_terminal job7.status ≡ true
Run-drained_example = Run-drained w7 "a" job7 run7 run_facts.13 run_facts.14 run_facts.15 stored7

Run-cancelled_example : status_of w7.store "a" ≡ some cancelled
Run-cancelled_example = Run-cancelled w6 "a" [] run6 run_facts.8

-- A second job, submitted after the first one's end.
abbrev w8 : World
w8 = (submitted "fp2" "b" "t1" "text2image" generation end none w7).1

free7 : Dict.get w7.store.jobs "b" ≡ none
unfolding Steps.init Store.init Dict.get Dict.put submitted submit create Store.append_event
    Store.push Store.stored dequeued acquired finish update_event Store.update start cancel_called
    cancel_resumed mark_cancelled worked cancel_job
free7 = refl

Run-terminal_example : Dict.get w8.store.jobs "a" ≡ some job7
Run-terminal_example =
    Run-terminal w7 w8 "a" job7
      (next here (submit_step "fp2" "b" "t1" "text2image" generation end none free7)) stored7 refl

Run-IsValid_example : IsValid w7.store
Run-IsValid_example = Run-IsValid w7 run7

abbrev store1 : JobStore
store1 = create job (some "k") Store.init

submitted1 :
    submit "fp" "a" "t0" "text2video" generation end (some "k") Store.init ≡ ok (job, false, store1)
unfolding submit Store.init Dict.get
submitted1 = refl

submit_again_example :
    (kept : JobRecord) × (Dict.get store1.jobs "a" ≡ some kept)
    × SameJob kept job
    × ((fp' id' now' mode' : String) (plane' : Plane) (params' : Fields)
        → submit fp' id' now' mode' plane' params' (some "k") store1
          ≡ (if str_eq "fp" fp' then ok (kept, true, store1) else err (conflict "k")))
submit_again_example =
    submit_again "fp" "a" "t0" "text2video" "k" generation end Store.init job submitted1 Uses.here

-- A stream that gives one byte at a time.
abbrev one_byte : List ℕ → ℕ → List ℕ × List ℕ
one_byte s zero = ([], s)
one_byte [] (suc n) = ([], [])
one_byte (x ∷ s) (suc n) = (x ∷ [], s)

one_byte_splits : (s : List ℕ) (n : ℕ) → s ≡ (one_byte s n).0 ++ (one_byte s n).1
one_byte_splits s zero = refl
one_byte_splits [] (suc n) = refl
one_byte_splits (x ∷ s) (suc n) = refl

one_byte_bounded : (s : List ℕ) (n : ℕ) → length (one_byte s n).0 ≤ n
one_byte_bounded s zero = omega arith
one_byte_bounded [] (suc n) = omega arith
one_byte_bounded (x ∷ s) (suc n) = omega arith

one_byte_progresses : (s : List ℕ) (n : ℕ) → n ≢ 0 → (one_byte s n).0 ≡ [] → s ≡ []
one_byte_progresses s zero h e = absurd (h refl)
one_byte_progresses [] (suc n) h e = refl
one_byte_progresses (x ∷ s) (suc n) h e = ground arith

abbrev trickle : Stream (List ℕ)
trickle = record {
  read = one_byte;
  content = λ s. s;
  splits = one_byte_splits;
  bounded = one_byte_bounded;
  progresses = one_byte_progresses;
}

read_exact_lem_example :
    ((wanted after : List ℕ)
      → length wanted ≡ 2
      → trickle.content (1 ∷ 2 ∷ 3 ∷ []) ≡ wanted ++ after
      → (s' : List ℕ) × (read_exact trickle 2 (1 ∷ 2 ∷ 3 ∷ []) ≡ ok (wanted, s'))
        × (trickle.content s' ≡ after))
    × (length (trickle.content (1 ∷ 2 ∷ 3 ∷ [])) < 2
        → read_exact trickle 2 (1 ∷ 2 ∷ 3 ∷ [])
          ≡ err (closed (2 - length (trickle.content (1 ∷ 2 ∷ 3 ∷ [])))))
read_exact_lem_example = read_exact_lem trickle 2 (1 ∷ 2 ∷ 3 ∷ [])

-- An encoder that serves the empty object.
abbrev braces : Json
braces = record { dumps = λ o. 123 ∷ 125 ∷ []; loads = λ b. some end }

unframe-frame_example :
    (s' : List ℕ) × (unframe trickle braces (0 ∷ 0 ∷ 0 ∷ 2 ∷ 123 ∷ 125 ∷ 7 ∷ []) ≡ ok (end, s'))
    × (trickle.content s' ≡ 7 ∷ [])
unframe-frame_example =
    unframe-frame trickle braces end (0 ∷ 0 ∷ 0 ∷ 2 ∷ 123 ∷ 125 ∷ 7 ∷ []) (7 ∷ []) refl
      (unfold max_frame in omega arith) (unfold frame in refl)

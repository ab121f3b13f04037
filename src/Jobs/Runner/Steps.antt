-- ===== src/Jobs/Runner/Steps.antt =====
-- The runner as a step relation: one constructor for each stretch of code that runs between two
-- awaits, in any interleaving of the drain loop, the work thread, the submissions and the cancels.
-- `asyncio.Lock` serves its waiters in order, so `acquire` returns only when no cancel waits for
-- the orchestrator. The `evict_all` of a cancel is taken to return.
use cosmos3_nano_web_ui.Common.{◌≡◌, Option, none, String, List, [], ◌∷◌}
use cosmos3_nano_web_ui.Common.Float.{Float}
use cosmos3_nano_web_ui.Common.Value.{Fields}
use cosmos3_nano_web_ui.Orchestrator.Planes.{Plane}
use cosmos3_nano_web_ui.Jobs.Store
use cosmos3_nano_web_ui.Jobs.Store.{try_get}
use cosmos3_nano_web_ui.Jobs.Runner.{
  World, waiting, leasing, acquiring, working, releasing, WorkResult, Failure, finish, acquired,
  failed_with, reported, worked, cancel_called, cancel_resumed, dequeued, submitted,
}

-- `JobRunner.__init__` on a new store, and the loop at its first await.
unfoldable pub init : World
init = record {
  store = Store.init;
  queue = [];
  cancelled_ids = [];
  current = none;
  loop = waiting;
  evicting = [];
}

pub data Step (w : World) : World → Type 0 where
  take :
      (j : String) (rest : List String)
      → w.loop ≡ waiting
      → w.queue ≡ j ∷ rest
      → Step w (dequeued j (record w { queue = rest }))
  lease : (j : String) → w.loop ≡ leasing j → Step w (record w { loop = acquiring j })
  acquire_ok : (j : String) → w.loop ≡ acquiring j → w.evicting ≡ [] → Step w (acquired j w)
  acquire_err : (j : String) (e : Failure) → w.loop ≡ acquiring j → Step w (failed_with j e w)
  report : (j : String) (f : Float) → w.loop ≡ working j → Step w (reported j f w)
  work_ok : (j : String) (r : WorkResult) → w.loop ≡ working j → Step w (worked j r w)
  work_err : (j : String) (e : Failure) → w.loop ≡ working j → Step w (failed_with j e w)
  release : (j : String) → w.loop ≡ releasing j → Step w (finish j w)
  cancel : (j : String) → Step w (cancel_called j w).1
  resume :
      (j : String) (rest : List String) → w.evicting ≡ j ∷ rest → Step w (cancel_resumed j rest w).1
  submit :
      (fp job_id now mode : String) (plane : Plane) (params : Fields) (key : Option String)
      → try_get job_id w.store ≡ none
      → Step w (submitted fp job_id now mode plane params key w).1

pub data Run (w : World) : World → Type 0 where
  here : Run w w
  next : {v u : World} → Run w v → Step v u → Run w u

-- ===== src/Jobs/Events/Replay.antt =====
-- A log whose ids count up by one, and what a reconnecting client is sent of it.
use cosmos3_nano_web_ui.Common.{
  ℕ, suc, ◌+◌, ◌<◌, ◌≡◌, refl, some, List, [], ◌∷◌, ◌++◌, arith, length,
}
use cosmos3_nano_web_ui.Jobs.Events.{JobEvent, events_since}

-- The ids of the log are `k`, `k + 1`, and so on.
abbrev pub CountsFrom : ℕ → List JobEvent → Type 0
CountsFrom k [] = Unit
CountsFrom k (e ∷ log) = (e.id ≡ k) × CountsFrom (suc k) log

pub CountsFrom-append :
    (k : ℕ) (log : List JobEvent) (e : JobEvent)
    → CountsFrom k log
    → e.id ≡ k + length log
    → CountsFrom k (log ++ e ∷ [])
CountsFrom-append k [] e h p = (omega arith, tt)
CountsFrom-append k (x ∷ log) e h p = (h.0, CountsFrom-append (suc k) log e h.1 (omega arith))

pub CountsFrom-tail :
    (k : ℕ) (e : JobEvent) (log : List JobEvent) → CountsFrom k (e ∷ log) → CountsFrom (suc k) log
CountsFrom-tail k e log h = h.1

module _ (n : ℕ) where
  pub since_after :
      (k : ℕ) (log : List JobEvent) → n < k → CountsFrom k log → events_since log (some n) ≡ log
  unfolding events_since
  since_after k [] p h = refl
  since_after k (e ∷ log) p h = ground (arith, since_after (suc k) log (omega arith) h.1)

-- A client that has received a prefix of the log is sent exactly the rest of it.
pub events_since-append :
    (k : ℕ) (seen rest : List JobEvent) (last : JobEvent)
    → CountsFrom k ((seen ++ last ∷ []) ++ rest)
    → events_since ((seen ++ last ∷ []) ++ rest) (some last.id) ≡ rest
unfolding events_since
events_since-append k [] rest last h =
    ground (arith, since_after last.id (suc k) rest (omega arith) h.1)
events_since-append k (e ∷ seen) rest last h =
    ground (arith, events_since-append (suc k) seen rest last h.1, below k seen)
  where
    below :
        (k : ℕ) (seen : List JobEvent)
        → CountsFrom (suc k) ((seen ++ last ∷ []) ++ rest)
        → k < last.id
    below k [] h = omega arith
    below k (x ∷ seen) h = omega (arith, below (suc k) seen h.1)

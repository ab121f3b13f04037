-- ===== src/App/Reasoning.antt =====
-- api/app/routes/reasoning.py: the checks of `POST /v1/reason`, and the stream of its answer. The
-- tokenizer, the containment of paths, the orchestrator and the upstream are arguments; an item of the
-- upstream's queue is what a wait for it brings.
pub mod Answered
use cosmos3_nano_web_ui.Common.{
  ℕ, ◌+◌, ◌/◌, ◌-◌, ltb, ℤ, pos, negsuc, pos_part, neg_part, ltb_ℤ, Bool, true, false, Option, none,
  some, String, List, [], ◌∷◌, ◌++◌, if◌then◌else◌, Result, ok, err, ◌>>=◌, str_eq,
}
use cosmos3_nano_web_ui.Engines.ContextCap.{
  ContextCapConfig, ReasoningValidationError, validate_context, minus,
}

-- `count_tokens`: no tokenizer, one that raises, or a count; else a third of the characters, up.
unfoldable pub count_tokens : Option (Option ℕ) → ℕ → ℕ
count_tokens (some (some n)) characters = n
count_tokens (some none) characters = (characters + 2) / 3
count_tokens none characters = (characters + 2) / 3

pub record ReasoningBody : Type 0 where
  pub max_output_tokens : Option ℤ
  pub image_path : Option String
  pub video_path : Option String

-- `min` and `max` of two integers.
abbrev pub lesser : ℤ → ℤ → ℤ
lesser a b = if ltb_ℤ b a then b else a

abbrev pub greater : ℤ → ℤ → ℤ
greater a b = if ltb_ℤ a b then b else a

-- `z - n`.
abbrev pub less : ℤ → ℕ → ℤ
less z n = minus (pos_part z) (neg_part z + n)

-- The output budget: what is asked for, or as much as the context allows.
unfoldable pub effective : ContextCapConfig → ℕ → Option ℤ → ℤ
effective cap prompt_tokens none =
    lesser cap.max_output_tokens (greater (pos 1) (less cap.max_context_tokens prompt_tokens))
effective cap prompt_tokens (some n) = n

pub data Refusal : Type 0 where
  invalid : ReasoningValidationError → Refusal
  untrusted_path : Refusal

pub record Payload : Type 0 where
  pub max_tokens : ℤ
  pub image_path : Option String
  pub video_path : Option String

-- `resolve_within(path, allowlist) if path else None`.
abbrev pub contained : (String → Option String) → Option String → Result Refusal (Option String)
contained resolve none = ok none
contained resolve (some p) =
    if str_eq p ""
    then ok none
    else elim (resolve p) [ none ↦ err untrusted_path | some q ↦ ok (some q) ]

-- `reason` before the stream.
unfoldable pub reason :
    (String → Option String) → ContextCapConfig → ℕ → ReasoningBody → Result Refusal Payload
unfolding effective
reason resolve cap prompt_tokens body =
    elim (validate_context (pos prompt_tokens) (effective cap prompt_tokens body.max_output_tokens)
      cap) [
        | some e ↦ err (invalid e)
        | none ↦ contained resolve body.image_path >>= (λ image.
            contained resolve body.video_path >>= (λ video. ok record {
              max_tokens = effective cap prompt_tokens body.max_output_tokens;
              image_path = image;
              video_path = video;
            }))
      ]

-- What a wait for the queue brings: nothing in time, a delta, the upstream's failure, or its end.
pub data Item : Type 0 where
  idle : Item
  delta : String → Item
  failure : String → Item
  sentinel : Item

-- The events that are sent.
pub data Chunk : Type 0 where
  token : String → Chunk
  problem : String → Chunk
  heartbeat done : Chunk

-- The loop of `_relay` over the items that it meets; it ends at the first failure or end.
unfoldable pub relay : List Item → List Chunk
relay [] = []
relay (idle ∷ items) = heartbeat ∷ relay items
relay (delta d ∷ items) = token d ∷ relay items
relay (failure m ∷ items) = problem m ∷ done ∷ []
relay (sentinel ∷ items) = done ∷ []

-- What `gen` does: the events it sends, and whether it notifies the orchestrator that the plane idles.
pub record Answer : Type 0 where
  pub chunks : List Chunk
  pub notified : Bool

-- `gen` under the lease; the acquisition of the plane raises a message or does not.
unfoldable pub gen : Option String → List Item → Answer
unfolding relay
gen (some message) items = record { chunks = problem message ∷ done ∷ []; notified = false }
gen none items = record { chunks = relay items; notified = true }

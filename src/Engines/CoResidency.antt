-- ===== src/Engines/CoResidency.antt =====
-- api/engines/vllm/coresidency.py: the verdicts over a recorded memory trace.
use cosmos3_nano_web_ui.Common.{
  ℤ, ◌≤ℤ◌, ◌≡◌, ◌↔◌, ◌⊎◌, inl, inr, String, Bool, true, false, ◌&&◌, ◌||◌, not, List, [], ◌∷◌,
  select, any, leb_ℤ, ltb_ℤ, str_eq, eq_iff, str_cases, if◌then◌else◌, arith, All,
}

-- The labels of the trace.
abbrev pub vllm_up : String
vllm_up = "vllm_up"

abbrev pub vllm_down : String
vllm_down = "vllm_down"

abbrev pub generation_up : String
generation_up = "generation_up"

pub record VramSample : Type 0 where
  pub label : String
  pub resident_bytes : ℤ

unfoldable pub within_budget : List VramSample → ℤ → Bool
within_budget [] budget = true
within_budget (s ∷ trace) budget = leb_ℤ s.resident_bytes budget && within_budget trace budget

-- The samples of one label.
abbrev pub labelled : String → List VramSample → List VramSample
labelled label trace = select (λ s. str_eq s.label label) trace

abbrev pub is_empty : List VramSample → Bool
is_empty [] = true
is_empty (s ∷ l) = false

-- One round of the loop over the two planes: it returns False.
abbrev pub not_loaded : String → List VramSample → ℤ → Bool
not_loaded label trace least =
    let ups = labelled label trace in is_empty ups || any (λ s. ltb_ℤ s.resident_bytes least) ups

abbrev pub not_released : List VramSample → ℤ → Bool
not_released trace idle =
    let downs = labelled vllm_down trace in
    is_empty downs || any (λ s. ltb_ℤ idle s.resident_bytes) downs

unfoldable pub handoff_ok : List VramSample → ℤ → ℤ → ℤ → Bool
unfolding within_budget
handoff_ok trace budget idle_bytes min_generation_bytes =
    if not (within_budget trace budget)
    then false
    else if not_loaded vllm_up trace min_generation_bytes
    then false
    else if not_loaded generation_up trace min_generation_bytes
    then false
    else if not_released trace idle_bytes
    then false
    else true

-- Some sample of the trace has the label.
abbrev pub Sampled : String → List VramSample → Type 0
Sampled label [] = ⊥
Sampled label (s ∷ trace) = (s.label ≡ label) ⊎ Sampled label trace

within_lem :
    (trace : List VramSample) (budget : ℤ)
    → (within_budget trace budget ≡ true) ↔ All (λ s. s.resident_bytes ≤ℤ budget) trace
unfolding within_budget
within_lem [] budget = ground arith
within_lem (s ∷ trace) budget = ground (arith, within_lem trace budget)

empty_lem :
    (label : String) (trace : List VramSample)
    → (is_empty (labelled label trace) ≡ false) ↔ Sampled label trace
empty_lem label [] = ground arith
empty_lem label (s ∷ trace) = ground (arith, empty_lem label trace, eq_iff s.label label)

-- Each sample of the label is at least, or at most, so many bytes.
abbrev pub AtLeast : String → ℤ → List VramSample → Type 0
AtLeast label least trace = All (λ s. s.label ≡ label → least ≤ℤ s.resident_bytes) trace

abbrev pub AtMost : String → ℤ → List VramSample → Type 0
AtMost label most trace = All (λ s. s.label ≡ label → s.resident_bytes ≤ℤ most) trace

least_lem :
    (label : String) (least : ℤ) (trace : List VramSample)
    → (any (λ s. ltb_ℤ s.resident_bytes least) (labelled label trace) ≡ false)
      ↔ AtLeast label least trace
least_lem label least [] = ground arith
least_lem label least (s ∷ trace) = elim (str_cases s.label label) [
  | inl e ↦ ground (arith, least_lem label least trace)
  | inr e ↦ ground (arith, least_lem label least trace)
]

most_lem :
    (label : String) (most : ℤ) (trace : List VramSample)
    → (any (λ s. ltb_ℤ most s.resident_bytes) (labelled label trace) ≡ false)
      ↔ AtMost label most trace
most_lem label most [] = ground arith
most_lem label most (s ∷ trace) = elim (str_cases s.label label) [
  | inl e ↦ ground (arith, most_lem label most trace)
  | inr e ↦ ground (arith, most_lem label most trace)
]

loaded_lem :
    (label : String) (trace : List VramSample) (least : ℤ)
    → (not_loaded label trace least ≡ false) ↔ (Sampled label trace × AtLeast label least trace)
loaded_lem label trace least = ground (arith, empty_lem label trace, least_lem label least trace)

released_lem :
    (trace : List VramSample) (idle : ℤ)
    → (not_released trace idle ≡ false) ↔ (Sampled vllm_down trace × AtMost vllm_down idle trace)
released_lem trace idle = ground (arith, empty_lem vllm_down trace, most_lem vllm_down idle trace)

-- A handoff is accepted exactly when no sample exceeds the budget, both planes were sampled up and
-- every such sample is at least the least footprint, and the reasoner was sampled down and every
-- such sample is at most the idle bytes.
pub handoff_ok_iff :
    (trace : List VramSample) (budget idle least : ℤ)
    → (handoff_ok trace budget idle least ≡ true) ↔ (
        All (λ s. s.resident_bytes ≤ℤ budget) trace
        × Sampled vllm_up trace
        × AtLeast vllm_up least trace
        × Sampled generation_up trace
        × AtLeast generation_up least trace
        × Sampled vllm_down trace
        × AtMost vllm_down idle trace)
unfolding handoff_ok
handoff_ok_iff trace budget idle least = ground (
  arith,
  within_lem trace budget,
  loaded_lem vllm_up trace least,
  loaded_lem generation_up trace least,
  released_lem trace idle,
)

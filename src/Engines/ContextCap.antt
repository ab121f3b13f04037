-- ===== src/Engines/ContextCap.antt =====
-- api/engines/vllm/context_cap.py: the check of a reasoning request against the public window. An
-- error keeps its code and its two numbers; the message for the reader is left out.
use cosmos3_nano_web_ui.Common.{
  ℕ, ◌+◌, ◌-◌, ℤ, pos, negsuc, pos_part, neg_part, ◌≤ℤ◌, ◌≡◌, ◌↔◌, ◌||◌, Option, none, some, ltb,
  leb_ℤ, ltb_ℤ, if◌then◌else◌, arith,
}

pub data ReasoningErrorCode : Type 0 where
  empty_prompt bad_max_tokens context_over_cap : ReasoningErrorCode

pub record ContextCapConfig : Type 0 where
  pub max_context_tokens : ℤ
  pub max_output_tokens : ℤ

pub record ReasoningValidationError : Type 0 where
  pub code : ReasoningErrorCode
  pub expected : Option ℤ
  pub got : Option ℤ

-- `a - b` of two counts, and the sum of two integers.
abbrev pub minus : ℕ → ℕ → ℤ
minus a b = if ltb a b then negsuc (b - a - 1) else pos (a - b)

abbrev pub plus : ℤ → ℤ → ℤ
plus a b = minus (pos_part a + pos_part b) (neg_part a + neg_part b)

unfoldable pub validate_context : ℤ → ℤ → ContextCapConfig → Option ReasoningValidationError
validate_context prompt_tokens max_output_tokens cfg =
    if leb_ℤ prompt_tokens (pos 0)
    then some (record { code = empty_prompt; expected = none; got = some prompt_tokens })
    else if leb_ℤ max_output_tokens (pos 0) || ltb_ℤ cfg.max_output_tokens max_output_tokens
    then some (record {
      code = bad_max_tokens;
      expected = some cfg.max_output_tokens;
      got = some max_output_tokens;
    })
    else let total = plus prompt_tokens max_output_tokens in
      if ltb_ℤ cfg.max_context_tokens total
      then some (record {
        code = context_over_cap;
        expected = some cfg.max_context_tokens;
        got = some total;
      })
      else none

-- A request is accepted exactly when its prompt has a token, its output budget is from 1 to the
-- output cap, and the two together fit the window; then the prompt alone is below the window.
pub validate_context_iff :
    (p o : ℤ) (cfg : ContextCapConfig)
    → ((validate_context p o cfg ≡ none) ↔ (
        (pos 1 ≤ℤ p)
        × (pos 1 ≤ℤ o)
        × (o ≤ℤ cfg.max_output_tokens)
        × (plus p o ≤ℤ cfg.max_context_tokens)))
      × (validate_context p o cfg ≡ none → plus p (pos 1) ≤ℤ cfg.max_context_tokens)
unfolding validate_context
validate_context_iff (ℤ.pos p) (ℤ.pos o) cfg = ground arith
validate_context_iff (ℤ.pos p) (ℤ.negsuc o) cfg = ground arith
validate_context_iff (ℤ.negsuc p) o cfg = ground arith

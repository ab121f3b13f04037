-- ===== src/App/Label.antt =====
-- The label of the deployed checkpoint: api/engines/vllm_omni/endpoints.py and
-- api/app/routes/checkpoint.py, over the operator's variables.
use cosmos3_nano_web_ui.Common.{
  Bool, true, false, not, Option, none, some, String, List, [], ◌∷◌, has, str_eq, eq_iff,
  if◌then◌else◌, Result, ok, err, ◌≡◌, ◌↔◌, ◌⊎◌, refl, arith,
}
use cosmos3_nano_web_ui.Preprocessing.Media.{MediaValidationError, plain, invalid_param}

abbrev pub known_checkpoints : List String
known_checkpoints = "fp8" ∷ "nvfp4" ∷ []

abbrev pub default_checkpoint : String
default_checkpoint = "fp8"

-- Of `COSMOS3_CHECKPOINT_LABEL`, if it is set.
unfoldable pub deployed_checkpoint : Option String → String
deployed_checkpoint none = default_checkpoint
deployed_checkpoint (some label) = if has known_checkpoints label then label else default_checkpoint

pub record OmniEndpoint : Type 0 where
  pub checkpoint : String
  pub container : String
  pub base_url : String

abbrev pub or_else : Option String → String → String
or_else none default = default
or_else (some value) default = value

-- Of the label, `COSMOS3_GEN_CONTAINER` and `COSMOS3_VLLM_OMNI_URL`.
unfoldable pub endpoint_for : Option String → Option String → Option String → OmniEndpoint
unfolding deployed_checkpoint
endpoint_for label container url = record {
  checkpoint = deployed_checkpoint label;
  container = or_else container "cosmos3-nano-webui-vllm-omni";
  base_url = or_else url "http://vllm-omni:8000";
}

-- Of the operator's label and the request's.
unfoldable pub resolve_checkpoint :
    Option String → Option String → Result MediaValidationError String
unfolding deployed_checkpoint
resolve_checkpoint label none = ok (deployed_checkpoint label)
resolve_checkpoint label (some checkpoint) =
    if str_eq checkpoint ""
    then ok (deployed_checkpoint label)
    else if not (has known_checkpoints checkpoint)
    then err (plain invalid_param)
    else if not (str_eq checkpoint (deployed_checkpoint label))
    then err (plain invalid_param)
    else ok (deployed_checkpoint label)

-- The deployed label is a known one, whatever the operator's variable says.
deployed_checkpoint_known :
    (label : Option String) → has known_checkpoints (deployed_checkpoint label) ≡ true
unfolding deployed_checkpoint
deployed_checkpoint_known none = refl
deployed_checkpoint_known (some label) = go (has known_checkpoints label) refl
  where
    go :
        (b : Bool)
        → has known_checkpoints label ≡ b
        → has known_checkpoints (if b then label else default_checkpoint) ≡ true
    go true e = e
    go false e = refl

-- A request without a label, or with the deployed one, is served the deployed checkpoint; any other
-- label is refused.
resolve_checkpoint_iff :
    (label checkpoint : Option String) (served : String)
    → (resolve_checkpoint label checkpoint ≡ ok served) ↔ (
        (served ≡ deployed_checkpoint label)
        × ((checkpoint ≡ none)
            ⊎ (checkpoint ≡ some "")
            ⊎ (checkpoint ≡ some (deployed_checkpoint label))))
unfolding resolve_checkpoint
resolve_checkpoint_iff label none served = ground arith
resolve_checkpoint_iff label (some c) served =
    let known = deployed_checkpoint_known label in
    ground (arith, eq_iff c "", eq_iff c (deployed_checkpoint label))

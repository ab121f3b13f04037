-- ===== src/Engines/Preflight.antt =====
-- api/engines/vllm/reasoner_preflight.py: whether the headers of a checkpoint are those of a reasoner
-- that can be served. A header maps a name to the dtype that its entry has, if it has one. The upper
-- case of a text is an argument, and so is what reading a file brings.
pub mod Servable
use text.Mathlib.Text.{find?, starts_with}
use cosmos3_nano_web_ui.Common.{
  ℕ, ltb, leb, Bool, true, false, ◌&&◌, ◌||◌, not, Option, none, some, String, List, [], ◌∷◌, any,
  has, str_eq, if◌then◌else◌, Result, ok, err, ◌>>=◌,
}
use cosmos3_nano_web_ui.Common.Dict
use cosmos3_nano_web_ui.Common.Dict.{Dict}
use cosmos3_nano_web_ui.Checkpoint.Probe.{ends_with}

abbrev pub keep : List String
keep =
    "layers." ∷ "embed_tokens." ∷ "norm." ∷ "lm_head." ∷ "blocks." ∷ "merger." ∷ "patch_embed."
    ∷ "pos_embed." ∷ "deepstack_merger_list." ∷ []

abbrev pub drop_substr : List String
drop_substr =
    "_moe_gen" ∷ ".add_q_proj." ∷ ".add_k_proj." ∷ ".add_v_proj." ∷ ".to_add_out."
    ∷ ".norm_added_q." ∷ ".norm_added_k." ∷ []

abbrev pub drop_prefix : List String
drop_prefix =
    "proj_in." ∷ "proj_out." ∷ "time_embedder." ∷ "audio_proj_in." ∷ "audio_proj_out."
    ∷ "action_proj_in." ∷ "action_proj_out." ∷ "audio_modality_embed" ∷ "action_modality_embed" ∷ []

abbrev pub quant_weight_dtypes : List String
quant_weight_dtypes = "F8_E4M3" ∷ "F8_E4M3FN" ∷ "F8_E5M2" ∷ "I8" ∷ "INT8" ∷ []

abbrev pub quant_sidecar_suffix : List String
quant_sidecar_suffix =
    "weight_packed" ∷ "weight_block_scale" ∷ "weight_global_scale" ∷ "weight_quantizer._amax"
    ∷ "weight_quantizer._scale" ∷ []

abbrev pub max_header_bytes : ℕ
max_header_bytes = 134217728

-- The codes with the tensor and the dtype; `broken` stands for any other exception of a read.
pub data Rejection : Type 0 where
  quantized_weight : String → String → Rejection
  quant_sidecar : String → Rejection
  empty_understanding_tower no_transformer_weights malformed_header broken : Rejection

-- `part in name`.
abbrev pub occurs : String → String → Bool
occurs part name = elim (find? name part) [ none ↦ false | some i ↦ true ]

unfoldable pub is_dropped : String → Bool
is_dropped name = any (λ s. occurs s name) drop_substr || any (λ p. starts_with name p) drop_prefix

unfoldable pub is_kept : String → Bool
unfolding is_dropped
is_kept name = any (λ p. starts_with name p) keep && not (is_dropped name)

abbrev pub Headers : Type 0
Headers = Dict (Option String)

-- `meta.get("dtype", "")`.
abbrev pub or_empty : Option String → String
or_empty none = ""
or_empty (some d) = d

-- The loop of `reasoner_source_verdict`, `kept_weight_seen` with it.
unfoldable pub verdict_loop : (String → String) → Bool → Headers → Option Rejection
unfolding is_kept ends_with
verdict_loop upper seen [] = if seen then none else some empty_understanding_tower
verdict_loop upper seen ((name, meta) ∷ more) =
    let skipped = verdict_loop upper seen more in
    let counted = verdict_loop upper true more in
    let dtype = upper (or_empty meta) in
    if not (is_kept name)
    then skipped
    else if any (λ s. ends_with name s) quant_sidecar_suffix
    then some (quant_sidecar name)
    else if ends_with name ".weight"
    then if has quant_weight_dtypes dtype then some (quantized_weight name dtype) else counted
    else skipped

unfoldable pub reasoner_source_verdict : (String → String) → Headers → Option Rejection
unfolding verdict_loop
reasoner_source_verdict upper headers = verdict_loop upper false headers

-- What a read of a file brings: its declared length, and its header if the rest of the read succeeds.
-- A file without eight bytes to declare a length is not one of these.
pub record File : Type 0 where
  pub declared : ℕ
  pub header : Option Headers

-- `header.pop("__metadata__", None)`.
abbrev pub without_metadata : Headers → Headers
without_metadata [] = []
without_metadata ((name, meta) ∷ more) =
    let rest = without_metadata more in
    if str_eq name "__metadata__" then rest else (name, meta) ∷ rest

unfoldable pub read_safetensors_header : File → Result Rejection Headers
read_safetensors_header file =
    if ltb 0 file.declared && leb file.declared max_header_bytes
    then elim file.header [ none ↦ err broken | some h ↦ ok (without_metadata h) ]
    else err malformed_header

-- `merged.update(header)`.
abbrev pub update : Headers → Headers → Headers
update merged [] = merged
update merged ((name, meta) ∷ more) = update (Dict.put merged name meta) more

abbrev pub merge : Headers → List File → Result Rejection Headers
merge merged [] = ok merged
merge merged (file ∷ more) =
    read_safetensors_header file >>= (λ header. merge (update merged header) more)

-- Over the files of the directory, sorted.
unfoldable pub read_transformer_headers : List File → Result Rejection Headers
unfolding read_safetensors_header Dict.put
read_transformer_headers [] = err no_transformer_weights
read_transformer_headers (file ∷ more) = merge [] (file ∷ more)

-- No answer, or the rejection that is raised.
unfoldable pub assert_reasoner_source : (String → String) → List File → Option Rejection
unfolding read_transformer_headers reasoner_source_verdict
assert_reasoner_source upper files = elim (read_transformer_headers files) [
  | err e ↦ some e
  | ok headers ↦ reasoner_source_verdict upper headers
]

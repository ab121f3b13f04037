-- ===== src/Checkpoint/Probe.antt =====
-- The checks of tools/checkpoint_prep/integrity_probe.py. A problem is its kind and the name that it
-- is about. The regular expression of the quantized targets is an argument, `mlp_target`.
pub mod Accepts
pub mod Changed
use Prim.Native.String as Text
use text.Mathlib.Text as Slices
use cosmos3_nano_web_ui.Common.{
  ℕ, ◌+◌, ◌-◌, ltb, ◌==◌, ℤ, pos, negsuc, Bool, true, false, ◌&&◌, ◌||◌, not, Option, none, some,
  String, List, [], ◌∷◌, ◌++◌, any, has, length, select, str_eq, if◌then◌else◌,
}
use cosmos3_nano_web_ui.Common.Dict
use cosmos3_nano_web_ui.Common.Dict.{Dict}
use cosmos3_nano_web_ui.Checkpoint.Bytes.{Entry}
use cosmos3_nano_web_ui.Checkpoint.Mutation.{
  Config, action_tensors, dropped_lmhead, added_tensors, expected_shapes, fits, is_bf16, names,
}
use cosmos3_nano_web_ui.Checkpoint.Sidecars.{
  QuantizationConfig, QuantizerMapDiff, MixedPrecision, mixed_or_empty, listed,
}

pub data Problem : Type 0 where
  action_missing action_dtype action_shape : String → Problem
  head_not_bf16 embedding_not_bf16 : Problem
  quantized_outside : String → Problem
  count_differs : Problem
  tensor_missing tensor_changed sidecar_present added_missing : String → Problem
  action_gen_off recipe_changed head_quantized head_listed keys_dropped : Problem
  source_missing source_differs : String → Problem
  pickles : List String → Problem

-- `s.endswith(t)`.
unfoldable pub ends_with : String → String → Bool
ends_with s t =
    if ltb (Text.len s) (Text.len t)
    then false
    else elim (Slices.get? s (Text.len s - Text.len t) (Text.len s)) [
      | none ↦ false
      | some r ↦ str_eq r t
    ]

abbrev pub quant_sidecars : List String
quant_sidecars =
    "weight_quantizer._amax" ∷ "weight_quantizer._scale" ∷ "weight_packed" ∷ "weight_block_scale"
    ∷ "weight_global_scale" ∷ []

-- `_is_quant`.
unfoldable pub is_quant : String → Entry → Bool
unfolding ends_with
is_quant name e = str_eq e.dtype "F8_E4M3" || any (λ s. ends_with name s) quant_sidecars

abbrev pub problem_if : Bool → Problem → List Problem
problem_if true p = p ∷ []
problem_if false p = []

-- One round of `check_action_set`; the expected shapes have all five names.
unfoldable pub check_action : Dict (List ℕ) → Dict Entry → String → List Problem
check_action expected header a = elim (Dict.get header a) [
  | none ↦ action_missing a ∷ []
  | some e ↦
      problem_if (not (str_eq e.dtype "BF16")) (action_dtype a)
      ++ problem_if (not (fits (Dict.get expected a) e.shape)) (action_shape a)
]

abbrev pub each : (String → List Problem) → List String → List Problem
each check [] = []
each check (n ∷ ns) = check n ++ each check ns

unfoldable pub check_action_set : Dict Entry → Config → List Problem
unfolding check_action expected_shapes
check_action_set header cfg = each (check_action (expected_shapes cfg) header) action_tensors

abbrev pub outside : (String → Bool) → Dict Entry → List Problem
outside mlp_target [] = []
outside mlp_target ((n, e) ∷ d) =
    problem_if (is_quant n e && not (mlp_target n)) (quantized_outside n) ++ outside mlp_target d

unfoldable pub check_inv7_structure : (String → Bool) → Dict Entry → List Problem
unfolding is_quant
check_inv7_structure mlp_target header =
    problem_if (not (is_bf16 (Dict.get header "lm_head.weight"))) head_not_bf16
    ++ (problem_if (not (is_bf16 (Dict.get header "embed_tokens.weight"))) embedding_not_bf16
        ++ outside mlp_target header)

-- The number of F8 weight tensors.
unfoldable pub f8_weights : Dict Entry → ℕ
unfolding ends_with
f8_weights [] = 0
f8_weights ((n, e) ∷ d) =
    (if ends_with n ".weight" && str_eq e.dtype "F8_E4M3" then 1 else 0) + f8_weights d

abbrev pub is_count : ℤ → ℕ → Bool
is_count (pos m) n = n == m
is_count (negsuc m) n = false

unfoldable pub check_quantized_count : Dict Entry → QuantizationConfig → List Problem
unfolding f8_weights
check_quantized_count header qc = elim (mixed_or_empty qc.mixed_precision).n_quantized [
  | none ↦ []
  | some declared ↦ problem_if (not (is_count declared (f8_weights header))) count_differs
]

abbrev pub missing_names : (String → Problem) → Dict String → List String → List Problem
missing_names p hashes ns = each (λ n. problem_if (not (has (names hashes) n)) (p n)) ns

-- A digest of before against those of after.
abbrev pub check_digest : Dict String → String → String → List Problem
check_digest post n h = if has dropped_lmhead n then [] else elim (Dict.get post n) [
  | none ↦ tensor_missing n ∷ []
  | some d ↦ problem_if (not (str_eq d h)) (tensor_changed n)
]

abbrev pub check_digests : Dict String → Dict String → List Problem
check_digests post [] = []
check_digests post ((n, h) ∷ pre) = check_digest post n h ++ check_digests post pre

-- Of the three names of the head, those that end in `._amax` or `._scale`.
abbrev pub head_sidecars : List String
head_sidecars = "lm_head.weight_quantizer._amax" ∷ "lm_head.weight_quantizer._scale" ∷ []

unfoldable pub check_scoped_byte_identity : Dict String → Dict String → List Problem
check_scoped_byte_identity pre post =
    check_digests post pre
    ++ (each (λ n. problem_if (has (names post) n) (sidecar_present n)) head_sidecars
        ++ missing_names added_missing post added_tensors)

abbrev pub is_false : Option Bool → Bool
is_false (some false) = true
is_false _ = false

abbrev pub is_true : Option Bool → Bool
is_true (some true) = true
is_true _ = false

abbrev pub is_text : Option String → String → Bool
is_text none t = false
is_text (some s) t = str_eq s t

abbrev pub is_nonempty : Option (List String) → Bool
is_nonempty none = false
is_nonempty (some []) = false
is_nonempty (some (x ∷ xs)) = true

-- `check_sidecars`; `action_gen` is the key of the transformer's configuration.
unfoldable pub check_sidecars : Option Bool → QuantizationConfig → QuantizerMapDiff → List Problem
check_sidecars action_gen qc qmd =
    problem_if (not (is_true action_gen)) action_gen_off
    ++ (problem_if (not (is_text qc.recipe "fp8_blockwise_mixed")) recipe_changed
        ++ (problem_if (not (is_false qc.quant_lmhead)) head_quantized
            ++ (problem_if (has (listed (mixed_or_empty qc.mixed_precision).quantized) "lm_head")
                  head_listed
                ++ problem_if (is_nonempty qmd.dropped_action_keys) keys_dropped)))

abbrev pub check_source_digest : Dict String → Dict String → String → List Problem
check_source_digest post source n = elim (Dict.get source n) [
  | none ↦ source_missing n ∷ []
  | some h ↦ problem_if (not (is_text (Dict.get post n) h)) (source_differs n)
]

unfoldable pub check_source_identity : Dict String → Dict String → List Problem
check_source_identity post source = each (check_source_digest post source) added_tensors

-- `check_pickle_free` of the names of the files with the suffix `.pt`, `.pkl` or `.bin`, in order.
unfoldable pub check_pickle_free : List String → List Problem
check_pickle_free found =
    let unexpected = select (λ p. not (str_eq p "modelopt_state.pt")) found in
    elim unexpected [ [] ↦ [] | x ∷ xs ↦ pickles (x ∷ xs) ∷ [] ]

abbrev pub byte_checks : Option (Dict String) → Dict String → List Problem
byte_checks none post = []
byte_checks (some pre) post = check_scoped_byte_identity pre post

abbrev pub source_checks : Option (Dict String) → Dict String → List Problem
source_checks none post = []
source_checks (some source) post = check_source_identity post source

-- The problems that `probe_checkpoint` finds; the digests of before and of the source are there where
-- the caller gives a backup and a source.
unfoldable pub probe_checkpoint :
    (String → Bool)
    → Dict Entry
    → Config
    → Option Bool
    → QuantizationConfig
    → QuantizerMapDiff
    → List String
    → Dict String
    → Option (Dict String)
    → Option (Dict String)
    → List Problem
unfolding check_action_set check_inv7_structure check_quantized_count check_sidecars
    check_pickle_free check_scoped_byte_identity check_source_identity
probe_checkpoint mlp_target header cfg action_gen qc qmd files post pre source =
    check_action_set header cfg
    ++ (check_inv7_structure mlp_target header
        ++ (check_quantized_count header qc
            ++ (check_sidecars action_gen qc qmd
                ++ (check_pickle_free files
                    ++ (byte_checks pre post ++ source_checks source post)))))

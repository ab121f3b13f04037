-- ===== src/Checkpoint/Sidecars.antt =====
-- `updated_sidecars` of tools/checkpoint_prep/mutation.py. The two JSON files are taken with the keys
-- that the tools read and write; a key that may be missing is an option, an entry of the example
-- shapes is its `module_example`, where it has one. The two constant notes are left out.
use cosmos3_nano_web_ui.Common.{
  ℕ, ◌+◌, ◌-◌, ℤ, pos, negsuc, Bool, true, false, not, Option, none, some, String, List, [], ◌∷◌,
  select, str_eq, if◌then◌else◌, leb,
}
use cosmos3_nano_web_ui.Common.Dict.{Dict}
use cosmos3_nano_web_ui.Checkpoint.Mutation.{action_tensors}

pub record MixedPrecision : Type 0 where
  pub quantized : Option (List String)
  pub n_quantized : Option ℤ

pub record ScaleLayout : Type 0 where
  pub n_quantized_weight : Option ℤ
  pub n_scale : Option ℤ
  pub total_scale_elements : Option ℤ
  pub example_shapes : Option (Dict (Option String))

pub record QuantizationConfig : Type 0 where
  pub recipe : Option String
  pub quant_lmhead : Option Bool
  pub mixed_precision : Option MixedPrecision
  pub scale_layout : Option ScaleLayout

pub record QuantizerMapDiff : Type 0 where
  pub n_weight_quantized : Option ℤ
  pub expected_quantized_count : Option ℤ
  pub dropped_action_keys : Option (List String)
  pub appended_action_keys : Option (List String)
  pub lm_head_restored_bf16 : Option Bool

-- `z - n`.
abbrev pub minus : ℤ → ℕ → ℤ
minus (pos m) n = if leb n m then pos (m - n) else negsuc (n - m - 1)
minus (negsuc m) n = negsuc (m + n)

-- `2 * z`.
abbrev pub twice : ℤ → ℤ
twice (pos m) = pos (m + m)
twice (negsuc m) = negsuc (m + m + 1)

-- `if key in d: d[key] = d[key] - n`.
abbrev pub lowered : Option ℤ → ℕ → Option ℤ
lowered none n = none
lowered (some z) n = some (minus z n)

abbrev pub listed : Option (List String) → List String
listed none = []
listed (some xs) = xs

abbrev pub mixed_or_empty : Option MixedPrecision → MixedPrecision
mixed_or_empty none = record { quantized = none; n_quantized = none }
mixed_or_empty (some mp) = mp

abbrev pub is_head : Option String → Bool
is_head none = false
is_head (some m) = str_eq m "lm_head"

-- The example shapes but those of the head.
abbrev pub kept_examples : Dict (Option String) → Dict (Option String)
kept_examples [] = []
kept_examples ((k, v) ∷ d) = let rest = kept_examples d in if is_head v then rest else (k, v) ∷ rest

abbrev pub filtered : Option (Dict (Option String)) → Option (Dict (Option String))
filtered none = none
filtered (some d) = some (kept_examples d)

-- `n_scale` is written only where `n_quantized_weight` is there.
abbrev pub new_scale : Option ℤ → Option ℤ → Option ℤ
new_scale none old = old
new_scale (some z) old = some (twice (minus z 1))

unfoldable pub updated_layout : ℕ → Option ScaleLayout → Option ScaleLayout
updated_layout removed none = none
updated_layout removed (some sl) = some record {
  n_quantized_weight = lowered sl.n_quantized_weight 1;
  n_scale = new_scale sl.n_quantized_weight sl.n_scale;
  total_scale_elements = lowered sl.total_scale_elements removed;
  example_shapes = filtered sl.example_shapes;
}

unfoldable pub updated_mixed : Option MixedPrecision → MixedPrecision
updated_mixed mp = record {
  quantized = some (select (λ p. not (str_eq p "lm_head")) (listed (mixed_or_empty mp).quantized));
  n_quantized = lowered (mixed_or_empty mp).n_quantized 1;
}

unfoldable pub updated_config : ℕ → QuantizationConfig → QuantizationConfig
unfolding updated_layout updated_mixed
updated_config removed qc = record {
  recipe = qc.recipe;
  quant_lmhead = some false;
  mixed_precision = some (updated_mixed qc.mixed_precision);
  scale_layout = updated_layout removed qc.scale_layout;
}

unfoldable pub updated_diff : QuantizerMapDiff → QuantizerMapDiff
updated_diff qmd = record {
  n_weight_quantized = lowered qmd.n_weight_quantized 1;
  expected_quantized_count = lowered qmd.expected_quantized_count 1;
  dropped_action_keys = some [];
  appended_action_keys = some action_tensors;
  lm_head_restored_bf16 = some true;
}

unfoldable pub updated_sidecars :
    QuantizationConfig → QuantizerMapDiff → ℕ → QuantizationConfig × QuantizerMapDiff
unfolding updated_config updated_diff
updated_sidecars qc qmd removed = (updated_config removed qc, updated_diff qmd)

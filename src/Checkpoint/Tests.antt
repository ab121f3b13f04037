-- ===== src/Checkpoint/Tests.antt =====
-- A small checkpoint, its rewrite, and instances of the theorems on the checkpoint tools.
use cosmos3_nano_web_ui.Common.{
  ℕ, ◌+◌, ◌-◌, ◌%◌, ◌==◌, pos, Bool, true, false, not, ◌&&◌, Option, none, some, String, List, [],
  ◌∷◌, ◌++◌, In, All, has, length, if◌then◌else◌, ◌≡◌, refl, sym, ap, ◌∙◌, subst, ◌↔◌, inl, inr,
  arith, Result, ok, map,
}
use cosmos3_nano_web_ui.Common.Dict
use cosmos3_nano_web_ui.Common.Dict.{Dict}
use cosmos3_nano_web_ui.Checkpoint.Bytes.{
  Entry, Header, Failure, parse_header, build_header_bytes, read_header_file, of_little_endian,
}
use cosmos3_nano_web_ui.Checkpoint.Bytes.Wire.{parse_header-build_header_bytes}
use cosmos3_nano_web_ui.Checkpoint.Mutation.{
  Config, MutationPlan, Layout, names, is_mutated, added_tensors, action_tensors, expected_shapes,
  plan_mutation, origin, place, sort_by, insert_by, check_sources, check_source, build_layout,
}
use cosmos3_nano_web_ui.Checkpoint.Mutation.Order.{is_distinct-Distinct, has_iff}
use cosmos3_nano_web_ui.Checkpoint.Mutation.Planned.{Fit, plan_of, plan_mutation_iff}
use cosmos3_nano_web_ui.Checkpoint.Mutation.Laid.{LaidOut, key_of, build_layout-plan_mutation}
use cosmos3_nano_web_ui.Checkpoint.Rewrite.{
  Located, entries_of, prepare, resolve_source_tensors, scan_shards, dropped_scale_elements,
  elem_count,
}
use cosmos3_nano_web_ui.Checkpoint.Rewrite.Payload.{Holds}
use cosmos3_nano_web_ui.Checkpoint.Rewrite.Verified.{bytes_of}
use cosmos3_nano_web_ui.Checkpoint.Rewrite.Committed.{prepare-Holds}
use cosmos3_nano_web_ui.Checkpoint.Sidecars.{QuantizationConfig, QuantizerMapDiff, updated_sidecars}
use cosmos3_nano_web_ui.Checkpoint.Probe.{
  check_scoped_byte_identity, check_sidecars, check_action_set, head_sidecars, is_true,
}
use cosmos3_nano_web_ui.Checkpoint.Probe.Accepts.{
  Kept, check_scoped_byte_identity_iff, check_sidecars-updated_sidecars,
}
use cosmos3_nano_web_ui.Checkpoint.Probe.Changed.{check_action_set-build_layout}
use cosmos3_nano_web_ui.Checkpoint.Copy.{CopyPlan, inventory, item_of, plan_copy}
use cosmos3_nano_web_ui.Checkpoint.Copy.Complete.{Exists, Outside, plan_copy_iff}

abbrev apart : List String → List String → Bool
apart [] ys = true
apart (x ∷ xs) ys = not (has ys x) && apart xs ys

apart_lem : (xs ys : List String) → apart xs ys ≡ true → (n : String) → In n xs → In n ys → ⊥
apart_lem [] ys h n a b = absurd a
apart_lem (x ∷ xs) ys h n (inl e) b =
    let there = (has_iff ys x).1 (subst (λ m. In m ys) (sym e) b) in ground arith
apart_lem (x ∷ xs) ys h n (inr a) b = apart_lem xs ys (ground arith) n a b

abbrev entry : String → List ℕ → ℕ → ℕ → Entry
entry dtype shape first last = record { dtype = dtype; shape = shape; first = first; last = last }

abbrev sizes : Config
sizes = record { hidden_size = 1; action_dim = 1; num_embodiment_domains = 1; vocab_size = 1 }

-- The FP8 checkpoint: a head with its scale, and a layer that stands before it in the file.
abbrev fp8_header : Header
fp8_header = record {
  tensors =
      ("lm_head.weight", entry "F8_E4M3" (1 ∷ 1 ∷ []) 2 3)
      ∷ ("lm_head.weight_quantizer._scale", entry "F32" (1 ∷ []) 3 4)
      ∷ ("layers.0.mlp.up.weight", entry "F8_E4M3" (2 ∷ []) 0 2)
      ∷ [];
  metadata = none;
}

-- A shard of the BF16 source.
abbrev shard_header : Header
shard_header = record {
  tensors =
      ("action_modality_embed", entry "BF16" (1 ∷ []) 0 1)
      ∷ ("action_proj_in.bias.weight", entry "BF16" (1 ∷ 1 ∷ []) 1 2)
      ∷ ("action_proj_in.fc.weight", entry "BF16" (1 ∷ 1 ∷ []) 2 3)
      ∷ ("action_proj_out.bias.weight", entry "BF16" (1 ∷ 1 ∷ []) 3 4)
      ∷ ("action_proj_out.fc.weight", entry "BF16" (1 ∷ 1 ∷ []) 4 5)
      ∷ ("lm_head.weight", entry "BF16" (1 ∷ 1 ∷ []) 5 7)
      ∷ [];
  metadata = none;
}

-- The header of the new file.
abbrev laid_entries : Dict Entry
laid_entries =
    ("layers.0.mlp.up.weight", entry "F8_E4M3" (2 ∷ []) 0 2)
    ∷ ("action_modality_embed", entry "BF16" (1 ∷ []) 2 3)
    ∷ ("action_proj_in.bias.weight", entry "BF16" (1 ∷ 1 ∷ []) 3 4)
    ∷ ("action_proj_in.fc.weight", entry "BF16" (1 ∷ 1 ∷ []) 4 5)
    ∷ ("action_proj_out.bias.weight", entry "BF16" (1 ∷ 1 ∷ []) 5 6)
    ∷ ("action_proj_out.fc.weight", entry "BF16" (1 ∷ 1 ∷ []) 6 7)
    ∷ ("lm_head.weight", entry "BF16" (1 ∷ 1 ∷ []) 7 9)
    ∷ []

-- A writer and a reader for these three headers: a header's text is one byte.
abbrev dumps : Header → List ℕ
dumps h = 3 ∷ []

abbrev loads : List ℕ → Option Header
loads [] = none
loads (b ∷ bs) =
    if b == 1
    then some fp8_header
    else if b == 2
    then some shard_header
    else some record { tensors = laid_entries; metadata = none }

abbrev fp8_file : List ℕ
fp8_file = 1 ∷ 0 ∷ 0 ∷ 0 ∷ 0 ∷ 0 ∷ 0 ∷ 0 ∷ 1 ∷ 11 ∷ 12 ∷ 13 ∷ 14 ∷ []

abbrev shard : List ℕ
shard = 1 ∷ 0 ∷ 0 ∷ 0 ∷ 0 ∷ 0 ∷ 0 ∷ 0 ∷ 2 ∷ 21 ∷ 22 ∷ 23 ∷ 24 ∷ 25 ∷ 26 ∷ 27 ∷ []

abbrev at : Entry → Located
at e = record { file = shard; data_start = 9; entry = e }

abbrev located : Dict Located
located =
    ("action_modality_embed", at (entry "BF16" (1 ∷ []) 0 1))
    ∷ ("action_proj_in.bias.weight", at (entry "BF16" (1 ∷ 1 ∷ []) 1 2))
    ∷ ("action_proj_in.fc.weight", at (entry "BF16" (1 ∷ 1 ∷ []) 2 3))
    ∷ ("action_proj_out.bias.weight", at (entry "BF16" (1 ∷ 1 ∷ []) 3 4))
    ∷ ("action_proj_out.fc.weight", at (entry "BF16" (1 ∷ 1 ∷ []) 4 5))
    ∷ ("lm_head.weight", at (entry "BF16" (1 ∷ 1 ∷ []) 5 7))
    ∷ []

abbrev members : List String
members = names fp8_header.tensors

abbrev planned : MutationPlan
planned = plan_of members

abbrev digest : List ℕ → String
digest bytes = if length bytes == 1 then "one" else "more"

abbrev layer_order : List String
layer_order = "layers.0.mlp.up.weight" ∷ added_tensors

plan_made : plan_mutation members fp8_header.tensors (entries_of located) sizes ≡ ok planned
unfolding plan_mutation check_sources check_source expected_shapes Dict.get
plan_made = refl

kept_order : sort_by (key_of fp8_header.tensors) planned.keep ≡ "layers.0.mlp.up.weight" ∷ []
unfolding sort_by insert_by
kept_order = refl

placed :
    place (origin planned fp8_header.tensors (entries_of located)) layer_order 0 []
    ≡ ok (laid_entries, 9)
unfolding place Dict.get Dict.put
placed = refl

placed_only :
    (d : Dict Entry) (e : ℕ)
    → place (origin planned fp8_header.tensors (entries_of located)) layer_order 0 [] ≡ ok (d, e)
    → laid_entries ≡ d
placed_only d e h =
    let q : ◌≡◌ {A = Result Failure (Dict Entry × ℕ)} (ok (laid_entries, 9)) (ok (d, e)) =
      sym placed ∙ h in
    let r : ◌≡◌ {A = Dict Entry × ℕ} (laid_entries, 9) (d, e) = cc in
    ap (λ (p : Dict Entry × ℕ). p.0) r

bare : (n : String) → In n action_tensors → In n (names fp8_header.tensors) → ⊥
bare = apart_lem action_tensors (names fp8_header.tensors) refl

fp8_read : read_header_file loads fp8_file ≡ ok (fp8_header, 1)
unfolding read_header_file of_little_endian
fp8_read = refl

shards_read : resolve_source_tensors loads (shard ∷ []) added_tensors ≡ ok located
unfolding resolve_source_tensors scan_shards read_header_file of_little_endian Dict.get Dict.put
shards_read = refl

parse_header-build_header_bytes_example :
    (bytes : List ℕ) × (build_header_bytes (λ h. 1 ∷ []) fp8_header ≡ ok bytes)
    × (length bytes % 8 ≡ 0)
    × (parse_header loads (bytes ++ (11 ∷ 12 ∷ [])) ≡ ok (fp8_header, length bytes - 8))
parse_header-build_header_bytes_example =
    parse_header-build_header_bytes (λ h. 1 ∷ []) loads fp8_header (11 ∷ 12 ∷ []) (λ n. refl)
      (omega arith)

plan_mutation_iff_example :
    ((plan : MutationPlan)
      → plan_mutation members fp8_header.tensors (entries_of located) sizes ≡ ok plan
      → (is_mutated fp8_header.tensors ≡ false)
        × All (Fit (expected_shapes sizes) (entries_of located)) added_tensors
        × (plan ≡ planned))
    × (is_mutated fp8_header.tensors ≡ false
        → All (Fit (expected_shapes sizes) (entries_of located)) added_tensors
        → plan_mutation members fp8_header.tensors (entries_of located) sizes ≡ ok planned)
plan_mutation_iff_example = plan_mutation_iff members fp8_header.tensors (entries_of located) sizes

layout_laid : LaidOut dumps fp8_header.tensors (entries_of located) planned
layout_laid =
    build_layout-plan_mutation dumps members fp8_header.tensors (entries_of located) sizes planned
      (is_distinct-Distinct members refl) (λ n. (λ h. h, λ h. h)) (omega arith) (omega arith) bare
      (λ d e h. omega arith) plan_made

build_layout-plan_mutation_example : LaidOut dumps fp8_header.tensors (entries_of located) planned
build_layout-plan_mutation_example =
    build_layout-plan_mutation dumps members fp8_header.tensors (entries_of located) sizes planned
      (is_distinct-Distinct members refl) (λ n. (λ h. h, λ h. h)) (omega arith) (omega arith) bare
      (λ d e h. omega arith) plan_made

check_action_set-build_layout_example : check_action_set (layout_laid.0).entries sizes ≡ []
check_action_set-build_layout_example =
    check_action_set-build_layout dumps members fp8_header.tensors (entries_of located) sizes
      planned (layout_laid.0) (is_distinct-Distinct members refl) (λ n. (λ h. h, λ h. h))
      (omega arith) (omega arith) bare (λ d e h. omega arith) plan_made (layout_laid.1)

prepare-Holds_example :
    (layout : Layout) × (out : List ℕ) × (k : ℕ) × (build_layout dumps planned fp8_header.tensors
        (entries_of located)
      ≡ ok layout)
    × (prepare dumps loads digest (λ l. l) true fp8_file (shard ∷ []) sizes
        ≡ ok record { plan = planned; layout = layout; output = out })
    × (read_header_file loads out ≡ ok (record { tensors = layout.entries; metadata = none }, k))
    × All
        (Holds (bytes_of fp8_file (8 + 1) fp8_header.tensors located planned.keep) out (8 + k))
        layout.entries
prepare-Holds_example =
    prepare-Holds dumps loads digest (λ l. l) fp8_file (shard ∷ []) sizes fp8_header 1 located
      planned fp8_read shards_read plan_made (is_distinct-Distinct members refl)
      (λ n. (λ h. h, λ h. h)) bare (omega arith) (omega arith) (λ d e h. omega arith)
      (λ d e k h.
        ap (λ l. some record { tensors = l; metadata = none })
          (placed_only d e (
            subst
              (λ l.
                place (origin planned fp8_header.tensors (entries_of located)) (l ++ added_tensors)
                  0 []
                ≡ ok (d, e))
              kept_order h)))

abbrev before : Dict String
before = ("lm_head.weight", "a") ∷ ("embed_tokens.weight", "b") ∷ []

check_scoped_byte_identity_iff_example : (check_scoped_byte_identity before before ≡ []) ↔ (
    Kept before before
    × All (λ n. In n (names before) → ⊥) head_sidecars
    × All (λ n. In n (names before)) added_tensors)
check_scoped_byte_identity_iff_example = check_scoped_byte_identity_iff before before

abbrev quantization : QuantizationConfig
quantization = record {
  recipe = some "fp8_blockwise_mixed";
  quant_lmhead = some true;
  mixed_precision = some record {
    quantized = some ("layers.0.mlp.up" ∷ "lm_head" ∷ []);
    n_quantized = some (pos 217);
  };
  scale_layout = none;
}

abbrev differences : QuantizerMapDiff
differences = record {
  n_weight_quantized = some (pos 217);
  expected_quantized_count = some (pos 217);
  dropped_action_keys = some ("action_modality_embed" ∷ []);
  appended_action_keys = none;
  lm_head_restored_bf16 = none;
}

-- The scale that the change drops has one element.
scale_dropped : dropped_scale_elements fp8_header.tensors ≡ 1
unfolding dropped_scale_elements elem_count Dict.get
scale_dropped = refl

check_sidecars-updated_sidecars_example :
    (check_sidecars
        (some true)
        (updated_sidecars quantization differences 5).0
        (updated_sidecars quantization differences 5).1
      ≡ [])
    ↔ ((is_true (some true) ≡ true) × (quantization.recipe ≡ some "fp8_blockwise_mixed"))
check_sidecars-updated_sidecars_example =
    check_sidecars-updated_sidecars (some true) quantization differences 5

plan_copy_iff_example :
    ((plan : CopyPlan)
      → plan_copy (λ p. true) "/dist" "/base" ≡ ok plan
      → All (Exists (λ p. true) "/base") inventory)
    × (All (Exists (λ p. true) "/base") inventory
        → plan_copy (λ p. true) "/dist" "/base"
          ≡ ok record {
            items = map (item_of "/dist" "/base") inventory;
            dst_dir = "/dist";
            source_dir = "/base";
          })
    × All Outside (map (item_of "/dist" "/base") inventory)
plan_copy_iff_example = plan_copy_iff (λ p. true) "/dist" "/base"

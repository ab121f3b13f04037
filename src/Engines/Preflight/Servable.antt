-- ===== src/Engines/Preflight/Servable.antt =====
-- Which headers the preflight of api/engines/vllm/reasoner_preflight.py lets pass.
use cosmos3_nano_web_ui.Common.{
  ◌<◌, ◌≤◌, ltb, leb, ◌&&◌, Bool, true, not, Option-cases, ok, err, Result-cases, length, subst,
  false, Option, none, some, String, List, [], ◌∷◌, any, has, All, ◌≡◌, ◌↔◌, ◌⊎◌, inl, inr, refl,
  if◌then◌else◌, arith, Bool-cases,
}
use cosmos3_nano_web_ui.Checkpoint.Probe.{ends_with}
use cosmos3_nano_web_ui.Engines.Preflight.{
  File, update, merge, read_safetensors_header, read_transformer_headers, assert_reasoner_source,
  max_header_bytes, Headers, Rejection, quant_sidecar, quantized_weight, is_kept, or_empty,
  quant_sidecar_suffix, quant_weight_dtypes, verdict_loop, reasoner_source_verdict,
}

-- A tensor that the reasoner keeps is no sidecar of a quantization and no quantized weight.
abbrev pub IsPlain : (String → String) → (String × Option String) → Type 0
IsPlain upper (name, meta) =
    is_kept name ≡ true
    → (any (λ s. ends_with name s) quant_sidecar_suffix ≡ false)
      × (ends_with name ".weight" ≡ true → has quant_weight_dtypes (upper (or_empty meta)) ≡ false)

-- Some weight is one that the reasoner keeps.
abbrev pub HasTower : Headers → Type 0
HasTower [] = ⊥
HasTower ((name, meta) ∷ more) =
    ((is_kept name ≡ true) × (ends_with name ".weight" ≡ true)) ⊎ HasTower more

-- One round of the loop, on what its tests answer.
round_iff :
    (k q w d seen : Bool) (s c : Option Rejection) (P T : Type 0) (a b : Rejection)
    → (s ≡ none) ↔ (P × ((seen ≡ true) ⊎ T))
    → (c ≡ none) ↔ (P × ((true ≡ true) ⊎ T))
    → ((if not k then s else if q then some a else if w then if d then some b else c else s) ≡ none)
      ↔ (((k ≡ true → (q ≡ false) × (w ≡ true → d ≡ false)) × P)
          × ((seen ≡ true) ⊎ (((k ≡ true) × (w ≡ true)) ⊎ T)))
round_iff false q w d seen s c P T a b f g = ground arith
round_iff true true w d seen s c P T a b f g = ground arith
round_iff true false true true seen s c P T a b f g = ground arith
round_iff true false true false seen s c P T a b f g = ground arith
round_iff true false false d seen s c P T a b f g = ground arith

verdict_loop_iff :
    (upper : String → String) (seen : Bool) (headers : Headers)
    → (verdict_loop upper seen headers ≡ none)
      ↔ (All (IsPlain upper) headers × ((seen ≡ true) ⊎ HasTower headers))
unfolding verdict_loop
verdict_loop_iff upper true [] = (λ h. (tt, inl refl), λ h. refl)
verdict_loop_iff upper false [] = (λ h. absurd (ground arith), λ h. absurd (ground arith))
verdict_loop_iff upper seen ((name, meta) ∷ more) =
    let dtype = upper (or_empty meta) in
    round_iff (is_kept name) (any (λ s. ends_with name s) quant_sidecar_suffix)
      (ends_with name ".weight") (has quant_weight_dtypes dtype) seen (verdict_loop upper seen more)
      (verdict_loop upper true more) (All (IsPlain upper) more) (HasTower more) (quant_sidecar name)
      (quantized_weight name dtype) (verdict_loop_iff upper seen more)
      (verdict_loop_iff upper true more)

reasoner_source_verdict_iff :
    (upper : String → String) (headers : Headers)
    → (reasoner_source_verdict upper headers ≡ none)
      ↔ (All (IsPlain upper) headers × HasTower headers)
unfolding reasoner_source_verdict
reasoner_source_verdict_iff upper headers =
    let whole = verdict_loop_iff upper false headers in ground arith

-- The file has a header of a plausible length, which can be read.
abbrev pub IsReadable : File → Type 0
IsReadable file =
    (0 < file.declared)
    × (file.declared ≤ max_header_bytes)
    × (h : Headers) × (file.header ≡ some h)

read_safetensors_header_lem :
    (file : File) (h : Headers) → read_safetensors_header file ≡ ok h → IsReadable file
unfolding read_safetensors_header
read_safetensors_header_lem file h e =
    elim (Bool-cases (ltb 0 file.declared && leb file.declared max_header_bytes)) [
      | inl t ↦ elim (Option-cases file.header) [
        | inl n ↦ absurd (go (rw (t, n) at e))
        | inr g ↦ (ground arith, ground arith, g.0, g.1)
      ]
      | inr f ↦ absurd (go (rw f at e))
    ]
  where
    go : {r : Rejection} → err r ≡ ok h → ⊥
    go q = ground arith

merge_lem :
    (merged h : Headers) (files : List File) → merge merged files ≡ ok h → All IsReadable files
merge_lem merged h [] e = tt
merge_lem merged h (file ∷ more) e = elim (Result-cases (read_safetensors_header file)) [
  | inl g ↦
      (read_safetensors_header_lem file g.0 g.1, merge_lem (update merged g.0) h more (rw g.1 at e))
  | inr b ↦ let q = rw b.1 at e in absurd (ground arith)
]

read_all_lem :
    (files : List File) (g : Headers)
    → read_transformer_headers files ≡ ok g
    → (0 < length files) × All IsReadable files
unfolding read_transformer_headers
read_all_lem [] g e = absurd (ground arith)
read_all_lem (file ∷ more) g e = (omega arith, merge_lem [] g (file ∷ more) e)

-- The preflight passes a directory exactly if its files merge to a header in which no tensor that the
-- reasoner keeps is a sidecar of a quantization or a weight of a quantized dtype, and in which it keeps
-- some weight. Then there is a file, and each file's declared length is at least 1 and at most 128 MiB.
pub assert_reasoner_source_iff :
    (upper : String → String) (files : List File)
    → ((assert_reasoner_source upper files ≡ none) ↔ (
        (h : Headers) × (read_transformer_headers files ≡ ok h)
        × All (IsPlain upper) h
        × HasTower h))
      × (assert_reasoner_source upper files ≡ none → (0 < length files) × All IsReadable files)
unfolding assert_reasoner_source
assert_reasoner_source_iff upper files = elim (Result-cases (read_transformer_headers files)) [
  | inl g ↦
      let whole = reasoner_source_verdict_iff upper g.0 in
      (
        (
          λ h. let p = whole.0 (rw (assert_reasoner_source, g.1) at h) in (g.0, g.1, p.0, p.1),
          λ h.
              let p = whole.1 (same g.0 h.0 g.1 h.1 (h.2, h.3)) in
              rw (assert_reasoner_source, g.1) p,
        ),
        λ h. read_all_lem files g.0 g.1,
      )
  | inr b ↦ (
    (
      λ h. let q = rw (assert_reasoner_source, b.1) at h in absurd (ground arith),
      λ h. absurd (ground (arith, h.1, b.1)),
    ),
    λ h. let q = rw (assert_reasoner_source, b.1) at h in absurd (ground arith),
  )
]
  where
    same :
        (g h : Headers)
        → read_transformer_headers files ≡ ok g
        → read_transformer_headers files ≡ ok h
        → All (IsPlain upper) h × HasTower h
        → All (IsPlain upper) g × HasTower g
    same g h p q r =
        let e : h ≡ g = ground arith in subst (λ x. All (IsPlain upper) x × HasTower x) e r

-- ===== src/Checkpoint/Rewrite.antt =====
-- tools/checkpoint_prep/rewrite.py up to the commit: the source tensors, the rewritten file and its
-- verification. Files are their bytes; a digest is a text, `sha` is SHA-256.
pub mod Payload
pub mod Tables
pub mod Verified
pub mod Intact
pub mod Committed
use cosmos3_nano_web_ui.Common.{
  ℕ, zero, suc, ◌+◌, ◌*◌, Bool, true, false, not, Option, none, some, String, List, [], ◌∷◌, ◌++◌,
  map, select, has, str_eq, if◌then◌else◌, Result, ok, err, ◌>>=◌,
}
use cosmos3_nano_web_ui.Common.Dict
use cosmos3_nano_web_ui.Common.Dict.{Dict}
use cosmos3_nano_web_ui.Checkpoint.Bytes.{
  Entry, Header, Failure, key_error, missing_source, kept_missing, kept_changed, added_missing,
  added_changed, dropped_present, build_header_bytes, read_header_file, copy_range, hash_tensor,
}
use cosmos3_nano_web_ui.Checkpoint.Mutation.{
  Config, MutationPlan, Layout, added_tensors, names, plan_mutation, build_layout,
}

-- A tensor of the source: the shard's bytes, where its data begin, and the entry.
pub record Located : Type 0 where
  pub file : List ℕ
  pub data_start : ℕ
  pub entry : Entry

-- The inner loop of `_resolve_source_tensors`: the first shard that has a name gives it.
abbrev pub locate_in : List ℕ → ℕ → Dict Entry → List String → Dict Located → Dict Located
locate_in file start tensors [] found = found
locate_in file start tensors (n ∷ ns) found =
    let here : Dict Located = elim (Dict.get tensors n) [
      | none ↦ found
      | some e ↦ elim (Dict.get found n) [
        | none ↦ Dict.put found n record { file = file; data_start = start; entry = e }
        | some l ↦ found
      ]
    ] in
    locate_in file start tensors ns here

unfoldable pub scan_shards :
    (List ℕ → Option Header)
    → List String
    → Dict Located
    → List (List ℕ)
    → Result Failure (Dict Located)
scan_shards loads wanted found [] = ok found
scan_shards loads wanted found (file ∷ more) = read_header_file loads file >>= (λ read.
    scan_shards loads wanted (locate_in file (8 + read.1) (read.0).tensors wanted found) more)

abbrev pub all_found : Dict Located → List String → Result Failure (Dict Located)
all_found found [] = ok found
all_found found (n ∷ ns) = elim (Dict.get found n) [
  | none ↦ err (missing_source n)
  | some l ↦ all_found found ns
]

-- `_resolve_source_tensors`; `shards` are the files of the source in the order of their names.
unfoldable pub resolve_source_tensors :
    (List ℕ → Option Header) → List (List ℕ) → List String → Result Failure (Dict Located)
unfolding scan_shards
resolve_source_tensors loads shards wanted =
    scan_shards loads wanted [] shards >>= (λ found. all_found found wanted)

-- `_elem_count`.
abbrev pub elements : List ℕ → ℕ
elements [] = 1
elements (d ∷ ds) = d * elements ds

unfoldable pub elem_count : Option Entry → ℕ
elem_count none = 0
elem_count (some e) = elements e.shape

-- One round of the loop of `_write_rewrite`.
unfoldable pub write_tensor :
    List ℕ → ℕ → Dict Entry → List String → Dict Located → String → List ℕ → Result Failure (List ℕ)
write_tensor fp8 fp8_start tensors keep srcmap name out =
    if has keep name
    then elim (Dict.get tensors name) [
      | none ↦ err (key_error name)
      | some e ↦ copy_range fp8 fp8_start e.first e.last out
    ]
    else elim (Dict.get srcmap name) [
      | none ↦ err (key_error name)
      | some l ↦ copy_range l.file l.data_start (l.entry).first (l.entry).last out
    ]

unfoldable pub write_all :
    (String → List ℕ → Result Failure (List ℕ)) → List String → List ℕ → Result Failure (List ℕ)
write_all write [] out = ok out
write_all write (n ∷ ns) out = write n out >>= (λ more. write_all write ns more)

-- `_write_rewrite`: the bytes of the new file.
unfoldable pub write_rewrite :
    (Header → List ℕ)
    → List ℕ
    → ℕ
    → Dict Entry
    → MutationPlan
    → Layout
    → Dict Located
    → Result Failure (List ℕ)
unfolding write_all write_tensor
write_rewrite dumps fp8 fp8_start tensors plan layout srcmap =
    build_header_bytes dumps record { tensors = layout.entries; metadata = none }
    >>= (λ head. write_all (write_tensor fp8 fp8_start tensors plan.keep srcmap) layout.order head)

-- A tensor of the new file has the digest that it is to have.
unfoldable pub check_tensor :
    (List ℕ → String)
    → (String → Failure)
    → (String → Failure)
    → List ℕ
    → ℕ
    → Dict Entry
    → Dict String
    → String
    → Result Failure String
check_tensor sha missing changed out start tensors digests name = elim (Dict.get tensors name) [
  | none ↦ err (missing name)
  | some e ↦ hash_tensor sha out start e >>= (λ digest. elim (Dict.get digests name) [
    | none ↦ err (key_error name)
    | some d ↦ if str_eq digest d then ok name else err (changed name)
  ])
]

unfoldable pub check_all :
    (String → Result Failure String) → List String → Result Failure (List String)
check_all check [] = ok []
check_all check (n ∷ ns) = check n >>= (λ m. check_all check ns >>= (λ ms. ok (m ∷ ms)))

abbrev pub check_gone : Dict Entry → String → Result Failure String
check_gone tensors name = if has (names tensors) name then err (dropped_present name) else ok name

-- `_verify_output`.
unfoldable pub verify_output :
    (List ℕ → Option Header)
    → (List ℕ → String)
    → List ℕ
    → MutationPlan
    → Dict String
    → Dict String
    → Result Failure (List String)
unfolding check_all check_tensor
verify_output loads sha out plan pre_hashes src_hashes = read_header_file loads out >>= (λ read.
    check_all
      (check_tensor sha kept_missing kept_changed out (8 + read.1) (read.0).tensors pre_hashes)
      plan.keep
    >>= (λ kept.
        check_all
          (check_tensor sha added_missing added_changed out (8 + read.1) (read.0).tensors
            src_hashes)
          plan.add
        >>= (λ added.
            check_all (check_gone (read.0).tensors)
              (select (λ n. not (has added_tensors n)) plan.discard))))

-- `{name: hash_tensor(...)}` over a list of names.
unfoldable pub digests :
    (String → Result Failure String) → List String → Result Failure (Dict String)
digests hash [] = ok []
digests hash (n ∷ ns) = hash n >>= (λ d. digests hash ns >>= (λ r. ok ((n, d) ∷ r)))

abbrev pub hash_kept : (List ℕ → String) → List ℕ → ℕ → Dict Entry → String → Result Failure String
hash_kept sha file start tensors name = elim (Dict.get tensors name) [
  | none ↦ err (key_error name)
  | some e ↦ hash_tensor sha file start e
]

abbrev pub hash_source : (List ℕ → String) → Dict Located → String → Result Failure String
hash_source sha srcmap name = elim (Dict.get srcmap name) [
  | none ↦ err (key_error name)
  | some l ↦ hash_tensor sha l.file l.data_start l.entry
]

abbrev pub entries_of : Dict Located → Dict Entry
entries_of [] = []
entries_of ((n, l) ∷ d) = (n, l.entry) ∷ entries_of d

-- What `apply_mutation` has before it commits.
pub record Prepared : Type 0 where
  pub plan : MutationPlan
  pub layout : Layout
  pub output : List ℕ

-- `apply_mutation` from the layout to the verified file.
unfoldable pub write_verified :
    (Header → List ℕ)
    → (List ℕ → Option Header)
    → (List ℕ → String)
    → Bool
    → List ℕ
    → ℕ
    → Dict Entry
    → Dict Located
    → MutationPlan
    → Layout
    → Result Failure Prepared
unfolding digests write_rewrite verify_output
write_verified dumps loads sha verify fp8 fp8_start tensors srcmap plan layout =
    digests (hash_kept sha fp8 fp8_start tensors) plan.keep >>= (λ pre.
      digests (hash_source sha srcmap) (names srcmap) >>= (λ given.
        write_rewrite dumps fp8 fp8_start tensors plan layout srcmap >>= (λ out.
          let done : Prepared = record { plan = plan; layout = layout; output = out } in
          if verify
          then verify_output loads sha out plan pre given >>= (λ checked. ok done)
          else ok done)))

-- `apply_mutation` up to the commit; `iterate` gives a set's members in the order of the set.
unfoldable pub prepare :
    (Header → List ℕ)
    → (List ℕ → Option Header)
    → (List ℕ → String)
    → (List String → List String)
    → Bool
    → List ℕ
    → List (List ℕ)
    → Config
    → Result Failure Prepared
unfolding resolve_source_tensors write_verified
prepare dumps loads sha iterate verify fp8 shards cfg = read_header_file loads fp8 >>= (λ read.
    resolve_source_tensors loads shards added_tensors >>= (λ srcmap.
      plan_mutation (iterate (names (read.0).tensors)) (read.0).tensors (entries_of srcmap) cfg
      >>= (λ plan. build_layout dumps plan (read.0).tensors (entries_of srcmap) >>= (λ layout.
          write_verified dumps loads sha verify fp8 (8 + read.1) (read.0).tensors srcmap plan
            layout))))

-- The number that `apply_mutation` hands to `updated_sidecars`: the elements of the dropped scales.
unfoldable pub dropped_scale_elements : Dict Entry → ℕ
unfolding elem_count
dropped_scale_elements tensors =
    elem_count (Dict.get tensors "lm_head.weight_quantizer._amax")
    + elem_count (Dict.get tensors "lm_head.weight_quantizer._scale")

-- ===== src/Checkpoint/Rewrite/Intact.antt =====
-- `apply_mutation` of tools/checkpoint_prep/rewrite.py up to its commit keeps every tensor's bytes.
use cosmos3_nano_web_ui.Common.{
  ℕ, ◌+◌, ◌^◌, ◌<◌, ◌≤◌, Bool, true, false, not, Option, none, some, String, List, [], ◌∷◌, ◌++◌,
  In, All, has, length, select, ◌≡◌, refl, sym, ap, ◌∙◌, subst, ◌⊎◌, inl, inr, Bool-cases, arith,
  Result, ok, err, ◌>>=◌, ◌↔◌, Result-cases,
}
use cosmos3_nano_web_ui.Common.Dict
use cosmos3_nano_web_ui.Common.Dict.{Dict}
use cosmos3_nano_web_ui.Checkpoint.Bytes.{
  Entry, Header, Failure, read_header_file, build_header_bytes, spaces,
}
use cosmos3_nano_web_ui.Checkpoint.Bytes.Wire.{
  read_header_file-build_header_bytes, build_header_bytes_lem, padded,
}
use cosmos3_nano_web_ui.Checkpoint.Bytes.{little_endian}
use cosmos3_nano_web_ui.Checkpoint.Mutation.{
  MutationPlan, Layout, names, added_tensors, origin, place, kept_ordered, build_layout,
}
use cosmos3_nano_web_ui.Checkpoint.Mutation.Order.{has_iff, In-select}
use cosmos3_nano_web_ui.Checkpoint.Mutation.Tiling.{
  Tiles, Tiles-get, Tiles-names, Tiles-ordered, In-names,
}
use cosmos3_nano_web_ui.Checkpoint.Mutation.Planned.{Fit}
use cosmos3_nano_web_ui.Checkpoint.Mutation.Laid.{Ordered}
use cosmos3_nano_web_ui.Checkpoint.Rewrite.{
  Located, write_tensor, write_all, write_rewrite, check_tensor, check_gone, verify_output,
  hash_kept, hash_source, entries_of, write_verified, kept_missing, kept_changed, added_missing,
  added_changed,
}
use cosmos3_nano_web_ui.Checkpoint.Rewrite.Payload.{Holds, write_all_lem}
use cosmos3_nano_web_ui.Checkpoint.Rewrite.Tables.{table, table-get, digests_lem, check_all_lem}
use cosmos3_nano_web_ui.Checkpoint.Rewrite.Verified.{
  Whole, WholeAt, Found, bytes_of, source_bytes, write_tensor_lem, hash_kept_lem, hash_source_lem,
  Measured_lem, check_tensor_lem,
}

pub Whole-Ordered :
    (fp8 : List ℕ) (start : ℕ) (d : Dict Entry) → All (Whole fp8 start) d → All Ordered d
Whole-Ordered fp8 start [] a = tt
Whole-Ordered fp8 start ((n, e) ∷ d) a = ((a.0).0, Whole-Ordered fp8 start d a.1)

pub WholeAt-Ordered : (d : Dict Located) → All WholeAt d → All Ordered (entries_of d)
WholeAt-Ordered [] a = tt
WholeAt-Ordered ((n, l) ∷ d) a = ((a.0).0, WholeAt-Ordered d a.1)

pub Fit-get :
    (expected : Dict (List ℕ)) (src : Dict Entry) (ns : List String) (n : String)
    → All (Fit expected src) ns
    → In n ns
    → (e : Entry) × (Dict.get src n ≡ some e)
Fit-get expected src [] n f h = absurd h
Fit-get expected src (m ∷ ns) n f h = elim h [
  | inl q ↦ subst (λ z. (e : Entry) × (Dict.get src z ≡ some e)) q ((f.0).0, (f.0).1)
  | inr k ↦ Fit-get expected src ns n f.1 k
]

-- The layout's entries are what the loop of `build_layout` ends with.
pub build_layout-place :
    (dumps : Header → List ℕ) (plan : MutationPlan) (tensors src : Dict Entry) (kept : List String)
    (layout : Layout)
    → kept_ordered tensors plan.keep ≡ ok kept
    → build_layout dumps plan tensors src ≡ ok layout
    → place (origin plan tensors src) (kept ++ plan.add) 0 [] ≡ ok (layout.entries, layout.data_len)
unfolding build_layout
build_layout-place dumps plan tensors src kept layout k h =
    let h1 = rw k at h in
    elim (Result-cases (place (origin plan tensors src) (kept ++ plan.add) 0 [])) [
      | inl (placed, e) ↦
          let h2 = rw e at h1 in
          elim (Result-cases
            (build_header_bytes dumps record { tensors = placed.0; metadata = none })) [
              | inl (bytes, b) ↦
                  let h3 = rw b at h2 in
                  e
                  ∙ ap
                      (λ (r : Result Failure Layout). elim r [
                        | ok l ↦ ok (l.entries, l.data_len)
                        | err x ↦ err x
                      ])
                      h3
              | inr (x, b) ↦ let h3 = rw b at h2 in absurd (cc)
            ]
      | inr (x, e) ↦ let h2 = rw e at h1 in absurd (cc)
    ]

unnegated : {b : Bool} → not b ≡ true → b ≡ false
unnegated h = ground arith

module _ (dumps : Header → List ℕ) (loads : List ℕ → Option Header) (sha : List ℕ → String)
    (fp8 : List ℕ) (start : ℕ) (tensors : Dict Entry) (srcmap : Dict Located) (plan : MutationPlan)
    (layout : Layout) where
  abbrev wanted : String → List ℕ
  wanted = bytes_of fp8 start tensors srcmap plan.keep

  abbrev new_header : Header
  new_header = record { tensors = layout.entries; metadata = none }

  abbrev pre_hashes : Dict String
  pre_hashes = table (λ n. sha (wanted n)) plan.keep

  abbrev src_hashes : Dict String
  src_hashes = table (λ n. sha (source_bytes (Dict.get srcmap n))) (names srcmap)

  module _ (own : All (Whole fp8 start) tensors) (given : All WholeAt srcmap)
      (kept : (n : String) → In n plan.keep → (e : Entry) × (Dict.get tensors n ≡ some e))
      (added : (n : String)
        → In n plan.add
        → (has plan.keep n ≡ false) × (l : Located) × (Dict.get srcmap n ≡ some l))
      (ordered : (n : String) → In n layout.order ↔ (In n plan.keep ⊎ In n plan.add))
      (tiles : Tiles
        (origin plan tensors (entries_of srcmap))
        0
        layout.order
        layout.entries
        layout.data_len) where
    found : (n : String) → In n layout.order → Found tensors srcmap plan.keep n
    found n h = elim ((ordered n).0 h) [
      | inl k ↦ inl ((has_iff plan.keep n).1 k, (kept n k).0, (kept n k).1)
      | inr a ↦ inr ((added n a).0, (added n a).1, (added n a).2)
    ]

    -- The file that is written reads back with the layout's entries and holds each one's bytes.
    written :
        ((k : ℕ) → loads (dumps new_header ++ spaces k) ≡ some new_header)
        → length (dumps new_header) + 8 < 2 ^ 64
        → (out : List ℕ) × (k : ℕ) × (write_rewrite dumps fp8 start tensors plan layout srcmap
            ≡ ok out)
          × (read_header_file loads out ≡ ok (new_header, k))
          × All (Holds wanted out (8 + k)) layout.entries
    unfolding write_rewrite
    written reads short =
        let head = little_endian 8 (length (padded dumps new_header)) ++ padded dumps new_header in
        let built = (build_header_bytes_lem dumps new_header short).0 in
        let write = write_tensor fp8 start tensors plan.keep srcmap in
        let sized =
          (read_header_file-build_header_bytes dumps loads new_header head [] reads short built) in
        let body =
          write_all_lem write wanted (origin plan tensors (entries_of srcmap)) (8 + sized.0) 0
            layout.order layout.entries layout.data_len head
            (λ n h o. write_tensor_lem fp8 start tensors srcmap plan own given n o (found n h))
            (λ n h. Measured_lem fp8 start tensors srcmap plan own given n (found n h)) tiles
            (omega (arith, sized.1)) in
        let back =
          read_header_file-build_header_bytes dumps loads new_header head body.0 reads short
            built in
        let same : back.0 ≡ sized.0 = omega (arith, back.1, sized.1) in
        (
          head ++ body.0,
          sized.0,
          ap (λ r. r >>= (λ h. write_all write layout.order h)) built ∙ body.1,
          back.2 ∙ ap (λ k. ok (new_header, k)) same,
          body.3,
        )

    tensor_lem :
        (n : String)
        → In n layout.order
        → (x : Entry) × (Dict.get layout.entries n ≡ some x) × (x.first ≤ x.last)
    tensor_lem n h =
        let from = origin plan tensors (entries_of srcmap) in
        let there = Tiles-get from 0 layout.order layout.entries layout.data_len n tiles h in
        (
          there.0,
          there.1,
          Tiles-ordered from 0 layout.order layout.entries layout.data_len n there.0 tiles there.1,
        )

    verified :
        (out : List ℕ) (k : ℕ)
        → ((n : String) → In n plan.discard → has added_tensors n ≡ false → In n layout.order → ⊥)
        → read_header_file loads out ≡ ok (new_header, k)
        → All (Holds wanted out (8 + k)) layout.entries
        → verify_output loads sha out plan pre_hashes src_hashes
          ≡ ok (select (λ n. not (has added_tensors n)) plan.discard)
    unfolding verify_output
    verified out k gone read holds =
        let begin = 8 + k in
        let kept_fine =
          check_all_lem
            (check_tensor sha kept_missing kept_changed out begin layout.entries pre_hashes)
            plan.keep
            (λ n h.
              let there = tensor_lem n ((ordered n).1 (inl h)) in
              check_tensor_lem fp8 start tensors srcmap plan own given sha kept_missing kept_changed
                out begin layout.entries pre_hashes n there.0 holds there.2 there.1
                (table-get (λ m. sha (wanted m)) plan.keep n h)) in
        let added_fine =
          check_all_lem
            (check_tensor sha added_missing added_changed out begin layout.entries src_hashes)
            plan.add
            (λ n h.
              let there = tensor_lem n ((ordered n).1 (inr h)) in
              let mine = added n h in
              check_tensor_lem fp8 start tensors srcmap plan own given sha added_missing
                added_changed out begin layout.entries src_hashes n there.0 holds there.2 there.1
                (table-get (λ m. sha (source_bytes (Dict.get srcmap m))) (names srcmap) n
                    ((In-names srcmap n).1 mine.1 mine.2)
                  ∙ ap (λ b. some (sha b)) (sym (from_source n mine.0)))) in
        let gone_fine =
          check_all_lem (check_gone layout.entries)
            (select (λ n. not (has added_tensors n)) plan.discard)
            (λ n h.
              absent n gone ((In-select (λ m. not (has added_tensors m)) plan.discard n).0 h)) in
        rw (read, kept_fine, added_fine) gone_fine
      where
        from_source :
            (n : String) → has plan.keep n ≡ false → wanted n ≡ source_bytes (Dict.get srcmap n)
        from_source n h = rw h refl

        absent :
            (n : String)
            → ((m : String)
                → In m plan.discard
                → has added_tensors m ≡ false
                → In m layout.order
                → ⊥)
            → In n plan.discard × (not (has added_tensors n) ≡ true)
            → check_gone layout.entries n ≡ ok n
        absent n g h = elim (Bool-cases (has (names layout.entries) n)) [
          | inl e ↦ absurd (
              g n h.0 (unnegated h.1) (
                subst (In n)
                  (Tiles-names (origin plan tensors (entries_of srcmap)) 0 layout.order
                    layout.entries layout.data_len tiles)
                  ((has_iff (names layout.entries) n).0 e)))
          | inr e ↦ rw e refl
        ]

    pub write_verified_lem :
        ((k : ℕ) → loads (dumps new_header ++ spaces k) ≡ some new_header)
        → length (dumps new_header) + 8 < 2 ^ 64
        → ((n : String) → In n plan.discard → has added_tensors n ≡ false → In n layout.order → ⊥)
        → (out : List ℕ) × (k : ℕ) × (write_verified dumps loads sha true fp8 start tensors srcmap
              plan layout
            ≡ ok record { plan = plan; layout = layout; output = out })
          × (read_header_file loads out ≡ ok (new_header, k))
          × All (Holds wanted out (8 + k)) layout.entries
    unfolding write_verified
    write_verified_lem reads short gone =
        let w = written reads short in
        let pre =
          digests_lem (hash_kept sha fp8 start tensors) (λ n. sha (wanted n)) plan.keep
            (λ n h.
              hash_kept_lem fp8 start tensors srcmap plan own given sha n (kept n h).0
                ((has_iff plan.keep n).1 h) (kept n h).1) in
        let post =
          digests_lem (hash_source sha srcmap) (λ n. sha (source_bytes (Dict.get srcmap n)))
            (names srcmap)
            (λ n h.
              let there = (In-names srcmap n).0 h in
              hash_source_lem fp8 start tensors srcmap plan own given sha n there.0 there.1) in
        let checked = verified w.0 w.1 gone w.3 w.4 in
        (w.0, w.1, rw (pre, post, w.2, checked) refl, w.3, w.4)

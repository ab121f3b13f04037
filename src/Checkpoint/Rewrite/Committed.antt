-- ===== src/Checkpoint/Rewrite/Committed.antt =====
-- `apply_mutation` of tools/checkpoint_prep/rewrite.py from the files that it reads to the verified
-- file that it commits.
use cosmos3_nano_web_ui.Common.{
  ℕ, ◌+◌, ◌^◌, ◌<◌, true, false, Option, none, some, String, List, [], ◌++◌, In, All, has, length,
  ◌≡◌, refl, sym, ap, ◌∙◌, subst, ◌⊎◌, ◌↔◌, inl, inr, Bool-cases, ok,
}
use cosmos3_nano_web_ui.Common.Dict
use cosmos3_nano_web_ui.Common.Dict.{Dict}
use cosmos3_nano_web_ui.Checkpoint.Bytes.{Entry, Header, read_header_file, spaces}
use cosmos3_nano_web_ui.Checkpoint.Mutation.{
  Config, MutationPlan, Layout, names, action_tensors, added_tensors, dropped_lmhead, origin, place,
  sort_by, plan_mutation, build_layout, expected_shapes,
}
use cosmos3_nano_web_ui.Checkpoint.Mutation.Order.{
  Distinct, has_iff, In-select, In-append, In-sort_by,
}
use cosmos3_nano_web_ui.Checkpoint.Mutation.Tiling.{In-names}
use cosmos3_nano_web_ui.Checkpoint.Mutation.Planned.{plan_of, plan_mutation_iff}
use cosmos3_nano_web_ui.Checkpoint.Mutation.Laid.{
  key_of, kept-added, kept_ordered_lem, build_layout-plan_mutation,
}
use cosmos3_nano_web_ui.Checkpoint.Rewrite.{
  Located, entries_of, prepare, resolve_source_tensors, write_verified,
}
use cosmos3_nano_web_ui.Checkpoint.Rewrite.Payload.{Holds}
use cosmos3_nano_web_ui.Checkpoint.Rewrite.Tables.{entries_of-get}
use cosmos3_nano_web_ui.Checkpoint.Rewrite.Verified.{Whole, WholeAt, bytes_of}
use cosmos3_nano_web_ui.Checkpoint.Rewrite.Intact.{
  Whole-Ordered, WholeAt-Ordered, Fit-get, build_layout-place, write_verified_lem,
}

-- What is dropped and not added again is not in the order of the layout.
gone :
    (members : List String) (kept : List String) (n : String)
    → ((m : String) → In m kept → In m dropped_lmhead → ⊥)
    → In n (plan_of members).discard
    → has added_tensors n ≡ false
    → In n (kept ++ added_tensors)
    → ⊥
gone members kept n apart d new h = elim ((In-append n kept added_tensors).0 h) [
  | inl k ↦ apart n k ((In-select (λ m. has members m) dropped_lmhead n).0 d).0
  | inr a ↦ let there = (has_iff added_tensors n).1 a in absurd (cc)
]

unkept : (keep : List String) (n : String) → (In n keep → ⊥) → has keep n ≡ false
unkept keep n h = elim (Bool-cases (has keep n)) [
  | inl e ↦ absurd (h ((has_iff keep n).0 e))
  | inr e ↦ e
]

prepare-steps :
    (dumps : Header → List ℕ) (loads : List ℕ → Option Header) (sha : List ℕ → String)
    (iterate : List String → List String) (fp8 : List ℕ) (shards : List (List ℕ)) (cfg : Config)
    (header : Header) (size : ℕ) (srcmap : Dict Located) (plan : MutationPlan) (layout : Layout)
    → read_header_file loads fp8 ≡ ok (header, size)
    → resolve_source_tensors loads shards added_tensors ≡ ok srcmap
    → plan_mutation (iterate (names header.tensors)) header.tensors (entries_of srcmap) cfg
      ≡ ok plan
    → build_layout dumps plan header.tensors (entries_of srcmap) ≡ ok layout
    → prepare dumps loads sha iterate true fp8 shards cfg
      ≡ write_verified dumps loads sha true fp8 (8 + size) header.tensors srcmap plan layout
unfolding prepare
prepare-steps dumps loads sha iterate fp8 shards cfg header size srcmap plan layout a b c d =
    rw (a, b, c, d) refl

-- For a checkpoint that has none of the action tensors and whose files have all the bytes that their
-- headers name, where the change is planned, the new header has fewer than 2^64 bytes, and the JSON
-- that is written for it reads back: the rewrite ends with a file that is verified, whose header
-- reads back with the layout's entries, and in which every entry holds, byte for byte, what the
-- tensor of that name held in the checkpoint, if it is kept, or holds in the source, if it is added.
pub prepare-Holds :
    (dumps : Header → List ℕ) (loads : List ℕ → Option Header) (sha : List ℕ → String)
    (iterate : List String → List String) (fp8 : List ℕ) (shards : List (List ℕ)) (cfg : Config)
    (header : Header) (size : ℕ) (srcmap : Dict Located) (plan : MutationPlan)
    → read_header_file loads fp8 ≡ ok (header, size)
    → resolve_source_tensors loads shards added_tensors ≡ ok srcmap
    → plan_mutation (iterate (names header.tensors)) header.tensors (entries_of srcmap) cfg
      ≡ ok plan
    → Distinct (iterate (names header.tensors))
    → ((n : String) → In n (iterate (names header.tensors)) ↔ In n (names header.tensors))
    → ((n : String) → In n action_tensors → In n (names header.tensors) → ⊥)
    → All (Whole fp8 (8 + size)) header.tensors
    → All WholeAt srcmap
    → ((d : Dict Entry) (e : ℕ)
        → place
            (origin plan header.tensors (entries_of srcmap))
            (sort_by (key_of header.tensors) plan.keep ++ added_tensors)
            0
            []
          ≡ ok (d, e)
        → length (dumps record { tensors = d; metadata = none }) + 8 < 2 ^ 64)
    → ((d : Dict Entry) (e : ℕ) (k : ℕ)
        → place
            (origin plan header.tensors (entries_of srcmap))
            (sort_by (key_of header.tensors) plan.keep ++ added_tensors)
            0
            []
          ≡ ok (d, e)
        → loads (dumps record { tensors = d; metadata = none } ++ spaces k)
          ≡ some record { tensors = d; metadata = none })
    → (layout : Layout) × (out : List ℕ) × (k : ℕ) × (build_layout dumps plan header.tensors
          (entries_of srcmap)
        ≡ ok layout)
      × (prepare dumps loads sha iterate true fp8 shards cfg
          ≡ ok record { plan = plan; layout = layout; output = out })
      × (read_header_file loads out ≡ ok (record { tensors = layout.entries; metadata = none }, k))
      × All
          (Holds (bytes_of fp8 (8 + size) header.tensors srcmap plan.keep) out (8 + k))
          layout.entries
prepare-Holds dumps loads sha iterate fp8 shards cfg header size srcmap plan a b c distinct same
      bare own given short reads =
    let members = iterate (names header.tensors) in
    let tensors = header.tensors in
    let src = entries_of srcmap in
    let inverted = (plan_mutation_iff members tensors src cfg).0 plan c in
    let laid =
      build_layout-plan_mutation dumps members tensors src cfg plan distinct same
        (Whole-Ordered fp8 (8 + size) tensors own) (WholeAt-Ordered srcmap given) bare short c in
    let layout = laid.0 in
    let sorted = sort_by (key_of tensors) plan.keep in
    let keep_eq : plan.keep ≡ (plan_of members).keep = ap MutationPlan.keep inverted.2 in
    let add_eq : plan.add ≡ added_tensors = ap MutationPlan.add inverted.2 in
    let drop_eq : plan.discard ≡ (plan_of members).discard = ap MutationPlan.discard inverted.2 in
    let in_sorted = λ (n : String). In-sort_by (key_of tensors) plan.keep n in
    let present : (n : String) → In n plan.keep → In n (names tensors) =
      λ n h. ((laid.5 n).0 ((in_sorted n).1 h)).0 in
    let added : (n : String)
        → In n plan.add
        → (has plan.keep n ≡ false) × (l : Located) × (Dict.get srcmap n ≡ some l) =
      λ n h.
        let mine : In n added_tensors = subst (In n) add_eq h in
        let fit = Fit-get (expected_shapes cfg) src added_tensors n inverted.1 mine in
        let there = entries_of-get srcmap n fit.0 fit.1 in
        (
          unkept plan.keep n
              (λ k. kept-added members tensors n same bare (subst (In n) keep_eq k) mine),
          there.0,
          there.1,
        ) in
    let order_eq : layout.order ≡ sorted ++ added_tensors = laid.3 in
    let ordered : (n : String) → In n layout.order ↔ (In n plan.keep ⊎ In n plan.add) = λ n. (
      λ h. elim ((In-append n sorted added_tensors).0 (subst (In n) order_eq h)) [
        | inl k ↦ inl ((in_sorted n).0 k)
        | inr a ↦ inr (subst (In n) (sym add_eq) a)
      ],
      λ h. subst (In n) (sym order_eq) (
          (In-append n sorted added_tensors).1
            (elim h [ inl k ↦ inl ((in_sorted n).1 k) | inr a ↦ inr (subst (In n) add_eq a) ])),
    ) in
    let placed =
      subst
        (λ l.
          place (origin plan tensors src) (sorted ++ l) 0 [] ≡ ok (layout.entries, layout.data_len))
        add_eq
        (build_layout-place dumps plan tensors src sorted layout
          (kept_ordered_lem tensors plan.keep present) laid.1) in
    let done =
      write_verified_lem dumps loads sha fp8 (8 + size) tensors srcmap plan layout own given
        (λ n h. (In-names tensors n).0 (present n h)) added ordered laid.2
        (λ k. reads layout.entries layout.data_len k placed)
        (short layout.entries layout.data_len placed)
        (λ n d new h.
          gone members sorted n (λ m k. ((laid.5 m).0 k).1) (subst (In n) drop_eq d) new
            (subst (In n) order_eq h)) in
    (
      layout,
      done.0,
      done.1,
      laid.1,
      prepare-steps dumps loads sha iterate fp8 shards cfg header size srcmap plan layout a b c
            laid.1
          ∙ done.2,
      done.3,
      done.4,
    )

-- ===== src/Checkpoint/Mutation/Planned.antt =====
-- What `plan_mutation` and `build_layout` of tools/checkpoint_prep/mutation.py make of a checkpoint.
use cosmos3_nano_web_ui.Common.{
  ℕ, true, false, not, some, String, List, [], ◌∷◌, All, has, ◌≡◌, refl, sym, ap, ◌∙◌, ◌↔◌, inl,
  inr, Option-cases, Bool-cases, str_cases, arith, ok, err, Result-cases, ◌>>=◌, select,
}
use cosmos3_nano_web_ui.Common.Dict
use cosmos3_nano_web_ui.Common.Dict.{Dict}
use cosmos3_nano_web_ui.Checkpoint.Bytes.{Entry, Failure}
use cosmos3_nano_web_ui.Checkpoint.Mutation.{
  Config, MutationPlan, dropped_lmhead, added_tensors, is_mutated, same_shape, fits,
  expected_shapes, check_source, check_sources, plan_mutation,
}

pub same_shape_iff : (xs ys : List ℕ) → (same_shape xs ys ≡ true) ↔ (xs ≡ ys)
same_shape_iff [] [] = (λ h. refl, λ h. refl)
same_shape_iff [] (y ∷ ys) = (λ h. cc, λ h. cc)
same_shape_iff (x ∷ xs) [] = (λ h. cc, λ h. cc)
same_shape_iff (x ∷ xs) (y ∷ ys) =
    let ih = same_shape_iff xs ys in (λ h. ground (arith, ih.0), λ h. ground (arith, ih.1))

-- The source has the tensor in BF16 and in the expected shape.
abbrev pub Fit : Dict (List ℕ) → Dict Entry → String → Type 0
Fit expected src n =
    (ref : Entry) × (Dict.get src n ≡ some ref)
    × (ref.dtype ≡ "BF16")
    × (fits (Dict.get expected n) ref.shape ≡ true)

check_source_iff :
    (expected : Dict (List ℕ)) (src : Dict Entry) (n : String)
    → (check_source expected src n ≡ ok n → Fit expected src n)
      × (Fit expected src n → check_source expected src n ≡ ok n)
      × ((m : String) → check_source expected src n ≡ ok m → m ≡ n)
unfolding check_source
check_source_iff expected src n = elim (Option-cases (Dict.get src n)) [
  | inl e ↦ (λ h. ground arith, λ f. let g = f.1 in ground arith, λ m h. ground arith)
  | inr (ref, e) ↦ elim (str_cases ref.dtype "BF16") [
    | inl (q, y) ↦ elim (Bool-cases (fits (Dict.get expected n) ref.shape)) [
      | inl w ↦ (λ h. (ref, e, q, w), λ f. ground arith, λ m h. ground arith)
      | inr w ↦
          (λ h. ground arith, λ f. let g = f.1 in let k = f.3 in ground arith, λ m h. ground arith)
    ]
    | inr (q, y) ↦ (
      λ h. ground arith,
      λ f. let g = f.1 in let k = f.2 in absurd (q (ground arith)),
      λ m h. ground arith,
    )
  ]
]

sources_step :
    (expected : Dict (List ℕ)) (src : Dict Entry) (n : String) (ns : List String)
    → Fit expected src n
    → check_sources expected src (n ∷ ns) ≡ check_sources expected src ns >>= (λ r. ok (n ∷ r))
unfolding check_sources
sources_step expected src n ns f = rw ((check_source_iff expected src n).1 f) refl

refused :
    (expected : Dict (List ℕ)) (src : Dict Entry) (n : String) (ns : List String) (x : Failure)
    → check_source expected src n ≡ err x
    → (r : List String) → check_sources expected src (n ∷ ns) ≡ ok r
    → ⊥
unfolding check_sources
refused expected src n ns x k r h = let g = rw k at h in cc

pub check_sources_iff :
    (expected : Dict (List ℕ)) (src : Dict Entry) (ns : List String)
    → ((r : List String) → check_sources expected src ns ≡ ok r → All (Fit expected src) ns)
      × (All (Fit expected src) ns → check_sources expected src ns ≡ ok ns)
check_sources_iff expected src [] = (λ r h. tt, λ f. unfold check_sources in refl)
check_sources_iff expected src (n ∷ ns) = (
  λ r h. elim (Result-cases (check_source expected src n)) [
    | inl (m, e) ↦
        let same = (check_source_iff expected src n).2 m e in
        let f = (check_source_iff expected src n).0 (rw same at e) in
        let h' = sym (sources_step expected src n ns f) ∙ h in
        elim (Result-cases (check_sources expected src ns)) [
          | inl (s, k) ↦ (f, (check_sources_iff expected src ns).0 s k)
          | inr (x, k) ↦ absurd (unbound x k h')
        ]
    | inr (x, e) ↦ absurd (refused expected src n ns x e r h)
  ],
  λ f.
      sources_step expected src n ns f.0
      ∙ ap (λ s. s >>= (λ r. ok (n ∷ r))) ((check_sources_iff expected src ns).1 f.1),
)
  where
    unbound :
        {r : List String} (x : Failure)
        → check_sources expected src ns ≡ err x
        → check_sources expected src ns >>= (λ s. ok (n ∷ s)) ≡ ok r
        → ⊥
    unbound x k h = let g = rw k at h in cc

-- What the plan holds where there is one.
abbrev pub plan_of : List String → MutationPlan
plan_of members = record {
  keep = select (λ n. not (has dropped_lmhead n)) members;
  discard = select (λ n. has members n) dropped_lmhead;
  add = added_tensors;
}

-- A plan is made exactly where the checkpoint has not been changed before and the source has each of
-- the six tensors in BF16 and in the shape that the configuration gives; it keeps every tensor but
-- those of the FP8 head, and drops those of them that are there.
pub plan_mutation_iff :
    (members : List String) (tensors src : Dict Entry) (cfg : Config)
    → ((plan : MutationPlan)
        → plan_mutation members tensors src cfg ≡ ok plan
        → (is_mutated tensors ≡ false)
          × All (Fit (expected_shapes cfg) src) added_tensors
          × (plan ≡ plan_of members))
      × (is_mutated tensors ≡ false
          → All (Fit (expected_shapes cfg) src) added_tensors
          → plan_mutation members tensors src cfg ≡ ok (plan_of members))
unfolding plan_mutation
plan_mutation_iff members tensors src cfg =
    let fits_iff = check_sources_iff (expected_shapes cfg) src added_tensors in
    elim (Bool-cases (is_mutated tensors)) [
      | inl e ↦ (λ plan h. absurd (again plan e h), λ fresh f. absurd (cc))
      | inr e ↦
          (λ plan h. let m = made plan e h in (e, m.0, m.1), λ fresh f. rw (e, fits_iff.1 f) refl)
    ]
  where
    again :
        (plan : MutationPlan)
        → is_mutated tensors ≡ true
        → plan_mutation members tensors src cfg ≡ ok plan
        → ⊥
    again plan e h = let g = rw e at h in cc

    made :
        (plan : MutationPlan)
        → is_mutated tensors ≡ false
        → plan_mutation members tensors src cfg ≡ ok plan
        → All (Fit (expected_shapes cfg) src) added_tensors × (plan ≡ plan_of members)
    made plan e h =
        let fits_iff = check_sources_iff (expected_shapes cfg) src added_tensors in
        let g = rw e at h in
        elim (Result-cases (check_sources (expected_shapes cfg) src added_tensors)) [
          | inl (r, k) ↦ let k' = rw k at g in (fits_iff.0 r k, cc)
          | inr (x, k) ↦ let k' = rw k at g in absurd (cc)
        ]

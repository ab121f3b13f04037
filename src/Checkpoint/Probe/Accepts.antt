-- ===== src/Checkpoint/Probe/Accepts.antt =====
-- What the checks of tools/checkpoint_prep/integrity_probe.py accept.
use cosmos3_nano_web_ui.Common.{
  ℕ, Bool, true, false, not, Option, none, some, String, List, [], ◌∷◌, ◌++◌, In, All, has, select,
  str_eq, eq_iff, ◌≡◌, refl, ap, ◌∙◌, ◌↔◌, ◌⊎◌, inl, inr, Bool-cases, Option-cases, arith,
}
use cosmos3_nano_web_ui.Common.Dict
use cosmos3_nano_web_ui.Common.Dict.{Dict}
use cosmos3_nano_web_ui.Checkpoint.Bytes.{Entry}
use cosmos3_nano_web_ui.Checkpoint.Mutation.{
  Config, action_tensors, dropped_lmhead, added_tensors, expected_shapes, names,
}
use cosmos3_nano_web_ui.Checkpoint.Mutation.Order.{has_iff}
use cosmos3_nano_web_ui.Checkpoint.Mutation.Planned.{Fit}
use cosmos3_nano_web_ui.Checkpoint.Sidecars.{
  QuantizationConfig, QuantizerMapDiff, updated_sidecars, updated_config, updated_mixed,
  updated_diff, listed, mixed_or_empty,
}
use cosmos3_nano_web_ui.Checkpoint.Probe.{
  Problem, problem_if, each, check_action, check_action_set, check_sidecars, is_true, is_text,
  check_digest, check_digests, check_scoped_byte_identity, head_sidecars, added_missing,
  sidecar_present,
}

append_nothing : (xs ys : List Problem) → (xs ++ ys ≡ []) ↔ ((xs ≡ []) × (ys ≡ []))
append_nothing [] ys = (λ h. (refl, h), λ h. h.1)
append_nothing (x ∷ xs) ys = (λ h. absurd (cc), λ h. absurd (cc))

problem_if_iff : (b : Bool) (p : Problem) → (problem_if b p ≡ []) ↔ (b ≡ false)
problem_if_iff true p = (λ h. absurd (cc), λ h. absurd (cc))
problem_if_iff false p = (λ h. refl, λ h. refl)

each_iff :
    (check : String → List Problem) (ns : List String)
    → (each check ns ≡ []) ↔ All (λ n. check n ≡ []) ns
each_iff check [] = (λ h. tt, λ h. refl)
each_iff check (n ∷ ns) =
    let cut = append_nothing (check n) (each check ns) in
    let ih = each_iff check ns in (λ h. ((cut.0 h).0, ih.0 (cut.0 h).1), λ h. cut.1 (h.0, ih.1 h.1))

not_iff : (b : Bool) → (not b ≡ false) ↔ (b ≡ true)
not_iff true = (λ h. refl, λ h. refl)
not_iff false = (λ h. absurd (cc), λ h. absurd (cc))

All-iff :
    (P Q : String → Type 0) (ns : List String) → ((n : String) → P n ↔ Q n) → All P ns ↔ All Q ns
All-iff P Q [] h = (λ a. tt, λ a. tt)
All-iff P Q (n ∷ ns) h =
    let ih = All-iff P Q ns h in (λ a. ((h n).0 a.0, ih.0 a.1), λ a. ((h n).1 a.0, ih.1 a.1))

check_action_iff :
    (expected : Dict (List ℕ)) (header : Dict Entry) (a : String)
    → (check_action expected header a ≡ []) ↔ Fit expected header a
unfolding check_action
check_action_iff expected header a = (
  λ h. elim (Option-cases (Dict.get header a)) [
    | inl e ↦ let h' = rw (check_action, e) at h in absurd (cc)
    | inr (x, e) ↦
        let h' = rw (check_action, e) at h in
        let cut = (append_nothing _ _).0 h' in
        (
          x,
          e,
          (eq_iff _ _).0 ((not_iff _).0 ((problem_if_iff _ _).0 cut.0)),
          (not_iff _).0 ((problem_if_iff _ _).0 cut.1),
        )
  ],
  λ f.
      rw (check_action, f.1)
        ((append_nothing _ _).1 (
          (problem_if_iff _ _).1 ((not_iff _).1 ((eq_iff _ _).1 f.2)),
          (problem_if_iff _ _).1 ((not_iff _).1 f.3),
        )),
)

-- The probe finds no problem with the action tensors exactly where each of the five is there, in
-- BF16 and in the shape that the configuration gives.
pub check_action_set_iff :
    (header : Dict Entry) (cfg : Config)
    → (check_action_set header cfg ≡ []) ↔ All (Fit (expected_shapes cfg) header) action_tensors
unfolding check_action_set
check_action_set_iff header cfg =
    let found = each_iff (check_action (expected_shapes cfg) header) action_tensors in
    let fit =
      All-iff (λ a. check_action (expected_shapes cfg) header a ≡ [])
        (Fit (expected_shapes cfg) header) action_tensors
        (check_action_iff (expected_shapes cfg) header) in
    (λ h. fit.0 (found.0 h), λ h. found.1 (fit.1 h))

has_unselected :
    (xs : List String) → has (select (λ p. not (str_eq p "lm_head")) xs) "lm_head" ≡ false
has_unselected [] = refl
has_unselected (x ∷ xs) = ground (arith, has_unselected xs)

-- The sidecars that the change writes, from any sidecars before, pass the probe exactly where the
-- recipe is that of the mixed FP8 checkpoint and the transformer's configuration has `action_gen`.
pub check_sidecars-updated_sidecars :
    (gen : Option Bool) (qc : QuantizationConfig) (qmd : QuantizerMapDiff) (removed : ℕ)
    → (check_sidecars gen (updated_sidecars qc qmd removed).0 (updated_sidecars qc qmd removed).1
        ≡ [])
      ↔ ((is_true gen ≡ true) × (qc.recipe ≡ some "fp8_blockwise_mixed"))
unfolding check_sidecars updated_sidecars updated_config updated_mixed updated_diff
check_sidecars-updated_sidecars gen qc qmd removed =
    let clean = has_unselected (listed (mixed_or_empty qc.mixed_precision).quantized) in
    (
      λ h.
          let one = (append_nothing _ _).0 h in
          let two = (append_nothing _ _).0 one.1 in
          (
            (not_iff _).0 ((problem_if_iff _ _).0 one.0),
            named qc.recipe ((not_iff _).0 ((problem_if_iff _ _).0 two.0)),
          ),
      λ h.
          let same : is_text qc.recipe "fp8_blockwise_mixed" ≡ true = rw h.1 refl in
          rw (h.0, same, clean) refl,
    )
  where
    named :
        (o : Option String)
        → is_text o "fp8_blockwise_mixed" ≡ true
        → o ≡ some "fp8_blockwise_mixed"
    named none h = absurd (cc)
    named (some s) h = ap some ((eq_iff _ _).0 h)

-- Every digest of before but those of the head is there unchanged.
abbrev pub Kept : Dict String → Dict String → Type 0
Kept post [] = Unit
Kept post ((n, h) ∷ pre) = ((In n dropped_lmhead) ⊎ (Dict.get post n ≡ some h)) × Kept post pre

check_digest_iff :
    (post : Dict String) (n h : String)
    → (check_digest post n h ≡ []) ↔ ((In n dropped_lmhead) ⊎ (Dict.get post n ≡ some h))
check_digest_iff post n h = (
  λ q. elim (Bool-cases (has dropped_lmhead n)) [
    | inl d ↦ inl ((has_iff dropped_lmhead n).0 d)
    | inr d ↦ inr (elim (Option-cases (Dict.get post n)) [
      | inl e ↦ let q' = rw (d, e) at q in absurd (cc)
      | inr (x, e) ↦
          let q' = rw (d, e) at q in
          e ∙ ap some ((eq_iff _ _).0 ((not_iff _).0 ((problem_if_iff _ _).0 q')))
    ])
  ],
  λ p. elim (Bool-cases (has dropped_lmhead n)) [
    | inl d ↦ rw d refl
    | inr d ↦ elim p [
      | inl k ↦ let there = (has_iff dropped_lmhead n).1 k in absurd (cc)
      | inr e ↦ rw (d, e) ((problem_if_iff _ _).1 ((not_iff _).1 ((eq_iff _ _).1 refl)))
    ]
  ],
)

check_digests_iff : (post pre : Dict String) → (check_digests post pre ≡ []) ↔ Kept post pre
check_digests_iff post [] = (λ h. tt, λ h. refl)
check_digests_iff post ((n, h) ∷ pre) =
    let cut = append_nothing (check_digest post n h) (check_digests post pre) in
    let one = check_digest_iff post n h in
    let ih = check_digests_iff post pre in
    (λ q. (one.0 (cut.0 q).0, ih.0 (cut.0 q).1), λ k. cut.1 (one.1 k.0, ih.1 k.1))

has-problem_iff :
    (hashes : Dict String) (p : String → Problem) (n : String)
    → (problem_if (has (names hashes) n) (p n) ≡ []) ↔ (In n (names hashes) → ⊥)
has-problem_iff hashes p n = (
  λ h k. let there = (has_iff (names hashes) n).1 k in let absent = (problem_if_iff _ _).0 h in cc,
  λ h. (problem_if_iff _ _).1 (elim (Bool-cases (has (names hashes) n)) [
    | inl e ↦ absurd (h ((has_iff (names hashes) n).0 e))
    | inr e ↦ e
  ]),
)

lacks-problem_iff :
    (hashes : Dict String) (p : String → Problem) (n : String)
    → (problem_if (not (has (names hashes) n)) (p n) ≡ []) ↔ In n (names hashes)
lacks-problem_iff hashes p n = (
  λ h. (has_iff (names hashes) n).0 ((not_iff _).0 ((problem_if_iff _ _).0 h)),
  λ h. (problem_if_iff _ _).1 ((not_iff _).1 ((has_iff (names hashes) n).1 h)),
)

-- The check of byte identity finds no problem exactly where every tensor of before, but those of the
-- FP8 head, has the same digest after, the two quantizer tensors of the head are gone, and the six
-- added tensors are there.
pub check_scoped_byte_identity_iff :
    (pre post : Dict String)
    → (check_scoped_byte_identity pre post ≡ []) ↔ (
        Kept post pre
        × All (λ n. In n (names post) → ⊥) head_sidecars
        × All (λ n. In n (names post)) added_tensors)
unfolding check_scoped_byte_identity
check_scoped_byte_identity_iff pre post =
    let kept = check_digests_iff post pre in
    let gone = each_iff (λ n. problem_if (has (names post) n) (sidecar_present n)) head_sidecars in
    let gone' =
      All-iff (λ n. problem_if (has (names post) n) (sidecar_present n) ≡ [])
        (λ n. In n (names post) → ⊥) head_sidecars (has-problem_iff post sidecar_present) in
    let there =
      each_iff (λ n. problem_if (not (has (names post) n)) (added_missing n)) added_tensors in
    let there' =
      All-iff (λ n. problem_if (not (has (names post) n)) (added_missing n) ≡ [])
        (λ n. In n (names post)) added_tensors (lacks-problem_iff post added_missing) in
    (
      λ h.
          let one = (append_nothing _ _).0 h in
          let two = (append_nothing _ _).0 one.1 in
          (kept.0 one.0, gone'.0 (gone.0 two.0), there'.0 (there.0 two.1)),
      λ h.
          (append_nothing _ _).1
            (kept.1 h.0, (append_nothing _ _).1 (gone.1 (gone'.1 h.1), there.1 (there'.1 h.2))),
    )

-- ===== src/Checkpoint/Probe/Changed.antt =====
-- The probe of tools/checkpoint_prep/integrity_probe.py on what mutation.py lays out.
use cosmos3_nano_web_ui.Common.{
  ℕ, ◌+◌, ◌^◌, ◌<◌, ◌++◌, Option, none, some, String, List, [], ◌∷◌, In, All, length, ◌≡◌, refl,
  sym, ap, ◌∙◌, subst, ◌↔◌, inl, inr, Result, ok,
}
use cosmos3_nano_web_ui.Common.Dict
use cosmos3_nano_web_ui.Common.Dict.{Dict}
use cosmos3_nano_web_ui.Checkpoint.Bytes.{Entry, Header, Failure}
use cosmos3_nano_web_ui.Checkpoint.Mutation.{
  Config, MutationPlan, names, action_tensors, added_tensors, expected_shapes, fits, origin,
  plan_mutation, Layout, place, sort_by, build_layout,
}
use cosmos3_nano_web_ui.Checkpoint.Mutation.Order.{In-append, Distinct}
use cosmos3_nano_web_ui.Checkpoint.Mutation.Tiling.{Moved, Tiles, Tiles-get}
use cosmos3_nano_web_ui.Checkpoint.Mutation.Planned.{Fit, plan_of, plan_mutation_iff}
use cosmos3_nano_web_ui.Checkpoint.Mutation.Laid.{
  LaidOut, origin-unkept, kept-added, Ordered, key_of, build_layout-plan_mutation,
}
use cosmos3_nano_web_ui.Checkpoint.Probe.{check_action_set}
use cosmos3_nano_web_ui.Checkpoint.Probe.Accepts.{check_action_set_iff}

Fit-moved :
    (expected : Dict (List ℕ)) (from : String → Option Entry) (src d : Dict Entry) (e : ℕ)
    (order ns : List String)
    → Tiles from 0 order d e
    → ((n : String) → In n ns → In n order)
    → ((n : String) → In n ns → from n ≡ Dict.get src n)
    → All (Fit expected src) ns
    → All (Fit expected d) ns
Fit-moved expected from src d e order [] t there same f = tt
Fit-moved expected from src d e order (n ∷ ns) t there same f =
    let fit = f.0 in
    let found = Tiles-get from 0 order d e n t (there n (inl refl)) in
    let moved : Moved (some fit.0) found.0 =
      subst (λ o. Moved o found.0) (same n (inl refl) ∙ fit.1) found.2 in
    (
      (found.0, found.1, moved.0 ∙ fit.2, ap (fits (Dict.get expected n)) moved.1 ∙ fit.3),
      Fit-moved expected from src d e order ns t (λ m h. there m (inr h)) (λ m h. same m (inr h))
          f.1,
    )

check_action_set-LaidOut :
    (dumps : Header → List ℕ) (members : List String) (tensors src : Dict Entry) (cfg : Config)
    (plan : MutationPlan) (laid : LaidOut dumps tensors src plan)
    → ((n : String) → In n members ↔ In n (names tensors))
    → ((n : String) → In n action_tensors → In n (names tensors) → ⊥)
    → plan_mutation members tensors src cfg ≡ ok plan
    → check_action_set (laid.0).entries cfg ≡ []
check_action_set-LaidOut dumps members tensors src cfg plan laid same bare h =
    let inverted = (plan_mutation_iff members tensors src cfg).0 plan h in
    let keep_eq : plan.keep ≡ (plan_of members).keep = ap MutationPlan.keep inverted.2 in
    let all =
      Fit-moved (expected_shapes cfg) (origin plan tensors src) src (laid.0).entries
        (laid.0).data_len (laid.0).order added_tensors laid.2
        (λ n a. subst (In n) (sym laid.3) ((In-append n _ added_tensors).1 (inr a)))
        (λ n a.
          origin-unkept plan tensors src n
            (λ k. kept-added members tensors n same bare (subst (In n) keep_eq k) a))
        inverted.1 in
    (check_action_set_iff (laid.0).entries cfg).1
      (all.0, (all.1.0, (all.1.1.0, (all.1.1.1.0, (all.1.1.1.1.0, tt)))))

-- Take a checkpoint that has none of the action tensors, whose members are the names of its header, each
-- once, and a source, and let no entry of the two headers end before it begins. Where its change is
-- planned and `build_layout` returns a layout, the layout passes the probe's check of the action
-- tensors. The JSON of the new header is to be shorter than 2^64 bytes.
pub check_action_set-build_layout :
    (dumps : Header → List ℕ) (members : List String) (tensors src : Dict Entry) (cfg : Config)
    (plan : MutationPlan) (layout : Layout)
    → Distinct members
    → ((n : String) → In n members ↔ In n (names tensors))
    → All Ordered tensors
    → All Ordered src
    → ((n : String) → In n action_tensors → In n (names tensors) → ⊥)
    → ((d : Dict Entry) (e : ℕ)
        → place (origin plan tensors src) (sort_by (key_of tensors) plan.keep ++ added_tensors) 0 []
          ≡ ok (d, e)
        → length (dumps record { tensors = d; metadata = none }) + 8 < 2 ^ 64)
    → plan_mutation members tensors src cfg ≡ ok plan
    → build_layout dumps plan tensors src ≡ ok layout
    → check_action_set layout.entries cfg ≡ []
check_action_set-build_layout dumps members tensors src cfg plan layout distinct same sized given
      bare short h built =
    let laid =
      build_layout-plan_mutation dumps members tensors src cfg plan distinct same sized given bare
        short h in
    subst (λ (l : Layout). check_action_set l.entries cfg ≡ [])
      (same_layout (laid.0) layout (sym laid.1 ∙ built))
      (check_action_set-LaidOut dumps members tensors src cfg plan laid same bare h)
  where
    same_layout : (a b : Layout) → ◌≡◌ {A = Result Failure Layout} (ok a) (ok b) → a ≡ b
    same_layout a b p = cc

-- ===== src/Checkpoint/Mutation/Laid.antt =====
-- The layout that `plan_mutation` and `build_layout` of tools/checkpoint_prep/mutation.py make of a
-- checkpoint.
use cosmos3_nano_web_ui.Common.{
  ℕ, ◌+◌, ◌-◌, ◌%◌, ◌^◌, ◌<◌, ◌≤◌, Bool, true, ◌&&◌, not, Option, none, some, String, List, [], ◌∷◌,
  ◌++◌, In, All, has, length, str_eq, eq_iff, if◌then◌else◌, ◌≡◌, refl, sym, ap, ◌∙◌, subst, ◌⊎◌,
  ◌↔◌, inl, inr, Option-cases, Bool-cases, str_cases, arith, ok,
}
use cosmos3_nano_web_ui.Common.Dict
use cosmos3_nano_web_ui.Common.Dict.{Dict}
use cosmos3_nano_web_ui.Checkpoint.Bytes.{Entry, Header, build_header_bytes, little_endian}
use cosmos3_nano_web_ui.Checkpoint.Bytes.Wire.{padded, build_header_bytes_lem}
use cosmos3_nano_web_ui.Checkpoint.Mutation.{
  Config, MutationPlan, Layout, names, action_tensors, dropped_lmhead, added_tensors, is_mutated,
  all_in, expected_shapes, plan_mutation, all_known, kept_ordered, sort_by, origin, place,
  build_layout, first_of,
}
use cosmos3_nano_web_ui.Checkpoint.Mutation.Order.{
  Distinct, Rising, In-append, Distinct-append, has_iff, In-select, Distinct-select, In-sort_by,
  Distinct-sort_by, Rising-sort_by, is_distinct-Distinct,
}
use cosmos3_nano_web_ui.Checkpoint.Mutation.Tiling.{
  Moved, Tiles, Sized, place_lem, Tiles-get, Tiles-names, In-names,
}
use cosmos3_nano_web_ui.Checkpoint.Mutation.Planned.{Fit, plan_of, plan_mutation_iff}

-- Every tensor of a header ends where it begins or later.
abbrev pub Ordered : String × Entry → Type 0
Ordered (n, e) = e.first ≤ e.last

Ordered-get :
    (d : Dict Entry) (n : String) (e : Entry)
    → All Ordered d
    → Dict.get d n ≡ some e
    → e.first ≤ e.last
unfolding Dict.get
Ordered-get [] n e a h = cc
Ordered-get ((k, x) ∷ d) n e a h = elim (str_cases k n) [
  | inl (q, y) ↦ let h' = rw y at h in let o = a.0 in ground arith
  | inr (q, y) ↦ Ordered-get d n e a.1 (rw y at h)
]

all_in_lem : (ns xs : List String) → ((n : String) → In n ns → In n xs) → all_in ns xs ≡ true
all_in_lem [] xs h = refl
all_in_lem (n ∷ ns) xs h =
    rw ((has_iff xs n).1 (h n (inl refl))) (all_in_lem ns xs (λ m k. h m (inr k)))

all_known_lem :
    (tensors : Dict Entry) (keep : List String)
    → ((n : String) → In n keep → In n (names tensors))
    → all_known tensors keep ≡ ok []
all_known_lem tensors [] h = refl
all_known_lem tensors (n ∷ ns) h =
    let found = (In-names tensors n).0 (h n (inl refl)) in
    rw (all_known, found.1) (all_known_lem tensors ns (λ m k. h m (inr k)))

abbrev pub key_of : Dict Entry → String → ℕ
key_of tensors n = first_of (Dict.get tensors n)

pub kept_ordered_lem :
    (tensors : Dict Entry) (keep : List String)
    → ((n : String) → In n keep → In n (names tensors))
    → kept_ordered tensors keep ≡ ok (sort_by (key_of tensors) keep)
unfolding kept_ordered
kept_ordered_lem tensors keep h = rw (all_known_lem tensors keep h) refl

built :
    (dumps : Header → List ℕ) (header : Header)
    → length (dumps header) + 8 < 2 ^ 64
    → (bytes : List ℕ) × (build_header_bytes dumps header ≡ ok bytes) × ((length bytes - 8) % 8 ≡ 0)
built dumps header fits =
    let written = build_header_bytes_lem dumps header fits in
    (
      little_endian 8 (length (padded dumps header)) ++ padded dumps header,
      written.0,
      omega (arith, written.1, written.3),
    )

pub origin-known :
    (plan : MutationPlan) (tensors src : Dict Entry) (n : String) (e : Entry)
    → Dict.get tensors n ≡ some e
    → origin plan tensors src n ≡ (if has plan.keep n then some e else Dict.get src n)
origin-known plan tensors src n e h = rw (origin, h) refl

origin-unknown :
    (plan : MutationPlan) (tensors src : Dict Entry) (n : String)
    → Dict.get tensors n ≡ none
    → origin plan tensors src n ≡ Dict.get src n
origin-unknown plan tensors src n h = rw (origin, h) refl

-- A name that is not kept is taken from the source.
pub origin-unkept :
    (plan : MutationPlan) (tensors src : Dict Entry) (n : String)
    → (In n plan.keep → ⊥)
    → origin plan tensors src n ≡ Dict.get src n
origin-unkept plan tensors src n h = elim (Option-cases (Dict.get tensors n)) [
  | inl e ↦ origin-unknown plan tensors src n e
  | inr (x, e) ↦ elim (Bool-cases (has plan.keep n)) [
    | inl k ↦ absurd (h ((has_iff plan.keep n).0 k))
    | inr k ↦ origin-known plan tensors src n x e ∙ rw k refl
  ]
]

pub keep_iff :
    (members : List String) (n : String)
    → In n (plan_of members).keep ↔ (In n members × (In n dropped_lmhead → ⊥))
keep_iff members n =
    let chosen = In-select (λ m. not (has dropped_lmhead m)) members n in
    let known = has_iff dropped_lmhead n in
    (
      λ h. ((chosen.0 h).0, λ k. let a = known.1 k in let b = (chosen.0 h).1 in absurd (clash a b)),
      λ h. chosen.1 (
        h.0,
        elim (Bool-cases (has dropped_lmhead n)) [
          | inl e ↦ absurd (h.1 (known.0 e))
          | inr e ↦ rw e refl
        ],
      ),
    )
  where
    clash : {b : Bool} → b ≡ true → not b ≡ true → ⊥
    clash a b = ground arith

Fit-Sized :
    (expected : Dict (List ℕ)) (src : Dict Entry) (ns : List String) (n : String)
    → All Ordered src
    → All (Fit expected src) ns
    → In n ns
    → Sized (Dict.get src n)
Fit-Sized expected src [] n o f h = absurd h
Fit-Sized expected src (m ∷ ns) n o f h = elim h [
  | inl q ↦
      let g = f.0 in subst (λ z. Sized (Dict.get src z)) q (rw g.1 (Ordered-get src m g.0 o g.1))
  | inr k ↦ Fit-Sized expected src ns n o f.1 k
]

In-added : (n : String) → In n added_tensors → In n action_tensors ⊎ In n dropped_lmhead
In-added n h = elim ((In-append n action_tensors ("lm_head.weight" ∷ [])).0 h) [
  | inl a ↦ inl a
  | inr (inl e) ↦ inr (inl e)
  | inr (inr v) ↦ absurd v
]

-- In a header that has none of the action tensors, what is kept is not added.
pub kept-added :
    (members : List String) (tensors : Dict Entry) (n : String)
    → ((m : String) → In m members ↔ In m (names tensors))
    → ((m : String) → In m action_tensors → In m (names tensors) → ⊥)
    → In n (plan_of members).keep
    → In n added_tensors
    → ⊥
kept-added members tensors n same bare k a =
    let kept = (keep_iff members n).0 k in
    elim (In-added n a) [ inl act ↦ bare n act ((same n).0 kept.0) | inr head ↦ kept.1 head ]

-- What a layout of a plan is to be: the kept tensors in the order that they had, and then the added
-- ones, one behind the other from 0 to the end of the data and each as it is where it comes from;
-- kept are the tensors but those of the FP8 head; the header's length is a multiple of eight; and
-- the new file counts as changed.
abbrev pub LaidOut : (Header → List ℕ) → Dict Entry → Dict Entry → MutationPlan → Type 0
LaidOut dumps tensors src plan =
    let kept = sort_by (key_of tensors) plan.keep in
    (layout : Layout) × (build_layout dumps plan tensors src ≡ ok layout)
    × Tiles (origin plan tensors src) 0 layout.order layout.entries layout.data_len
    × (layout.order ≡ kept ++ added_tensors)
    × Rising (key_of tensors) kept
    × ((n : String) → In n kept ↔ (In n (names tensors) × (In n dropped_lmhead → ⊥)))
    × (layout.header_len % 8 ≡ 0)
    × (is_mutated layout.entries ≡ true)

is_mutated_lem :
    (from : String → Option Entry) (ns : List String) (d : Dict Entry) (e : ℕ) (ref : Entry)
    → Tiles from 0 ns d e
    → ((n : String) → In n added_tensors → In n ns)
    → from "lm_head.weight" ≡ some ref
    → ref.dtype ≡ "BF16"
    → is_mutated d ≡ true
is_mutated_lem from ns d e ref t there comes bf16 =
    let found =
      Tiles-get from 0 ns d e "lm_head.weight" t
        (there "lm_head.weight" ((has_iff added_tensors "lm_head.weight").0 refl)) in
    let moved : Moved (some ref) found.0 = subst (λ o. Moved o found.0) comes found.2 in
    let all : all_in action_tensors (names d) ≡ true = all_in_lem action_tensors (names d) (λ n h.
      subst (λ l. In n l) (sym (Tiles-names from 0 ns d e t))
        (there n ((In-append n action_tensors ("lm_head.weight" ∷ [])).1 (inl h)))) in
    let same : str_eq (found.0).dtype "BF16" ≡ true = (eq_iff _ _).1 (moved.0 ∙ bf16) in
    both all (rw found.1 same)
  where
    both : {a b : Bool} → a ≡ true → b ≡ true → a && b ≡ true
    both h k = ground arith

build_layout-steps :
    (dumps : Header → List ℕ) (plan : MutationPlan) (tensors src : Dict Entry) (kept : List String)
    (d : Dict Entry) (e : ℕ) (bytes : List ℕ)
    → kept_ordered tensors plan.keep ≡ ok kept
    → place (origin plan tensors src) (kept ++ plan.add) 0 [] ≡ ok (d, e)
    → build_header_bytes dumps record { tensors = d; metadata = none } ≡ ok bytes
    → build_layout dumps plan tensors src
      ≡ ok record {
        order = kept ++ plan.add;
        entries = d;
        header_len = length bytes - 8;
        data_len = e;
      }
unfolding build_layout
build_layout-steps dumps plan tensors src kept d e bytes a b c = rw (a, b, c) refl

laid :
    (dumps : Header → List ℕ) (members : List String) (tensors src : Dict Entry) (cfg : Config)
    → Distinct members
    → ((n : String) → In n members ↔ In n (names tensors))
    → All Ordered tensors
    → All Ordered src
    → ((n : String) → In n action_tensors → In n (names tensors) → ⊥)
    → ((d : Dict Entry) (e : ℕ)
        → place
            (origin (plan_of members) tensors src)
            (sort_by (key_of tensors) (plan_of members).keep ++ added_tensors)
            0
            []
          ≡ ok (d, e)
        → length (dumps record { tensors = d; metadata = none }) + 8 < 2 ^ 64)
    → All (Fit (expected_shapes cfg) src) added_tensors
    → LaidOut dumps tensors src (plan_of members)
laid dumps members tensors src cfg distinct same sized given bare short checked =
    let plan = plan_of members in
    let kept = sort_by (key_of tensors) plan.keep in
    let in_kept = λ (n : String). In-sort_by (key_of tensors) plan.keep n in
    let from = origin plan tensors src in
    let apart : (n : String) → In n plan.keep → In n added_tensors → ⊥ =
      λ n. kept-added members tensors n same bare in
    let once : Distinct (kept ++ added_tensors) =
      Distinct-append kept added_tensors
        (Distinct-sort_by (key_of tensors) plan.keep
          (Distinct-select (λ n. not (has dropped_lmhead n)) members distinct))
        (is_distinct-Distinct added_tensors refl) (λ n k a. apart n ((in_kept n).0 k) a) in
    let present : (n : String) → In n plan.keep → In n (names tensors) =
      λ n k. (same n).0 ((keep_iff members n).0 k).0 in
    let whole : (n : String) → In n (kept ++ added_tensors) → Sized (from n) = λ n h.
      elim ((In-append n kept added_tensors).0 h) [
        | inl k ↦
            let mine = (in_kept n).0 k in
            let found = (In-names tensors n).0 (present n mine) in
            subst Sized
              (sym (
                origin-known plan tensors src n found.0 found.1
                ∙ ap (λ b. if b then some found.0 else Dict.get src n)
                    ((has_iff plan.keep n).1 mine)))
              (Ordered-get tensors n found.0 sized found.1)
        | inr a ↦
            subst Sized (sym (origin-unkept plan tensors src n (λ k. apart n k a)))
              (Fit-Sized (expected_shapes cfg) src added_tensors n given checked a)
      ] in
    let placed = place_lem from (kept ++ added_tensors) 0 [] once (λ n h b. b) whole in
    let bytes =
      built dumps record { tensors = placed.0; metadata = none }
        (short placed.0 placed.1 placed.2) in
    let head = checked.1.1.1.1.1.0 in
    let head_name : In "lm_head.weight" added_tensors =
      (has_iff added_tensors "lm_head.weight").0 refl in
    (
      record {
        order = kept ++ added_tensors;
        entries = placed.0;
        header_len = length bytes.0 - 8;
        data_len = placed.1;
      },
      build_layout-steps dumps plan tensors src kept placed.0 placed.1 bytes.0
          (kept_ordered_lem tensors plan.keep present) placed.2 bytes.1,
      placed.3,
      refl,
      Rising-sort_by (key_of tensors) plan.keep,
      (λ n. (
        λ k. let mine = (keep_iff members n).0 ((in_kept n).0 k) in ((same n).0 mine.0, mine.1),
        λ k. (in_kept n).1 ((keep_iff members n).1 ((same n).1 k.0, k.1)),
      )),
      bytes.2,
      is_mutated_lem from (kept ++ added_tensors) placed.0 placed.1 head.0 placed.3
          (λ n a. (In-append n kept added_tensors).1 (inr a))
          (origin-unkept plan tensors src "lm_head.weight" (λ k. apart "lm_head.weight" k head_name)
            ∙ head.1)
          head.2,
    )

-- Where the change of a checkpoint that has none of the action tensors is planned, and the JSON of
-- the new header is shorter than 2^64 bytes, it is also laid out: the kept tensors, all but those of the FP8 head, in the order that they had, and then the
-- added ones lie one behind the other from 0 to the end of the data, each with the type, the shape
-- and the size that it has where it comes from; the header's length is a multiple of eight; and the
-- new file counts as changed, so that it is refused the next time.
pub build_layout-plan_mutation :
    (dumps : Header → List ℕ) (members : List String) (tensors src : Dict Entry) (cfg : Config)
    (plan : MutationPlan)
    → Distinct members
    → ((n : String) → In n members ↔ In n (names tensors))
    → All Ordered tensors
    → All Ordered src
    → ((n : String) → In n action_tensors → In n (names tensors) → ⊥)
    → ((d : Dict Entry) (e : ℕ)
        → place (origin plan tensors src) (sort_by (key_of tensors) plan.keep ++ added_tensors) 0 []
          ≡ ok (d, e)
        → length (dumps record { tensors = d; metadata = none }) + 8 < 2 ^ 64)
    → plan_mutation members tensors src cfg ≡ ok plan
    → LaidOut dumps tensors src plan
build_layout-plan_mutation dumps members tensors src cfg plan distinct same sized given bare short
      h =
    let inverted = (plan_mutation_iff members tensors src cfg).0 plan h in
    let small =
      subst
        (λ (p : MutationPlan).
          (d : Dict Entry) (e : ℕ)
          → place (origin p tensors src) (sort_by (key_of tensors) p.keep ++ added_tensors) 0 []
            ≡ ok (d, e)
          → length (dumps record { tensors = d; metadata = none }) + 8 < 2 ^ 64)
        inverted.2 short in
    subst (LaidOut dumps tensors src) (sym inverted.2)
      (laid dumps members tensors src cfg distinct same sized given bare small inverted.1)

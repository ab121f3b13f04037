-- ===== src/Preprocessing/Action/Registry.antt =====
-- Exactly which action requests are accepted, and what the two tables promise each other.
use cosmos3_nano_web_ui.Common.{
  ℕ, ℤ, pos, ◌≤◌, ◌≡◌, ◌↔◌, ◌⊎◌, ◌≤ℤ◌, inl, inr, refl, Bool, true, false, ◌&&◌, Option, none, some,
  String, [], ◌∷◌, All, arith, str_cases, subst, Option-cases,
}
use cosmos3_nano_web_ui.Common.Dict
use cosmos3_nano_web_ui.Common.Dict.{Dict}
use cosmos3_nano_web_ui.Preprocessing.Media.{member}
use cosmos3_nano_web_ui.Preprocessing.Action.{
  ActionMode, forward_dynamics, inverse_dynamics, policy, ActionSpec, domain_ids, raw_action_dims,
  domain_id_of, raw_action_dim_of, validate, validate_supported, lacks_condition, check_width,
  resolution_tiers,
}

-- A property of all entries of a table holds of what a lookup finds.
found_lem :
    {V : Type 0} (P : String → V → Type 0) (d : Dict V) (k : String) (v : V)
    → All (λ (e : String × V). P e.0 e.1) d
    → Dict.get d k ≡ some v
    → P k v
unfolding Dict.get
found_lem P [] k v a h = absurd (ground arith)
found_lem P ((j, w) ∷ d) k v a h = elim (str_cases j k) [
  | inl e ↦ subst (λ x. P k x) (ground arith) (subst (λ x. P x w) e.0 a.0)
  | inr e ↦ found_lem P d k v a.1 (ground arith)
]

-- An entry that is in order: within the padded width, and of a known embodiment.
abbrev InOrder : String → ℕ → Type 0
InOrder name width = (width ≤ 64) × ((d : ℕ) × (domain_id_of name ≡ some d))

raw_action_dims_lem : All (λ (e : String × ℕ). InOrder e.0 e.1) raw_action_dims
unfolding raw_action_dims domain_ids domain_id_of Dict.get
raw_action_dims_lem = (
  (omega arith, (1, refl)),
  (
    (omega arith, (2, refl)),
    (
      (omega arith, (4, refl)),
      (
        (omega arith, (6, refl)),
        (
          (omega arith, (7, refl)),
          (
            (omega arith, (8, refl)),
            (
              (omega arith, (8, refl)),
              (
                (omega arith, (12, refl)),
                (
                  (omega arith, (13, refl)),
                  (
                    (omega arith, (9, refl)),
                    (
                      (omega arith, (15, refl)),
                      (
                        (omega arith, (15, refl)),
                        (
                          (omega arith, (15, refl)),
                          ((omega arith, (20, refl)), ((omega arith, (3, refl)), tt)),
                        ),
                      ),
                    ),
                  ),
                ),
              ),
            ),
          ),
        ),
      ),
    ),
  ),
)

-- Every embodiment that has a width is known to the table of domains, and its width is at most 64, the
-- width to which the model pads.
raw_action_dim_bound :
    (name : String) (width : ℕ)
    → raw_action_dim_of name ≡ some width
    → (width ≤ 64) × ((d : ℕ) × (domain_id_of name ≡ some d))
unfolding raw_action_dim_of
raw_action_dim_bound name width h =
    found_lem InOrder raw_action_dims name width raw_action_dims_lem h

-- What a mode needs of its conditioning and of its supplied actions.
abbrev pub Conditioned : ActionMode → Bool → Bool → Type 0
Conditioned inverse_dynamics image video = (image ≡ false) × (video ≡ true)
Conditioned forward_dynamics image video = (image ≡ true) × (video ≡ false)
Conditioned policy image video = (image ≡ true) × (video ≡ false)

abbrev pub Widths : ActionMode → Option ℤ → ℕ → Type 0
Widths forward_dynamics width expected = width ≡ some (pos expected)
Widths _ width expected = Unit

abbrev pub IsTier : ℤ → Type 0
IsTier t = (t ≡ pos 256) ⊎ (t ≡ pos 480) ⊎ (t ≡ pos 704) ⊎ (t ≡ pos 720)

conditioned_lem :
    (m : ActionMode) (i v : Bool)
    → (((i && v) ≡ false) × (lacks_condition m i v ≡ false)) ↔ Conditioned m i v
conditioned_lem forward_dynamics i v = ground arith
conditioned_lem inverse_dynamics i v = ground arith
conditioned_lem policy i v = ground arith

width_lem :
    (m : ActionMode) (w : Option ℤ) (expected : ℕ)
    → (check_width m w expected ≡ none) ↔ Widths m w expected
width_lem forward_dynamics none expected = ground arith
width_lem forward_dynamics (some (ℤ.pos n)) expected = ground arith
width_lem forward_dynamics (some (ℤ.negsuc n)) expected = ground arith
width_lem inverse_dynamics w expected = ground arith
width_lem policy w expected = ground arith

tier_lem : (t : ℤ) → (member resolution_tiers t ≡ true) ↔ IsTier t
tier_lem (ℤ.pos n) = ground arith
tier_lem (ℤ.negsuc n) = ground arith

validate_supported_iff :
    (spec : ActionSpec) (expected : ℕ)
    → (validate_supported spec expected ≡ none) ↔ (
        Conditioned spec.mode spec.has_image spec.has_video
        × IsTier spec.resolution_tier
        × (pos 16 ≤ℤ spec.chunk_size)
        × (spec.chunk_size ≤ℤ pos 400)
        × Widths spec.mode spec.raw_action_width expected)
unfolding validate_supported
validate_supported_iff spec expected = ground (
  arith,
  conditioned_lem spec.mode spec.has_image spec.has_video,
  tier_lem spec.resolution_tier,
  width_lem spec.mode spec.raw_action_width expected,
)

-- An action request is accepted exactly when its embodiment has a width, it carries the one kind of
-- conditioning that its mode needs and not the other (a video for inverse dynamics, an image for the
-- rest), its resolution is one of the four tiers, its chunk size is from 16 to 400, and, for forward
-- dynamics, the supplied actions have exactly the width of the embodiment.
pub validate_iff :
    (spec : ActionSpec)
    → (validate spec ≡ none) ↔ (
        (expected : ℕ) × (raw_action_dim_of spec.domain_name ≡ some expected)
        × Conditioned spec.mode spec.has_image spec.has_video
        × IsTier spec.resolution_tier
        × (pos 16 ≤ℤ spec.chunk_size)
        × (spec.chunk_size ≤ℤ pos 400)
        × Widths spec.mode spec.raw_action_width expected)
unfolding validate
validate_iff spec = elim (Option-cases (raw_action_dim_of spec.domain_name)) [
  | inl e ↦ (λ h. absurd (ground arith), λ h. absurd (ground (arith, h.1)))
  | inr (n, e) ↦
      let (b, (d, p)) = raw_action_dim_bound spec.domain_name n e in
      (
        λ h.
            let (a, t, lo, hi, w) = (validate_supported_iff spec n).0 (ground arith) in
            (n, e, a, t, lo, hi, w),
        λ h.
            let (m, q, a, t, lo, hi, w) = h in
            ground (arith, (validate_supported_iff spec m).1 (a, t, lo, hi, w)),
      )
]

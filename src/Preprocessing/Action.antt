-- ===== src/Preprocessing/Action.antt =====
-- api/preprocessing/action_schema.py: the check of an action request against its embodiment. An error
-- keeps its code and its two numbers; the message for the reader is left out.
pub mod Registry
use cosmos3_nano_web_ui.Common.{
  ℕ, ℤ, pos, Bool, true, false, ◌&&◌, ◌||◌, not, Option, none, some, String, List, [], ◌∷◌, leb_ℤ,
  ltb_ℤ, if◌then◌else◌,
}
use cosmos3_nano_web_ui.Common.Dict
use cosmos3_nano_web_ui.Common.Dict.{Dict}
use cosmos3_nano_web_ui.Preprocessing.Media.{equal, member}

pub data ActionMode : Type 0 where
  forward_dynamics inverse_dynamics policy : ActionMode

pub data ErrorCode : Type 0 where
  unknown_embodiment unsupported_for_inference width_mismatch frame_window bad_chunk
        bad_resolution_tier condition_missing condition_conflict :
      ErrorCode

-- `_DOMAIN_ID`.
unfoldable pub domain_ids : Dict ℕ
domain_ids =
    ("no_action", 0)
    ∷ ("av", 1)
    ∷ ("camera_pose", 2)
    ∷ ("hand_pose", 3)
    ∷ ("pusht", 4)
    ∷ ("libero", 5)
    ∷ ("umi", 6)
    ∷ ("bridge_orig_lerobot", 7)
    ∷ ("droid_lerobot", 8)
    ∷ ("robomind-franka", 8)
    ∷ ("galbot", 9)
    ∷ ("robomind-franka-dual", 12)
    ∷ ("robomind-ur", 13)
    ∷ ("agibotworld", 15)
    ∷ ("agibot_gear_gripper", 15)
    ∷ ("agibot_gear_gripper_ext", 15)
    ∷ ("fractal", 20)
    ∷ []

-- `_RAW_ACTION_DIM`.
unfoldable pub raw_action_dims : Dict ℕ
raw_action_dims =
    ("av", 9)
    ∷ ("camera_pose", 9)
    ∷ ("pusht", 2)
    ∷ ("umi", 10)
    ∷ ("bridge_orig_lerobot", 10)
    ∷ ("droid_lerobot", 10)
    ∷ ("robomind-franka", 10)
    ∷ ("robomind-franka-dual", 20)
    ∷ ("robomind-ur", 10)
    ∷ ("galbot", 30)
    ∷ ("agibotworld", 29)
    ∷ ("agibot_gear_gripper", 29)
    ∷ ("agibot_gear_gripper_ext", 29)
    ∷ ("fractal", 10)
    ∷ ("hand_pose", 57)
    ∷ []

-- `FRAME_MIN`, `FRAME_MAX` and `_RESOLUTION_TIERS`.
abbrev pub frame_min : ℤ
frame_min = pos 16

abbrev pub frame_max : ℤ
frame_max = pos 400

abbrev pub resolution_tiers : List ℤ
resolution_tiers = pos 256 ∷ pos 480 ∷ pos 704 ∷ pos 720 ∷ []

pub record ActionSpec : Type 0 where
  pub mode : ActionMode
  pub domain_name : String
  pub chunk_size : ℤ
  pub raw_action_width : Option ℤ
  pub resolution_tier : ℤ
  pub has_image : Bool
  pub has_video : Bool

pub record ActionValidationError : Type 0 where
  pub code : ErrorCode
  pub expected : Option ℤ
  pub got : Option ℤ

unfoldable pub domain_id_of : String → Option ℕ
domain_id_of domain_name = Dict.get domain_ids domain_name

unfoldable pub raw_action_dim_of : String → Option ℕ
raw_action_dim_of domain_name = Dict.get raw_action_dims domain_name

abbrev pub bare : ErrorCode → Option ActionValidationError
bare code = some (record { code = code; expected = none; got = none })

abbrev pub with_got : ErrorCode → ℤ → Option ActionValidationError
with_got code got = some (record { code = code; expected = none; got = some got })

-- Whether the conditioning media that the mode needs is missing.
abbrev pub lacks_condition : ActionMode → Bool → Bool → Bool
lacks_condition inverse_dynamics has_image has_video = not has_video
lacks_condition _ has_image has_video = not has_image

-- The check of the supplied actions, for forward dynamics only.
abbrev pub check_width : ActionMode → Option ℤ → ℕ → Option ActionValidationError
check_width forward_dynamics none expected = bare condition_missing
check_width forward_dynamics (some w) expected =
    if equal w (pos expected)
    then none
    else some (record { code = width_mismatch; expected = some (pos expected); got = some w })
check_width _ width expected = none

-- The checks after the embodiment is known to be supported, with its width.
unfoldable pub validate_supported : ActionSpec → ℕ → Option ActionValidationError
validate_supported spec expected =
    if spec.has_image && spec.has_video
    then bare condition_conflict
    else if lacks_condition spec.mode spec.has_image spec.has_video
    then bare condition_missing
    else if not (member resolution_tiers spec.resolution_tier)
    then with_got bad_resolution_tier spec.resolution_tier
    else if ltb_ℤ spec.chunk_size (pos 1)
    then with_got bad_chunk spec.chunk_size
    else if not (leb_ℤ frame_min spec.chunk_size && leb_ℤ spec.chunk_size frame_max)
    then with_got frame_window spec.chunk_size
    else check_width spec.mode spec.raw_action_width expected

unfoldable pub validate : ActionSpec → Option ActionValidationError
unfolding domain_id_of raw_action_dim_of validate_supported
validate spec = elim (domain_id_of spec.domain_name) [
  | none ↦ bare unknown_embodiment
  | some d ↦ elim (raw_action_dim_of spec.domain_name) [
    | none ↦ bare unsupported_for_inference
    | some expected ↦ validate_supported spec expected
  ]
]

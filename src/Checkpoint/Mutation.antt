-- ===== src/Checkpoint/Mutation.antt =====
-- tools/checkpoint_prep/mutation.py, without the sidecars: what the change of the FP8 checkpoint
-- keeps, drops and adds, and where each tensor goes. A header's offsets are in order, first ≤ last,
-- so that a size is not negative; the names of a header are a Python set, whose order of iteration
-- is an argument. An error's text is left out, but for the name it is about.
pub mod Order
pub mod Tiling
pub mod Planned
pub mod Laid
use cosmos3_nano_web_ui.Common.{
  ℕ, zero, suc, ◌+◌, ◌-◌, ◌*◌, Bool, true, false, ◌&&◌, not, Option, none, some, String, List, [],
  ◌∷◌, ◌++◌, leb, ◌==◌, length, map, select, has, str_eq, if◌then◌else◌, Result, ok, err, ◌>>=◌,
}
use cosmos3_nano_web_ui.Common.Dict
use cosmos3_nano_web_ui.Common.Dict.{Dict}
use cosmos3_nano_web_ui.Checkpoint.Bytes.{
  Entry, Header, Failure, key_error, already_mutated, missing_source, wrong_dtype, wrong_shape,
  build_header_bytes,
}

-- `ACTION_TENSORS`.
abbrev pub action_tensors : List String
action_tensors =
    "action_modality_embed" ∷ "action_proj_in.bias.weight" ∷ "action_proj_in.fc.weight"
    ∷ "action_proj_out.bias.weight" ∷ "action_proj_out.fc.weight" ∷ []

-- `DROPPED_LMHEAD`.
abbrev pub dropped_lmhead : List String
dropped_lmhead =
    "lm_head.weight" ∷ "lm_head.weight_quantizer._amax" ∷ "lm_head.weight_quantizer._scale" ∷ []

-- `ADDED_TENSORS`.
abbrev pub added_tensors : List String
added_tensors = action_tensors ++ ("lm_head.weight" ∷ [])

pub record MutationPlan : Type 0 where
  pub keep : List String
  pub discard : List String
  pub add : List String

pub record Layout : Type 0 where
  pub order : List String
  pub entries : Dict Entry
  pub header_len : ℕ
  pub data_len : ℕ

-- The four sizes that the code reads of the transformer's configuration.
pub record Config : Type 0 where
  pub hidden_size : ℕ
  pub action_dim : ℕ
  pub num_embodiment_domains : ℕ
  pub vocab_size : ℕ

unfoldable pub expected_shapes : Config → Dict (List ℕ)
expected_shapes c =
    ("action_modality_embed", c.hidden_size ∷ [])
    ∷ ("action_proj_in.bias.weight", c.num_embodiment_domains ∷ c.hidden_size ∷ [])
    ∷ ("action_proj_in.fc.weight", c.num_embodiment_domains ∷ (c.action_dim * c.hidden_size) ∷ [])
    ∷ ("action_proj_out.bias.weight", c.num_embodiment_domains ∷ c.action_dim ∷ [])
    ∷ ("action_proj_out.fc.weight", c.num_embodiment_domains ∷ (c.action_dim * c.hidden_size) ∷ [])
    ∷ ("lm_head.weight", c.vocab_size ∷ c.hidden_size ∷ [])
    ∷ []

-- `_names`: `__metadata__` is not among the tensors.
abbrev pub names : {V : Type 0} → Dict V → List String
names [] = []
names ((name, v) ∷ d) = name ∷ names d

abbrev pub same_shape : List ℕ → List ℕ → Bool
same_shape [] [] = true
same_shape (x ∷ xs) (y ∷ ys) = x == y && same_shape xs ys
same_shape _ _ = false

abbrev pub all_in : List String → List String → Bool
all_in [] xs = true
all_in (n ∷ ns) xs = has xs n && all_in ns xs

abbrev pub is_bf16 : Option Entry → Bool
is_bf16 none = false
is_bf16 (some e) = str_eq e.dtype "BF16"

abbrev pub fits : Option (List ℕ) → List ℕ → Bool
fits none shape = true
fits (some expected) shape = same_shape shape expected

-- One round of the loop over the added tensors.
unfoldable pub check_source : Dict (List ℕ) → Dict Entry → String → Result Failure String
check_source expected src name = elim (Dict.get src name) [
  | none ↦ err (missing_source name)
  | some ref ↦
      if not (str_eq ref.dtype "BF16")
      then err (wrong_dtype name)
      else if fits (Dict.get expected name) ref.shape
      then ok name
      else err (wrong_shape name)
]

unfoldable pub check_sources :
    Dict (List ℕ) → Dict Entry → List String → Result Failure (List String)
unfolding check_source
check_sources expected src [] = ok []
check_sources expected src (name ∷ more) =
    check_source expected src name >>= (λ n. check_sources expected src more >>= (λ r. ok (n ∷ r)))

abbrev pub is_mutated : Dict Entry → Bool
is_mutated tensors =
    all_in action_tensors (names tensors) && is_bf16 (Dict.get tensors "lm_head.weight")

-- `plan_mutation`; `members` are the header's names as the set is gone through.
unfoldable pub plan_mutation :
    List String → Dict Entry → Dict Entry → Config → Result Failure MutationPlan
unfolding check_sources expected_shapes
plan_mutation members tensors src cfg =
    if is_mutated tensors
    then err already_mutated
    else check_sources (expected_shapes cfg) src added_tensors >>= (λ checked. ok record {
      keep = select (λ n. not (has dropped_lmhead n)) members;
      discard = select (λ n. has members n) dropped_lmhead;
      add = added_tensors;
    })

-- `_size`.
abbrev pub size : Entry → ℕ
size e = e.last - e.first

abbrev pub first_of : Option Entry → ℕ
first_of none = 0
first_of (some e) = e.first

-- `sorted`, which is stable.
unfoldable pub insert_by : (String → ℕ) → String → List String → List String
insert_by key x [] = x ∷ []
insert_by key x (y ∷ ys) =
    let later = insert_by key x ys in if leb (key x) (key y) then x ∷ y ∷ ys else y ∷ later

unfoldable pub sort_by : (String → ℕ) → List String → List String
unfolding insert_by
sort_by key [] = []
sort_by key (x ∷ xs) = insert_by key x (sort_by key xs)

-- The sort key reads the header of each kept name.
abbrev pub all_known : Dict Entry → List String → Result Failure (List String)
all_known tensors [] = ok []
all_known tensors (n ∷ ns) = elim (Dict.get tensors n) [
  | none ↦ err (key_error n)
  | some e ↦ all_known tensors ns
]

unfoldable pub kept_ordered : Dict Entry → List String → Result Failure (List String)
unfolding sort_by
kept_ordered tensors keep =
    all_known tensors keep >>= (λ known. ok (sort_by (λ n. first_of (Dict.get tensors n)) keep))

-- The entry that a name of the order has before: the file's, if it is kept, else the source's.
abbrev pub origin : MutationPlan → Dict Entry → Dict Entry → String → Option Entry
origin plan tensors src name = elim (Dict.get tensors name) [
  | none ↦ Dict.get src name
  | some e ↦ if has plan.keep name then some e else Dict.get src name
]

abbrev pub moved_to : ℕ → Entry → Entry
moved_to cursor e = record {
  dtype = e.dtype;
  shape = e.shape;
  first = cursor;
  last = cursor + size e;
}

-- The loop of `build_layout` at `cursor`.
unfoldable pub place :
    (String → Option Entry) → List String → ℕ → Dict Entry → Result Failure (Dict Entry × ℕ)
place from [] cursor entries = ok (entries, cursor)
place from (name ∷ more) cursor entries = elim (from name) [
  | none ↦ err (key_error name)
  | some e ↦ place from more (cursor + size e) (Dict.put entries name (moved_to cursor e))
]

unfoldable pub build_layout :
    (Header → List ℕ) → MutationPlan → Dict Entry → Dict Entry → Result Failure Layout
unfolding kept_ordered place
build_layout dumps plan tensors src = kept_ordered tensors plan.keep >>= (λ kept.
    place (origin plan tensors src) (kept ++ plan.add) 0 [] >>= (λ placed.
      build_header_bytes dumps record { tensors = placed.0; metadata = none } >>= (λ bytes.
        ok record {
          order = kept ++ plan.add;
          entries = placed.0;
          header_len = length bytes - 8;
          data_len = placed.1;
        })))

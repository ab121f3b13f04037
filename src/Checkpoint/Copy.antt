-- ===== src/Checkpoint/Copy.antt =====
-- The plan of the copy, `plan_copy` of tools/checkpoint_prep/copy_shared.py. Paths are texts; which
-- of them exist is an argument. What is copied, and its verification, is file I/O.
pub mod Complete
use Prim.Native.String as Text
use text.Mathlib.Text.{starts_with}
use cosmos3_nano_web_ui.Common.{
  Bool, true, false, ◌||◌, Option, none, some, String, List, [], ◌∷◌, ◌++◌, map, any, str_eq,
  if◌then◌else◌, Result, ok, err,
}

pub data Kind : Type 0 where
  file dir : Kind

pub data Group : Type 0 where
  shared root assets reasoner : Group

pub record CopyItem : Type 0 where
  pub rel : String
  pub kind : Kind
  pub source : String
  pub dest : String
  pub group : Group

pub record CopyPlan : Type 0 where
  pub items : List CopyItem
  pub dst_dir : String
  pub source_dir : String

-- `CopyError`: the files that are missing, or the path that may not be written.
pub data CopyError : Type 0 where
  absent : List String → CopyError
  refused : String → CopyError

abbrev pub shared_dirs : List String
shared_dirs = "vae" ∷ "text_tokenizer" ∷ "vision_encoder" ∷ "sound_tokenizer" ∷ "scheduler" ∷ []

abbrev pub root_files : List String
root_files =
    "model_index.json" ∷ "config.json" ∷ "generation_config.json" ∷ "checkpoint.json"
    ∷ "tokenizer.json" ∷ "tokenizer_config.json" ∷ "vocab.json" ∷ "merges.txt"
    ∷ "chat_template.json" ∷ "preprocessor_config.json" ∷ "video_preprocessor_config.json" ∷ []

abbrev pub asset_files : List String
asset_files =
    "example_t2v_prompt.json" ∷ "example_t2v_output.mp4" ∷ "negative_prompt.json"
    ∷ "example_i2v_prompt.json" ∷ "example_i2v_input.jpg" ∷ "example_t2vs_prompt.json"
    ∷ "example_action_fd_agibotworld_first_frame.png"
    ∷ "example_action_fd_agibotworld_action_chunks.json"
    ∷ "example_action_fd_agibotworld_4chunk_output.mp4" ∷ []

abbrev pub reasoner_dirs : List String
reasoner_dirs = "transformer" ∷ "vision_encoder" ∷ []

abbrev pub reasoner_configs : List String
reasoner_configs =
    "config.json" ∷ "generation_config.json" ∷ "tokenizer.json" ∷ "tokenizer_config.json"
    ∷ "vocab.json" ∷ "merges.txt" ∷ "chat_template.json" ∷ "preprocessor_config.json"
    ∷ "video_preprocessor_config.json" ∷ []

-- One call of `add`: where the item goes, its kind, where it comes from under the source, its group.
pub record Listing : Type 0 where
  pub place : String
  pub sort : Kind
  pub origin : String
  pub part : Group

abbrev pub below : String → String → String
below prefix name = Text.◌++◌ prefix name

unfoldable pub inventory : List Listing
inventory =
    map (λ d. record { place = d; sort = dir; origin = d; part = shared }) shared_dirs
    ++ (map (λ f. record { place = f; sort = file; origin = f; part = root }) root_files
        ++ (map
              (λ a. record {
                place = below "assets/" a;
                sort = file;
                origin = below "assets/" a;
                part = assets;
              })
              asset_files
            ++ (map
                  (λ d. record {
                    place = below "reasoner/" d;
                    sort = dir;
                    origin = d;
                    part = reasoner;
                  })
                  reasoner_dirs
                ++ map
                    (λ f. record {
                      place = below "reasoner/" f;
                      sort = file;
                      origin = f;
                      part = reasoner;
                    })
                    reasoner_configs)))

-- `base / name`.
abbrev pub join : String → String → String
join base name = Text.◌++◌ (Text.◌++◌ base "/") name

abbrev pub item_of : String → String → Listing → CopyItem
item_of dst src l = record {
  rel = l.place;
  kind = l.sort;
  source = join src l.origin;
  dest = join dst l.place;
  group = l.part;
}

-- The calls of `add` in their order: the items and the paths that are missing.
unfoldable pub add_all :
    (String → Bool) → String → String → List Listing → List CopyItem × List String
add_all exists dst src [] = ([], [])
add_all exists dst src (l ∷ ls) =
    let more = add_all exists dst src ls in
    if exists (join src l.origin)
    then (item_of dst src l ∷ more.0, more.1)
    else (more.0, join src l.origin ∷ more.1)

abbrev pub is_transformer : String → Bool
is_transformer rel = str_eq rel "transformer" || starts_with rel "transformer/"

-- The guardrail: no item may lie in the quantized transformer.
unfoldable pub guarded : List CopyItem → Result CopyError (List CopyItem)
guarded [] = ok []
guarded (it ∷ items) =
    let more = guarded items in
    if is_transformer it.rel
    then err (refused it.rel)
    else elim more [ ok its ↦ ok (it ∷ its) | err e ↦ err e ]

abbrev pub planned : String → String → Result CopyError (List CopyItem) → Result CopyError CopyPlan
planned dst src (ok items) = ok record { items = items; dst_dir = dst; source_dir = src }
planned dst src (err e) = err e

abbrev pub unless_missing :
    String → String → List CopyItem → List String → Result CopyError CopyPlan
unless_missing dst src items [] = planned dst src (guarded items)
unless_missing dst src items (m ∷ ms) = err (absent (m ∷ ms))

unfoldable pub plan_copy : (String → Bool) → String → String → Result CopyError CopyPlan
unfolding inventory add_all guarded
plan_copy exists dst src =
    let added = add_all exists dst src inventory in unless_missing dst src added.0 added.1

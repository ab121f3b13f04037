-- ===== src/Checkpoint/Copy/Complete.antt =====
-- What `plan_copy` of tools/checkpoint_prep/copy_shared.py plans.
use cosmos3_nano_web_ui.Common.{
  Bool, true, false, not, String, List, [], ◌∷◌, map, All, ◌≡◌, refl, ap, ◌∙◌, inl, inr, Bool-cases,
  ok, arith, ◌&&◌,
}
use cosmos3_nano_web_ui.Checkpoint.Copy.{
  CopyItem, CopyPlan, Listing, inventory, join, item_of, add_all, is_transformer, guarded, planned,
  unless_missing, plan_copy,
}

abbrev pub Exists : (String → Bool) → String → Listing → Type 0
Exists exists src l = exists (join src l.origin) ≡ true

abbrev pub Outside : CopyItem → Type 0
Outside it = is_transformer it.rel ≡ false

add_all_lem :
    (exists : String → Bool) (dst src : String) (ls : List Listing)
    → (All (Exists exists src) ls → add_all exists dst src ls ≡ (map (item_of dst src) ls, []))
      × ((add_all exists dst src ls).1 ≡ [] → All (Exists exists src) ls)
unfolding add_all
add_all_lem exists dst src [] = (λ h. refl, λ h. tt)
add_all_lem exists dst src (l ∷ ls) = (
  λ h. rw (h.0, (add_all_lem exists dst src ls).0 h.1) refl,
  λ h. elim (Bool-cases (exists (join src l.origin))) [
    | inl e ↦ (e, (add_all_lem exists dst src ls).1 (rw e at h))
    | inr e ↦ let h' = rw e at h in absurd (cc)
  ],
)

guarded_lem : (items : List CopyItem) → All Outside items → guarded items ≡ ok items
unfolding guarded
guarded_lem [] h = refl
guarded_lem (it ∷ items) h = rw (h.0, guarded_lem items h.1) refl

abbrev all_outside : List CopyItem → Bool
all_outside [] = true
all_outside (it ∷ items) = not (is_transformer it.rel) && all_outside items

all_outside_lem : (items : List CopyItem) → all_outside items ≡ true → All Outside items
all_outside_lem [] h = tt
all_outside_lem (it ∷ items) h = (ground arith, all_outside_lem items (ground arith))

-- No place of the inventory lies in the quantized transformer.
outside : (dst src : String) → All Outside (map (item_of dst src) inventory)
unfolding inventory
outside dst src = all_outside_lem (map (item_of dst src) inventory) refl

refused_missing :
    (dst src : String) (items : List CopyItem) (ms : List String) (plan : CopyPlan)
    → unless_missing dst src items ms ≡ ok plan
    → ms ≡ []
refused_missing dst src items [] plan h = refl
refused_missing dst src items (m ∷ ms) plan h = absurd (cc)

-- A copy is planned exactly where every file and directory of the inventory exists in the source; the
-- plan then has an item for each of them, and none of its items lies in the quantized transformer.
pub plan_copy_iff :
    (exists : String → Bool) (dst src : String)
    → ((plan : CopyPlan) → plan_copy exists dst src ≡ ok plan → All (Exists exists src) inventory)
      × (All (Exists exists src) inventory
          → plan_copy exists dst src
            ≡ ok
                record { items = map (item_of dst src) inventory; dst_dir = dst; source_dir = src })
      × All Outside (map (item_of dst src) inventory)
unfolding plan_copy add_all
plan_copy_iff exists dst src = (
  λ plan h. (add_all_lem exists dst src inventory).1 (
      refused_missing dst src (add_all exists dst src inventory).0
        (add_all exists dst src inventory).1 plan h),
  λ there.
      ap (λ (a : List CopyItem × List String). unless_missing dst src a.0 a.1)
        ((add_all_lem exists dst src inventory).0 there)
      ∙ ap (planned dst src) (guarded_lem (map (item_of dst src) inventory) (outside dst src)),
  outside dst src,
)

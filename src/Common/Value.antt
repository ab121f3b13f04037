-- ===== src/Common/Value.antt =====
-- The values of a decoded JSON document, which the code keeps in `dict` and `list` objects.
use Prim.Native.String.{String}
use mathlib.Core.Bool.{Bool, true, false, not}
use mathlib.Core.Option.{Option, none, some}
use text.Mathlib.Text.{◌==◌ as str_eq}
use Prim.Native.Nat.{ℕ}
use cosmos3_nano_web_ui.Common.Tests.{if◌then◌else◌}
use cosmos3_nano_web_ui.Common.Int.{ℤ, pos}
use cosmos3_nano_web_ui.Common.Float.{Float, fin}

mutual
  -- A `dict` with text keys, in insertion order.
  pub data Fields : Type 0 where
    end : Fields
    field : String → Value → Fields → Fields

  pub data Value : Type 0 where
    null : Value
    bool : Bool → Value
    int : ℤ → Value
    float : Float → Value
    str : String → Value
    obj : Fields → Value
    arr : Items → Value

  -- A `list`.
  pub data Items : Type 0 where
    none_left : Items
    item : (first : Value) (rest : Items) → Items

-- `d.get(k)`; `none` where the key is absent.
abbrev pub get : Fields → String → Option Value
get end k = none
get (field j v r) k = let rest = get r k in if str_eq j k then some v else rest

-- `d[k] = v`: in place where the key is there, else at the end.
abbrev pub put : Fields → String → Value → Fields
put end k v = field k v end
put (field j w r) k v = let rest = put r k v in if str_eq j k then field j v r else field j w rest

-- Python's truth of a value: `if value:`.
abbrev pub truthy : Value → Bool
truthy null = false
truthy (bool b) = b
truthy (int (pos n)) = elim n [ ℕ.zero ↦ false | ℕ.suc k ↦ true ]
truthy (int z) = true
truthy (float (fin (pos n))) = elim n [ ℕ.zero ↦ false | ℕ.suc k ↦ true ]
truthy (float f) = true
truthy (str s) = not (str_eq s "")
truthy (arr none_left) = false
truthy (arr xs) = true
truthy (obj end) = false
truthy (obj fs) = true

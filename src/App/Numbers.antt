-- ===== src/App/Numbers.antt =====
-- The integer parameters of api/app/jobs_router.py, with Python's `int`.
use cosmos3_nano_web_ui.Common.{
  zero, suc, ◌/◌, ℤ, pos, negsuc, Bool, true, false, String, Option, none, some, Result, ok, err,
  if◌then◌else◌, ◌≡◌, ◌⊎◌, ◌↔◌, ℕ, arith,
}
use cosmos3_nano_web_ui.Common.Float
use cosmos3_nano_web_ui.Common.Float.{Float, nan, neg_inf, pos_inf, fin}
use cosmos3_nano_web_ui.Common.Value
use cosmos3_nano_web_ui.Common.Value.{Value, null, bool, int, float, str, arr, obj, Fields}
use cosmos3_nano_web_ui.Preprocessing.Media.{plain, invalid_param}
use cosmos3_nano_web_ui.App.Errors.{ApiError, media, unexpected, to_error_response, media_status}

-- What `int(x)` does: a number, or one of its exceptions.
pub data IntOf : Type 0 where
  number : ℤ → IntOf
  type_error value_error overflow_error : IntOf

-- A float towards zero, as a count of 2^-1074.
unfoldable pub truncate : ℤ → ℤ
truncate (pos n) = pos (n / Float.unit)
truncate (negsuc n) = elim (suc n / Float.unit) [ zero ↦ pos 0 | suc k ↦ negsuc k ]

abbrev pub parsed : Option ℤ → IntOf
parsed none = value_error
parsed (some z) = number z

-- `int(value)`; `parse` is `int` of a text.
unfoldable pub int_of : (String → Option ℤ) → Value → IntOf
unfolding truncate
int_of parse null = type_error
int_of parse (bool true) = number (pos 1)
int_of parse (bool false) = number (pos 0)
int_of parse (int z) = number z
int_of parse (float nan) = value_error
int_of parse (float neg_inf) = overflow_error
int_of parse (float pos_inf) = overflow_error
int_of parse (float (fin z)) = number (truncate z)
int_of parse (str s) = parsed (parse s)
int_of parse (arr xs) = type_error
int_of parse (obj fs) = type_error

-- `_require_int` past `params[key]`: only two of the three exceptions are caught.
unfoldable pub checked_int : IntOf → Result ApiError ℤ
checked_int (number z) = ok z
checked_int type_error = err (media (plain invalid_param))
checked_int value_error = err (media (plain invalid_param))
checked_int overflow_error = err (unexpected "OverflowError")

unfoldable pub require_int : (String → Option ℤ) → Fields → String → Result ApiError ℤ
unfolding int_of checked_int
require_int parse params key = elim (Value.get params key) [
  | none ↦ err (unexpected "KeyError")
  | some v ↦ checked_int (int_of parse v)
]

-- `key not in params or params[key] is None`.
abbrev pub is_absent : Option Value → Bool
is_absent none = true
is_absent (some null) = true
is_absent (some (bool b)) = false
is_absent (some (int z)) = false
is_absent (some (float f)) = false
is_absent (some (str s)) = false
is_absent (some (arr xs)) = false
is_absent (some (obj fs)) = false

-- `_int_or`.
unfoldable pub int_or : (String → Option ℤ) → Fields → String → ℤ → Result ApiError ℤ
unfolding require_int
int_or parse params key default =
    if is_absent (Value.get params key) then ok default else require_int parse params key

abbrev pub present : Result ApiError ℤ → Result ApiError (Option ℤ)
present (ok z) = ok (some z)
present (err e) = err e

-- `_opt_int`.
unfoldable pub opt_int : (String → Option ℤ) → Fields → String → Result ApiError (Option ℤ)
unfolding require_int
opt_int parse params key =
    if is_absent (Value.get params key) then ok none else present (require_int parse params key)

-- The integer that a value stands for.
abbrev pub StandsFor : (String → Option ℤ) → Value → ℤ → Type 0
StandsFor parse null z = ⊥
StandsFor parse (bool b) z = z ≡ (if b then pos 1 else pos 0)
StandsFor parse (int w) z = z ≡ w
StandsFor parse (float nan) z = ⊥
StandsFor parse (float neg_inf) z = ⊥
StandsFor parse (float pos_inf) z = ⊥
StandsFor parse (float (fin w)) z = z ≡ truncate w
StandsFor parse (str s) z = parse s ≡ some z
StandsFor parse (arr xs) z = ⊥
StandsFor parse (obj fs) z = ⊥

-- A value that stands for no integer, and is no infinite float.
abbrev pub IsForeign : (String → Option ℤ) → Value → Type 0
IsForeign parse null = Unit
IsForeign parse (bool b) = ⊥
IsForeign parse (int w) = ⊥
IsForeign parse (float nan) = Unit
IsForeign parse (float neg_inf) = ⊥
IsForeign parse (float pos_inf) = ⊥
IsForeign parse (float (fin w)) = ⊥
IsForeign parse (str s) = parse s ≡ none
IsForeign parse (arr xs) = Unit
IsForeign parse (obj fs) = Unit

abbrev pub IsInfinite : Value → Type 0
IsInfinite v = (v ≡ float pos_inf) ⊎ (v ≡ float neg_inf)

-- A result that is an error of this status.
abbrev pub EndsWith : ℕ → Result ApiError ℤ → Type 0
EndsWith status (ok z) = ⊥
EndsWith status (err e) = (to_error_response e).0 ≡ status

checked_int_iff :
    (parse : String → Option ℤ) (v : Value)
    → ((z : ℤ) → (checked_int (int_of parse v) ≡ ok z) ↔ StandsFor parse v z)
      × (EndsWith 422 (checked_int (int_of parse v)) ↔ IsForeign parse v)
      × (EndsWith 500 (checked_int (int_of parse v)) ↔ IsInfinite v)
unfolding checked_int int_of to_error_response media_status
checked_int_iff parse null = (λ z. ground arith, ground arith, ground arith)
checked_int_iff parse (bool true) = (λ z. ground arith, ground arith, ground arith)
checked_int_iff parse (bool false) = (λ z. ground arith, ground arith, ground arith)
checked_int_iff parse (int w) = (λ z. ground arith, ground arith, ground arith)
checked_int_iff parse (float nan) = (λ z. ground arith, ground arith, ground arith)
checked_int_iff parse (float neg_inf) = (λ z. ground arith, ground arith, ground arith)
checked_int_iff parse (float pos_inf) = (λ z. ground arith, ground arith, ground arith)
checked_int_iff parse (float (fin w)) = (λ z. ground arith, ground arith, ground arith)
checked_int_iff parse (str s) = (λ z. ground arith, ground arith, ground arith)
checked_int_iff parse (arr xs) = (λ z. ground arith, ground arith, ground arith)
checked_int_iff parse (obj fs) = (λ z. ground arith, ground arith, ground arith)

-- A parameter that is given is accepted exactly where it stands for an integer, as that integer: a
-- Boolean as 1 or 0, an integer as itself, a finite float as its truncation, a text as `int` reads it.
-- It ends in the status 422 exactly where it is null, NaN, an array, an object or a text that `int`
-- does not read, and in the status 500 exactly where it is an infinite float.
pub require_int_iff :
    (parse : String → Option ℤ) (params : Fields) (key : String) (v : Value)
    → Value.get params key ≡ some v
    → ((z : ℤ) → (require_int parse params key ≡ ok z) ↔ StandsFor parse v z)
      × (EndsWith 422 (require_int parse params key) ↔ IsForeign parse v)
      × (EndsWith 500 (require_int parse params key) ↔ IsInfinite v)
unfolding require_int
require_int_iff parse params key v h = rw (require_int, h) (checked_int_iff parse v)

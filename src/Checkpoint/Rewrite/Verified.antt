-- ===== src/Checkpoint/Rewrite/Verified.antt =====
-- The rewrite of tools/checkpoint_prep/rewrite.py, from the planned change to the verified file.
use cosmos3_nano_web_ui.Common.{
  ℕ, ◌+◌, ◌-◌, ◌≤◌, Bool, true, false, Option, none, some, String, List, [], ◌++◌, All, has, length,
  if◌then◌else◌, ◌≡◌, refl, sym, ap, ◌∙◌, subst, ◌⊎◌, inl, inr, arith, ok,
}
use text.Mathlib.TextPositions.{eq_refl}
use cosmos3_nano_web_ui.Common.Dict
use cosmos3_nano_web_ui.Common.Dict.{Dict}
use cosmos3_nano_web_ui.Checkpoint.Bytes.{Entry, Failure, hash_tensor}
use cosmos3_nano_web_ui.Common.Slices.{length-take, length-drop}
use cosmos3_nano_web_ui.Checkpoint.Bytes.Stream.{payload, copy_range_lem, hash_tensor_lem}
use cosmos3_nano_web_ui.Common.{drop}
use cosmos3_nano_web_ui.Checkpoint.Mutation.{MutationPlan, origin}
use cosmos3_nano_web_ui.Checkpoint.Mutation.Order.{has_iff}
use cosmos3_nano_web_ui.Checkpoint.Mutation.Laid.{origin-known, origin-unkept}
use cosmos3_nano_web_ui.Checkpoint.Rewrite.{
  Located, write_tensor, check_tensor, hash_kept, hash_source, entries_of,
}
use cosmos3_nano_web_ui.Checkpoint.Rewrite.Payload.{Holds, Measured}
use cosmos3_nano_web_ui.Checkpoint.Rewrite.Tables.{All-get, get-entries_of}

-- The file has all the bytes of an entry.
abbrev pub Whole : List ℕ → ℕ → String × Entry → Type 0
Whole file start (n, e) = (e.first ≤ e.last) × (start + e.last ≤ length file)

abbrev pub WholeAt : String × Located → Type 0
WholeAt (n, l) = Whole l.file l.data_start (n, l.entry)

abbrev pub kept_bytes : List ℕ → ℕ → Option Entry → List ℕ
kept_bytes fp8 start none = []
kept_bytes fp8 start (some e) = payload fp8 start e.first e.last

abbrev pub source_bytes : Option Located → List ℕ
source_bytes none = []
source_bytes (some l) = payload l.file l.data_start (l.entry).first (l.entry).last

-- The bytes that a name is to have: its own where it is kept, else the source's.
abbrev pub bytes_of : List ℕ → ℕ → Dict Entry → Dict Located → List String → String → List ℕ
bytes_of fp8 start tensors srcmap keep n =
    if has keep n
    then kept_bytes fp8 start (Dict.get tensors n)
    else source_bytes (Dict.get srcmap n)

length-payload :
    (file : List ℕ) (start first last : ℕ)
    → first ≤ last
    → start + last ≤ length file
    → length (payload file start first last) + first ≡ last
length-payload file start first last h k =
    let left = length-drop (start + first) file in
    let got = length-take (last - first) (drop (start + first) file) (omega (arith, left)) in
    omega (arith, got)

-- A name of the plan is kept and in the file, or is not kept and in the source.
abbrev pub Found : Dict Entry → Dict Located → List String → String → Type 0
Found tensors srcmap keep n =
    ((has keep n ≡ true) × (e : Entry) × (Dict.get tensors n ≡ some e))
    ⊎ ((has keep n ≡ false) × (l : Located) × (Dict.get srcmap n ≡ some l))

module _ (fp8 : List ℕ) (start : ℕ) (tensors : Dict Entry) (srcmap : Dict Located)
    (plan : MutationPlan) (own : All (Whole fp8 start) tensors) (given : All WholeAt srcmap) where
  abbrev wanted : String → List ℕ
  wanted = bytes_of fp8 start tensors srcmap plan.keep

  pub write_tensor_lem :
      (n : String) (out : List ℕ)
      → Found tensors srcmap plan.keep n
      → write_tensor fp8 start tensors plan.keep srcmap n out ≡ ok (out ++ wanted n)
  unfolding write_tensor
  write_tensor_lem n out (inl (k, e, h)) =
      let whole = All-get (Whole fp8 start) tensors n e own h in
      rw (k, h) ((copy_range_lem fp8 start e.first e.last out).0 whole.0 whole.1)
  write_tensor_lem n out (inr (k, l, h)) =
      let whole = All-get WholeAt srcmap n l given h in
      rw (k, h)
        ((copy_range_lem l.file l.data_start (l.entry).first (l.entry).last out).0 whole.0 whole.1)

  pub hash_kept_lem :
      (sha : List ℕ → String) (n : String) (e : Entry)
      → has plan.keep n ≡ true
      → Dict.get tensors n ≡ some e
      → hash_kept sha fp8 start tensors n ≡ ok (sha (wanted n))
  hash_kept_lem sha n e k h =
      let whole = All-get (Whole fp8 start) tensors n e own h in
      rw (hash_kept, k, h) (hash_tensor_lem sha fp8 start e whole.0 whole.1)

  pub hash_source_lem :
      (sha : List ℕ → String) (n : String) (l : Located)
      → Dict.get srcmap n ≡ some l
      → hash_source sha srcmap n ≡ ok (sha (source_bytes (Dict.get srcmap n)))
  hash_source_lem sha n l h =
      let whole = All-get WholeAt srcmap n l given h in
      rw (hash_source, h) (hash_tensor_lem sha l.file l.data_start l.entry whole.0 whole.1)

  pub Measured_lem :
      (n : String)
      → Found tensors srcmap plan.keep n
      → Measured wanted n (origin plan tensors (entries_of srcmap) n)
  Measured_lem n (inl (k, e, h)) =
      let whole = All-get (Whole fp8 start) tensors n e own h in
      let long : length (wanted n) + e.first ≡ e.last =
        rw (k, h) (length-payload fp8 start e.first e.last whole.0 whole.1) in
      subst (Measured wanted n)
        (sym (
          origin-known plan tensors (entries_of srcmap) n e h
          ∙ ap (λ b. if b then some e else Dict.get (entries_of srcmap) n) k))
        long
  Measured_lem n (inr (k, l, h)) =
      let whole = All-get WholeAt srcmap n l given h in
      let long : length (wanted n) + (l.entry).first ≡ (l.entry).last =
        rw (k, h)
          (length-payload l.file l.data_start (l.entry).first (l.entry).last whole.0 whole.1) in
      subst (Measured wanted n)
        (sym (
          origin-unkept plan tensors (entries_of srcmap) n
            (λ m. unkept k ((has_iff plan.keep n).1 m))
          ∙ get-entries_of srcmap n l h))
        long
    where
      unkept : {b : Bool} → b ≡ false → b ≡ true → ⊥
      unkept p q = cc

  -- The digest that a name's check compares with.
  pub check_tensor_lem :
      (sha : List ℕ → String) (missing changed : String → Failure) (out : List ℕ) (begin : ℕ)
      (d : Dict Entry) (prior : Dict String) (n : String) (x : Entry)
      → All (Holds wanted out begin) d
      → x.first ≤ x.last
      → Dict.get d n ≡ some x
      → Dict.get prior n ≡ some (sha (wanted n))
      → check_tensor sha missing changed out begin d prior n ≡ ok n
  unfolding check_tensor
  check_tensor_lem sha missing changed out begin d prior n x holds ordered there digest =
      let held = All-get (Holds wanted out begin) d n x holds there in
      let hashed : hash_tensor sha out begin x ≡ ok (sha (wanted n)) =
        hash_tensor_lem sha out begin x ordered held.1 ∙ ap (λ b. ok (sha b)) held.0 in
      rw (check_tensor, there, hashed, digest, eq_refl (sha (wanted n))) refl

-- ===== src/Checkpoint/Rewrite/Payload.antt =====
-- The bytes that `_write_rewrite` of tools/checkpoint_prep/rewrite.py puts at each entry.
use cosmos3_nano_web_ui.Common.{
  ℕ, ◌+◌, ◌-◌, ◌≤◌, Option, none, some, String, List, [], ◌∷◌, ◌++◌, In, All, length, drop,
  length-append, ◌≡◌, refl, sym, ap, ◌∙◌, subst, inl, inr, arith, Result, ok, ◌>>=◌,
}
use mathlib.Core.List.{append_assoc, append-nil}
use cosmos3_nano_web_ui.Common.Dict.{Dict}
use cosmos3_nano_web_ui.Checkpoint.Bytes.{Entry, Failure}
use cosmos3_nano_web_ui.Common.Slices.{take-append, drop-append}
use cosmos3_nano_web_ui.Checkpoint.Bytes.Stream.{payload}
use cosmos3_nano_web_ui.Checkpoint.Mutation.Tiling.{Moved, Tiles}
use cosmos3_nano_web_ui.Checkpoint.Rewrite.{write_all}

-- Every entry of a file holds the bytes that its name is to have.
abbrev pub Holds : (String → List ℕ) → List ℕ → ℕ → String × Entry → Type 0
Holds bytes_of file start (n, x) =
    (payload file start x.first x.last ≡ bytes_of n) × (start + x.last ≤ length file)

-- The bytes of a name have the size of its entry.
abbrev pub Measured : (String → List ℕ) → String → Option Entry → Type 0
Measured bytes_of n none = ⊥
Measured bytes_of n (some o) = length (bytes_of n) + o.first ≡ o.last

payload-middle :
    (before bytes after : List ℕ) (start first last : ℕ)
    → length before ≡ start + first
    → last ≡ first + length bytes
    → payload (before ++ (bytes ++ after)) start first last ≡ bytes
payload-middle before bytes after start first last h k =
    let skip : drop (start + first) (before ++ (bytes ++ after)) ≡ bytes ++ after =
      subst (λ n. drop n (before ++ (bytes ++ after)) ≡ bytes ++ after) h
        (drop-append before (bytes ++ after)) in
    let long : last - first ≡ length bytes = omega (arith, k) in
    rw (skip, long) (take-append bytes after)

pub write_all_lem :
    (write : String → List ℕ → Result Failure (List ℕ)) (bytes_of : String → List ℕ)
    (from : String → Option Entry) (start c : ℕ) (ns : List String) (d : Dict Entry) (e : ℕ)
    (out : List ℕ)
    → ((n : String) → In n ns → (o : List ℕ) → write n o ≡ ok (o ++ bytes_of n))
    → ((n : String) → In n ns → Measured bytes_of n (from n))
    → Tiles from c ns d e
    → length out ≡ start + c
    → (more : List ℕ) × (write_all write ns out ≡ ok (out ++ more))
      × (c + length more ≡ e)
      × All (Holds bytes_of (out ++ more) start) d
unfolding write_all
write_all_lem write bytes_of from start c [] [] e out writes measured t l =
    ([], ap ok (sym (append-nil out)), omega (arith, t), tt)
write_all_lem write bytes_of from start c [] (p ∷ d) e out writes measured t l = absurd t
write_all_lem write bytes_of from start c (n ∷ ns) [] e out writes measured t l = absurd t
write_all_lem write bytes_of from start c (n ∷ ns) ((m, x) ∷ d) e out writes measured t l =
    let same : n ≡ m = t.0 in
    let at_c : x.first ≡ c = t.1 in
    let long : x.last ≡ c + length (bytes_of n) = sized (from n) (measured n (inl refl)) t.3 at_c in
    let joined : length (out ++ bytes_of n) ≡ start + x.last =
      omega (arith, length-append out (bytes_of n), l, long) in
    let rest =
      write_all_lem write bytes_of from start x.last ns d e (out ++ bytes_of n)
        (λ k h. writes k (inr h)) (λ k h. measured k (inr h)) t.4 joined in
    let split : (out ++ bytes_of n) ++ rest.0 ≡ out ++ (bytes_of n ++ rest.0) =
      append_assoc out (bytes_of n) rest.0 in
    let head : payload (out ++ (bytes_of n ++ rest.0)) start x.first x.last ≡ bytes_of n =
      payload-middle out (bytes_of n) rest.0 start x.first x.last (omega (arith, l, at_c))
        (omega (arith, long, at_c)) in
    let sum = length-append out (bytes_of n ++ rest.0) in
    let sum' = length-append (bytes_of n) rest.0 in
    (
      bytes_of n ++ rest.0,
      ap (λ r. r >>= write_all write ns) (writes n (inl refl) out) ∙ rest.1 ∙ ap ok split,
      omega (arith, sum', rest.2, long),
      (
        (head ∙ ap bytes_of same, omega (arith, sum, sum', l, long)),
        subst (λ file. All (Holds bytes_of file start) d) split rest.3,
      ),
    )
  where
    sized :
        (o : Option Entry)
        → Measured bytes_of n o
        → Moved o x
        → x.first ≡ c
        → x.last ≡ c + length (bytes_of n)
    sized none h m k = absurd h
    sized (some o) h m k = omega (arith, h, m.2, k)

-- ===== src/Preprocessing/Paths.antt =====
-- api/preprocessing/paths.py: the containment of a path that a request supplies.
-- `os.path.realpath` is an argument. The tests of a path's characters are on their code points.
use cosmos3_nano_web_ui.Common.{
  ℕ, leb, ◌==◌, ◌≡◌, ◌≢◌, refl, ap, ◌↔◌, ◌⊎◌, inl, inr, Bool, true, false, ◌||◌, ◌&&◌, Bool-cases,
  Option, none, some, String, List, [], ◌∷◌, ◌++◌, All, str_eq, eq_iff, if◌then◌else◌, arith,
}
use Prim.Native.Char.{code}
use Prim.Native.String as Text
use text.Mathlib.Text.{starts_with}
use text.Mathlib.TextBridge.{IsPrefix}
use text.Mathlib.TextEquality.{starts_with_iff}

abbrev pub codes : String → List ℕ
codes String.[] = []
codes (String.◌∷◌ c s) = code c ∷ codes s

-- `"\x00" in path`.
unfoldable pub has_nul : List ℕ → Bool
has_nul [] = false
has_nul (c ∷ cs) = (c == 0) || has_nul cs

-- `[a-zA-Z]` and `[a-zA-Z0-9+.\-]`.
abbrev pub is_letter : ℕ → Bool
is_letter c = (leb 97 c && leb c 122) || (leb 65 c && leb c 90)

abbrev pub is_scheme_char : ℕ → Bool
is_scheme_char c = is_letter c || (leb 48 c && leb c 57) || (c == 43) || (c == 46) || (c == 45)

-- `://`.
abbrev pub is_marker : List ℕ → Bool
is_marker (a ∷ b ∷ c ∷ cs) = (a == 58) && ((b == 47) && (c == 47))
is_marker _ = false

-- `[a-zA-Z0-9+.\-]*://`, where no character is in both parts.
unfoldable pub after_letter : List ℕ → Bool
after_letter [] = false
after_letter (c ∷ cs) =
    let rest = after_letter cs in if is_scheme_char c then rest else is_marker (c ∷ cs)

-- `_URL_SCHEME.match(path)`.
unfoldable pub is_url : List ℕ → Bool
unfolding after_letter
is_url [] = false
is_url (c ∷ cs) = is_letter c && after_letter cs

-- `is_within`.
unfoldable pub is_within : String → String → Bool
is_within candidate_real root_real =
    str_eq candidate_real root_real || starts_with candidate_real (Text.◌++◌ root_real "/")

-- A scheme's name, `://`, and more.
abbrev pub IsScheme : List ℕ → Type 0
IsScheme [] = ⊥
IsScheme (c ∷ cs) = (is_letter c ≡ true) × All (λ d. is_scheme_char d ≡ true) cs

abbrev pub HasScheme : List ℕ → Type 0
HasScheme cs =
    (name : List ℕ) × (rest : List ℕ) × IsScheme name × (cs ≡ name ++ (58 ∷ 47 ∷ 47 ∷ rest))

has_nul_iff : (cs : List ℕ) → (has_nul cs ≡ false) ↔ All (λ c. c ≢ 0) cs
unfolding has_nul
has_nul_iff [] = (λ h. tt, λ h. refl)
has_nul_iff (c ∷ cs) = ground (arith, has_nul_iff cs)

is_marker_lem : (cs : List ℕ) → is_marker cs ≡ true → (rest : List ℕ) × (cs ≡ 58 ∷ 47 ∷ 47 ∷ rest)
is_marker_lem [] h = absurd (ground arith)
is_marker_lem (a ∷ []) h = absurd (ground arith)
is_marker_lem (a ∷ b ∷ []) h = absurd (ground arith)
is_marker_lem (a ∷ b ∷ c ∷ cs) h =
    let p : a ≡ 58 = ground arith in
    let q : b ≡ 47 = ground arith in let r : c ≡ 47 = ground arith in (cs, rw (p, q, r) refl)

after_letter_lem :
    (cs : List ℕ)
    → after_letter cs ≡ true
    → (name : List ℕ) × (rest : List ℕ) × All (λ d. is_scheme_char d ≡ true) name
      × (cs ≡ name ++ (58 ∷ 47 ∷ 47 ∷ rest))
unfolding after_letter
after_letter_lem [] h = absurd (ground arith)
after_letter_lem (c ∷ cs) h = elim (Bool-cases (is_scheme_char c)) [
  | inl t ↦
      let (name, rest, all, e) = after_letter_lem cs (rw (after_letter, t) at h) in
      (c ∷ name, rest, (t, all), ap (λ r. c ∷ r) e)
  | inr f ↦ let (rest, e) = is_marker_lem (c ∷ cs) (rw (after_letter, f) at h) in ([], rest, tt, e)
]

after_letter-append :
    (name rest : List ℕ)
    → All (λ d. is_scheme_char d ≡ true) name
    → after_letter (name ++ (58 ∷ 47 ∷ 47 ∷ rest)) ≡ true
unfolding after_letter
after_letter-append [] rest h = refl
after_letter-append (c ∷ name) rest h = rw (after_letter, h.0) (after_letter-append name rest h.1)

is_url_iff : (cs : List ℕ) → (is_url cs ≡ true) ↔ HasScheme cs
unfolding is_url
is_url_iff cs = (there cs, λ (name, rest, all, e). rw e (back name rest all))
  where
    there : (cs : List ℕ) → is_url cs ≡ true → HasScheme cs
    there [] h = absurd (ground arith)
    there (c ∷ cs) h =
        let (name, rest, all, e) = after_letter_lem cs (ground arith) in
        (c ∷ name, rest, (ground arith, all), ap (λ r. c ∷ r) e)

    back : (name rest : List ℕ) → IsScheme name → is_url (name ++ (58 ∷ 47 ∷ 47 ∷ rest)) ≡ true
    back [] rest h = absurd h
    back (c ∷ name) rest h = rw (is_url, h.0) (after_letter-append name rest h.1)

module _ (realpath : String → String) where
  -- The loop over the roots: one of them holds the candidate.
  unfoldable pub under_some : String → List String → Bool
  unfolding is_within
  under_some candidate [] = false
  under_some candidate (root ∷ roots) =
      is_within candidate (realpath root) || under_some candidate roots

  -- `resolve_within`; `none` is the UntrustedPathError.
  unfoldable pub resolve_within : String → List String → Option String
  unfolding under_some has_nul is_url
  resolve_within path allowlist =
      if has_nul (codes path) || is_url (codes path)
      then none
      else let candidate = realpath path in
        if under_some candidate allowlist then some candidate else none

  -- The candidate is the resolved root, or its text begins with the root's and one more separator.
  abbrev pub Below : String → String → Type 0
  Below candidate root =
      (candidate ≡ realpath root) ⊎ IsPrefix (Text.◌++◌ (realpath root) "/") candidate

  abbrev pub BelowSome : String → List String → Type 0
  BelowSome candidate [] = ⊥
  BelowSome candidate (root ∷ roots) = Below candidate root ⊎ BelowSome candidate roots

  is_within_lem :
      (candidate root : String)
      → (is_within candidate (realpath root) ≡ true) ↔ Below candidate root
  unfolding is_within
  is_within_lem candidate root = ground (
    arith,
    eq_iff candidate (realpath root),
    starts_with_iff candidate (Text.◌++◌ (realpath root) "/"),
  )

  under_some_lem :
      (candidate : String) (roots : List String)
      → (under_some candidate roots ≡ true) ↔ BelowSome candidate roots
  unfolding under_some
  under_some_lem candidate [] = ground arith
  under_some_lem candidate (root ∷ roots) =
      ground (arith, is_within_lem candidate root, under_some_lem candidate roots)

  -- A path is resolved exactly where none of its characters is NUL, it does not begin with a URL
  -- scheme and `://`, and its real path is a trusted root's real path or begins with the text of one
  -- and one more separator; what is returned is that real path. Of the root `/`, whose text ends in
  -- the separator, this accepts no path below it but one that begins with two of them.
  pub resolve_within_iff :
      (path : String) (allowlist : List String) (real : String)
      → (resolve_within path allowlist ≡ some real) ↔ (
          All (λ c. c ≢ 0) (codes path)
          × (HasScheme (codes path) → ⊥)
          × (real ≡ realpath path)
          × BelowSome (realpath path) allowlist)
  unfolding resolve_within
  resolve_within_iff path allowlist real = ground (
    arith,
    under_some_lem (realpath path) allowlist,
    has_nul_iff (codes path),
    is_url_iff (codes path),
  )

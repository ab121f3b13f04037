-- ===== src/Checkpoint/Mutation/Tiling.antt =====
-- Where `build_layout` of tools/checkpoint_prep/mutation.py puts the tensors.
use cosmos3_nano_web_ui.Common.{
  ℕ, ◌+◌, ◌≤◌, Option, none, some, String, List, [], ◌∷◌, ◌++◌, In, ◌≡◌, refl, sym, ap, ◌∙◌, ◌⊎◌,
  inl, inr, Option-cases, str_cases, arith, ok, subst,
}
use mathlib.Core.List.{append_assoc, append-nil}
use cosmos3_nano_web_ui.Common.Dict
use cosmos3_nano_web_ui.Common.Dict.{Dict}
use cosmos3_nano_web_ui.Checkpoint.Bytes.{Entry}
use cosmos3_nano_web_ui.Checkpoint.Mutation.{names, place, moved_to, size}
use cosmos3_nano_web_ui.Checkpoint.Mutation.Order.{Distinct}

-- An entry that has moved: the type and the shape of the tensor, and its size, are those before.
abbrev pub Moved : Option Entry → Entry → Type 0
Moved none x = ⊥
Moved (some o) x = (x.dtype ≡ o.dtype) × (x.shape ≡ o.shape) × (x.last + o.first ≡ x.first + o.last)

-- The entries have the names of the list, in its order, and lie one behind the other from `c` to `e`.
abbrev pub Tiles : (String → Option Entry) → ℕ → List String → Dict Entry → ℕ → Type 0
Tiles from c [] [] e = c ≡ e
Tiles from c (n ∷ ns) ((m, x) ∷ d) e =
    (n ≡ m) × (x.first ≡ c) × (c ≤ x.last) × Moved (from n) x × Tiles from x.last ns d e
Tiles from c _ _ e = ⊥

abbrev pub Sized : Option Entry → Type 0
Sized none = ⊥
Sized (some o) = o.first ≤ o.last

pub put-new :
    {V : Type 0} (d : Dict V) (k : String) (v : V)
    → (In k (names d) → ⊥)
    → Dict.put d k v ≡ d ++ ((k, v) ∷ [])
unfolding Dict.put
put-new [] k v new = refl
put-new ((j, w) ∷ d) k v new = elim (str_cases j k) [
  | inl (e, t) ↦ absurd (new (inl e))
  | inr (e, t) ↦ rw t (ap (λ r. (j, w) ∷ r) (put-new d k v (λ h. new (inr h))))
]

In-names_append :
    {V : Type 0} (d : Dict V) (k n : String) (v : V)
    → In n (names (d ++ ((k, v) ∷ [])))
    → In n (names d) ⊎ (k ≡ n)
In-names_append [] k n v h = elim h [ inl e ↦ inr e | inr b ↦ absurd b ]
In-names_append ((j, w) ∷ d) k n v h = elim h [
  | inl e ↦ inl (inl e)
  | inr l ↦ elim (In-names_append d k n v l) [ inl a ↦ inl (inr a) | inr b ↦ inr b ]
]

place-known :
    (from : String → Option Entry) (n : String) (ns : List String) (c : ℕ) (entries : Dict Entry)
    (o : Entry)
    → from n ≡ some o
    → place from (n ∷ ns) c entries ≡ place from ns (c + size o) (Dict.put entries n (moved_to c o))
unfolding place
place-known from n ns c entries o e = rw (place, e) refl

pub place_lem :
    (from : String → Option Entry) (ns : List String) (c : ℕ) (entries : Dict Entry)
    → Distinct ns
    → ((n : String) → In n ns → In n (names entries) → ⊥)
    → ((n : String) → In n ns → Sized (from n))
    → (d : Dict Entry) × (e : ℕ) × (place from ns c entries ≡ ok (entries ++ d, e))
      × Tiles from c ns d e
unfolding place
place_lem from [] c entries distinct apart sized =
    ([], c, ap (λ p. ok (p, c)) (sym (append-nil entries)), refl)
place_lem from (n ∷ ns) c entries distinct apart sized = elim (Option-cases (from n)) [
  | inl e ↦ absurd (subst Sized e (sized n (inl refl)))
  | inr (o, e) ↦
      let ordered : o.first ≤ o.last = subst Sized e (sized n (inl refl)) in
      let x = moved_to c o in
      let later =
        place_lem from ns (c + size o) (entries ++ ((n, x) ∷ [])) distinct.1
          (λ m h k. elim (In-names_append entries n m x k) [
            | inl old ↦ apart m (inr h) old
            | inr same ↦ distinct.0 (subst (λ z. In z ns) (sym same) h)
          ])
          (λ m h. sized m (inr h)) in
      let wrote : Dict.put entries n x ≡ entries ++ ((n, x) ∷ []) =
        put-new entries n x (apart n (inl refl)) in
      let joined : (entries ++ ((n, x) ∷ [])) ++ later.0 ≡ entries ++ ((n, x) ∷ later.0) =
        append_assoc entries ((n, x) ∷ []) later.0 in
      let rest : Tiles from x.last ns later.0 later.1 = later.3 in
      (
        (n, x) ∷ later.0,
        later.1,
        place-known from n ns c entries o e
            ∙ ap (λ p. place from ns (c + size o) p) wrote
            ∙ later.2
            ∙ ap (λ p. ok (p, later.1)) joined,
        (refl, refl, omega arith, rw e (refl, refl, omega arith), rest),
      )
]

-- Each name of a tiling is found, with the entry that its origin moved to.
pub Tiles-get :
    (from : String → Option Entry) (c : ℕ) (ns : List String) (d : Dict Entry) (e : ℕ) (n : String)
    → Tiles from c ns d e
    → In n ns
    → (x : Entry) × (Dict.get d n ≡ some x) × Moved (from n) x
unfolding Dict.get
Tiles-get from c [] [] e n t h = absurd h
Tiles-get from c [] (p ∷ d) e n t h = absurd t
Tiles-get from c (m ∷ ns) [] e n t h = absurd t
Tiles-get from c (m ∷ ns) ((k, x) ∷ d) e n t h = elim (str_cases k n) [
  | inl (q, y) ↦ (x, rw y refl, subst (λ z. Moved (from z) x) (t.0 ∙ q) t.3)
  | inr (q, y) ↦ elim h [
    | inl r ↦ absurd (q (sym t.0 ∙ r))
    | inr l ↦ let found = Tiles-get from x.last ns d e n t.4 l in (found.0, rw y found.1, found.2)
  ]
]

pub Tiles-names :
    (from : String → Option Entry) (c : ℕ) (ns : List String) (d : Dict Entry) (e : ℕ)
    → Tiles from c ns d e
    → names d ≡ ns
Tiles-names from c [] [] e t = refl
Tiles-names from c [] (p ∷ d) e t = absurd t
Tiles-names from c (m ∷ ns) [] e t = absurd t
Tiles-names from c (m ∷ ns) ((k, x) ∷ d) e t =
    let ih = Tiles-names from x.last ns d e t.4 in let same = t.0 in cc

pub In-names :
    {V : Type 0} (d : Dict V) (n : String)
    → (In n (names d) → (v : V) × (Dict.get d n ≡ some v))
      × ((v : V) → Dict.get d n ≡ some v → In n (names d))
unfolding Dict.get
In-names [] n = (λ h. absurd h, λ v h. cc)
In-names ((k, v) ∷ d) n = elim (str_cases k n) [
  | inl (q, y) ↦ (λ h. (v, rw y refl), λ w h. inl q)
  | inr (q, y) ↦ (
    λ h. elim h [
      | inl r ↦ absurd (q r)
      | inr l ↦ let found = (In-names d n).0 l in (found.0, rw y found.1)
    ],
    λ w h. inr ((In-names d n).1 w (rw y at h)),
  )
]

pub Tiles-ordered :
    (from : String → Option Entry) (c : ℕ) (ns : List String) (d : Dict Entry) (e : ℕ) (n : String)
    (x : Entry)
    → Tiles from c ns d e
    → Dict.get d n ≡ some x
    → x.first ≤ x.last
unfolding Dict.get
Tiles-ordered from c [] [] e n x t h = cc
Tiles-ordered from c [] (p ∷ d) e n x t h = absurd t
Tiles-ordered from c (m ∷ ns) [] e n x t h = absurd t
Tiles-ordered from c (m ∷ ns) ((k, y) ∷ d) e n x t h = elim (str_cases k n) [
  | inl (q, b) ↦
      let found : ◌≡◌ {A = Option Entry} (some y) (some x) = rw b at h in
      let same : y ≡ x = cc in
      subst (λ (z : Entry). z.first ≤ z.last) same (omega (arith, t.1, t.2))
  | inr (q, b) ↦ Tiles-ordered from y.last ns d e n x t.4 (rw b at h)
]

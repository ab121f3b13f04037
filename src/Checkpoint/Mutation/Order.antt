-- ===== src/Checkpoint/Mutation/Order.antt =====
-- Lists of names without repetition, and the stable sort of tools/checkpoint_prep/mutation.py.
use cosmos3_nano_web_ui.Common.{
  ℕ, ◌≤◌, Bool, true, false, String, List, [], ◌∷◌, ◌++◌, leb, has, In, select, ◌≡◌, refl, sym,
  ◌&&◌, ◌↔◌, ◌⊎◌, inl, inr, Bool-cases, str_cases, arith, subst, not,
}
use cosmos3_nano_web_ui.Checkpoint.Mutation.{insert_by, sort_by}

abbrev pub Distinct : List String → Type 0
Distinct [] = Unit
Distinct (x ∷ xs) = (In x xs → ⊥) × Distinct xs

abbrev pub Rising : (String → ℕ) → List String → Type 0
Rising key [] = Unit
Rising key (x ∷ xs) = ((y : String) → In y xs → key x ≤ key y) × Rising key xs

pub In-append : (n : String) (xs ys : List String) → In n (xs ++ ys) ↔ (In n xs ⊎ In n ys)
In-append n [] ys = (λ h. inr h, λ h. elim h [ inl v ↦ absurd v | inr k ↦ k ])
In-append n (x ∷ xs) ys = (
  λ h. elim h [
    | inl e ↦ inl (inl e)
    | inr k ↦ elim ((In-append n xs ys).0 k) [ inl a ↦ inl (inr a) | inr b ↦ inr b ]
  ],
  λ h. elim h [
    | inl (inl e) ↦ inl e
    | inl (inr a) ↦ inr ((In-append n xs ys).1 (inl a))
    | inr b ↦ inr ((In-append n xs ys).1 (inr b))
  ],
)

pub Distinct-append :
    (xs ys : List String)
    → Distinct xs
    → Distinct ys
    → ((n : String) → In n xs → In n ys → ⊥)
    → Distinct (xs ++ ys)
Distinct-append [] ys a b apart = b
Distinct-append (x ∷ xs) ys a b apart = (
  λ h. elim ((In-append x xs ys).0 h) [ inl k ↦ a.0 k | inr k ↦ apart x (inl refl) k ],
  Distinct-append xs ys a.1 b (λ n h k. apart n (inr h) k),
)

pub has_iff : (xs : List String) (n : String) → (has xs n ≡ true) ↔ In n xs
has_iff [] n = (λ h. cc, λ h. absurd h)
has_iff (x ∷ xs) n = elim (str_cases x n) [
  | inl (e, t) ↦ (λ h. inl e, λ h. rw t refl)
  | inr (d, t) ↦ (
    λ h. inr ((has_iff xs n).0 (ground (arith, t))),
    λ h. elim h [ inl e ↦ absurd (d e) | inr k ↦ rw t ((has_iff xs n).1 k) ],
  )
]

pub In-select :
    (p : String → Bool) (xs : List String) (n : String)
    → In n (select p xs) ↔ (In n xs × (p n ≡ true))
In-select p [] n = (λ h. absurd h, λ h. absurd h.0)
In-select p (x ∷ xs) n = elim (Bool-cases (p x)) [
  | inl e ↦ rw e (
    λ h. elim h [
      | inl q ↦ (inl q, subst (λ z. p z ≡ true) q e)
      | inr k ↦ (inr ((In-select p xs n).0 k).0, ((In-select p xs n).0 k).1)
    ],
    λ h. elim h.0 [ inl q ↦ inl q | inr k ↦ inr ((In-select p xs n).1 (k, h.1)) ],
  )
  | inr e ↦ rw e (
    λ h. (inr ((In-select p xs n).0 h).0, ((In-select p xs n).0 h).1),
    λ h. elim h.0 [
      | inl q ↦
          let other : p n ≡ false = subst (λ z. p z ≡ false) q e in
          let same : p n ≡ true = h.1 in absurd (cc)
      | inr k ↦ (In-select p xs n).1 (k, h.1)
    ],
  )
]

pub Distinct-select : (p : String → Bool) (xs : List String) → Distinct xs → Distinct (select p xs)
Distinct-select p [] d = tt
Distinct-select p (x ∷ xs) d = elim (Bool-cases (p x)) [
  | inl e ↦ rw e (λ h. d.0 ((In-select p xs x).0 h).0, Distinct-select p xs d.1)
  | inr e ↦ rw e (Distinct-select p xs d.1)
]

In-insert_by :
    (key : String → ℕ) (x : String) (ys : List String) (n : String)
    → In n (insert_by key x ys) ↔ ((x ≡ n) ⊎ In n ys)
unfolding insert_by
In-insert_by key x [] n = (λ h. h, λ h. h)
In-insert_by key x (y ∷ ys) n = elim (Bool-cases (leb (key x) (key y))) [
  | inl e ↦ rw e (λ h. h, λ h. h)
  | inr e ↦ rw e (
    λ h. elim h [
      | inl q ↦ inr (inl q)
      | inr k ↦ elim ((In-insert_by key x ys n).0 k) [ inl q ↦ inl q | inr l ↦ inr (inr l) ]
    ],
    λ h. elim h [
      | inl q ↦ inr ((In-insert_by key x ys n).1 (inl q))
      | inr (inl q) ↦ inl q
      | inr (inr l) ↦ inr ((In-insert_by key x ys n).1 (inr l))
    ],
  )
]

pub In-sort_by :
    (key : String → ℕ) (xs : List String) (n : String) → In n (sort_by key xs) ↔ In n xs
unfolding sort_by
In-sort_by key [] n = (λ h. h, λ h. h)
In-sort_by key (x ∷ xs) n = (
  λ h. elim ((In-insert_by key x (sort_by key xs) n).0 h) [
    | inl q ↦ inl q
    | inr k ↦ inr ((In-sort_by key xs n).0 k)
  ],
  λ h.
      (In-insert_by key x (sort_by key xs) n).1
        (elim h [ inl q ↦ inl q | inr k ↦ inr ((In-sort_by key xs n).1 k) ]),
)

Distinct-insert_by :
    (key : String → ℕ) (x : String) (ys : List String)
    → (In x ys → ⊥)
    → Distinct ys
    → Distinct (insert_by key x ys)
unfolding insert_by
Distinct-insert_by key x [] new d = (λ h. h, tt)
Distinct-insert_by key x (y ∷ ys) new d = elim (Bool-cases (leb (key x) (key y))) [
  | inl e ↦ rw e (new, d)
  | inr e ↦ rw e (
    λ h. elim ((In-insert_by key x ys y).0 h) [ inl q ↦ new (inl (sym q)) | inr k ↦ d.0 k ],
    Distinct-insert_by key x ys (λ h. new (inr h)) d.1,
  )
]

pub Distinct-sort_by :
    (key : String → ℕ) (xs : List String) → Distinct xs → Distinct (sort_by key xs)
unfolding sort_by
Distinct-sort_by key [] d = tt
Distinct-sort_by key (x ∷ xs) d =
    Distinct-insert_by key x (sort_by key xs) (λ h. d.0 ((In-sort_by key xs x).0 h))
      (Distinct-sort_by key xs d.1)

Rising-insert_by :
    (key : String → ℕ) (x : String) (ys : List String)
    → Rising key ys
    → Rising key (insert_by key x ys)
unfolding insert_by
Rising-insert_by key x [] r = (λ y h. absurd h, tt)
Rising-insert_by key x (y ∷ ys) r = elim (Bool-cases (leb (key x) (key y))) [
  | inl e ↦
      let least : key x ≤ key y = ground arith in
      rw e (
        λ z h. elim h [
          | inl q ↦ subst (λ w. key x ≤ key w) q least
          | inr k ↦ let up = r.0 z k in omega arith
        ],
        r,
      )
  | inr e ↦
      let most : key y ≤ key x = ground arith in
      rw e (
        λ z h. elim ((In-insert_by key x ys z).0 h) [
          | inl q ↦ subst (λ w. key y ≤ key w) q most
          | inr k ↦ r.0 z k
        ],
        Rising-insert_by key x ys r.1,
      )
]

pub Rising-sort_by : (key : String → ℕ) (xs : List String) → Rising key (sort_by key xs)
unfolding sort_by
Rising-sort_by key [] = tt
Rising-sort_by key (x ∷ xs) = Rising-insert_by key x (sort_by key xs) (Rising-sort_by key xs)

abbrev pub is_distinct : List String → Bool
is_distinct [] = true
is_distinct (x ∷ xs) = not (has xs x) && is_distinct xs

pub is_distinct-Distinct : (xs : List String) → is_distinct xs ≡ true → Distinct xs
is_distinct-Distinct [] h = tt
is_distinct-Distinct (x ∷ xs) h =
    (λ k. let e = (has_iff xs x).1 k in ground arith, is_distinct-Distinct xs (ground arith))

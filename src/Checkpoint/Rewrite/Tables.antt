-- ===== src/Checkpoint/Rewrite/Tables.antt =====
-- Dictionaries and checks that run over a list of names, as in tools/checkpoint_prep/rewrite.py.
use cosmos3_nano_web_ui.Common.{
  Option, none, some, String, List, [], ◌∷◌, In, All, ◌≡◌, refl, ap, subst, inl, inr, str_cases,
  Result, ok,
}
use cosmos3_nano_web_ui.Common.Dict
use cosmos3_nano_web_ui.Common.Dict.{Dict}
use cosmos3_nano_web_ui.Checkpoint.Bytes.{Entry, Failure}
use cosmos3_nano_web_ui.Checkpoint.Rewrite.{Located, digests, check_all, entries_of}

-- What holds of all of a dictionary holds of what is found in it.
pub All-get :
    {V : Type 0} (P : String × V → Type 0) (d : Dict V) (n : String) (v : V)
    → All P d
    → Dict.get d n ≡ some v
    → P (n, v)
unfolding Dict.get
All-get P [] n v a h = cc
All-get {V} P ((k, w) ∷ d) n v a h = elim (str_cases k n) [
  | inl (q, y) ↦
      let found : ◌≡◌ {A = Option V} (some w) (some v) = rw y at h in
      let same : w ≡ v = cc in subst (λ z. P (n, z)) same (subst (λ m. P (m, w)) q a.0)
  | inr (q, y) ↦ All-get P d n v a.1 (rw y at h)
]

abbrev pub table : (String → String) → List String → Dict String
table f [] = []
table f (n ∷ ns) = (n, f n) ∷ table f ns

pub table-get :
    (f : String → String) (ns : List String) (n : String)
    → In n ns
    → Dict.get (table f ns) n ≡ some (f n)
unfolding Dict.get
table-get f [] n h = absurd h
table-get f (m ∷ ns) n h = elim (str_cases m n) [
  | inl (q, y) ↦ rw y (ap (λ z. some (f z)) q)
  | inr (q, y) ↦ elim h [ inl e ↦ absurd (q e) | inr k ↦ rw y (table-get f ns n k) ]
]

pub digests_lem :
    (hash : String → Result Failure String) (f : String → String) (ns : List String)
    → ((n : String) → In n ns → hash n ≡ ok (f n))
    → digests hash ns ≡ ok (table f ns)
unfolding digests
digests_lem hash f [] h = refl
digests_lem hash f (n ∷ ns) h = rw (h n (inl refl), digests_lem hash f ns (λ m k. h m (inr k))) refl

pub check_all_lem :
    (check : String → Result Failure String) (ns : List String)
    → ((n : String) → In n ns → check n ≡ ok n)
    → check_all check ns ≡ ok ns
unfolding check_all
check_all_lem check [] h = refl
check_all_lem check (n ∷ ns) h =
    rw (h n (inl refl), check_all_lem check ns (λ m k. h m (inr k))) refl

pub entries_of-get :
    (d : Dict Located) (n : String) (e : Entry)
    → Dict.get (entries_of d) n ≡ some e
    → (l : Located) × (Dict.get d n ≡ some l) × (l.entry ≡ e)
unfolding Dict.get
entries_of-get [] n e h = absurd (no_entry h)
  where
    no_entry : ◌≡◌ {A = Option Entry} none (some e) → ⊥
    no_entry p = cc
entries_of-get ((k, l) ∷ d) n e h = elim (str_cases k n) [
  | inl (q, y) ↦
      let found : ◌≡◌ {A = Option Entry} (some l.entry) (some e) = rw y at h in (l, rw y refl, cc)
  | inr (q, y) ↦ let later = entries_of-get d n e (rw y at h) in (later.0, rw y later.1, later.2)
]

pub get-entries_of :
    (d : Dict Located) (n : String) (l : Located)
    → Dict.get d n ≡ some l
    → Dict.get (entries_of d) n ≡ some l.entry
unfolding Dict.get
get-entries_of [] n l h = absurd (no_tensor h)
  where
    no_tensor : ◌≡◌ {A = Option Located} none (some l) → ⊥
    no_tensor p = cc
get-entries_of ((k, x) ∷ d) n l h = elim (str_cases k n) [
  | inl (q, y) ↦
      let found : ◌≡◌ {A = Option Located} (some x) (some l) = rw y at h in
      let same : x ≡ l = cc in rw y (ap (λ z. some (Located.entry z)) same)
  | inr (q, y) ↦ rw y (get-entries_of d n l (rw y at h))
]

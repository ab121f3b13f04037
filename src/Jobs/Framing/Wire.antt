-- ===== src/Jobs/Framing/Wire.antt =====
-- What a reader gets of a stream: exact reads whatever the chunks, and the frame that was written.
use cosmos3_nano_web_ui.Common.{
  ℕ, zero, suc, ◌+◌, ◌-◌, ◌≤◌, ◌<◌, ◌≡◌, ◌∙◌, refl, sym, ap, subst, ◌⊎◌, inl, inr, false, some,
  List, [], ◌∷◌, ◌++◌, Result, ok, err, ltb, length, arith, length-append,
}
use cosmos3_nano_web_ui.Common.Value.{Fields}
use cosmos3_nano_web_ui.Preprocessing.Header.{big_endian}
use cosmos3_nano_web_ui.Jobs.Framing.{
  Stream, Json, FrameError, closed, max_frame, pack, frame, read_loop, read_exact, read_body,
  unframe,
}

append_assoc : {A : Type 0} (xs ys zs : List A) → (xs ++ ys) ++ zs ≡ xs ++ (ys ++ zs)
append_assoc [] ys zs = refl
append_assoc (x ∷ xs) ys zs = ap (λ l. x ∷ l) (append_assoc xs ys zs)

append_nil : {A : Type 0} (xs : List A) → xs ++ [] ≡ xs
append_nil [] = refl
append_nil (x ∷ xs) = ap (λ l. x ∷ l) (append_nil xs)

-- The length that is read is the one that was packed.
pack_lem : (n : ℕ) → n ≤ max_frame → big_endian 0 (pack n) ≡ n
unfolding max_frame
pack_lem n h = omega arith

-- A chunk and what follows it, against the bytes wanted and what follows those.
split_lem :
    (chunk rest wanted after : List ℕ)
    → chunk ++ rest ≡ wanted ++ after
    → length chunk ≤ length wanted
    → (more : List ℕ) × (wanted ≡ chunk ++ more) × (rest ≡ more ++ after)
split_lem [] rest wanted after e h = (wanted, refl, e)
split_lem (x ∷ chunk) rest [] after e h = absurd (omega arith)
split_lem (x ∷ chunk) rest (y ∷ wanted) after e h =
    let (more, p, q) = split_lem chunk rest wanted after (ground arith) (omega arith) in
    (more, ground arith, q)

List-cases : {A : Type 0} (l : List A) → (l ≡ []) ⊎ ((x : A) × ((xs : List A) × (l ≡ x ∷ xs)))
List-cases [] = inl refl
List-cases (x ∷ xs) = inr (x, (xs, refl))

module _ {S : Type 0} (stream : Stream S) where
  read_step :
      (fuel n : ℕ) (chunks : List ℕ) (s : S) (x : ℕ) (xs : List ℕ)
      → (stream.read s (suc n)).0 ≡ x ∷ xs
      → read_loop stream (suc fuel) (suc n) chunks s
        ≡ read_loop stream fuel
            (suc n - length (x ∷ xs))
            (chunks ++ x ∷ xs)
            (stream.read s (suc n)).1
  unfolding read_loop
  read_step fuel n chunks s x xs c = ground arith

  read_closed :
      (fuel n : ℕ) (chunks : List ℕ) (s : S)
      → (stream.read s (suc n)).0 ≡ []
      → read_loop stream (suc fuel) (suc n) chunks s ≡ err (closed (suc n))
  unfolding read_loop
  read_closed fuel n chunks s c = ground arith

  -- The loop reads the bytes wanted, if they are to come.
  read_loop_lem :
      (fuel n : ℕ) (chunks : List ℕ) (s : S) (wanted after : List ℕ)
      → n ≤ fuel
      → length wanted ≡ n
      → stream.content s ≡ wanted ++ after
      → (s' : S) × (read_loop stream fuel n chunks s ≡ ok (chunks ++ wanted, s'))
        × (stream.content s' ≡ after)
  read_loop_lem fuel zero chunks s [] after p q e = (s, rw append_nil (unfold read_loop in refl), e)
  read_loop_lem fuel zero chunks s (w ∷ wanted) after p q e = absurd (omega arith)
  read_loop_lem zero (suc n) chunks s wanted after p q e = absurd (omega arith)
  read_loop_lem (suc fuel) (suc n) chunks s wanted after p q e =
      elim (List-cases (stream.read s (suc n)).0) [
        | inl c ↦ absurd (nonempty wanted (sym e ∙ stream.progresses s (suc n) (omega arith) c) q)
        | inr (x, (xs, c)) ↦
            let b : length (x ∷ xs) ≤ suc n =
              subst (λ l. length l ≤ suc n) c (stream.bounded s (suc n)) in
            let (more, d, r) =
              split_lem (x ∷ xs) (stream.content (stream.read s (suc n)).1) wanted after
                (subst (λ l. l ++ stream.content (stream.read s (suc n)).1 ≡ wanted ++ after) c
                  (sym (stream.splits s (suc n)) ∙ e))
                (omega arith) in
            let (s', u, v) =
              read_loop_lem fuel (suc n - length (x ∷ xs)) (chunks ++ x ∷ xs)
                (stream.read s (suc n)).1 more after (omega arith)
                (omega (arith, ap length d, length-append (x ∷ xs) more)) r in
            (
              s',
              read_step fuel n chunks s x xs c
                  ∙ u
                  ∙ ap (λ l. ok (l, s'))
                      (append_assoc chunks (x ∷ xs) more ∙ ap (λ l. chunks ++ l) (sym d)),
              v,
            )
      ]
    where
      nonempty : (w : List ℕ) → w ++ after ≡ [] → length w ≡ suc n → ⊥
      nonempty [] a b = omega arith
      nonempty (y ∷ w) a b = ground arith

  -- A stream that ends too early is an error, whatever its chunks.
  read_loop_short :
      (fuel n : ℕ) (chunks : List ℕ) (s : S)
      → n ≤ fuel
      → length (stream.content s) < n
      → (k : ℕ) × (read_loop stream fuel n chunks s ≡ err (closed k))
        × (k ≡ n - length (stream.content s))
  read_loop_short fuel zero chunks s p q = absurd (omega arith)
  read_loop_short zero (suc n) chunks s p q = absurd (omega arith)
  read_loop_short (suc fuel) (suc n) chunks s p q = elim (List-cases (stream.read s (suc n)).0) [
    | inl c ↦ (
      suc n,
      read_closed fuel n chunks s c,
      omega (arith, ap length (stream.progresses s (suc n) (omega arith) c)),
    )
    | inr (x, (xs, c)) ↦
        let d : length (stream.content s)
            ≡ length (x ∷ xs) + length (stream.content (stream.read s (suc n)).1) =
          ap length (stream.splits s (suc n))
          ∙ length-append (stream.read s (suc n)).0 (stream.content (stream.read s (suc n)).1)
          ∙ ap (λ l. length l + length (stream.content (stream.read s (suc n)).1)) c in
        let (k, u, v) =
          read_loop_short fuel (suc n - length (x ∷ xs)) (chunks ++ x ∷ xs)
            (stream.read s (suc n)).1 (omega arith) (omega arith) in
        (k, read_step fuel n chunks s x xs c ∙ u, omega arith)
  ]

  -- Whatever the chunks in which the bytes come, an exact read returns exactly the next `n` bytes
  -- and leaves the rest, if there are so many; otherwise it raises, with the count of those missing.
  pub read_exact_lem :
      (n : ℕ) (s : S)
      → ((wanted after : List ℕ)
          → length wanted ≡ n
          → stream.content s ≡ wanted ++ after
          → (s' : S) × (read_exact stream n s ≡ ok (wanted, s')) × (stream.content s' ≡ after))
        × (length (stream.content s) < n
            → read_exact stream n s ≡ err (closed (n - length (stream.content s))))
  unfolding read_exact
  read_exact_lem n s = (
    λ wanted after q e. read_loop_lem n n [] s wanted after (omega arith) q e,
    λ h. let (k, u, v) = read_loop_short n n [] s (omega arith) h in u ∙ ap (λ x. err (closed x)) v,
  )

  body_lem :
      (json : Json) (o : Fields) (s s' : S)
      → length (json.dumps o) ≤ max_frame
      → json.loads (json.dumps o) ≡ some o
      → read_exact stream (length (json.dumps o)) s ≡ ok (json.dumps o, s')
      → read_body stream json (length (json.dumps o)) s ≡ ok (o, s')
  unfolding read_body
  body_lem json o s s' h j e =
      let f : ltb max_frame (length (json.dumps o)) ≡ false = ground arith in rw (f, e, j) refl

  unframe_is :
      (json : Json) (s s1 : S) (head : List ℕ) (r : Result FrameError (Fields × S))
      → read_exact stream 4 s ≡ ok (head, s1)
      → read_body stream json (big_endian 0 head) s1 ≡ r
      → unframe stream json s ≡ r
  unfolding unframe
  unframe_is json s s1 head r a b = ground arith

  -- A frame is read back as the object that was written, whatever the chunks in which it comes, and
  -- the bytes that follow it are left, for an object that JSON gives back and whose body is at most
  -- 64 MiB.
  pub unframe-frame :
      (json : Json) (o : Fields) (s : S) (after : List ℕ)
      → json.loads (json.dumps o) ≡ some o
      → length (json.dumps o) ≤ max_frame
      → stream.content s ≡ frame json o ++ after
      → (s' : S) × (unframe stream json s ≡ ok (o, s')) × (stream.content s' ≡ after)
  unfolding frame
  unframe-frame json o s after j h e =
      let body = json.dumps o in
      let (s1, a, b) =
        (read_exact_lem 4 s).0 (pack (length body)) (body ++ after) refl
          (e ∙ append_assoc (pack (length body)) body after) in
      let (s2, c, d) = (read_exact_lem (length body) s1).0 body after refl b in
      (
        s2,
        unframe_is json s s1 (pack (length body)) (ok (o, s2)) a (
            subst (λ n. read_body stream json n s1 ≡ ok (o, s2)) (sym (pack_lem (length body) h))
              (body_lem json o s1 s2 h j c)),
        d,
      )

-- ===== src/Preprocessing/Header/Jpeg.antt =====
-- The JPEG scan ends, stays inside the data, and reports what a frame header holds.
use cosmos3_nano_web_ui.Common.{
  ℕ, zero, suc, ◌+◌, ◌≤◌, ◌<◌, ◌≡◌, refl, inl, inr, true, some, List, [], ◌∷◌, ltb, ◌==◌, length,
  get_elem?, arith, Bool-cases,
}
use cosmos3_nano_web_ui.Preprocessing.Header.{
  slice, big_endian, is_sof, is_bare, Scan, found, absent, Round, ended, moved, jpeg_marker,
  jpeg_round, jpeg_loop, jpeg_dims,
}

in_range : (bytes : List ℕ) (i : ℕ) → i < length bytes → (b : ℕ) × (get_elem? bytes i ≡ some b)
in_range [] i h = absurd (omega arith)
in_range (x ∷ bytes) zero h = (x, refl)
in_range (x ∷ bytes) (suc i) h = in_range bytes i (omega arith)

-- What a frame header at `i` is: inside the data, 0xFF, a start-of-frame marker, then the length, the
-- precision, the height and the width.
pub record IsFrame (bytes : List ℕ) (w h i : ℕ) : Type 0 where
  pub inside : i + 9 < length bytes
  pub prefix : get_elem? bytes i ≡ some 0xFF
  pub marker : ℕ
  pub at : get_elem? bytes (i + 1) ≡ some marker
  pub sof : is_sof marker ≡ true
  pub height : big_endian 0 (slice bytes (i + 5) (i + 7)) ≡ h
  pub width : big_endian 0 (slice bytes (i + 7) (i + 9)) ≡ w

-- A round ends with nothing, ends at a frame header, or moves on inside the data.
pub data Rounds (bytes : List ℕ) (i : ℕ) : Round → Type 0 where
  none_left : Rounds bytes i (ended absent)
  frame : (w h : ℕ) → IsFrame bytes w h i → Rounds bytes i (ended (found w h))
  on : (k : ℕ) → i < k → i < length bytes → Rounds bytes i (moved k)

marker_lem :
    (bytes : List ℕ) (i m : ℕ)
    → i + 9 < length bytes
    → get_elem? bytes i ≡ some 0xFF
    → get_elem? bytes (i + 1) ≡ some m
    → Rounds bytes i (jpeg_marker bytes i m)
unfolding jpeg_marker
marker_lem bytes i m p q r = elim (Bool-cases (is_bare m)) [
  | inl b ↦ rw b (on (i + 2) (omega arith) (omega arith))
  | inr b ↦ elim (Bool-cases (is_sof m)) [
    | inl f ↦
        rw (b, f)
          (frame (big_endian 0 (slice bytes (i + 7) (i + 9)))
            (big_endian 0 (slice bytes (i + 5) (i + 7)))
            record {
              inside = p;
              prefix = q;
              marker = m;
              at = r;
              sof = f;
              height = refl;
              width = refl;
            })
    | inr f ↦
        rw (b, f)
          (on (i + (2 + big_endian 0 (slice bytes (i + 2) (i + 4)))) (omega arith) (omega arith))
  ]
]

round_lem : (bytes : List ℕ) (i : ℕ) → Rounds bytes i (jpeg_round bytes i)
unfolding jpeg_round
round_lem bytes i = elim (Bool-cases (ltb (i + 9) (length bytes))) [
  | inr e ↦ rw e none_left
  | inl e ↦
      let p : i + 9 < length bytes = ground arith in
      let (b, q) = in_range bytes i (omega arith) in
      elim (Bool-cases (b == 0xFF)) [
        | inr d ↦ rw (e, q, d) (on (i + 1) (omega arith) (omega arith))
        | inl d ↦
            let (m, r) = in_range bytes (i + 1) (omega arith) in
            rw (e, q, d, r) (marker_lem bytes i m p (ground arith) r)
      ]
]

-- How a scan from `i` ends.
pub data Ends (bytes : List ℕ) (i : ℕ) : Scan → Type 0 where
  ends_absent : Ends bytes i absent
  ends_frame : (w h k : ℕ) → i ≤ k → IsFrame bytes w h k → Ends bytes i (found w h)

weaken : {bytes : List ℕ} {s : Scan} (i k : ℕ) → i ≤ k → Ends bytes k s → Ends bytes i s
weaken i k p ends_absent = ends_absent
weaken i k p (ends_frame w h l q f) = ends_frame w h l (omega arith) f

jpeg_loop_lem :
    (fuel : ℕ) (bytes : List ℕ) (i : ℕ)
    → length bytes < fuel + i
    → 0 < fuel
    → Ends bytes i (jpeg_loop fuel bytes i)
unfolding jpeg_loop
jpeg_loop_lem zero bytes i p q = absurd (omega arith)
jpeg_loop_lem (suc fuel) bytes i p q =
    go (jpeg_round bytes i) (round_lem bytes i) (λ k. jpeg_loop_lem fuel bytes k)
  where
    go :
        (r : Round)
        → Rounds bytes i r
        → ((k : ℕ) → length bytes < fuel + k → 0 < fuel → Ends bytes k (jpeg_loop fuel bytes k))
        → Ends bytes i (elim r [ ended s ↦ s | moved k ↦ jpeg_loop fuel bytes k ])
    go r none_left more = ends_absent
    go r (frame w h f) more = ends_frame w h i (omega arith) f
    go r (on k a b) more = weaken i k (omega arith) (more k (omega arith) (omega arith))

-- The scan of any bytes ends, never reads outside them, and finds dimensions only where a frame
-- header stands, at 2 or later: those dimensions are the ones that the header holds.
pub jpeg_dims_total : (bytes : List ℕ) → Ends bytes 2 (jpeg_dims bytes)
unfolding jpeg_dims
jpeg_dims_total bytes = jpeg_loop_lem (suc (length bytes)) bytes 2 (omega arith) (omega arith)

-- ===== src/Checkpoint/Bytes/Stream.antt =====
-- What the stream loops of tools/checkpoint_prep/rewrite.py pass on.
use cosmos3_nano_web_ui.Common.{
  ℕ, zero, suc, ◌+◌, ◌-◌, ◌<◌, ◌≤◌, ◌≡◌, refl, ap, leb, List, [], ◌∷◌, ◌++◌, length, take, drop, ok,
  err, ◌∙◌, arith, inl, inr, Bool-cases,
}
use mathlib.Core.List.{append_assoc, append-nil}
use cosmos3_nano_web_ui.Common.Slices.{length-take, length-drop, take_all, take_nil, take-add}
use cosmos3_nano_web_ui.Checkpoint.Bytes.{
  Entry, stream, copy_range, hash_tensor, lesser, chunk_size, unexpected_eof,
}

-- With enough of the file left, the loop passes on the next `remaining` bytes.
stream_lem :
    (chunk fuel remaining : ℕ) (file out : List ℕ)
    → 0 < chunk
    → remaining ≤ fuel
    → remaining ≤ length file
    → stream chunk fuel remaining file out ≡ ok (out ++ take remaining file)
unfolding stream
stream_lem chunk zero zero file out some enough there = rw (append-nil out) refl
stream_lem chunk zero (suc r) file out some enough there = absurd (omega arith)
stream_lem chunk (suc fuel) zero file out some enough there = rw (append-nil out) refl
stream_lem chunk (suc fuel) (suc r) file out some enough there =
    let size = lesser chunk (suc r) in
    let small : size ≤ suc r = ground arith in
    let more : 0 < size = ground arith in
    let got : length (take size file) ≡ size = length-take size file (omega arith) in
    let left : length (drop size file) ≡ length file - size = length-drop size file in
    let ih =
      stream_lem chunk fuel (suc r - size) (drop size file) (out ++ take size file) some
        (omega arith) (omega arith) in
    let whole : (out ++ take size file) ++ take (suc r - size) (drop size file)
        ≡ out ++ take (suc r) file =
      rw (append_assoc out (take size file) _) (
        ap (λ r'. out ++ r')
          (take-add size (suc r - size) file ∙ ap (λ k. take k file) {y = suc r} (omega arith))) in
    ground (arith, got, ih, whole)

-- Where the file is too short, the loop raises.
stream_eof :
    (chunk fuel remaining : ℕ) (file out : List ℕ)
    → 0 < chunk
    → remaining ≤ fuel
    → length file < remaining
    → stream chunk fuel remaining file out ≡ err unexpected_eof
unfolding stream
stream_eof chunk zero remaining file out some enough short = absurd (omega arith)
stream_eof chunk (suc fuel) zero file out some enough short = absurd (omega arith)
stream_eof chunk (suc fuel) (suc r) [] out some enough short =
    ground (arith, take_nil {A = ℕ} (lesser chunk (suc r)))
stream_eof chunk (suc fuel) (suc r) (x ∷ xs) out some enough short =
    let size = lesser chunk (suc r) in
    elim (Bool-cases (leb size (length (x ∷ xs)))) [
      | inl e ↦
          let got : length (take size (x ∷ xs)) ≡ size = length-take size (x ∷ xs) (ground arith) in
          let left = length-drop size (x ∷ xs) in
          let ih =
            stream_eof chunk fuel (suc r - size) (drop size (x ∷ xs)) (out ++ take size (x ∷ xs))
              some (ground arith) (ground arith) in
          ground (arith, got, ih)
      | inr e ↦
          let got : take size (x ∷ xs) ≡ x ∷ xs = take_all size (x ∷ xs) (ground arith) in
          let left = length-drop size (x ∷ xs) in
          let ih =
            stream_eof chunk fuel (suc r - length (x ∷ xs)) (drop size (x ∷ xs))
              (out ++ take size (x ∷ xs)) some (ground arith) (ground arith) in
          ground (arith, got, ih)
    ]

-- The bytes from `first` to `last` of the data block of a file.
abbrev pub payload : List ℕ → ℕ → (first last : ℕ) → List ℕ
payload file data_start first last = take (last - first) (drop (data_start + first) file)

chunk_size_pos : 0 < chunk_size
unfolding chunk_size
chunk_size_pos = omega arith

-- The copy of a byte range passes on exactly those bytes where the file has them all, and raises
-- where the file ends before.
pub copy_range_lem :
    (file : List ℕ) (data_start first last : ℕ) (out : List ℕ)
    → (first ≤ last
        → data_start + last ≤ length file
        → copy_range file data_start first last out
          ≡ ok (out ++ payload file data_start first last))
      × (first < last
          → length file < data_start + last
          → copy_range file data_start first last out ≡ err unexpected_eof)
unfolding copy_range
copy_range_lem file data_start first last out =
    let left = length-drop (data_start + first) file in
    (
      λ a h.
          stream_lem chunk_size (last - first) (last - first) (drop (data_start + first) file) out
            chunk_size_pos (omega arith) (omega arith),
      λ a h.
          stream_eof chunk_size (last - first) (last - first) (drop (data_start + first) file) out
            chunk_size_pos (omega arith) (omega arith),
    )

pub hash_tensor_lem :
    {Hash : Type 0} (sha : List ℕ → Hash) (file : List ℕ) (data_start : ℕ) (entry : Entry)
    → entry.first ≤ entry.last
    → data_start + entry.last ≤ length file
    → hash_tensor sha file data_start entry
      ≡ ok (sha (payload file data_start entry.first entry.last))
unfolding hash_tensor
hash_tensor_lem sha file data_start entry h fits =
    rw ((copy_range_lem file data_start entry.first entry.last []).0 h fits) refl

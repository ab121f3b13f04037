-- ===== src/Checkpoint/Bytes/Wire.antt =====
-- The bytes of a header and back: tools/checkpoint_prep/safetensors_io.py.
use cosmos3_nano_web_ui.Common.{
  ℕ, zero, suc, ◌+◌, ◌-◌, ◌/◌, ◌%◌, ◌^◌, ◌<◌, ◌≡◌, refl, sym, ◌∙◌, ap, subst, List, ◌++◌, length,
  take, drop, length-append, Option, some, Result, ok, arith,
}
use mathlib.Core.List.{append_assoc}
use cosmos3_nano_web_ui.Common.Slices.{take-append, drop-append}
use cosmos3_nano_web_ui.Checkpoint.Bytes.{
  Header, little_endian, of_little_endian, spaces, padding, pack, build_header_bytes, parse_header,
  read_header_file, Failure,
}

pub length-little_endian : (count n : ℕ) → length (little_endian count n) ≡ count
unfolding little_endian
length-little_endian zero n = refl
length-little_endian (suc count) n = omega (arith, length-little_endian count (n / 256))

of-little_endian : (count n : ℕ) → n < 256 ^ count → of_little_endian (little_endian count n) ≡ n
unfolding little_endian of_little_endian
of-little_endian zero n h = omega arith
of-little_endian (suc count) n h = omega (arith, of-little_endian count (n / 256) (omega arith))

pub length-spaces : (n : ℕ) → length (spaces n) ≡ n
unfolding spaces
length-spaces zero = refl
length-spaces (suc n) = omega (arith, length-spaces n)

-- Eight bytes of a number before the bytes `blob` that it counts.
framed :
    (loads : List ℕ → Option Header) (size blob rest : List ℕ) (header : Header)
    → length size ≡ 8
    → of_little_endian size ≡ length blob
    → loads blob ≡ some header
    → parse_header loads (size ++ (blob ++ rest)) ≡ ok (header, length blob)
unfolding parse_header
framed loads size blob rest header eight counts reads =
    let front : take 8 (size ++ (blob ++ rest)) ≡ size =
      subst (λ n. take n (size ++ (blob ++ rest)) ≡ size) eight (take-append size (blob ++ rest)) in
    let back : drop 8 (size ++ (blob ++ rest)) ≡ blob ++ rest =
      subst (λ n. drop n (size ++ (blob ++ rest)) ≡ blob ++ rest) eight
        (drop-append size (blob ++ rest)) in
    ground (
      arith,
      length-append size (blob ++ rest),
      length-append blob rest,
      front,
      back,
      take-append blob rest,
      counts,
      reads,
    )

-- The JSON text of a header with its padding.
abbrev pub padded : (Header → List ℕ) → Header → List ℕ
padded dumps header = dumps header ++ spaces (padding (length (dumps header)))

length-padded :
    (dumps : Header → List ℕ) (header : Header)
    → length (padded dumps header) ≡ length (dumps header) + padding (length (dumps header))
length-padded dumps header =
    let n = padding (length (dumps header)) in
    omega (arith, length-append (dumps header) (spaces n), length-spaces n)

-- The bytes that are written for a header that fits.
pub build_header_bytes_lem :
    (dumps : Header → List ℕ) (header : Header)
    → length (dumps header) + 8 < 2 ^ 64
    → (build_header_bytes dumps header
        ≡ ok (little_endian 8 (length (padded dumps header)) ++ padded dumps header))
      × (length (padded dumps header) % 8 ≡ 0)
      × (length (padded dumps header) < 2 ^ 64)
      × (length (little_endian 8 (length (padded dumps header)) ++ padded dumps header)
          ≡ 8 + length (padded dumps header))
unfolding build_header_bytes padding pack
build_header_bytes_lem dumps header fits =
    let blob = padded dumps header in
    let measured = length-padded dumps header in
    (
      ground (arith, measured),
      omega (arith, measured),
      omega (arith, measured),
      omega (
        arith,
        length-append (little_endian 8 (length blob)) blob,
        length-little_endian 8 (length blob),
      ),
    )

-- A header that fits is written, at a length that is a multiple of eight, and what parses the bytes
-- with any data after them gets the header back, and its length: for a writer and a reader of JSON
-- of which the reader undoes the writer, also where spaces follow.
pub parse_header-build_header_bytes :
    (dumps : Header → List ℕ) (loads : List ℕ → Option Header) (header : Header) (rest : List ℕ)
    → ((n : ℕ) → loads (dumps header ++ spaces n) ≡ some header)
    → length (dumps header) + 8 < 2 ^ 64
    → (bytes : List ℕ) × (build_header_bytes dumps header ≡ ok bytes)
      × (length bytes % 8 ≡ 0)
      × (parse_header loads (bytes ++ rest) ≡ ok (header, length bytes - 8))
parse_header-build_header_bytes dumps loads header rest reads fits =
    let blob = padded dumps header in
    let size = little_endian 8 (length blob) in
    let written = build_header_bytes_lem dumps header fits in
    let minus_back : 8 + length blob - 8 ≡ length blob = omega arith in
    (
      size ++ blob,
      written.0,
      omega (arith, written.1, written.3),
      rw (append_assoc size blob rest) (
          rw (written.3, minus_back)
            (framed loads size blob rest header (length-little_endian 8 (length blob))
              (of-little_endian 8 (length blob) written.2)
              (reads (padding (length (dumps header)))))),
    )

-- A file that begins with a written header is read back.
pub read_header_file-build_header_bytes :
    (dumps : Header → List ℕ) (loads : List ℕ → Option Header) (header : Header)
    (head rest : List ℕ)
    → ((n : ℕ) → loads (dumps header ++ spaces n) ≡ some header)
    → length (dumps header) + 8 < 2 ^ 64
    → build_header_bytes dumps header ≡ ok head
    → (k : ℕ) × (length head ≡ 8 + k) × (read_header_file loads (head ++ rest) ≡ ok (header, k))
unfolding read_header_file
read_header_file-build_header_bytes dumps loads header head rest reads fits h =
    let blob = padded dumps header in
    let size = little_endian 8 (length blob) in
    let written = build_header_bytes_lem dumps header fits in
    let same : size ++ blob ≡ head = ok-same (sym written.0 ∙ h) in
    let eight = length-little_endian 8 (length blob) in
    let front : take 8 (size ++ (blob ++ rest)) ≡ size =
      subst (λ n. take n (size ++ (blob ++ rest)) ≡ size) eight (take-append size (blob ++ rest)) in
    let back : drop 8 (size ++ (blob ++ rest)) ≡ blob ++ rest =
      subst (λ n. drop n (size ++ (blob ++ rest)) ≡ blob ++ rest) eight
        (drop-append size (blob ++ rest)) in
    let counts = of-little_endian 8 (length blob) written.2 in
    (
      length blob,
      ap length (sym same) ∙ written.3,
      ap (λ f. read_header_file loads (f ++ rest)) (sym same)
          ∙ (rw (append_assoc size blob rest) (
              ground (
                arith,
                length-append size (blob ++ rest),
                eight,
                front,
                back,
                take-append blob rest,
                counts,
                reads (padding (length (dumps header))),
              ))),
    )
  where
    ok-same : {a b : List ℕ} → ◌≡◌ {A = Result Failure (List ℕ)} (ok a) (ok b) → a ≡ b
    ok-same p = cc

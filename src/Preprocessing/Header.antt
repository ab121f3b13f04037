-- ===== src/Preprocessing/Header.antt =====
-- The header probes of api/preprocessing/media.py. Bytes are a list of numbers below 256; an index
-- out of range is the IndexError that `_image_dims` catches. Python's `wave` module, which
-- `probe_audio` asks for the header of a WAV, is an argument.
pub mod Jpeg
use cosmos3_nano_web_ui.Common.{
  ℕ, zero, suc, ◌+◌, ◌-◌, ◌*◌, ℤ, pos, Bool, true, false, ◌&&◌, ◌||◌, not, Option, none, some,
  String, List, [], ◌∷◌, ltb, leb, ◌==◌, if◌then◌else◌, length, get_elem?, take, drop, str_eq, any,
  has,
}
use cosmos3_nano_web_ui.Common.Float.{Float}
use cosmos3_nano_web_ui.Common.Float.{Float}
use cosmos3_nano_web_ui.Preprocessing.Media.{ProbedMedia, image_mimes}

-- `data[a:b]`.
abbrev pub slice : List ℕ → ℕ → ℕ → List ℕ
slice bytes a b = take (b - a) (drop a bytes)

abbrev pub same_bytes : List ℕ → List ℕ → Bool
same_bytes [] [] = true
same_bytes (x ∷ xs) (y ∷ ys) = (x == y) && same_bytes xs ys
same_bytes _ _ = false

-- `int.from_bytes(bytes, "big")`, on the value of the bytes before.
abbrev pub big_endian : ℕ → List ℕ → ℕ
big_endian acc [] = acc
big_endian acc (b ∷ bs) = big_endian (acc * 256 + b) bs

unfoldable pub sniff_mime : List ℕ → Option String
sniff_mime bytes =
    if same_bytes (slice bytes 0 8) (0x89 ∷ 0x50 ∷ 0x4E ∷ 0x47 ∷ 0x0D ∷ 0x0A ∷ 0x1A ∷ 0x0A ∷ [])
    then some "image/png"
    else if same_bytes (slice bytes 0 3) (0xFF ∷ 0xD8 ∷ 0xFF ∷ [])
    then some "image/jpeg"
    else if same_bytes (slice bytes 0 4) (0x52 ∷ 0x49 ∷ 0x46 ∷ 0x46 ∷ [])
        && same_bytes (slice bytes 8 12) (0x57 ∷ 0x45 ∷ 0x42 ∷ 0x50 ∷ [])
    then some "image/webp"
    else if same_bytes (slice bytes 0 4) (0x52 ∷ 0x49 ∷ 0x46 ∷ 0x46 ∷ [])
        && same_bytes (slice bytes 8 12) (0x57 ∷ 0x41 ∷ 0x56 ∷ 0x45 ∷ [])
    then some "audio/wav"
    else if same_bytes (slice bytes 0 4) (0x66 ∷ 0x4C ∷ 0x61 ∷ 0x43 ∷ [])
    then some "audio/flac"
    else if same_bytes (slice bytes 4 8) (0x66 ∷ 0x74 ∷ 0x79 ∷ 0x70 ∷ [])
    then some "video/mp4"
    else if same_bytes (slice bytes 0 4) (0x1A ∷ 0x45 ∷ 0xDF ∷ 0xA3 ∷ [])
    then some "video/webm"
    else none

unfoldable pub png_dims : List ℕ → Option (ℕ × ℕ)
png_dims bytes =
    if leb 24 (length bytes) && same_bytes (slice bytes 12 16) (0x49 ∷ 0x48 ∷ 0x44 ∷ 0x52 ∷ [])
    then some (big_endian 0 (slice bytes 16 20), big_endian 0 (slice bytes 20 24))
    else none

-- `_JPEG_SOF`: 0xC0 to 0xCF but 0xC4, 0xC8 and 0xCC.
unfoldable pub is_sof : ℕ → Bool
is_sof m = leb 0xC0 m && leb m 0xCF && not (m == 0xC4) && not (m == 0xC8) && not (m == 0xCC)

-- A marker with no segment: 0xD8, 0xD9, or 0xD0 to 0xD7.
unfoldable pub is_bare : ℕ → Bool
is_bare m = m == 0xD8 || m == 0xD9 || (leb 0xD0 m && leb m 0xD7)

-- How the scan ends: the width and height, nothing found, an index out of range, or no fuel left.
pub data Scan : Type 0 where
  found : ℕ → ℕ → Scan
  absent index_error out_of_fuel : Scan

-- One round of the loop at `i`: the end of the scan, or the next `i`.
pub data Round : Type 0 where
  ended : Scan → Round
  moved : ℕ → Round

unfoldable pub jpeg_marker : List ℕ → ℕ → ℕ → Round
unfolding is_sof is_bare
jpeg_marker bytes i marker =
    if is_bare marker
    then moved (i + 2)
    else if is_sof marker
    then ended (
        found (big_endian 0 (slice bytes (i + 7) (i + 9)))
          (big_endian 0 (slice bytes (i + 5) (i + 7))))
    else moved (i + (2 + big_endian 0 (slice bytes (i + 2) (i + 4))))

unfoldable pub jpeg_round : List ℕ → ℕ → Round
unfolding jpeg_marker
jpeg_round bytes i =
    if ltb (i + 9) (length bytes)
    then elim (get_elem? bytes i) [
      | none ↦ ended index_error
      | some b ↦ if not (b == 0xFF) then moved (i + 1) else elim (get_elem? bytes (i + 1)) [
        | none ↦ ended index_error
        | some marker ↦ jpeg_marker bytes i marker
      ]
    ]
    else ended absent

unfoldable pub jpeg_loop : ℕ → List ℕ → ℕ → Scan
unfolding jpeg_round
jpeg_loop zero bytes i = out_of_fuel
jpeg_loop (suc fuel) bytes i = elim (jpeg_round bytes i) [
  | ended s ↦ s
  | moved k ↦ jpeg_loop fuel bytes k
]

-- `_jpeg_dims`; `i` grows in each round, so the length of the data and one more is fuel enough.
unfoldable pub jpeg_dims : List ℕ → Scan
unfolding jpeg_loop
jpeg_dims bytes = jpeg_loop (suc (length bytes)) bytes 2

abbrev pub dims_of : Scan → Option (ℕ × ℕ)
dims_of (found w h) = some (w, h)
dims_of _ = none

-- `_image_dims`.
unfoldable pub image_dims : List ℕ → String → Option (ℕ × ℕ)
unfolding png_dims jpeg_dims
image_dims bytes mime =
    if str_eq mime "image/png"
    then png_dims bytes
    else if str_eq mime "image/jpeg"
    then dims_of (jpeg_dims bytes)
    else none

abbrev pub width_of : Option (ℕ × ℕ) → Option ℤ
width_of none = none
width_of (some (w, h)) = some (pos w)

abbrev pub height_of : Option (ℕ × ℕ) → Option ℤ
height_of none = none
height_of (some (w, h)) = some (pos h)

-- The dimensions that `probe_image` keeps: those of a sniffed image type.
unfoldable pub probed_dims : List ℕ → Option String → Option (ℕ × ℕ)
unfolding image_dims
probed_dims bytes none = none
probed_dims bytes (some mime) = if has image_mimes mime then image_dims bytes mime else none

unfoldable pub probe_image : List ℕ → ProbedMedia
unfolding sniff_mime probed_dims
probe_image bytes =
    let dims = probed_dims bytes (sniff_mime bytes) in
    record {
      size_bytes = pos (length bytes);
      mime = sniff_mime bytes;
      width = width_of dims;
      height = height_of dims;
      frames = none;
      sample_rate = none;
      channels = none;
      duration_s = none;
    }

unfoldable pub probe_video : List ℕ → ProbedMedia
unfolding sniff_mime
probe_video bytes = record {
  size_bytes = pos (length bytes);
  mime = sniff_mime bytes;
  width = none;
  height = none;
  frames = none;
  sample_rate = none;
  channels = none;
  duration_s = none;
}

-- What the `wave` module reads of a header: the rate, the channels and the duration.
pub record WaveHeader : Type 0 where
  pub rate : ℤ
  pub channel_count : ℤ
  pub duration : Option Float

abbrev pub rate_of : Option WaveHeader → Option ℤ
rate_of none = none
rate_of (some h) = some h.rate

abbrev pub channels_of : Option WaveHeader → Option ℤ
channels_of none = none
channels_of (some h) = some h.channel_count

abbrev pub duration_of : Option WaveHeader → Option Float
duration_of none = none
duration_of (some h) = h.duration

-- The header of a WAV; `wave` is `none` where it raises.
abbrev pub wav_header : (List ℕ → Option WaveHeader) → Option String → List ℕ → Option WaveHeader
wav_header wave none bytes = none
wav_header wave (some mime) bytes = if str_eq mime "audio/wav" then wave bytes else none

unfoldable pub probe_audio : (List ℕ → Option WaveHeader) → List ℕ → ProbedMedia
unfolding sniff_mime
probe_audio wave bytes =
    let header = wav_header wave (sniff_mime bytes) bytes in
    record {
      size_bytes = pos (length bytes);
      mime = sniff_mime bytes;
      width = none;
      height = none;
      frames = none;
      sample_rate = rate_of header;
      channels = channels_of header;
      duration_s = duration_of header;
    }

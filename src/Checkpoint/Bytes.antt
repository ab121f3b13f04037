-- ===== src/Checkpoint/Bytes.antt =====
-- tools/checkpoint_prep/safetensors_io.py and the byte streams of rewrite.py. Bytes are numbers
-- below 256, a file is the list of its bytes. `json.dumps` and `json.loads` of a header are
-- arguments. A header is its tensors, in the order of the file, and the entry `__metadata__`.
pub mod Wire
pub mod Stream
use cosmos3_nano_web_ui.Common.{
  ℕ, zero, suc, ◌+◌, ◌-◌, ◌/◌, ◌%◌, ◌*◌, ◌^◌, Option, none, some, String, List, [], ◌∷◌, ◌++◌, ltb,
  length, ◌==◌, take, drop, if◌then◌else◌, Result, ok, err, ◌>>=◌,
}
use cosmos3_nano_web_ui.Common.Dict.{Dict}

-- `{"dtype": ..., "shape": [...], "data_offsets": [first, last]}`.
pub record Entry : Type 0 where
  pub dtype : String
  pub shape : List ℕ
  pub first : ℕ
  pub last : ℕ

pub record Header : Type 0 where
  pub tensors : Dict Entry
  pub metadata : Option (Dict String)

-- What the tools raise: of `parse_header` and `struct`, of a stream, a key that is missing, and the
-- refusals of `plan_mutation` and `_verify_output`.
pub data Failure : Type 0 where
  small_buffer truncated_header bad_json length_overflow unexpected_eof : Failure
  key_error : String → Failure
  already_mutated : Failure
  missing_source wrong_dtype wrong_shape : String → Failure
  kept_missing kept_changed added_missing added_changed dropped_present : String → Failure
  no_backups not_a_file : Failure

-- The `count` low bytes of a number, lowest first.
unfoldable pub little_endian : ℕ → ℕ → List ℕ
little_endian zero n = []
little_endian (suc count) n = (n % 256) ∷ little_endian count (n / 256)

unfoldable pub of_little_endian : List ℕ → ℕ
of_little_endian [] = 0
of_little_endian (b ∷ bs) = b + 256 * of_little_endian bs

-- `b" " * n`.
unfoldable pub spaces : ℕ → List ℕ
spaces zero = []
spaces (suc n) = 32 ∷ spaces n

-- `(-n) % 8`.
unfoldable pub padding : ℕ → ℕ
padding n = (8 - n % 8) % 8

-- `struct.pack("<Q", n)`, which raises on more than 64 bits.
unfoldable pub pack : ℕ → Result Failure (List ℕ)
unfolding little_endian
pack n = if ltb n (2 ^ 64) then ok (little_endian 8 n) else err length_overflow

-- `build_header_bytes`.
unfoldable pub build_header_bytes : (Header → List ℕ) → Header → Result Failure (List ℕ)
unfolding spaces padding pack
build_header_bytes dumps header =
    let blob = dumps header ++ spaces (padding (length (dumps header))) in
    pack (length blob) >>= (λ size. ok (size ++ blob))

abbrev pub json : Option Header → Result Failure Header
json none = err bad_json
json (some h) = ok h

-- `parse_header`; `loads` is `none` where `json.loads` raises.
unfoldable pub parse_header : (List ℕ → Option Header) → List ℕ → Result Failure (Header × ℕ)
unfolding of_little_endian
parse_header loads raw =
    if ltb (length raw) 8
    then err small_buffer
    else (let n = of_little_endian (take 8 raw) in
        if ltb (length raw) (8 + n)
        then err truncated_header
        else json (loads (take n (drop 8 raw))) >>= (λ header. ok (header, n)))

-- `read_header_file`: a read past the end is short. `struct.unpack` raises on fewer than 8 bytes.
unfoldable pub read_header_file : (List ℕ → Option Header) → List ℕ → Result Failure (Header × ℕ)
unfolding of_little_endian
read_header_file loads file =
    if ltb (length file) 8
    then err small_buffer
    else (let n = of_little_endian (take 8 file) in
        json (loads (take n (drop 8 file))) >>= (λ header. ok (header, n)))

-- `_CHUNK`.
unfoldable pub chunk_size : ℕ
chunk_size = 2 ^ 26

abbrev pub lesser : ℕ → ℕ → ℕ
lesser a b = if ltb a b then a else b

-- The loop of `hash_tensor` and `_copy_range` after `seek`: `file` is what is left of the file and
-- `out` what has been passed on. A round takes a byte at least, so `remaining` rounds are enough.
unfoldable pub stream : (chunk fuel remaining : ℕ) → List ℕ → List ℕ → Result Failure (List ℕ)
stream chunk zero remaining file out = ok out
stream chunk (suc fuel) remaining file out =
    let size = lesser chunk remaining in
    let got = take size file in
    let next = stream chunk fuel (remaining - length got) (drop size file) (out ++ got) in
    if ltb 0 remaining then (if length got == 0 then err unexpected_eof else next) else ok out

-- `_copy_range`: the bytes from `first` to `last` of the data block, appended to the output.
unfoldable pub copy_range : List ℕ → ℕ → (first last : ℕ) → List ℕ → Result Failure (List ℕ)
unfolding stream chunk_size
copy_range file data_start first last out =
    stream chunk_size (last - first) (last - first) (drop (data_start + first) file) out

-- `hash_tensor`: the same bytes, hashed; updating by parts is hashing the whole.
unfoldable pub hash_tensor :
    {Hash : Type 0} → (List ℕ → Hash) → List ℕ → ℕ → Entry → Result Failure Hash
unfolding copy_range
hash_tensor sha file data_start entry =
    copy_range file data_start entry.first entry.last [] >>= (λ bytes. ok (sha bytes))

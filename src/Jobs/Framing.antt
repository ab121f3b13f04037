-- ===== src/Jobs/Framing.antt =====
-- api/jobs/gen_client.py: the wire framing of the generation worker's socket. Bytes are a list of
-- numbers below 256. The reader that the code is given (a socket's `recv`) and the JSON encoder are
-- arguments, with what is documented of them as the laws of
-- `Stream`.
pub mod Wire
use cosmos3_nano_web_ui.Common.{
  ℕ, zero, suc, ◌+◌, ◌-◌, ◌/◌, ◌%◌, ◌*◌, ◌≤◌, ◌≡◌, ◌≢◌, Bool, true, false, Option, none, some,
  String, List, [], ◌∷◌, ◌++◌, Result, ok, err, ltb, length, take, drop, if◌then◌else◌,
}
use cosmos3_nano_web_ui.Common.Value
use cosmos3_nano_web_ui.Common.Value.{Fields, str}
use cosmos3_nano_web_ui.Preprocessing.Header.{big_endian}

-- `_MAX_FRAME`.
unfoldable pub max_frame : ℕ
max_frame = 64 * 1024 * 1024

-- `struct.pack(">I", n)`, for an `n` below 2^32.
abbrev pub pack : ℕ → List ℕ
pack n = n / 16777216 % 256 ∷ n / 65536 % 256 ∷ n / 256 % 256 ∷ n % 256 ∷ []

-- A reader: `read(n)` takes up to `n` of the bytes that are to come, and at least one unless the
-- stream has ended.
pub record Stream (S : Type 0) : Type 0 where
  pub read : S → ℕ → List ℕ × S
  pub content : S → List ℕ
  pub splits : (s : S) (n : ℕ) → content s ≡ (read s n).0 ++ content (read s n).1
  pub bounded : (s : S) (n : ℕ) → length (read s n).0 ≤ n
  pub progresses : (s : S) (n : ℕ) → n ≢ 0 → (read s n).0 ≡ [] → content s ≡ []

-- `json.dumps(obj).encode("utf-8")` and `json.loads(body.decode("utf-8"))`.
pub record Json : Type 0 where
  pub dumps : Fields → List ℕ
  pub loads : List ℕ → Option Fields

-- The stream ended with so many bytes unread, the frame was so large, or the body was no JSON.
pub data FrameError : Type 0 where
  closed : ℕ → FrameError
  too_large : ℕ → FrameError
  not_json : FrameError
  -- The model's own: the loop ran out of rounds.
  out_of_fuel : FrameError

unfoldable pub frame : Json → Fields → List ℕ
frame json obj = let body = json.dumps obj in pack (length body) ++ body

module _ {S : Type 0} (stream : Stream S) where
  -- The loop of `_read_exact`, with the chunks joined so far.
  unfoldable pub read_loop : ℕ → ℕ → List ℕ → S → Result FrameError (List ℕ × S)
  read_loop fuel zero chunks s = ok (chunks, s)
  read_loop zero (suc remaining) chunks s = err out_of_fuel
  read_loop (suc fuel) (suc remaining) chunks s =
      let (chunk, s') = stream.read s (suc remaining) in
      elim chunk [
        | [] ↦ err (closed (suc remaining))
        | x ∷ xs ↦ read_loop fuel (suc remaining - length (x ∷ xs)) (chunks ++ x ∷ xs) s'
      ]

  -- `_read_exact`; each round reads a byte or more, so `n` rounds are enough.
  unfoldable pub read_exact : ℕ → S → Result FrameError (List ℕ × S)
  unfolding read_loop
  read_exact n s = read_loop n n [] s

  -- The body of a frame whose length has been read.
  unfoldable pub read_body : Json → ℕ → S → Result FrameError (Fields × S)
  unfolding read_exact max_frame
  read_body json n s = if ltb max_frame n then err (too_large n) else elim (read_exact n s) [
    | err e ↦ err e
    | ok (body, s') ↦ elim (json.loads body) [ none ↦ err not_json | some o ↦ ok (o, s') ]
  ]

  unfoldable pub unframe : Json → S → Result FrameError (Fields × S)
  unfolding read_exact read_body
  unframe json s = elim (read_exact 4 s) [
    | err e ↦ err e
    | ok (head, s') ↦ read_body json (big_endian 0 head) s'
  ]

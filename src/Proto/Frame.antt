-- ===== src/Proto/Frame.antt =====
-- internal/proto/frame.go: a frame is a type byte, a stream number and a payload length in four
-- bytes each, highest first, and the payload.
use https_proxy.Base.{
  ℕ, suc, ◌+◌, ◌*◌, ◌/◌, ◌%◌, ◌^◌, [], ◌∷◌, ◌++◌, length, get_or, drop, ltb, ◌==◌, not,
  if◌then◌else◌,
}
use https_proxy.Base.Text.{Text}

abbrev pub header_bytes : ℕ
header_bytes = 1 + 4 + 4

abbrev pub web_socket_frame_overhead : ℕ
web_socket_frame_overhead = header_bytes + 1

pub record Frame : Type 0 where
  pub type : ℕ
  pub stream : ℕ
  pub payload : Text

pub data FrameError : Type 0 where
  frame_too_short frame_length_mismatch : FrameError

pub data Result {ℓ} (A : Type ℓ) : Type ℓ where
  ok : A → Result A
  err : FrameError → Result A

-- binary.BigEndian.PutUint32 and Uint32, the latter at an offset.
unfoldable pub put_uint32 : ℕ → Text
put_uint32 v = v / 2 ^ 24 % 256 ∷ v / 2 ^ 16 % 256 ∷ v / 2 ^ 8 % 256 ∷ v % 256 ∷ []

unfoldable pub uint32 : Text → ℕ → ℕ
uint32 b i =
    get_or b i 0 * 2 ^ 24
    + get_or b (suc i) 0 * 2 ^ 16
    + get_or b (suc (suc i)) 0 * 2 ^ 8
    + get_or b (suc (suc (suc i))) 0

-- The length is converted to 32 bits.
unfoldable pub encode_frame : ℕ → ℕ → Text → Text
unfolding put_uint32
encode_frame t stream payload =
    t ∷ (put_uint32 stream ++ (put_uint32 (length payload % 2 ^ 32) ++ payload))

-- An `int` has 64 bits, so `int(n)` is never negative.
unfoldable pub decode_frame : Text → Result Frame
unfolding uint32
decode_frame b =
    if ltb (length b) header_bytes
    then err frame_too_short
    else if not (length b == header_bytes + uint32 b 5)
    then err frame_length_mismatch
    else ok (record { type = get_or b 0 0; stream = uint32 b 1; payload = drop 9 b })

-- ===== src/Proto/FrameLaws.antt =====
-- What internal/proto/frame.go promises: the two functions are inverse to each other on frames
-- whose numbers fit 32 bits, and nothing else is accepted.
use https_proxy.Base.{
  ℕ, ◌+◌, ◌*◌, ◌/◌, ◌%◌, ◌^◌, ◌≤◌, ◌<◌, ◌≡◌, ◌↔◌, [], ◌∷◌, length, All, arith, get_or, drop,
}
use https_proxy.Base.Text.{Text}
use https_proxy.Proto.Frame.{
  Frame, ok, err, frame_length_mismatch, put_uint32, uint32, encode_frame, decode_frame,
  web_socket_frame_overhead,
}

abbrev pub IsByte : ℕ → Type 0
IsByte b = b < 256

bytes_of_word :
    (v : ℕ)
    → v < 2 ^ 32
    → v / 2 ^ 24 % 256 * 2 ^ 24 + v / 2 ^ 16 % 256 * 2 ^ 16 + v / 2 ^ 8 % 256 * 2 ^ 8 + v % 256 ≡ v
bytes_of_word v h = omega arith

-- A frame whose stream number and payload length fit 32 bits is read back as it was written.
pub decode_frame-encode_frame :
    (t stream : ℕ) (payload : Text)
    → stream < 2 ^ 32
    → length payload < 2 ^ 32
    → decode_frame (encode_frame t stream payload)
      ≡ ok (record { type = t; stream = stream; payload = payload })
unfolding encode_frame decode_frame
decode_frame-encode_frame t stream payload hs hp =
    ground (arith, bytes_of_word stream hs, bytes_of_word (length payload % 2 ^ 32))

-- The bytes of a frame behind its header.
word_of_bytes :
    (a b c d : ℕ)
    → a < 256
    → b < 256
    → c < 256
    → d < 256
    → put_uint32 (a * 2 ^ 24 + b * 2 ^ 16 + c * 2 ^ 8 + d) ≡ a ∷ b ∷ c ∷ d ∷ []
unfolding put_uint32
word_of_bytes a b c d ha hb hc hd = ground arith

-- Whatever is accepted is the encoding of what was returned, and its numbers fit 32 bits: two
-- different byte strings never decode to the same frame.
pub encode_frame-decode_frame :
    (b : Text) (f : Frame)
    → All IsByte b
    → decode_frame b ≡ ok f
    → (encode_frame f.type f.stream f.payload ≡ b)
      × (f.stream < 2 ^ 32)
      × (length f.payload < 2 ^ 32)
unfolding encode_frame decode_frame
encode_frame-decode_frame [] f h e = cc
encode_frame-decode_frame (_ ∷ []) f h e = cc
encode_frame-decode_frame (_ ∷ _ ∷ []) f h e = cc
encode_frame-decode_frame (_ ∷ _ ∷ _ ∷ []) f h e = cc
encode_frame-decode_frame (_ ∷ _ ∷ _ ∷ _ ∷ []) f h e = cc
encode_frame-decode_frame (_ ∷ _ ∷ _ ∷ _ ∷ _ ∷ []) f h e = cc
encode_frame-decode_frame (_ ∷ _ ∷ _ ∷ _ ∷ _ ∷ _ ∷ []) f h e = cc
encode_frame-decode_frame (_ ∷ _ ∷ _ ∷ _ ∷ _ ∷ _ ∷ _ ∷ []) f h e = cc
encode_frame-decode_frame (_ ∷ _ ∷ _ ∷ _ ∷ _ ∷ _ ∷ _ ∷ _ ∷ []) f h e = cc
encode_frame-decode_frame (t ∷ s3 ∷ s2 ∷ s1 ∷ s0 ∷ n3 ∷ n2 ∷ n1 ∷ n0 ∷ payload) f h e = ground arith

-- The decoder's verdict: too short below nine bytes, a mismatch unless the declared length is the
-- payload's, and otherwise a frame with everything behind the header as its payload.
pub decode_frame_ok_iff :
    (b : Text)
    → ((f : Frame) × (decode_frame b ≡ ok f)) ↔ ((9 ≤ length b) × (length b ≡ 9 + uint32 b 5))
unfolding decode_frame
decode_frame_ok_iff b = (
  λ (f, e). ground arith,
  λ h. (record { type = get_or b 0 0; stream = uint32 b 1; payload = drop 9 b }, ground arith),
)

-- A payload of 2 ^ 32 bytes or more is written with a wrapped length, which the decoder refuses.
pub encode_frame_oversized :
    (t stream : ℕ) (payload : Text)
    → 2 ^ 32 ≤ length payload
    → decode_frame (encode_frame t stream payload) ≡ err frame_length_mismatch
unfolding encode_frame decode_frame
encode_frame_oversized t stream payload h = ground (arith, bytes_of_word (length payload % 2 ^ 32))

-- A relayed WebSocket message, its type byte included, makes a frame of exactly the overhead more
-- bytes than the message.
pub length-encode_frame :
    (t stream mt : ℕ) (message : Text)
    → length (encode_frame t stream (mt ∷ message)) ≡ length message + web_socket_frame_overhead
unfolding encode_frame
length-encode_frame t stream mt message = omega arith

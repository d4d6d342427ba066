-- ===== src/Proto/Runs.antt =====
-- Frames at concrete inputs.
use https_proxy.Base.{◌≡◌, refl, ◌^◌, ◌<◌, [], ◌∷◌, length, arith}
use https_proxy.Base.Text.{Text, codes}
use https_proxy.Proto.Types.{t_req_data}
use https_proxy.Proto.Frame.{
  ok, err, frame_too_short, frame_length_mismatch, encode_frame, decode_frame,
}
use https_proxy.Proto.FrameLaws.{decode_frame-encode_frame, encode_frame-decode_frame}

abbrev data_frame : Text
data_frame = 0x02 ∷ 0 ∷ 0 ∷ 1 ∷ 0x2c ∷ 0 ∷ 0 ∷ 0 ∷ 2 ∷ b'h' ∷ b'i' ∷ []

encode_data : encode_frame t_req_data 300 (codes "hi") ≡ data_frame
unfolding encode_frame
encode_data = refl

decode_short : decode_frame (2 ∷ 0 ∷ []) ≡ err frame_too_short
unfolding decode_frame
decode_short = refl

decode_cut : decode_frame (2 ∷ 0 ∷ 0 ∷ 0 ∷ 1 ∷ 0 ∷ 0 ∷ 0 ∷ 1 ∷ []) ≡ err frame_length_mismatch
unfolding decode_frame
decode_cut = refl

decode_frame-encode_frame_example :
    decode_frame (encode_frame t_req_data 300 (codes "hi"))
    ≡ ok (record { type = t_req_data; stream = 300; payload = codes "hi" })
decode_frame-encode_frame_example =
    decode_frame-encode_frame t_req_data 300 (codes "hi") (omega arith) (omega arith)

decoded : decode_frame data_frame ≡ ok (record { type = 2; stream = 300; payload = codes "hi" })
unfolding decode_frame
decoded = refl

encode_frame-decode_frame_example :
    (encode_frame 2 300 (codes "hi") ≡ data_frame) × (300 < 2 ^ 32) × (length (codes "hi") < 2 ^ 32)
encode_frame-decode_frame_example =
    encode_frame-decode_frame data_frame (record { type = 2; stream = 300; payload = codes "hi" })
      (omega arith) decoded

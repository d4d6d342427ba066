-- ===== src/Agent/Http/Frames.antt =====
-- The frames of a response, when the connection takes them all.
use mathlib.Core.List.{append-nil, append_assoc}
use https_proxy.Base.{
  ℕ, ◌≡◌, refl, sym, ap, ◌∙◌, Bool, true, false, List, [], ◌∷◌, ◌++◌, some, if◌then◌else◌,
}
use https_proxy.Base.Text.{Text, is_empty}
use https_proxy.Proto.Frame.{Frame}
use https_proxy.Proto.Types.{Header, t_res_start, t_res_data, t_res_end, t_res_trailer}
use https_proxy.Gateway.Http.Request.{is_nil}
use https_proxy.Agent.Http.{
  Read, chunk, eof, broken, Response, Encoder, frame_of, send, try_send, interim_start,
  send_interims, send_chunk, send_reads, send_trailer, response_start, send_response, handle_http,
  Link,
}

-- The body has come to an end, regular or not.
abbrev pub is_complete : List Read → Bool
is_complete [] = false
is_complete (chunk bytes ∷ rs) = is_complete rs
is_complete (eof bytes ∷ rs) = true
is_complete (broken bytes ∷ rs) = true

-- The bytes that are read up to the end.
abbrev pub body_bytes : List Read → Text
body_bytes [] = []
body_bytes (chunk bytes ∷ rs) = bytes ++ body_bytes rs
body_bytes (eof bytes ∷ rs) = bytes
body_bytes (broken bytes ∷ rs) = bytes

abbrev pub interim_frames : Encoder → ℕ → List (ℕ × Header) → List Frame
interim_frames e id [] = []
interim_frames e id ((code, h) ∷ rest) =
    frame_of t_res_start id (e.res_start (interim_start code h)) ∷ interim_frames e id rest

abbrev pub chunk_frames : ℕ → Text → List Frame
chunk_frames id bytes = if is_empty bytes then [] else frame_of t_res_data id bytes ∷ []

abbrev pub data_frames : ℕ → List Read → List Frame
data_frames id [] = []
data_frames id (chunk bytes ∷ rs) = chunk_frames id bytes ++ data_frames id rs
data_frames id (eof bytes ∷ rs) = chunk_frames id bytes
data_frames id (broken bytes ∷ rs) = chunk_frames id bytes

abbrev pub trailer_frames : Encoder → ℕ → Header → List Frame
trailer_frames e id tr = if is_nil tr then [] else frame_of t_res_trailer id (e.header_json tr) ∷ []

abbrev pub response_frames : Encoder → ℕ → Response → List Frame
response_frames e id r =
    frame_of t_res_start id (e.res_start (response_start r))
    ∷ (data_frames id r.reads ++ (trailer_frames e id r.trailer ++ (frame_of t_res_end id [] ∷ [])))

module _ (can : Link) (all : (fs : List Frame) → can fs ≡ true) where
  send_all :
      (id t : ℕ) (b : Text) (fs : List Frame)
      → send can id t b fs ≡ (fs ++ (frame_of t id b ∷ []), true)
  unfolding send
  send_all id t b fs = rw (all fs) refl

  try_send_all :
      (id t : ℕ) (b : Text) (fs : List Frame)
      → try_send can id t b fs ≡ fs ++ (frame_of t id b ∷ [])
  unfolding try_send
  try_send_all id t b fs = rw (all fs) refl

  send_interims_all :
      (e : Encoder) (id : ℕ) (is : List (ℕ × Header)) (fs : List Frame)
      → send_interims can e id is fs ≡ fs ++ interim_frames e id is
  unfolding send_interims
  send_interims_all e id [] fs = sym (append-nil fs)
  send_interims_all e id ((code, h) ∷ is) fs =
      rw (try_send_all id t_res_start (e.res_start (interim_start code h)) fs) (
        send_interims_all e id is _
        ∙ append_assoc fs (frame_of t_res_start id (e.res_start (interim_start code h)) ∷ [])
            (interim_frames e id is))

  send_chunk_all :
      (id : ℕ) (bytes : Text) (fs : List Frame)
      → send_chunk can id bytes fs ≡ (fs ++ chunk_frames id bytes, true)
  send_chunk_all id [] fs = rw (append-nil fs) refl
  send_chunk_all id (a ∷ bytes) fs = send_all id t_res_data (a ∷ bytes) fs

  send_reads_all :
      (id : ℕ) (rs : List Read) (fs : List Frame)
      → is_complete rs ≡ true
      → send_reads can id rs fs ≡ (fs ++ data_frames id rs, some true)
  unfolding send_reads
  send_reads_all id [] fs h = cc
  send_reads_all id (chunk bytes ∷ rs) fs h = rw (send_chunk_all id bytes fs) (
      send_reads_all id rs (fs ++ chunk_frames id bytes) h
      ∙ ap (λ x. (x, some true)) (append_assoc fs (chunk_frames id bytes) (data_frames id rs)))
  send_reads_all id (eof bytes ∷ rs) fs h = rw (send_chunk_all id bytes fs) refl
  send_reads_all id (broken bytes ∷ rs) fs h = rw (send_chunk_all id bytes fs) refl

  send_trailer_all :
      (e : Encoder) (id : ℕ) (tr : Header) (fs : List Frame)
      → send_trailer can e id tr fs
        ≡ fs ++ (trailer_frames e id tr ++ (frame_of t_res_end id [] ∷ []))
  unfolding send_trailer
  send_trailer_all e id [] fs = try_send_all id t_res_end [] fs
  send_trailer_all e id (a ∷ tr) fs =
      rw
        (
          send_all id t_res_trailer (e.header_json (a ∷ tr)) fs,
          try_send_all id t_res_end []
              (fs ++ (frame_of t_res_trailer id (e.header_json (a ∷ tr)) ∷ [])),
        )
        (append_assoc fs (frame_of t_res_trailer id (e.header_json (a ∷ tr)) ∷ [])
          (frame_of t_res_end id [] ∷ []))

  pub handle_http_all :
      (e : Encoder) (id : ℕ) (is : List (ℕ × Header)) (r : Response)
      → is_complete r.reads ≡ true
      → handle_http can e id true (record { interims = is; response = some r })
        ≡ interim_frames e id is ++ response_frames e id r
  unfolding handle_http send_response
  handle_http_all e id is r h =
      let start : Frame = frame_of t_res_start id (e.res_start (response_start r)) in
      let fs : List Frame = interim_frames e id is in
      rw
        (
          send_interims_all e id is [],
          send_all id t_res_start (e.res_start (response_start r)) fs,
          send_reads_all id r.reads (fs ++ (start ∷ [])) h,
          send_trailer_all e id r.trailer ((fs ++ (start ∷ [])) ++ data_frames id r.reads),
        )
        (append_assoc (fs ++ (start ∷ [])) (data_frames id r.reads) _
          ∙ append_assoc fs (start ∷ []) _)

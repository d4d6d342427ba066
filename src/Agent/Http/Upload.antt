-- ===== src/Agent/Http/Upload.antt =====
-- The goroutine of handleHTTP that feeds the request's body to the target.
use mathlib.Core.List.{append-nil, append_assoc}
use https_proxy.Base.{
  ◌≡◌, refl, sym, Bool, true, ◌||◌, List, [], ◌∷◌, ◌++◌, arith, ◌==◌, if◌then◌else◌,
}
use https_proxy.Base.Text.{Text, is_empty}
use https_proxy.Proto.Frame.{Frame}
use https_proxy.Proto.Types.{Header, t_req_data, t_req_trailer, t_req_end, t_rst}
use https_proxy.Gateway.Http.Response.{set_trailers}

-- What it takes from its select: a frame, or the end of the stream or of the request.
pub data Input : Type 0 where
  frame : Frame → Input
  stream_closed request_done : Input

pub data End : Type 0 where
  completed cancelled stopped waiting : End

-- The bytes that the pipe took, the request's trailer, and how the goroutine ended.
pub record Upload : Type 0 where
  pub body : Text
  pub trailer : Header
  pub end : End

abbrev pub ends : End → Text → Header → Upload
ends e body trailer = record { body = body; trailer = trailer; end = e }

-- `takes` says whether the pipe takes more after the bytes so far.
unfoldable pub upload : (Text → Bool) → (Text → Header) → List Input → Text → Header → Upload
upload takes decode [] body tr = ends waiting body tr
upload takes decode (stream_closed ∷ is) body tr = ends cancelled body tr
upload takes decode (request_done ∷ is) body tr = ends stopped body tr
upload takes decode (frame f ∷ is) body tr =
    let more = upload takes decode is (body ++ f.payload) tr in
    let trailed = upload takes decode is body (set_trailers (decode f.payload) tr) in
    let skipped = upload takes decode is body tr in
    if f.type == t_req_data
    then (if is_empty f.payload
        then skipped
        else if takes body
        then more
        else ends cancelled body tr)
    else if f.type == t_req_trailer
    then trailed
    else if f.type == t_req_end
    then ends completed body tr
    else if f.type == t_rst
    then ends cancelled body tr
    else skipped

-- The payloads of the data frames before the end, a reset, or the end of the stream.
unfoldable pub sent_before_end : List Input → Text
sent_before_end [] = []
sent_before_end (stream_closed ∷ is) = []
sent_before_end (request_done ∷ is) = []
sent_before_end (frame f ∷ is) =
    let rest = sent_before_end is in
    if f.type == t_req_data
    then f.payload ++ rest
    else if (f.type == t_req_end) || (f.type == t_rst)
    then []
    else rest

empty_payload : (b : Text) → is_empty b ≡ true → b ≡ []
empty_payload [] h = refl
empty_payload (a ∷ b) h = cc

-- While the target's pipe takes the bytes, what it gets is what it had and the payloads of the data
-- frames that come before the end, a reset, or the end of the stream.
pub upload-sent_before_end :
    (takes : Text → Bool) (decode : Text → Header) (is : List Input) (body : Text) (tr : Header)
    → ((b : Text) → takes b ≡ true)
    → (upload takes decode is body tr).body ≡ body ++ sent_before_end is
unfolding upload sent_before_end
upload-sent_before_end takes decode [] body tr all = sym (append-nil body)
upload-sent_before_end takes decode (stream_closed ∷ is) body tr all = sym (append-nil body)
upload-sent_before_end takes decode (request_done ∷ is) body tr all = sym (append-nil body)
upload-sent_before_end takes decode (frame f ∷ is) body tr all = ground (
  arith,
  all body,
  append-nil body,
  append_assoc body f.payload (sent_before_end is),
  upload-sent_before_end takes decode is (body ++ f.payload) tr all,
  upload-sent_before_end takes decode is body (set_trailers (decode f.payload) tr) all,
  upload-sent_before_end takes decode is body tr all,
  empty_payload f.payload,
)

-- ===== src/Agent/Http.antt =====
-- internal/agent/agent.go: handleHTTP, which carries one request to the target and its response back.
-- What the target does is a record; the frames that the gateway's connection takes are the result.
pub mod Upload
pub mod Frames
pub mod EndToEnd
mod Runs
use https_proxy.Base.{
  ℕ, Bool, true, false, not, ◌&&◌, List, [], ◌∷◌, ◌++◌, Option, none, some, ltb, if◌then◌else◌,
}
use https_proxy.Base.Int.{ℤ, pos, negsuc}
use https_proxy.Base.Text.{Text, codes, is_empty, atoi}
use https_proxy.Proto.Frame.{Frame}
use https_proxy.Proto.Types.{
  Header, ReqStart, ResStart, t_res_start, t_res_data, t_res_end, t_res_trailer, t_rst,
}
use https_proxy.Shared.Headers.{
  canonical_header_key, copy_headers, del, get, header_keys, strip_connection_headers,
}
use https_proxy.Shared.UrlJoin.{join_url}
use https_proxy.Gateway.Http.Request.{is_nil, no_keys}
use https_proxy.Remote.Url.{Url}

-- The request that is made to the target; `none` leaves ContentLength as it is.
pub record UpRequest : Type 0 where
  pub method : Text
  pub path : Text
  pub raw_query : Text
  pub host : Text
  pub header : Header
  pub content_length : Option ℤ
  pub trailer_keys : List Text

abbrev pub canonical_each : List Text → List Text
canonical_each [] = []
canonical_each (k ∷ ks) = canonical_header_key k ∷ canonical_each ks

abbrev pub natural : Option ℤ → Option ℤ
natural none = none
natural (some (pos n)) = some (pos n)
natural (some (negsuc n)) = none

unfoldable pub build_request : Url → ReqStart → UpRequest
build_request base rs =
    let h = strip_connection_headers (copy_headers [] rs.header) in
    let length_set = get h (codes "Content-Length") in
    record {
      method = rs.method;
      path = join_url base.path rs.path;
      raw_query = rs.raw_query;
      host = rs.host;
      header = if no_keys rs.trailer_keys then h else del h (codes "Content-Length");
      content_length =
          if not (no_keys rs.trailer_keys)
          then some (negsuc 0)
          else if is_empty length_set
          then none
          else natural (atoi length_set);
      trailer_keys = canonical_each rs.trailer_keys;
    }

-- `resp.Body.Read`: bytes, and whether more may come, the body has ended, or it broke off.
pub data Read : Type 0 where
  chunk eof broken : Text → Read

-- `trailer_keys` are those known with the header, `trailer` what stands there after the body.
pub record Response : Type 0 where
  pub status : ℕ
  pub header : Header
  pub declared : Header
  pub reads : List Read
  pub trailer : Header

-- What the HTTP client does with the request: the interim responses that it reports, and the response,
-- or `none` where `Do` fails.
pub record Upstream : Type 0 where
  pub interims : List (ℕ × Header)
  pub response : Option Response

-- json.Marshal of the messages that this handler sends.
pub record Encoder : Type 0 where
  pub res_start : ResStart → Text
  pub header_json : Header → Text

-- What the connection has taken of this stream, oldest first, decides what it takes next.
abbrev pub Link : Type 0
Link = List Frame → Bool

abbrev pub frame_of : ℕ → ℕ → Text → Frame
frame_of t id payload = record { type = t; stream = id; payload = payload }

unfoldable pub send : Link → ℕ → ℕ → Text → List Frame → List Frame × Bool
send can id t payload fs =
    if can fs then (fs ++ (frame_of t id payload ∷ []), true) else (fs, false)

unfoldable pub try_send : Link → ℕ → ℕ → Text → List Frame → List Frame
try_send can id t payload fs = if can fs then fs ++ (frame_of t id payload ∷ []) else fs

abbrev pub interim_start : ℕ → Header → ResStart
interim_start code h = record {
  status = pos code;
  header = strip_connection_headers h;
  trailer_keys = [];
  interim = true;
}

unfoldable pub send_interims : Link → Encoder → ℕ → List (ℕ × Header) → List Frame → List Frame
unfolding try_send
send_interims can e id [] fs = fs
send_interims can e id ((code, h) ∷ rest) fs =
    send_interims can e id rest
      (try_send can id t_res_start (e.res_start (interim_start code h)) fs)

-- The loop over the body: `true` when it has ended, `none` when it waits for more.
abbrev pub send_chunk : Link → ℕ → Text → List Frame → List Frame × Bool
send_chunk can id bytes fs = if is_empty bytes then (fs, true) else send can id t_res_data bytes fs

unfoldable pub send_reads : Link → ℕ → List Read → List Frame → List Frame × Option Bool
unfolding send
send_reads can id [] fs = (fs, none)
send_reads can id (chunk bytes ∷ rs) fs =
    let (fs', taken) = send_chunk can id bytes fs in
    let rest = send_reads can id rs fs' in if taken then rest else (fs', some false)
send_reads can id (eof bytes ∷ rs) fs =
    let (fs', taken) = send_chunk can id bytes fs in (fs', some taken)
send_reads can id (broken bytes ∷ rs) fs =
    let (fs', taken) = send_chunk can id bytes fs in (fs', some taken)

unfoldable pub send_trailer : Link → Encoder → ℕ → Header → List Frame → List Frame
unfolding send try_send
send_trailer can e id trailer fs =
    let (fs', taken) = send can id t_res_trailer (e.header_json trailer) fs in
    if is_nil trailer
    then try_send can id t_res_end [] fs
    else if taken
    then try_send can id t_res_end [] fs'
    else fs'

abbrev pub response_start : Response → ResStart
response_start r = record {
  status = pos r.status;
  header = strip_connection_headers r.header;
  trailer_keys = header_keys r.declared;
  interim = false;
}

abbrev pub bad_gateway : ResStart
bad_gateway = record { status = pos 502; header = []; trailer_keys = []; interim = false }

abbrev pub after_reads : Link → Encoder → ℕ → Header → List Frame × Option Bool → List Frame
after_reads can e id trailer (fs, some true) = send_trailer can e id trailer fs
after_reads can e id trailer (fs, some false) = fs
after_reads can e id trailer (fs, none) = fs

unfoldable pub send_response : Link → Encoder → ℕ → Option Response → List Frame → List Frame
unfolding send try_send send_reads send_trailer
send_response can e id none fs =
    try_send can id t_res_end [] (try_send can id t_res_start (e.res_start bad_gateway) fs)
send_response can e id (some r) fs =
    let (fs', taken) = send can id t_res_start (e.res_start (response_start r)) fs in
    if taken then after_reads can e id r.trailer (send_reads can id r.reads fs') else fs'

-- `valid` says whether http.NewRequest takes the method.
unfoldable pub handle_http : Link → Encoder → ℕ → Bool → Upstream → List Frame
unfolding send_interims send_response try_send
handle_http can e id valid up =
    if not valid
    then try_send can id t_rst (codes "bad request") []
    else send_response can e id up.response (send_interims can e id up.interims [])

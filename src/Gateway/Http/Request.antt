-- ===== src/Gateway/Http/Request.antt =====
-- The first half of handleClientHTTP, and the whole of it. The goroutine that watches for a client
-- that goes away is not part of the trace: its reset is a frame of its own, and once it has closed the
-- stream the handler's sends and receives fail.
use https_proxy.Base.{ℕ, Bool, true, false, ◌&&◌, not, List, [], ◌∷◌, ltb, if◌then◌else◌}
use https_proxy.Base.Int.{ℤ, pos, ltb_ℤ}
use https_proxy.Base.Text.{Text, codes, is_empty}
use https_proxy.Proto.Types.{
  Header, ReqStart, t_req_start, t_req_data, t_req_end, t_req_trailer, t_rst,
}
use https_proxy.Shared.Headers.{trailer_keys_from_header, header_keys, strip_connection_headers}
use https_proxy.Gateway.Http.Exchange.{
  World, Peer, Codec, Recv, Read, Ending, returned, waiting, chunk, ended, too_large, page, closed,
  log, send, try_send,
}
use https_proxy.Gateway.Http.Auth.{apply_query_bearer_auth, strip_forwarding_ip_headers}
use https_proxy.Gateway.Http.Response.{relay_response}

-- `declared` and `trailer` are r.Trailer before and after the body is read.
pub record Request : Type 0 where
  pub method : Text
  pub raw_query : Text
  pub host : Text
  pub header : Header
  pub content_length : ℤ
  pub declared : Header
  pub trailer : Header

abbrev pub is_nil : Header → Bool
is_nil [] = true
is_nil (e ∷ h) = false

abbrev pub no_keys : List Text → Bool
no_keys [] = true
no_keys (k ∷ ks) = false

unfoldable pub request_start : Codec → Request → Text → ReqStart
request_start c r suffix_path =
    let (h, raw_query) =
      apply_query_bearer_auth c (strip_forwarding_ip_headers r.header) r.raw_query in
    let keys = trailer_keys_from_header h in
    record {
      method = r.method;
      path = suffix_path;
      raw_query = raw_query;
      host = r.host;
      header = strip_connection_headers h;
      trailer_keys =
          if no_keys keys && not (is_nil r.declared) then header_keys r.declared else keys;
      is_web_socket = false;
    }

abbrev pub send_chunk : Peer → Text → World → World × Bool
send_chunk p bytes w = if is_empty bytes then (w, true) else send p t_req_data bytes w

abbrev pub send_failed : World → World
send_failed w = log (page 502 (codes "agent send failed")) w

-- How the body's loop ends.
pub data BodyEnd : Type 0 where
  body_sent body_refused body_waiting : BodyEnd

unfoldable pub send_body : Peer → List Read → World → World × BodyEnd
unfolding send try_send
send_body p [] w = (w, body_waiting)
send_body p (chunk bytes ∷ rs) w =
    let (w', taken) = send_chunk p bytes w in
    let rest = send_body p rs w' in if taken then rest else (send_failed w', body_refused)
send_body p (ended bytes ∷ rs) w =
    let (w', taken) = send_chunk p bytes w in
    if taken then (w', body_sent) else (send_failed w', body_refused)
send_body p (too_large bytes ∷ rs) w =
    let (w', taken) = send_chunk p bytes w in
    if taken
    then (
      log (page 413 (codes "request body too large"))
          (try_send p t_rst (codes "body too large") w'),
      body_refused,
    )
    else (send_failed w', body_refused)

unfoldable pub finish_request : Peer → Codec → Request → World → World
unfolding try_send
finish_request p c r w =
    try_send p t_req_end []
      (if is_nil r.trailer then w else try_send p t_req_trailer (c.header_json r.trailer) w)

abbrev pub after_body : Peer → Codec → Request → List Recv → World × BodyEnd → World × Ending
after_body p c r recvs (w, body_sent) = relay_response p c recvs (finish_request p c r w)
after_body p c r recvs (w, body_refused) = (w, returned)
after_body p c r recvs (w, body_waiting) = (w, waiting)

abbrev pub is_too_long : ℕ → Request → Bool
is_too_long max_body r = ltb 0 max_body && ltb_ℤ (pos max_body) r.content_length

unfoldable pub exchange :
    ℕ → Peer → Codec → Request → Text → List Read → List Recv → World → World × Ending
unfolding send try_send send_body finish_request relay_response request_start
exchange max_body p c r suffix_path reads recvs w =
    if is_too_long max_body r
    then (
      try_send p t_rst (codes "body too large") (log (page 413 (codes "request body too large")) w),
      returned,
    )
    else (let (w', taken) = send p t_req_start (c.req_start (request_start c r suffix_path)) w in
        let rest = after_body p c r recvs (send_body p reads w') in
        if taken then rest else (send_failed w', returned))

-- `defer st.closeWithErr(nil)`.
abbrev pub deferred : World × Ending → World × Ending
deferred (w, returned) = (log closed w, returned)
deferred (w, waiting) = (w, waiting)

-- `opened` says whether newStream succeeds.
unfoldable pub handle_client_http :
    Bool → ℕ → Peer → Codec → Request → Text → List Read → List Recv → World × Ending
unfolding exchange
handle_client_http opened max_body p c r suffix_path reads recvs =
    let fresh : World = record { trace = []; header = [] } in
    if not opened
    then (log (page 429 (codes "too many concurrent streams")) fresh, returned)
    else deferred (exchange max_body p c r suffix_path reads recvs fresh)

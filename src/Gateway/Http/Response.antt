-- ===== src/Gateway/Http/Response.antt =====
-- The second half of handleClientHTTP: the agent's frames become the response.
use https_proxy.Base.{
  Bool, true, false, ◌&&◌, ◌||◌, not, List, [], ◌∷◌, ◌==◌, ltb, leb, if◌then◌else◌,
}
use https_proxy.Base.Int.{ℤ, pos, negsuc, ltb_ℤ}
use https_proxy.Base.Text.{Text, codes, join}
use https_proxy.Base.Assoc.{insert, text_keys}
use https_proxy.Proto.Frame.{Frame}
use https_proxy.Proto.Types.{
  Header, ResStart, t_res_start, t_res_data, t_res_end, t_res_trailer, t_rst,
}
use https_proxy.Shared.Headers.{
  canonical_header_key, set_value, token_keys, dedup, strip_connection_headers, copy_unless,
  is_hop_by_hop_header_key,
}
use https_proxy.Gateway.Http.Exchange.{
  World, Peer, Codec, Recv, Ending, returned, waiting, frame, timed_out, failed, page, interim,
  head, wrote, closed, log, try_send, flush,
}

-- Nothing is set when no key is left.
unfoldable pub set_trailer_keys : List Text → Header → Header
set_trailer_keys keys h =
    let uniq = dedup [] (token_keys keys) in
    if elim uniq [ [] ↦ true | _ ∷ _ ↦ false ]
    then h
    else set_value h (codes "Trailer") (join (codes ", ") uniq)

abbrev pub copy_response : Header → Header → Header
copy_response src dst = copy_unless is_hop_by_hop_header_key dst (strip_connection_headers src)

-- The codes that net/http writes as an informational response: 1xx but for 101, which it takes for a final
-- status, as it does every code from 200. It panics on a code that has not three digits.
abbrev pub is_informational : ℤ → Bool
is_informational (pos n) = leb 100 n && ltb n 200 && not (n == 101)
is_informational (negsuc n) = false

-- `w.WriteHeader(rs.Status)`, which is final if the status is not informational, whatever the frame says.
unfoldable pub write_interim : ResStart → World → World
write_interim rs w =
    if not (ltb_ℤ (pos 0) rs.status)
    then w
    else let h = copy_response rs.header w.header in
      if is_informational rs.status
      then log (interim rs.status h) (record w { header = h })
      else log (head rs.status h) (record w { header = h })

-- `rs.Interim || (rs.Status > 0 && rs.Status < 200)`.
abbrev pub is_interim : ResStart → Bool
is_interim rs = rs.interim || (ltb_ℤ (pos 0) rs.status && ltb_ℤ rs.status (pos 200))

abbrev pub status_or_bad_gateway : ℤ → ℤ
status_or_bad_gateway n = if ltb_ℤ (pos 0) n then n else pos 502

unfoldable pub start_response : Peer → ResStart → World → World
unfolding flush
start_response p rs w =
    let h = set_trailer_keys rs.trailer_keys (copy_response rs.header w.header) in
    flush p (log (head (status_or_bad_gateway rs.status) h) (record w { header = h }))

-- `w.Header()[CanonicalHeaderKey(k)] = vv` for each entry.
unfoldable pub set_trailers : Header → Header → Header
set_trailers [] h = h
set_trailers ((k, vs) ∷ tr) h = set_trailers tr (insert (canonical_header_key k) vs h)

-- A frame of the body, and whether the handler returns then.
unfoldable pub body_frame : Peer → Codec → Frame → World → World × Bool
unfolding flush try_send
body_frame p c f w =
    if f.type == t_res_data
    then (if p.can_write w.trace
        then (flush p (log (wrote f.payload) w), false)
        else (log closed (try_send p t_rst (codes "client write failed") w), true))
    else if f.type == t_res_trailer
    then (record w { header = set_trailers (c.header_of f.payload) w.header }, false)
    else if f.type == t_res_end
    then (w, true)
    else if f.type == t_rst
    then (w, true)
    else (w, false)

unfoldable pub relay_body : Peer → Codec → List Recv → World → World × Ending
unfolding body_frame try_send
relay_body p c [] w = (w, waiting)
relay_body p c (frame f ∷ rs) w =
    let (w', stop) = body_frame p c f w in
    let rest = relay_body p c rs w' in if stop then (w', returned) else rest
relay_body p c (timed_out ∷ rs) w = (try_send p t_rst (codes "stream idle timeout") w, returned)
relay_body p c (failed ∷ rs) w = (w, returned)

unfoldable pub no_response : Peer → World → World
unfolding try_send
no_response p w =
    log (page 502 (codes "agent no response")) (try_send p t_rst (codes "gateway timeout") w)

unfoldable pub relay_response : Peer → Codec → List Recv → World → World × Ending
unfolding no_response write_interim start_response relay_body
relay_response p c [] w = (w, waiting)
relay_response p c (frame f ∷ rs) w =
    let start = c.res_start f.payload in
    let again = relay_response p c rs (write_interim start w) in
    if not (f.type == t_res_start)
    then (no_response p w, returned)
    else if is_interim start
    then again
    else relay_body p c rs (start_response p start w)
relay_response p c (timed_out ∷ rs) w = (no_response p w, returned)
relay_response p c (failed ∷ rs) w = (no_response p w, returned)

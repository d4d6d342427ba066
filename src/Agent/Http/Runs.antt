-- ===== src/Agent/Http/Runs.antt =====
-- Requests at concrete inputs.
use https_proxy.Base.{ℕ, ◌≡◌, refl, true, false, List, [], ◌∷◌, ◌++◌, none, some, All, arith, ◌==◌}
use https_proxy.Base.Int.{pos, negsuc}
use https_proxy.Base.Text.{Text, codes}
use https_proxy.Base.Assoc.{lookup, delete, text_keys}
use https_proxy.Proto.Types.{
  Header, ResStart, t_req_data, t_req_end, t_res_start, t_res_data, t_res_end,
}
use https_proxy.Shared.Headers.{strip_connection_headers, header_keys, values_at, tokens}
use https_proxy.Gateway.Http.Exchange.{World, Peer, Codec}
use https_proxy.Gateway.Http.Response.{relay_response}
use https_proxy.Agent.Http.{
  chunk, eof, broken, Response, Encoder, Link, handle_http, send_response, interim_start,
  response_start,
}
use https_proxy.Agent.Http.Upload.{Input, frame, upload, sent_before_end, upload-sent_before_end}
use https_proxy.Agent.Http.EndToEnd.{delivered, Delivers, relay_response-handle_http}

abbrev eager : Link
eager fs = true

abbrev willing : Peer
willing = record { can_send = λ t. true; can_write = λ t. true; flushes = false }

-- The JSON of a start is its status and whether it is interim.
abbrev demo_encoder : Encoder
demo_encoder = record {
  res_start = λ r. elim r.status [
    | pos n ↦ n ∷ elim r.interim [ true ↦ 1 | false ↦ 0 ] ∷ []
    | negsuc n ↦ []
  ];
  header_json = λ h. [];
}

abbrev start_of : Text → ResStart
start_of (n ∷ i ∷ _) = record { status = pos n; header = []; trailer_keys = []; interim = i == 1 }
start_of (n ∷ []) = record { status = pos n; header = []; trailer_keys = []; interim = false }
start_of [] = record { status = pos 0; header = []; trailer_keys = []; interim = false }

abbrev demo_codec : Codec
demo_codec = record {
  req_start = λ r. [];
  header_json = λ h. [];
  res_start = start_of;
  header_of = λ b. [];
  parse_query = λ s. none;
  encode_query = λ q. [];
}

abbrev demo_response : Response
demo_response = record {
  status = 200;
  header = [];
  declared = [];
  reads = chunk (codes "ab") ∷ eof (codes "c") ∷ [];
  trailer = [];
}

abbrev empty_world : World
empty_world = record { trace = []; header = [] }

abbrev interims : List (ℕ × Header)
interims = (103, []) ∷ []

answered :
    handle_http eager demo_encoder 7 true
      (record { interims = interims; response = some demo_response })
    ≡ record { type = t_res_start; stream = 7; payload = 103 ∷ 1 ∷ [] }
      ∷ record { type = t_res_start; stream = 7; payload = 200 ∷ 0 ∷ [] }
      ∷ record { type = t_res_data; stream = 7; payload = codes "ab" }
      ∷ record { type = t_res_data; stream = 7; payload = codes "c" }
      ∷ record { type = t_res_end; stream = 7; payload = [] }
      ∷ []
unfolding handle_http
answered = refl

interim_read :
    All
      (λ x. start_of (demo_encoder.res_start (interim_start x.0 x.1)) ≡ interim_start x.0 x.1)
      interims
unfolding strip_connection_headers values_at lookup delete tokens
interim_read = (refl, tt)

final_read :
    start_of (demo_encoder.res_start (response_start demo_response)) ≡ response_start demo_response
unfolding strip_connection_headers values_at lookup delete tokens header_keys
final_read = refl

relay_response-handle_http_example : Delivers empty_world 200 (codes "abc") (
    relay_response willing demo_codec
      (delivered (
        handle_http eager demo_encoder 7 true
          (record { interims = interims; response = some demo_response })))
      empty_world)
relay_response-handle_http_example =
    relay_response-handle_http willing demo_codec demo_encoder 7 (λ t. refl) eager (λ fs. refl)
      interims demo_response empty_world refl (omega arith) interim_read final_read

abbrev demo_inputs : List Input
demo_inputs =
    frame (record { type = t_req_data; stream = 7; payload = codes "x" })
    ∷ frame (record { type = t_req_end; stream = 7; payload = [] })
    ∷ []

upload-sent_before_end_example :
    (upload (λ b. true) (λ b. []) demo_inputs [] []).body ≡ [] ++ sent_before_end demo_inputs
upload-sent_before_end_example =
    upload-sent_before_end (λ b. true) (λ b. []) demo_inputs [] [] (λ b. refl)

-- A body that breaks off is announced like one that has ended.
broken_off :
    handle_http eager demo_encoder 7 true (record {
      interims = [];
      response = some (record demo_response { reads = broken (codes "c") ∷ [] });
    })
    ≡ handle_http eager demo_encoder 7 true (record {
      interims = [];
      response = some (record demo_response { reads = eof (codes "c") ∷ [] });
    })
unfolding handle_http send_response
broken_off = refl

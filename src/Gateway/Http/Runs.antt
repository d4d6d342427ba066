-- ===== src/Gateway/Http/Runs.antt =====
-- An exchange at concrete inputs.
use https_proxy.Base.{
  ℕ, ◌≡◌, refl, true, false, List, [], ◌∷◌, ◌++◌, none, some, if◌then◌else◌, All,
}
use https_proxy.Base.Int.{pos, negsuc}
use https_proxy.Base.Text.{Text, codes, text_eq, trim_space, is_empty}
use https_proxy.Base.Assoc.{lookup, delete, text_keys}
use https_proxy.Proto.Frame.{Frame}
use https_proxy.Proto.Types.{
  t_req_start, t_req_data, t_req_end, t_res_start, t_res_data, t_res_end, t_rst,
}
use https_proxy.Shared.Headers.{
  copy_unless, dedup, strip_connection_headers, token_keys, tokens, values_at,
}
use https_proxy.Gateway.Http.Exchange.{
  World, Peer, Codec, Recv, Ending, chunk, ended, frame, timed_out, sent, interim, head, wrote,
  closed,
}
use https_proxy.Gateway.Http.Auth.{query_auth}
use https_proxy.Gateway.Http.Response.{relay_body, set_trailer_keys}
use https_proxy.Gateway.Http.Request.{Request, handle_client_http, send_body}
use https_proxy.Gateway.Http.Protocol.{phase, in_order, handle_client_http-in_order}
use https_proxy.Gateway.Http.Reply.{Answers, IsProper, handle_client_http-Answers}
use https_proxy.Gateway.Http.Bodies.{
  written, sent_data, body_of, read_bytes, written-relay_body, relay_body-reset,
  sent_data-send_body,
}

abbrev willing : Peer
willing = record { can_send = λ t. true; can_write = λ t. true; flushes = false }

abbrev demo_query : List (Text × List Text)
demo_query = (codes "token", codes "t" ∷ []) ∷ (codes "a", codes "1" ∷ []) ∷ []

-- A payload of one byte is a start with that status.
abbrev demo_codec : Codec
demo_codec = record {
  req_start = λ r. r.path;
  header_json = λ h. [];
  res_start = λ b. record {
    status = elim b [ [] ↦ pos 0 | n ∷ _ ↦ pos n ];
    header = [];
    trailer_keys = [];
    interim = false;
  };
  header_of = λ b. [];
  parse_query = λ s. if text_eq s (codes "token=t&a=1") then some demo_query else none;
  encode_query = λ q. codes "a=1";
}

abbrev demo_request : Request
demo_request = record {
  method = codes "POST";
  raw_query = [];
  host = codes "h";
  header = [];
  content_length = negsuc 0;
  declared = [];
  trailer = [];
}

abbrev frame_of : ℕ → Text → Frame
frame_of t payload = record { type = t; stream = 1; payload = payload }

abbrev demo_answer : List Recv
demo_answer =
    frame (frame_of t_res_start (103 ∷ []))
    ∷ frame (frame_of t_res_start (204 ∷ []))
    ∷ frame (frame_of t_res_data (codes "x"))
    ∷ frame (frame_of t_res_end [])
    ∷ []

abbrev demo_run : World × Ending
demo_run =
    handle_client_http true 100 willing demo_codec demo_request (codes "/p")
      (chunk (codes "ab") ∷ ended (codes "c") ∷ []) demo_answer

relayed :
    demo_run.0.trace
    ≡ closed
      ∷ wrote (codes "x")
      ∷ head (pos 204) []
      ∷ interim (pos 103) []
      ∷ sent t_req_end []
      ∷ sent t_req_data (codes "c")
      ∷ sent t_req_data (codes "ab")
      ∷ sent t_req_start (codes "/p")
      ∷ []
unfolding handle_client_http trim_space set_trailer_keys copy_unless dedup strip_connection_headers
    token_keys delete tokens values_at lookup
relayed = refl

handle_client_http-in_order_example :
    in_order (
      phase
        (handle_client_http true 100 willing demo_codec demo_request
          (codes "/p")
          (chunk (codes "ab") ∷ ended (codes "c") ∷ [])
          demo_answer).0.trace)
    ≡ true
handle_client_http-in_order_example =
    handle_client_http-in_order true 100 willing demo_codec demo_request (codes "/p")
      (chunk (codes "ab") ∷ ended (codes "c") ∷ []) demo_answer

demo_answer-IsProper : All (IsProper demo_codec) demo_answer
demo_answer-IsProper = (refl, (refl, (refl, (refl, tt))))

handle_client_http-Answers_example : Answers (
    handle_client_http true 100 willing demo_codec demo_request
      (codes "/p")
      (chunk (codes "ab") ∷ ended (codes "c") ∷ [])
      demo_answer)
handle_client_http-Answers_example =
    handle_client_http-Answers true 100 willing demo_codec demo_request (codes "/p")
      (chunk (codes "ab") ∷ ended (codes "c") ∷ []) demo_answer demo_answer-IsProper

abbrev empty_world : World
empty_world = record { trace = []; header = [] }

abbrev two_parts : List Recv
two_parts =
    frame (frame_of t_res_data (codes "x"))
    ∷ frame (frame_of t_res_data (codes "y"))
    ∷ timed_out
    ∷ []

written-relay_body_example :
    written (relay_body willing demo_codec two_parts empty_world).0
    ≡ written empty_world ++ body_of two_parts
written-relay_body_example = written-relay_body willing demo_codec two_parts empty_world (λ t. refl)

sent_data-send_body_example :
    sent_data (send_body willing (chunk (codes "ab") ∷ ended (codes "c") ∷ []) empty_world).0
    ≡ sent_data empty_world ++ read_bytes (chunk (codes "ab") ∷ ended (codes "c") ∷ [])
sent_data-send_body_example =
    sent_data-send_body willing (chunk (codes "ab") ∷ ended (codes "c") ∷ []) empty_world
      (λ t. refl)

relay_body-reset_example :
    relay_body willing demo_codec
      ((frame (frame_of t_res_data (codes "x")) ∷ []) ++ (frame (frame_of t_rst []) ∷ []))
      empty_world
    ≡ relay_body willing demo_codec
        ((frame (frame_of t_res_data (codes "x")) ∷ []) ++ (frame (frame_of t_res_end []) ∷ []))
        empty_world
relay_body-reset_example =
    relay_body-reset willing demo_codec (frame (frame_of t_res_data (codes "x")) ∷ [])
      (frame_of t_rst []) (frame_of t_res_end []) empty_world refl refl

query_set : is_empty (trim_space (codes "token=t&a=1")) ≡ false
unfolding trim_space
query_set = refl

found_token : query_auth demo_query ≡ codes "Bearer t"
unfolding query_auth trim_space values_at lookup
found_token = refl

-- ===== src/Proto/Types.antt =====
-- internal/proto/types.go: the frame types; internal/proto/wire.go: the messages they carry.
use https_proxy.Base.{ℕ, Bool, List}
use https_proxy.Base.Int.{ℤ}
use https_proxy.Base.Text.{Text, codes}

abbrev pub t_req_start : ℕ
t_req_start = 0x01

abbrev pub t_req_data : ℕ
t_req_data = 0x02

abbrev pub t_req_end : ℕ
t_req_end = 0x03

abbrev pub t_req_trailer : ℕ
t_req_trailer = 0x04

abbrev pub t_res_start : ℕ
t_res_start = 0x11

abbrev pub t_res_data : ℕ
t_res_data = 0x12

abbrev pub t_res_end : ℕ
t_res_end = 0x13

abbrev pub t_res_trailer : ℕ
t_res_trailer = 0x14

abbrev pub t_ws_open_ok : ℕ
t_ws_open_ok = 0x20

abbrev pub t_ws_open_err : ℕ
t_ws_open_err = 0x21

abbrev pub t_ws_c2a : ℕ
t_ws_c2a = 0x22

abbrev pub t_ws_a2c : ℕ
t_ws_a2c = 0x23

abbrev pub t_ws_close : ℕ
t_ws_close = 0x24

abbrev pub t_rst : ℕ
t_rst = 0x30

-- A `map[string][]string`, such as http.Header, as an association list.
abbrev pub Header : Type 0
Header = List (Text × List Text)

pub record ReqStart : Type 0 where
  pub method : Text
  pub path : Text
  pub raw_query : Text
  pub host : Text
  pub header : Header
  pub trailer_keys : List Text
  pub is_web_socket : Bool

pub record ResStart : Type 0 where
  pub status : ℤ
  pub header : Header
  pub trailer_keys : List Text
  pub interim : Bool

pub record WsOpenOk : Type 0 where
  pub subprotocol : Text
  pub relay_mode : Text
  pub extensions : List Text

abbrev pub ws_relay_mode_framed : Text
ws_relay_mode_framed = codes "framed"

abbrev pub ws_relay_mode_raw : Text
ws_relay_mode_raw = codes "raw"

pub record WsClose : Type 0 where
  pub code : ℤ
  pub reason : Text

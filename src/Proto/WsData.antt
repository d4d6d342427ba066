-- ===== src/Proto/WsData.antt =====
-- What both ends of a WebSocket relay use: the payload of a data frame is the type of the message,
-- one byte, and its bytes. The frames of one handler have one stream, so they are types and payloads here.
use https_proxy.Base.{
  ℕ, Bool, ◌||◌, List, [], ◌∷◌, ◌++◌, Option, if◌then◌else◌, ◌==◌, ◌≡◌, refl, arith, ◌+◌,
}
use https_proxy.Base.Int.{ℤ}
use https_proxy.Base.Text.{Text}
use https_proxy.Proto.Types.{WsClose}

-- What is handed to the connection: the type and the payload of a frame.
abbrev pub Packet : Type 0
Packet = ℕ × Text

-- A message of a WebSocket connection: its type and its bytes.
abbrev pub Message : Type 0
Message = ℕ × Text

abbrev pub text_message : ℕ
text_message = 1

abbrev pub binary_message : ℕ
binary_message = 2

abbrev pub is_data : ℕ → Bool
is_data mt = mt == text_message || mt == binary_message

-- json.Marshal of a WsClose, and json.Unmarshal with its error ignored.
pub record CloseCodec : Type 0 where
  pub close_json : WsClose → Text
  pub close_of : Text → WsClose

-- What the connection has taken from this handler, oldest first, decides what it takes next.
abbrev pub Takes : Type 0
Takes = List Packet → Bool

-- How a write to the other side ends: with what CloseFromErr makes of its error where it fails.
pub data Write : Type 0 where
  wrote : Write
  write_failed : Option (ℤ × Text) → Write

-- The payloads of the frames of one type.
abbrev pub payloads : ℕ → List Packet → List Text
payloads t [] = []
payloads t ((u, b) ∷ ps) = let rest = payloads t ps in if u == t then b ∷ rest else rest

abbrev pub frames_of : ℕ → List Packet → ℕ
frames_of t [] = 0
frames_of t ((u, b) ∷ ps) = let rest = frames_of t ps in if u == t then 1 + rest else rest

pub payloads-append :
    (t : ℕ) (xs ys : List Packet) → payloads t (xs ++ ys) ≡ payloads t xs ++ payloads t ys
payloads-append t [] ys = refl
payloads-append t ((u, b) ∷ xs) ys = ground (arith, payloads-append t xs ys)

pub frames_of-append :
    (t : ℕ) (xs ys : List Packet) → frames_of t (xs ++ ys) ≡ frames_of t xs + frames_of t ys
frames_of-append t [] ys = omega arith
frames_of-append t ((u, b) ∷ xs) ys = ground (arith, frames_of-append t xs ys)

-- ===== src/Client.antt =====
-- GatewayStatusClient of src/gateway_status_client.cpp, the client of the HTTP API on the machine with
-- the tuners. What the network does in a request is a parameter, an `Exchange`. The texts of errors are
-- constructors.
pub mod Response
pub mod Calls
pub mod Expected
pub mod Reports
pub mod Gpio
pub mod Answers
mod Examples
use wh_repeater.Common.{
  ℕ, Bool, true, false, not, ◌||◌, Option, none, some, List, [], ◌∷◌, ◌++◌, length, drop, ltb, ◌==◌,
  if◌then◌else◌, text, text_eq, decimal, inl, inr,
}
use wh_repeater.Domain.{Text}
use wh_repeater.Client.Response.{
  HttpResponse, Error, parse_response, lookup_failed, connect_failed, request_timed_out,
  request_failed, read_failed,
}

pub record PiStatusConfig : Type 0 where
  pub enabled : Bool
  pub address : Text
  pub port : ℕ
  pub poll_interval : ℕ

-- The client: `last_error` is none when the last report was a success.
pub record GatewayStatusClient : Type 0 where
  pub next_poll : ℕ
  pub last_error : Option Error

-- A round of sending, and one of receiving.
pub data Sent : Type 0 where
  wrote : ℕ → Sent
  send_timeout : Sent
  send_error : Sent

pub data Received : Type 0 where
  piece : Text → Received
  silence : Received
  closed : Received
  receive_error : Received

-- Whether the address is found, whether one of its results connects, and the rounds.
pub record Exchange : Type 0 where
  pub found : Bool
  pub connects : Bool
  pub sends : List Sent
  pub receives : List Received

-- "\r\n".
abbrev pub crlf : Text
crlf = 13 ∷ 10 ∷ []

abbrev pub is_empty : Text → Bool
is_empty [] = true
is_empty (c ∷ t) = false

abbrev pub content : Text → Text → Text → Text
content method body content_type =
    if not (is_empty body) || text_eq method (text "PUT") || text_eq method (text "POST")
    then text "Content-Length: "
      ++ decimal (length body) (length body)
      ++ crlf
      ++ (if is_empty content_type then [] else text "Content-Type: " ++ content_type ++ crlf)
    else []

abbrev pub request_text : PiStatusConfig → Text → Text → Text → Text → Text
request_text config method path body content_type =
    method
    ++ text " "
    ++ path
    ++ text " HTTP/1.1"
    ++ crlf
    ++ text "Host: "
    ++ config.address
    ++ crlf
    ++ text "Connection: close"
    ++ crlf
    ++ content method body content_type
    ++ crlf
    ++ body

-- The loop that sends: `none` when all is sent. A sequence that ends before the text times out.
unfoldable pub send_request : List Sent → Text → Option Error
send_request rounds [] = none
send_request [] (c ∷ t) = some request_timed_out
send_request (send_timeout ∷ rounds) (c ∷ t) = some request_timed_out
send_request (send_error ∷ rounds) (c ∷ t) = some request_failed
send_request (wrote n ∷ rounds) (c ∷ t) =
    let more = send_request rounds (drop n (c ∷ t)) in if n == 0 then some request_failed else more

-- The loop that receives: all that came, or `none` for an error.
unfoldable pub receive_response : List Received → Text → Option Text
receive_response [] response = some response
receive_response (silence ∷ rounds) response = some response
receive_response (closed ∷ rounds) response = some response
receive_response (receive_error ∷ rounds) response = none
receive_response (piece bytes ∷ rounds) response = receive_response rounds (response ++ bytes)

-- What came, and the client behind it: each failure leaves its error.
abbrev pub received : Option Text → GatewayStatusClient → GatewayStatusClient × Option HttpResponse
received none s = (record s { last_error = some read_failed }, none)
received (some response) s = elim (parse_response response) [
  | inl e ↦ (record s { last_error = some e }, none)
  | inr r ↦ (s, some r)
]

abbrev pub sent_then :
    Option Error → Exchange → GatewayStatusClient → GatewayStatusClient × Option HttpResponse
sent_then (some e) exchange s = (record s { last_error = some e }, none)
sent_then none exchange s = received (receive_response exchange.receives []) s

unfoldable pub request :
    PiStatusConfig
    → Exchange
    → Text
    → Text
    → Text
    → Text
    → GatewayStatusClient
    → GatewayStatusClient × Option HttpResponse
request config exchange method path body content_type s =
    if not exchange.found
    then (record s { last_error = some lookup_failed }, none)
    else if not exchange.connects
    then (record s { last_error = some connect_failed }, none)
    else sent_then (send_request exchange.sends (request_text config method path body content_type))
        exchange s

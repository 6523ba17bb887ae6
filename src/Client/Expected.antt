-- ===== src/Client/Expected.antt =====
-- What the calls of GatewayStatusClient in src/gateway_status_client.cpp are to result in.
use wh_repeater.Common.{
  ℕ, ◌+◌, Bool, not, ◌&&◌, ◌||◌, Option, none, some, [], ◌==◌, if◌then◌else◌, ◌⊎◌, inl, inr, text,
  is_some,
}
use wh_repeater.Domain.{Text}
use wh_repeater.Client.{
  PiStatusConfig, GatewayStatusClient, Exchange, send_request, receive_response, request_text,
}
use wh_repeater.Client.Response.{HttpResponse, Error, parse_response, json_bool_member}
use wh_repeater.Client.Calls.{
  is_object, gpio_read_path, gpio_write_body, poll, fetch_config, put_config, restart_service,
  read_gpio, write_gpio,
}

-- The answer that a network delivers to a request: the address is found and connects, the whole text is
-- sent, no error comes while receiving, and what comes has its headers and a status from 100 to 599.
abbrev pub answer_in : Error ⊎ HttpResponse → Option HttpResponse
answer_in (inl e) = none
answer_in (inr r) = some r

abbrev pub answer_of : Option Text → Option HttpResponse
answer_of none = none
answer_of (some response) = answer_in (parse_response response)

abbrev pub answer : PiStatusConfig → Exchange → Text → Text → Text → Text → Option HttpResponse
answer config exchange method path body content_type =
    if exchange.found
      && exchange.connects
      && not (
          is_some (send_request exchange.sends (request_text config method path body content_type)))
    then answer_of (receive_response exchange.receives [])
    else none

pub data Call : Type 0 where
  polling : ℕ → Call
  fetching_config : Call
  putting_config : Text → Call
  restarting : Call
  reading_gpio : Text → ℕ → Bool → Call
  writing_gpio : Text → ℕ → Bool → Bool → Call

pub data Result : Type 0 where
  document : Text → Result
  done : Result
  level : Bool → Result

abbrev pub as_document : GatewayStatusClient × Option Text → GatewayStatusClient × Option Result
as_document (s, none) = (s, none)
as_document (s, some body) = (s, some (document body))

abbrev pub as_done : GatewayStatusClient × Bool → GatewayStatusClient × Option Result
as_done (s, well) = (s, if well then some done else none)

abbrev pub as_level : GatewayStatusClient × Option Bool → GatewayStatusClient × Option Result
as_level (s, none) = (s, none)
as_level (s, some active) = (s, some (level active))

unfoldable pub run :
    PiStatusConfig → Exchange → Call → GatewayStatusClient → GatewayStatusClient × Option Result
run config exchange (polling now) s = as_document (poll config exchange now s)
run config exchange fetching_config s = as_document (fetch_config config exchange s)
run config exchange (putting_config body) s = as_done (put_config config exchange body s)
run config exchange restarting s = as_done (restart_service config exchange s)
run config exchange (reading_gpio chip line high) s =
    as_level (read_gpio config exchange chip line high s)
run config exchange (writing_gpio chip line high active) s =
    as_done (write_gpio config exchange chip line high active s)

-- The request of a call.
abbrev pub asked : PiStatusConfig → Exchange → Call → Option HttpResponse
asked config exchange (polling now) = answer config exchange (text "GET") (text "/api/status") [] []
asked config exchange fetching_config =
    answer config exchange (text "GET") (text "/api/config") [] []
asked config exchange (putting_config body) =
    answer config exchange (text "PUT") (text "/api/config") body (text "application/json")
asked config exchange restarting =
    answer config exchange (text "POST") (text "/api/service/restart") [] []
asked config exchange (reading_gpio chip line high) =
    answer config exchange (text "GET") (gpio_read_path chip line high) [] []
asked config exchange (writing_gpio chip line high active) =
    answer config exchange (text "POST") (text "/api/gpio/write")
      (gpio_write_body chip line high active) (text "application/json")

abbrev pub document_in : HttpResponse → Option Result
document_in r = if r.status == 200 && is_object r.body then some (document r.body) else none

abbrev pub done_in : HttpResponse → Option Result
done_in r = if r.status == 200 || r.status == 202 then some done else none

abbrev pub level_of : Option Bool → Option Result
level_of none = none
level_of (some active) = some (level active)

abbrev pub level_in : HttpResponse → Option Result
level_in r = if r.status == 200 then level_of (json_bool_member r.body (text "active")) else none

-- What a call is to result in, by the answer.
abbrev pub expected : Call → Option HttpResponse → Option Result
expected call none = none
expected (polling now) (some r) = document_in r
expected fetching_config (some r) = document_in r
expected (putting_config body) (some r) = done_in r
expected restarting (some r) = done_in r
expected (reading_gpio chip line high) (some r) = level_in r
expected (writing_gpio chip line high active) (some r) = done_in r

abbrev pub next_poll_of : PiStatusConfig → Call → ℕ → ℕ
next_poll_of config (polling now) before = now + config.poll_interval
next_poll_of config call before = before

-- ===== src/Client/Calls.antt =====
-- The methods of GatewayStatusClient in src/gateway_status_client.cpp: the client behind a call, and its
-- result.
use wh_repeater.Common.{
  true, false, not, ◌&&◌, Option, none, some, ℕ, ◌+◌, Bool, [], ◌∷◌, ◌++◌, leb, ◌==◌, if◌then◌else◌,
  text, decimal,
}
use wh_repeater.Domain.{Text}
use wh_repeater.Web.Query.Encoded.{url_encode}
use wh_repeater.Client.Response.{HttpResponse, was_http, not_json, missing_active, json_bool_member}
use wh_repeater.Client.{PiStatusConfig, GatewayStatusClient, Exchange, request}

abbrev pub new_client : GatewayStatusClient
new_client = record { next_poll = 0; last_error = none }

abbrev pub due : PiStatusConfig → ℕ → GatewayStatusClient → Bool
due config now s = config.enabled && leb s.next_poll now

abbrev pub is_object : Text → Bool
is_object [] = false
is_object (c ∷ t) = c == 123

-- What a method makes of the client behind its request, and of the answer.
abbrev pub status_of : GatewayStatusClient × Option HttpResponse → GatewayStatusClient × Option Text
status_of (s, none) = (s, none)
status_of (s, some r) =
    if not (r.status == 200)
    then (record s { last_error = some (was_http (text "status") r.status) }, none)
    else if not (is_object r.body)
    then (record s { last_error = some (not_json (text "status")) }, none)
    else (s, some r.body)

abbrev pub polled : GatewayStatusClient × Option Text → GatewayStatusClient × Option Text
polled (s, none) = (s, none)
polled (s, some body) = (record s { last_error = none }, some body)

abbrev pub config_of : GatewayStatusClient × Option HttpResponse → GatewayStatusClient × Option Text
config_of (s, none) = (s, none)
config_of (s, some r) =
    if not (r.status == 200)
    then (record s { last_error = some (was_http (text "config") r.status) }, none)
    else if not (is_object r.body)
    then (record s { last_error = some (not_json (text "config")) }, none)
    else (record s { last_error = none }, some r.body)

abbrev pub put_of : GatewayStatusClient × Option HttpResponse → GatewayStatusClient × Bool
put_of (s, none) = (s, false)
put_of (s, some r) =
    if not (r.status == 200) && not (r.status == 202)
    then (record s { last_error = some (was_http (text "config update") r.status) }, false)
    else (record s { last_error = none }, true)

abbrev pub restart_of : GatewayStatusClient × Option HttpResponse → GatewayStatusClient × Bool
restart_of (s, none) = (s, false)
restart_of (s, some r) =
    if not (r.status == 200) && not (r.status == 202)
    then (record s { last_error = some (was_http (text "service restart") r.status) }, false)
    else (record s { last_error = none }, true)

abbrev pub active_of : Option Bool → GatewayStatusClient → GatewayStatusClient × Option Bool
active_of none s = (record s { last_error = some missing_active }, none)
active_of (some active) s = (record s { last_error = none }, some active)

abbrev pub read_of : GatewayStatusClient × Option HttpResponse → GatewayStatusClient × Option Bool
read_of (s, none) = (s, none)
read_of (s, some r) =
    if not (r.status == 200)
    then (record s { last_error = some (was_http (text "GPIO read") r.status) }, none)
    else active_of (json_bool_member r.body (text "active")) s

abbrev pub written_of : GatewayStatusClient × Option HttpResponse → GatewayStatusClient × Bool
written_of (s, none) = (s, false)
written_of (s, some r) =
    if not (r.status == 200) && not (r.status == 202)
    then (record s { last_error = some (was_http (text "GPIO write") r.status) }, false)
    else (record s { last_error = none }, true)

abbrev pub flag : Bool → Text
flag b = if b then text "true" else text "false"

abbrev pub gpio_read_path : Text → ℕ → Bool → Text
gpio_read_path chip line active_high =
    text "/api/gpio/read?chip="
    ++ url_encode chip
    ++ text "&line="
    ++ decimal line line
    ++ text "&activeHigh="
    ++ flag active_high

abbrev pub gpio_write_body : Text → ℕ → Bool → Bool → Text
gpio_write_body chip line active_high active =
    text "{\"chip\":\""
    ++ chip
    ++ text "\",\"line\":"
    ++ decimal line line
    ++ text ",\"activeHigh\":"
    ++ flag active_high
    ++ text ",\"active\":"
    ++ flag active
    ++ text "}"

module _ (config : PiStatusConfig) (exchange : Exchange) where
  unfoldable pub fetch_status : GatewayStatusClient → GatewayStatusClient × Option Text
  fetch_status s = status_of (request config exchange (text "GET") (text "/api/status") [] [] s)

  unfoldable pub poll : ℕ → GatewayStatusClient → GatewayStatusClient × Option Text
  poll now s = polled (fetch_status (record s { next_poll = now + config.poll_interval }))

  unfoldable pub fetch_config : GatewayStatusClient → GatewayStatusClient × Option Text
  fetch_config s = config_of (request config exchange (text "GET") (text "/api/config") [] [] s)

  unfoldable pub put_config : Text → GatewayStatusClient → GatewayStatusClient × Bool
  put_config document s = put_of (
      request config exchange (text "PUT") (text "/api/config") document (text "application/json")
        s)

  unfoldable pub restart_service : GatewayStatusClient → GatewayStatusClient × Bool
  restart_service s =
      restart_of (request config exchange (text "POST") (text "/api/service/restart") [] [] s)

  unfoldable pub read_gpio :
      Text → ℕ → Bool → GatewayStatusClient → GatewayStatusClient × Option Bool
  read_gpio chip line active_high s =
      read_of (request config exchange (text "GET") (gpio_read_path chip line active_high) [] [] s)

  unfoldable pub write_gpio :
      Text → ℕ → Bool → Bool → GatewayStatusClient → GatewayStatusClient × Bool
  write_gpio chip line active_high active s = written_of (
      request config exchange (text "POST") (text "/api/gpio/write")
        (gpio_write_body chip line active_high active) (text "application/json") s)

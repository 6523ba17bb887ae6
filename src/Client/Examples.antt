-- ===== src/Client/Examples.antt =====
-- Calls of the client, and an answer.
use wh_repeater.Common.{◌+◌, ◌*◌, true, some, [], ◌∷◌, inr, ◌≡◌, refl, arith, text, decimal}
use wh_repeater.Client.{
  PiStatusConfig, Exchange, request, send_request, receive_response, wrote, piece, closed,
}
use wh_repeater.Client.Response.{parse_response, find_text, json_bool_member}
use wh_repeater.Client.Calls.{new_client, read_gpio, flag, gpio_read_path}
use wh_repeater.Client.Expected.{reading_gpio, level, run}
use wh_repeater.Client.Gpio.{gpio_read_path-query}
use wh_repeater.Client.Answers.{response_text, status_text, parse_response-response_text}
use wh_repeater.Web.Query.{query_parameter}
use wh_repeater.Web.Query.Encoded.{url_encode}

abbrev config : PiStatusConfig
config = record { enabled = true; address = text "10.0.0.2"; port = 8080; poll_interval = 500 }

-- The answer comes in one piece.
abbrev exchange : Exchange
exchange = record {
  found = true;
  connects = true;
  sends = wrote 4096 ∷ [];
  receives =
      piece (
        response_text (status_text 2 0 0 (text "OK")) (text "application/json")
          (text "{\"active\": true}"))
      ∷ closed
      ∷ [];
}

line_is_active :
    (run config exchange (reading_gpio (text "/dev/gpiochip0") 17 true) new_client).1
    ≡ some (level true)
unfolding run read_gpio request send_request url_encode decimal receive_response parse_response
    find_text json_bool_member
line_is_active = refl

gpio_read_path-query_example :
    (let path = gpio_read_path (text "a&b") 17 true in
      (query_parameter path (text "chip") ≡ some (text "a&b"))
      × (query_parameter path (text "line") ≡ some (decimal 17 17))
      × (query_parameter path (text "activeHigh") ≡ some (flag true)))
gpio_read_path-query_example =
    gpio_read_path-query (text "a&b") 17 true (omega arith, (omega arith, (omega arith, tt)))

parse_response-response_text_example :
    parse_response
      (response_text (status_text 4 0 4 (text "Not Found")) (text "application/json") (text "{}"))
    ≡ inr (record { status = 4 * 100 + 0 * 10 + 4; body = text "{}" })
parse_response-response_text_example =
    parse_response-response_text 4 0 4 (text "Not Found") (text "application/json") (text "{}")
      (omega arith) (omega arith) (omega arith) (omega arith)
      (refl, (refl, (refl, (refl, (refl, (refl, (refl, (refl, (refl, tt)))))))))
      (
        refl,
        (
          refl,
          (
            refl,
            (
              refl,
              (
                refl,
                (
                  refl,
                  (
                    refl,
                    (refl, (refl, (refl, (refl, (refl, (refl, (refl, (refl, (refl, tt))))))))),
                  ),
                ),
              ),
            ),
          ),
        ),
      )

-- ===== src/Client/Gpio.antt =====
-- The GPIO request that GatewayStatusClient sends, as src/api_server.cpp reads it on the other machine.
use wh_repeater.Common.{
  ℕ, Bool, true, false, some, [], ◌∷◌, ◌++◌, ◌≡◌, refl, ap, sym, ◌∙◌, arith, text, decimal,
  append_assoc,
}
use wh_repeater.Domain.{Text}
use wh_repeater.Web.Timecode.Digits.{IsDigits, decimal-IsDigits}
use wh_repeater.Web.Query.{query_parameter}
use wh_repeater.Web.Query.Encoded.{
  is_unreserved, url_encode, IsBytes, Parameter, query, lookup, query_parameter-query,
}
use wh_repeater.Client.Calls.{flag, gpio_read_path}

url_encode-digits : (t : Text) → IsDigits t → url_encode t ≡ t
unfolding url_encode
url_encode-digits [] h = refl
url_encode-digits (c ∷ t) h =
    let e : is_unreserved c ≡ true = ground arith in rw e (ap (◌∷◌ c) (url_encode-digits t h.1))

digits-IsBytes : (t : Text) → IsDigits t → IsBytes t
digits-IsBytes [] h = tt
digits-IsBytes (c ∷ t) h = (ground arith, digits-IsBytes t h.1)

flag-IsBytes : (b : Bool) → IsBytes (flag b)
flag-IsBytes true = (omega arith, (omega arith, (omega arith, (omega arith, tt))))
flag-IsBytes false = (omega arith, (omega arith, (omega arith, (omega arith, (omega arith, tt)))))

url_encode-flag : (b : Bool) → url_encode (flag b) ≡ flag b
unfolding url_encode
url_encode-flag true = refl
url_encode-flag false = refl

module _ (chip : Text) (line : ℕ) (active_high : Bool) (bytes : IsBytes chip) where
  abbrev chip_item : Parameter
  chip_item = record {
    key = text "chip";
    value = chip;
    key_plain = ((refl, (refl, (refl, (refl, tt)))), (refl, (refl, (refl, (refl, tt)))));
    value_bytes = bytes;
  }

  abbrev line_item : Parameter
  line_item = record {
    key = text "line";
    value = decimal line line;
    key_plain = ((refl, (refl, (refl, (refl, tt)))), (refl, (refl, (refl, (refl, tt)))));
    value_bytes = digits-IsBytes (decimal line line) (decimal-IsDigits line line);
  }

  abbrev high_item : Parameter
  high_item = record {
    key = text "activeHigh";
    value = flag active_high;
    key_plain = (
      (refl, (refl, (refl, (refl, (refl, (refl, (refl, (refl, (refl, (refl, tt)))))))))),
      (refl, (refl, (refl, (refl, (refl, (refl, (refl, (refl, (refl, (refl, tt)))))))))),
    );
    value_bytes = flag-IsBytes active_high;
  }

  path_lem :
      gpio_read_path chip line active_high
      ≡ text "/api/gpio/read" ++ 63 ∷ query chip_item (line_item ∷ high_item ∷ [])
  path_lem =
      ap (λ t. text "/api/gpio/read?chip=" ++ t)
        (append_assoc ((url_encode chip ++ text "&line=") ++ decimal line line)
            (text "&activeHigh=") (flag active_high)
          ∙ append_assoc (url_encode chip ++ text "&line=") (decimal line line)
              (text "&activeHigh=" ++ flag active_high)
          ∙ append_assoc (url_encode chip) (text "&line=")
              (decimal line line ++ (text "&activeHigh=" ++ flag active_high))
          ∙ ap
              (λ d.
                url_encode chip
                ++ (text "&line=" ++ (d ++ (text "&activeHigh=" ++ flag active_high))))
              (sym (url_encode-digits (decimal line line) (decimal-IsDigits line line)))
          ∙ ap
              (λ f.
                url_encode chip
                ++ (text "&line="
                    ++ (url_encode (decimal line line) ++ (text "&activeHigh=" ++ f))))
              (sym (url_encode-flag active_high)))

  -- The path of a GPIO read, for a chip's name of any bytes, is read by the server as it was meant: the
  -- chip's name, the line's number in digits, and whether the line is active high.
  pub gpio_read_path-query :
      (let path = gpio_read_path chip line active_high in
        (query_parameter path (text "chip") ≡ some chip)
        × (query_parameter path (text "line") ≡ some (decimal line line))
        × (query_parameter path (text "activeHigh") ≡ some (flag active_high)))
  gpio_read_path-query = (found (text "chip"), found (text "line"), found (text "activeHigh"))
    where
      found :
          (name : Text)
          → query_parameter (gpio_read_path chip line active_high) name
            ≡ lookup name (chip_item ∷ line_item ∷ high_item ∷ [])
      found name =
          ap (λ p. query_parameter p name) path_lem
          ∙ query_parameter-query (text "/api/gpio/read") name chip_item
              (line_item ∷ high_item ∷ [])
              (
                refl,
                (
                  refl,
                  (
                    refl,
                    (
                      refl,
                      (
                        refl,
                        (refl, (refl, (refl, (refl, (refl, (refl, (refl, (refl, (refl, tt))))))))),
                      ),
                    ),
                  ),
                ),
              )

-- ===== src/Web/Examples.antt =====
-- Concrete texts for src/api_server.cpp.
use wh_repeater.Common.{decimal, some, ◌≡◌, refl, arith}
use wh_repeater.Common.Int.{pos}
use wh_repeater.Samples.{text}
use wh_repeater.Web.Query.Encoded.{Parameter}
use wh_repeater.Web.Timecode.{parse_timecode, format_timecode, format_total}
use wh_repeater.Web.Timecode.RoundTrip.{parse_timecode-format_timecode}

parse_timecode-format_timecode_example :
    parse_timecode (format_timecode (pos 3723004)) ≡ some 3723004
parse_timecode-format_timecode_example = parse_timecode-format_timecode (pos 3723004)

-- One hour, two minutes and 3.004 seconds.
format_hour : format_timecode (pos 3723004) ≡ text "01:02:03.004"
unfolding format_timecode format_total decimal
format_hour = refl

-- A space and a "&" in a value.
abbrev directory : Parameter
directory = record {
  key = text "directory";
  value = text "a b&c";
  key_plain = (
    (refl, (refl, (refl, (refl, (refl, (refl, (refl, (refl, (refl, tt))))))))),
    (refl, (refl, (refl, (refl, (refl, (refl, (refl, (refl, (refl, tt))))))))),
  );
  value_bytes = (omega arith, (omega arith, (omega arith, (omega arith, (omega arith, tt)))));
}

abbrev chip : Parameter
chip = record {
  key = text "chip";
  value = text "2";
  key_plain = ((refl, (refl, (refl, (refl, tt)))), (refl, (refl, (refl, (refl, tt)))));
  value_bytes = (omega arith, tt);
}

-- ===== src/Gateway/Sink/Examples.antt =====
-- The gateway's stream at concrete packets.
use wh_repeater.Common.{concat, true, some, List, [], ◌∷◌, length, replicate, ◌≡◌, refl}
use wh_repeater.Gateway.Sink.{Bytes, Network, new_sink, flush}
use wh_repeater.Gateway.Sink.Stream.{write_all}
use wh_repeater.Gateway.Sink.Wire.{Cut, flush-write_all-Cut}

abbrev sockets : Network
sockets = record { can_open = true; valid_address = true; send = λ k d. some (length d) }

-- Eight packets, one more than a datagram holds, in two writes.
abbrev packets : List Bytes
packets = replicate 188 0x47 ∷ replicate 1316 7 ∷ []

flush-write_all-Cut_example :
    let s = flush sockets (write_all sockets new_sink packets) in
    (concat s.sent ≡ concat packets) × Cut s.sent × (s.datagram ≡ [])
flush-write_all-Cut_example =
    flush-write_all-Cut sockets packets refl refl (λ k d. refl) (refl, (refl, tt))

-- ===== src/Inspect/Examples.antt =====
-- Concrete streams for tools/ts_gateway_inspect.cpp.
use wh_repeater.Common.{some, List, [], ◌∷◌, ◌++◌, replicate, ◌≡◌, refl}
use wh_repeater.Inspect.Tables.{
  Bytes, no_program, parse_section, parse_pat, section_end, read12, pat_loop, read16, read13,
  update_key,
}
use wh_repeater.Inspect.Packets.{no_stats, receive_all}
use wh_repeater.Inspect.Receives.{Gives, Counts, receive_all-Counts, total_bytes, whole_packets}

-- A program association section with one service, and a packet that holds it.
abbrev pat_section : Bytes
pat_section =
    0x00 ∷ 0xb0 ∷ 0x0d ∷ 0x00 ∷ 0x01 ∷ 0xc1 ∷ 0x00 ∷ 0x00 ∷ 0x00 ∷ 0x07 ∷ 0xe1 ∷ 0x00 ∷ 0 ∷ 0 ∷ 0
    ∷ 0 ∷ []

pat_section_parse :
    parse_section 0 pat_section []
    ≡ some ((7, record no_program { service_id = 7; pmt_pid = 0x100 }) ∷ [])
unfolding parse_section parse_pat section_end read12 pat_loop read16 read13 update_key
pat_section_parse = refl

abbrev pat_packet : Bytes
pat_packet = 0x47 ∷ 0x40 ∷ 0x00 ∷ 0x10 ∷ 0x00 ∷ pat_section ++ replicate 167 0xff

-- A packet and some bytes that are none.
abbrev two_datagrams : List Bytes
two_datagrams = pat_packet ∷ (pat_packet ++ replicate 100 0x00) ∷ []

receive_all-Counts_example : Gives (Counts 2 476 2) (receive_all two_datagrams no_stats)
unfolding total_bytes whole_packets
receive_all-Counts_example = receive_all-Counts two_datagrams

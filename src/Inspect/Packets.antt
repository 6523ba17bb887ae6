-- ===== src/Inspect/Packets.antt =====
-- The packets and datagrams of the stream in tools/ts_gateway_inspect.cpp.
use wh_repeater.Common.{
  ℕ, zero, suc, ◌+◌, ◌/◌, ◌%◌, ◌^◌, ◌*◌, Bool, true, false, ◌&&◌, ◌||◌, not, Option, none, some,
  List, [], ◌∷◌, ◌++◌, length, drop, ltb, leb, ◌==◌, if◌then◌else◌,
}
use wh_repeater.Inspect.Tables.{
  Bytes, ◌>>=◌, Programs, update_key, byte_at, span_at, read13, read12, parse_section,
}

abbrev pub ts_packet_size : ℕ
ts_packet_size = 188

abbrev pub preferred_datagram_size : ℕ
preferred_datagram_size = ts_packet_size * 7

pub record PidStats : Type 0 where
  pub packets : ℕ
  pub continuity_errors : ℕ
  pub last_continuity : Option ℕ

abbrev pub no_pid : PidStats
no_pid = record { packets = 0; continuity_errors = 0; last_continuity = none }

pub record SectionBuffer : Type 0 where
  pub bytes : Bytes
  pub expected_size : Option ℕ

abbrev pub no_section : SectionBuffer
no_section = record { bytes = []; expected_size = none }

pub record Stats : Type 0 where
  pub datagrams : ℕ
  pub preferred_datagrams : ℕ
  pub short_datagrams : ℕ
  pub unaligned_datagrams : ℕ
  pub bytes : ℕ
  pub packets : ℕ
  pub sync_errors : ℕ
  pub pids : List (ℕ × PidStats)
  pub programs : Programs
  pub sections : List (ℕ × SectionBuffer)

abbrev pub no_stats : Stats
no_stats = record {
  datagrams = 0;
  preferred_datagrams = 0;
  short_datagrams = 0;
  unaligned_datagrams = 0;
  bytes = 0;
  packets = 0;
  sync_errors = 0;
  pids = [];
  programs = [];
  sections = [];
}

abbrev pub u64 : ℕ → ℕ
u64 n = n % 2 ^ 64

-- A key's value, or a fresh one where the map has none.
unfoldable pub value_at {ℓ} : {A : Type ℓ} → A → ℕ → List (ℕ × A) → A
value_at fresh id [] = fresh
value_at fresh id ((k, a) ∷ rest) = if k == id then a else value_at fresh id rest

abbrev pub put_section : ℕ → SectionBuffer → Stats → Stats
put_section pid buffer s = record s {
  sections = update_key no_section pid (λ _. buffer) s.sections;
}

-- The bytes of a payload behind the pointer of its first byte; `none` is the early return.
abbrev pub behind_pointer : Bytes → Option Bytes
behind_pointer [] = none
behind_pointer (pointer ∷ payload) =
    if ltb (length (pointer ∷ payload)) (pointer + 1)
    then none
    else some (drop (pointer + 1) (pointer ∷ payload))

-- The size that a section's own header gives, once the header is there.
unfoldable pub expect : SectionBuffer → Option SectionBuffer
expect buffer =
    if leb 3 (length buffer.bytes)
    then (do size ← read12 buffer.bytes 1; some (record buffer { expected_size = some (3 + size) }))
    else some buffer

abbrev pub with_size : SectionBuffer → Option ℕ → Option SectionBuffer
with_size buffer none = expect buffer
with_size buffer (some size) = some buffer

-- The section is read once all of it is there.
abbrev pub complete : ℕ → Stats → SectionBuffer → Option ℕ → Option Stats
complete pid s buffer none = some (put_section pid buffer s)
complete pid s buffer (some size) =
    if leb size (length buffer.bytes)
    then (do
      section ← span_at buffer.bytes 0 size
      programs ← parse_section pid section s.programs
      some (put_section pid no_section (record s { programs = programs })))
    else some (put_section pid buffer s)

-- The payload's bytes join the buffer, unless they begin with stuffing.
abbrev pub add_payload : ℕ → Bytes → SectionBuffer → Stats → Option Stats
add_payload pid [] buffer s = some (put_section pid buffer s)
add_payload pid (b ∷ bs) buffer s = if b == 0xff then some (put_section pid buffer s) else (do
  grown ← with_size (record buffer { bytes = buffer.bytes ++ b ∷ bs }) buffer.expected_size
  complete pid s grown grown.expected_size)

abbrev pub start_payload : ℕ → Option Bytes → SectionBuffer → Stats → Option Stats
start_payload pid none buffer s = some (put_section pid buffer s)
start_payload pid (some payload) buffer s = add_payload pid payload no_section s

abbrev pub section_of : ℕ → Stats → SectionBuffer
section_of pid s = value_at no_section pid s.sections

unfoldable pub append_payload_section : ℕ → Bool → Bytes → Stats → Option Stats
append_payload_section pid payload_start payload s =
    if length payload == 0
    then some s
    else if payload_start
    then start_payload pid (behind_pointer payload) (section_of pid s) s
    else add_payload pid payload (section_of pid s) s

abbrev pub is_gap : Option ℕ → ℕ → Bool
is_gap none continuity = false
is_gap (some last) continuity = not (continuity == (last + 1) % 16)

-- What a packet changes in its stream's record.
unfoldable pub count_packet : Bool → ℕ → PidStats → PidStats
count_packet false continuity p = record p { packets = u64 (p.packets + 1) }
count_packet true continuity p = record {
  packets = u64 (p.packets + 1);
  continuity_errors =
      if is_gap p.last_continuity continuity
      then u64 (p.continuity_errors + 1)
      else p.continuity_errors;
  last_continuity = some continuity;
}

abbrev pub payload_at : ℕ → Bytes → Option ℕ
payload_at control packet =
    if control == 2 || control == 3
    then (do size ← byte_at packet 4; some (4 + (1 + size)))
    else some 4

abbrev pub in_sync : Bytes → Bool
in_sync [] = false
in_sync (b ∷ bs) = length (b ∷ bs) == ts_packet_size && b == 0x47

-- A packet with its sync byte.
unfoldable pub inspect_synced : Bytes → Stats → Option Stats
inspect_synced packet s = do
  flags ← byte_at packet 1
  pid ← read13 packet 1
  fourth ← byte_at packet 3
  let control : ℕ = fourth / 16 % 4 in
      let has_payload : Bool = control == 1 || control == 3 in
      let s' : Stats = record s {
        pids =
            update_key no_pid pid (count_packet (has_payload && not (pid == 0x1fff)) (fourth % 16))
              s.pids;
      } in
      (do
        offset ← payload_at control packet
        if has_payload && ltb offset (length packet)
            then append_payload_section pid (flags / 64 % 2 == 1) (drop offset packet) s'
            else some s')

unfoldable pub inspect_packet : Bytes → Stats → Option Stats
inspect_packet packet s =
    if in_sync packet
    then inspect_synced packet s
    else some (record s { sync_errors = u64 (s.sync_errors + 1) })

unfoldable pub count_datagram : ℕ → Stats → Stats
count_datagram size s =
    let s' : Stats = record s { datagrams = u64 (s.datagrams + 1); bytes = u64 (s.bytes + size) } in
    if size == preferred_datagram_size
    then record s' { preferred_datagrams = u64 (s.preferred_datagrams + 1) }
    else if size % ts_packet_size == 0
    then record s' { short_datagrams = u64 (s.short_datagrams + 1) }
    else record s' { unaligned_datagrams = u64 (s.unaligned_datagrams + 1) }

-- The rounds over a datagram's packets, from an offset on.
unfoldable pub packet_rounds : ℕ → ℕ → Bytes → Stats → Option Stats
packet_rounds zero offset datagram s = none
packet_rounds (suc fuel) offset datagram s =
    let round : Option Stats = (do
      packet ← span_at datagram offset ts_packet_size
      s' ← inspect_packet packet (record s { packets = u64 (s.packets + 1) })
      packet_rounds fuel (offset + ts_packet_size) datagram s') in
    if leb (offset + ts_packet_size) (length datagram) then round else some s

-- What is done with a datagram that has been received.
unfoldable pub receive : Bytes → Stats → Option Stats
receive datagram s =
    packet_rounds (length datagram + 1) 0 datagram (count_datagram (length datagram) s)

unfoldable pub receive_all : List Bytes → Stats → Option Stats
receive_all [] s = some s
receive_all (datagram ∷ rest) s = do s' ← receive datagram s; receive_all rest s'

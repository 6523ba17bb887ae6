-- ===== src/Media/Payload.antt =====
-- The payloads of src/media_process.cpp: their writers, and `PayloadReader` with its readers. A writer
-- gives the bytes that the source appends. A reader takes the payload from its offset on and leaves
-- what follows; `none` is the exception for a short message. The machine is little endian.
pub mod RoundTrip
pub mod Inputs
use wh_repeater.Common.{
  ℕ, zero, suc, ◌+◌, ◌-◌, ◌*◌, ◌/◌, ◌%◌, ◌^◌, Bool, true, false, not, Option, none, some, is_some,
  List, [], ◌∷◌, ◌++◌, length, take, drop, ltb, ◌==◌, if◌then◌else◌,
}
use wh_repeater.Domain.{
  Text, Antenna, top, bottom, DvbSystem, dvbs, dvbs2, unknown, ReceiverState, idle, searching,
  found_header, locked_dvbs, locked_dvbs2, lost, timeout, fault, ScanTarget, ReceiverStatus,
  ActiveInput,
}

abbrev pub Bytes : Type 0
Bytes = List ℕ

abbrev pub Reader : Type 0 → Type 0
Reader A = Bytes → Option (A × Bytes)

infixl 5 ◌>>=◌
abbrev pub ◌>>=◌ : {A B : Type 0} → Reader A → (A → Reader B) → Reader B
◌>>=◌ r f bytes = elim (r bytes) [ none ↦ none | some (a, rest) ↦ f a rest ]

abbrev pub pure : {A : Type 0} → A → Reader A
pure a bytes = some (a, bytes)

-- `double`, as far as it is copied: its 64 bits and back.
pub record Double : Type 1 where
  pub Carrier : Type 0
  pub to_bits : Carrier → ℕ
  pub of_bits : ℕ → Carrier

-- The `size` bytes of an unsigned number, and the number of such bytes.
abbrev pub append_pod : ℕ → ℕ → Bytes
append_pod zero value = []
append_pod (suc size) value = (value % 256) ∷ append_pod size (value / 256)

abbrev pub number : Bytes → ℕ
number [] = 0
number (b ∷ bs) = b + 256 * number bs

abbrev pub append_bool : Bool → Bytes
append_bool value = append_pod 1 (if value then 1 else 0)

abbrev pub append_string : Text → Bytes
append_string value = append_pod 4 (length value % 2 ^ 32) ++ value

abbrev pub antenna_number : Antenna → ℕ
antenna_number top = 0
antenna_number bottom = 1

abbrev pub system_number : DvbSystem → ℕ
system_number dvbs = 0
system_number dvbs2 = 1
system_number unknown = 2

abbrev pub state_number : ReceiverState → ℕ
state_number idle = 0
state_number searching = 1
state_number found_header = 2
state_number locked_dvbs = 3
state_number locked_dvbs2 = 4
state_number lost = 5
state_number timeout = 6
state_number fault = 7

unfoldable pub append_scan_target : ScanTarget → Bytes
append_scan_target target =
    append_pod 4 target.frequency_khz
    ++ (append_pod 4 target.symbol_rate_ks
        ++ (append_pod 4 target.local_oscillator_khz
            ++ (append_pod 4 (antenna_number target.antenna)
                ++ (append_pod 4 (system_number target.system)
                    ++ (append_string target.fec ++ append_string target.label)))))

-- The offset moves on by the size, behind a test that the payload reaches so far.
unfoldable pub read_bytes : ℕ → Reader Bytes
read_bytes size bytes =
    if ltb (length bytes) size then none else some (take size bytes, drop size bytes)

unfoldable pub read_pod : ℕ → Reader ℕ
read_pod size = do bytes ← read_bytes size; pure (number bytes)

unfoldable pub read_bool : Reader Bool
read_bool = do value ← read_pod 1; pure (not (value == 0))

unfoldable pub read_string : Reader Text
read_string = do size ← read_pod 4; read_bytes size

abbrev pub read_if : {A : Type 0} → Bool → Reader A → Reader (Option A)
read_if false r = pure none
read_if true r = do value ← r; pure (some value)

unfoldable pub read_optional : {A : Type 0} → Reader A → Reader (Option A)
read_optional r = do present ← read_bool; read_if present r

-- A cast to an enumeration. The source's cast of a number without enumerator gives a value that no
-- code names; it reads as a failure here.
abbrev pub antenna_of : ℕ → Option Antenna
antenna_of n = if n == 0 then some top else if n == 1 then some bottom else none

abbrev pub system_of : ℕ → Option DvbSystem
system_of n =
    if n == 0
    then some dvbs
    else if n == 1
    then some dvbs2
    else if n == 2
    then some unknown
    else none

abbrev pub state_of : ℕ → Option ReceiverState
state_of n =
    if n == 0
    then some idle
    else if n == 1
    then some searching
    else if n == 2
    then some found_header
    else if n == 3
    then some locked_dvbs
    else if n == 4
    then some locked_dvbs2
    else if n == 5
    then some lost
    else if n == 6
    then some timeout
    else if n == 7
    then some fault
    else none

unfoldable pub read_enum : {A : Type 0} → (ℕ → Option A) → Reader A
read_enum of bytes = elim (read_pod 4 bytes) [
  | none ↦ none
  | some (n, rest) ↦ elim (of n) [ none ↦ none | some a ↦ some (a, rest) ]
]

unfoldable pub read_scan_target : Reader ScanTarget
read_scan_target = do
  frequency_khz ← read_pod 4
  symbol_rate_ks ← read_pod 4
  local_oscillator_khz ← read_pod 4
  antenna ← read_enum antenna_of
  system ← read_enum system_of
  fec ← read_string
  label ← read_string
  pure (record {
    frequency_khz = frequency_khz;
    symbol_rate_ks = symbol_rate_ks;
    local_oscillator_khz = local_oscillator_khz;
    antenna = antenna;
    system = system;
    fec = fec;
    label = label;
  })

abbrev pub append_optional : {A : Type 0} → (A → Bytes) → Option A → Bytes
append_optional append none = append_bool false
append_optional append (some a) = append_bool true ++ append a

module _ (double : Double) where
  open double use {Carrier, to_bits, of_bits}

  unfoldable pub append_receiver_status : ReceiverStatus Carrier → Bytes
  append_receiver_status status =
      append_pod 4 status.receiver
      ++ (append_pod 4 (state_number status.state)
          ++ (append_optional append_scan_target status.target
              ++ (append_optional (λ d. append_pod 8 (to_bits d)) status.mer_db
                  ++ (append_optional (λ d. append_pod 8 (to_bits d)) status.d_number_db
                      ++ (append_optional append_string status.service_name
                          ++ (append_optional append_string status.modulation
                              ++ (append_pod 8 status.transport_packets
                                  ++ append_pod 8 status.continuity_errors)))))))

  abbrev pub stable_status : ReceiverStatus Carrier → ReceiverStatus Carrier
  stable_status status = record status {
    mer_db = none;
    d_number_db = none;
    transport_packets = 0;
    continuity_errors = 0;
  }

  unfoldable pub active_payload : Option (ActiveInput Carrier) → Bytes
  active_payload none = append_bool false
  active_payload (some input) =
      append_bool true
      ++ (append_pod 4 input.receiver
          ++ (append_scan_target input.target
              ++ append_receiver_status (stable_status input.status)))

  unfoldable pub read_double : Reader Carrier
  read_double = do bits ← read_pod 8; pure (of_bits bits)

  -- `now` is the time of the call.
  unfoldable pub read_receiver_status : ℕ → Reader (ReceiverStatus Carrier)
  read_receiver_status now = do
    receiver ← read_pod 4
    state ← read_enum state_of
    target ← read_optional read_scan_target
    mer_db ← read_optional read_double
    d_number_db ← read_optional read_double
    service_name ← read_optional read_string
    modulation ← read_optional read_string
    transport_packets ← read_pod 8
    continuity_errors ← read_pod 8
    pure (record {
      receiver = receiver;
      state = state;
      target = target;
      mer_db = mer_db;
      d_number_db = d_number_db;
      service_name = service_name;
      modulation = modulation;
      transport_packets = transport_packets;
      continuity_errors = continuity_errors;
      updated_at = now;
    })

  unfoldable pub read_input : ℕ → Reader (ActiveInput Carrier)
  read_input now = do
    receiver ← read_pod 4
    target ← read_scan_target
    status ← read_receiver_status now
    pure (record { receiver = receiver; target = target; status = status })

  -- `readActive`: what follows in the payload is not looked at.
  unfoldable pub read_active : ℕ → Bytes → Option (Option (ActiveInput Carrier))
  read_active now payload = elim (read_optional (read_input now) payload) [
    | none ↦ none
    | some (input, rest) ↦ some input
  ]

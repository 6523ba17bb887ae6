-- ===== src/Media/Payload/Inputs.antt =====
-- Receiver states, targets and active inputs through a message.
use wh_repeater.Common.{
  ℕ, ◌^◌, ◌<◌, Option, none, some, [], ◌++◌, length, ◌≡◌, refl, ap, sym, subst, ◌∙◌, arith,
  append-nil,
}
use mathlib.Core.Option
use wh_repeater.Domain.{
  Text, Antenna, top, bottom, DvbSystem, dvbs, dvbs2, unknown, ReceiverState, idle, searching,
  found_header, locked_dvbs, locked_dvbs2, lost, timeout, fault, ScanTarget, ReceiverStatus,
  ActiveInput,
}
use wh_repeater.Media.Payload.{
  Double, append_pod, append_string, append_scan_target, read_string, read_optional, antenna_of,
  antenna_number, system_of, system_number, state_of, state_number, read_scan_target,
  append_receiver_status, stable_status, active_payload, read_double, read_receiver_status,
  read_input, read_active,
}
use wh_repeater.Media.Payload.RoundTrip.{
  Reads, read_optional-some, read_optional-none, Reads-then, Reads-last, limit, Present,
  read_pod-Reads, read_string-Reads, read_enum-Reads, read_optional-Reads,
}

-- Sizes that their fields in a message hold.
abbrev pub IsText : Text → Type 0
IsText t = length t < 2 ^ 32

pub record IsTarget (target : ScanTarget) : Type 0 where
  pub frequency : target.frequency_khz < 2 ^ 32
  pub symbol_rate : target.symbol_rate_ks < 2 ^ 32
  pub local_oscillator : target.local_oscillator_khz < 2 ^ 32
  pub fec : IsText target.fec
  pub label : IsText target.label

antenna_lem :
    (a : Antenna) → (antenna_number a < limit 4) × (antenna_of (antenna_number a) ≡ some a)
antenna_lem top = (omega arith, refl)
antenna_lem bottom = (omega arith, refl)

system_lem : (s : DvbSystem) → (system_number s < limit 4) × (system_of (system_number s) ≡ some s)
system_lem dvbs = (omega arith, refl)
system_lem dvbs2 = (omega arith, refl)
system_lem unknown = (omega arith, refl)

state_lem : (s : ReceiverState) → (state_number s < limit 4) × (state_of (state_number s) ≡ some s)
state_lem idle = (omega arith, refl)
state_lem searching = (omega arith, refl)
state_lem found_header = (omega arith, refl)
state_lem locked_dvbs = (omega arith, refl)
state_lem locked_dvbs2 = (omega arith, refl)
state_lem lost = (omega arith, refl)
state_lem timeout = (omega arith, refl)
state_lem fault = (omega arith, refl)

read_scan_target-Reads :
    (t : ScanTarget) → IsTarget t → Reads read_scan_target (append_scan_target t) t
unfolding read_scan_target append_scan_target
read_scan_target-Reads t v =
    let antenna = antenna_lem t.antenna in
    let system = system_lem t.system in
    Reads-then _ (read_pod-Reads 4 t.frequency_khz v.frequency) (
      Reads-then _ (read_pod-Reads 4 t.symbol_rate_ks v.symbol_rate) (
        Reads-then _ (read_pod-Reads 4 t.local_oscillator_khz v.local_oscillator) (
          Reads-then _
            (read_enum-Reads antenna_of (antenna_number t.antenna) t.antenna antenna.0 antenna.1)
            (Reads-then _
              (read_enum-Reads system_of (system_number t.system) t.system system.0 system.1)
              (Reads-then _ (read_string-Reads t.fec v.fec) (
                Reads-last (λ label. record t { label = label })
                  (read_string-Reads t.label v.label)))))))

module _ (double : Double) where
  open double use {Carrier, to_bits, of_bits}

  pub record IsStatus (status : ReceiverStatus Carrier) : Type 0 where
    pub receiver : status.receiver < 2 ^ 31
    pub target : Present IsTarget status.target
    pub service_name : Present IsText status.service_name
    pub modulation : Present IsText status.modulation
    pub transport_packets : status.transport_packets < 2 ^ 64
    pub continuity_errors : status.continuity_errors < 2 ^ 64

  -- What is known of `double`: its bits make it up again, and there are 64.
  abbrev pub IsDouble : Carrier → Type 0
  IsDouble d = (to_bits d < limit 8) × (of_bits (to_bits d) ≡ d)

  read_double-Reads :
      (d : Carrier) → IsDouble d → Reads (read_double double) (append_pod 8 (to_bits d)) d
  unfolding read_double
  read_double-Reads d h =
      subst (Reads (read_double double) (append_pod 8 (to_bits d))) h.1
        (Reads-last of_bits (read_pod-Reads 8 (to_bits d) h.0))

  pub read_receiver_status-Reads :
      (now : ℕ) (s : ReceiverStatus Carrier)
      → IsStatus s
      → Present IsDouble s.mer_db
      → Present IsDouble s.d_number_db
      → Reads
          (read_receiver_status double now)
          (append_receiver_status double s)
          (record s { updated_at = now })
  unfolding read_receiver_status append_receiver_status
  read_receiver_status-Reads now s v mer d_number =
      let state = state_lem s.state in
      Reads-then _ (read_pod-Reads 4 s.receiver (omega (arith, v.receiver))) (
        Reads-then _ (read_enum-Reads state_of (state_number s.state) s.state state.0 state.1) (
          Reads-then _
            (read_optional-Reads IsTarget read_scan_target append_scan_target read_scan_target-Reads
              s.target v.target)
            (Reads-then _
              (read_optional-Reads IsDouble (read_double double) (λ d. append_pod 8 (to_bits d))
                read_double-Reads s.mer_db mer)
              (Reads-then _
                (read_optional-Reads IsDouble (read_double double) (λ d. append_pod 8 (to_bits d))
                  read_double-Reads s.d_number_db d_number)
                (Reads-then _
                  (read_optional-Reads IsText read_string append_string read_string-Reads
                    s.service_name v.service_name)
                  (Reads-then _
                    (read_optional-Reads IsText read_string append_string read_string-Reads
                      s.modulation v.modulation)
                    (Reads-then _ (read_pod-Reads 8 s.transport_packets v.transport_packets) (
                      Reads-last (λ n. record s { continuity_errors = n; updated_at = now })
                        (read_pod-Reads 8 s.continuity_errors v.continuity_errors)))))))))

  -- What a select message keeps of an input.
  abbrev pub arrived : ℕ → ActiveInput Carrier → ActiveInput Carrier
  arrived now input = record input {
    status = record (stable_status double input.status) { updated_at = now };
  }

  pub record IsInput (input : ActiveInput Carrier) : Type 0 where
    pub receiver : input.receiver < 2 ^ 31
    pub target : IsTarget input.target
    pub status : IsStatus input.status

  stable_status-IsStatus :
      (s : ReceiverStatus Carrier) → IsStatus s → IsStatus (stable_status double s)
  stable_status-IsStatus s v = record {
    receiver = v.receiver;
    target = v.target;
    service_name = v.service_name;
    modulation = v.modulation;
    transport_packets = omega arith;
    continuity_errors = omega arith;
  }

  read_input-Reads :
      (now : ℕ) (input : ActiveInput Carrier)
      → IsInput input
      → Reads
          (read_input double now)
          (append_pod 4 input.receiver
            ++ (append_scan_target input.target
                ++ append_receiver_status double (stable_status double input.status)))
          (arrived now input)
  unfolding read_input
  read_input-Reads now input v =
      Reads-then _ (read_pod-Reads 4 input.receiver (omega (arith, v.receiver))) (
        Reads-then _ (read_scan_target-Reads input.target v.target) (
          Reads-last (λ status. record input { status = status })
            (read_receiver_status-Reads now (stable_status double input.status)
              (stable_status-IsStatus input.status v.status) tt tt)))

  read_optional-active_payload :
      (now : ℕ) (input : Option (ActiveInput Carrier))
      → Present IsInput input
      → Reads
          (read_optional (read_input double now))
          (active_payload double input)
          (Option.map (arrived now) input)
  unfolding active_payload
  read_optional-active_payload now none v = read_optional-none (read_input double now)
  read_optional-active_payload now (some input) v =
      read_optional-some (read_input double now) _ (arrived now input)
        (read_input-Reads now input v)

  -- The media process reads a select message as the input that the daemon sent, less its two signal
  -- levels and two counters, which a message does not carry, and with its own time; and no input as
  -- none. The numbers fit their fields, and texts are shorter than 2^32 bytes.
  pub read_active-active_payload :
      (now : ℕ) (input : Option (ActiveInput Carrier))
      → Present IsInput input
      → read_active double now (active_payload double input) ≡ some (Option.map (arrived now) input)
  unfolding read_active
  read_active-active_payload now input v =
      let payload = active_payload double input in
      let e =
        ap (read_optional (read_input double now)) (sym (append-nil payload))
        ∙ (read_optional-active_payload now input v).run [] in
      rw (e, read_active) refl

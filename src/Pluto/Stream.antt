-- ===== src/Pluto/Stream.antt =====
-- The stream that PlutoSink sends, against what it is given to write.
use wh_repeater.Common.{
  Bool-cases, inl, inr, ◌⊎◌, ℕ, ◌*◌, ◌/◌, ◌%◌, ◌==◌, Bool, true, false, not, ◌&&◌, ◌||◌, List, [],
  ◌∷◌, ◌++◌, length, take, take-length-append, length-concat, length-append, concat, All, if_elim,
  if_then, if_else, or_true, if◌then◌else◌, ◌≡◌, refl, ap, sym, ◌∙◌, subst, arith, append-nil,
}
use wh_repeater.Pluto.Gather.{
  Gatherer, clear, datagram_size, push_bytes, Gathers, push_bytes-Gathers,
}
use wh_repeater.Pluto.Sink.{
  PlutoConfig, Network, PlutoSink, new_pluto_sink, is_empty, device_id, configure_transmitter,
  publish_transmit_state, switch, set_transmit_enabled, reconfigure_transmitter,
  set_preview_enabled, write_preview_data, write_output, write_mux_data, write, Command, writing,
  writing_mux_data, transmitting, previewing, reconfiguring, run, run_all,
}

-- The stream as it should be: whether the sink transmits, and all that it sends. While it transmits, all
-- that is written is added; when it is switched off, what does not fill a datagram is lost.
abbrev pub whole : List ℕ → List ℕ
whole stream = take (length stream / datagram_size * datagram_size) stream

abbrev pub add : List ℕ → Bool × List ℕ → Bool × List ℕ
add bytes (on, stream) = (on, if on then stream ++ bytes else stream)

abbrev pub turn : Bool → Bool × List ℕ → Bool × List ℕ
turn on (before, stream) = (on, if on then stream else whole stream)

abbrev pub relay : Command → Bool × List ℕ → Bool × List ℕ
relay (writing opens_preview opens packet) r = if length packet % 188 == 0 then add packet r else r
relay (writing_mux_data opens_preview opens bytes) r = add bytes r
relay (transmitting on) r = turn on r
relay (previewing on) r = r
relay (reconfiguring on) r = turn on r

abbrev pub relay_all : List Command → Bool × List ℕ → Bool × List ℕ
relay_all [] r = r
relay_all (c ∷ commands) r = relay_all commands (relay c r)

-- The sockets of a call are created.
abbrev pub Opens : Command → Type 0
Opens (writing opens_preview opens packet) = (opens_preview ≡ true) × (opens ≡ true)
Opens (writing_mux_data opens_preview opens bytes) = (opens_preview ≡ true) × (opens ≡ true)
Opens _ = Unit

record Relays (r : Bool × List ℕ) (output : Gatherer) (transmits : Bool) : Type 0 where
  on : transmits ≡ r.0
  gathers : Gathers r.1 output
  quiet : r.0 ≡ false → output.datagram ≡ []

whole-Gathers : (stream : List ℕ) (g : Gatherer) → Gathers stream g → whole stream ≡ concat g.sent
whole-Gathers stream g v =
    ap (λ n. take n stream) count
    ∙ ap (take (length (concat g.sent))) (sym v.whole)
    ∙ take-length-append (concat g.sent) g.datagram
  where
    count : length stream / datagram_size * datagram_size ≡ length (concat g.sent)
    count =
        let l = ap length v.whole in
        let a = length-append (concat g.sent) g.datagram in
        let c = length-concat datagram_size g.sent v.full in
        let r = v.room in omega (arith, l, a, c, r)

clear-Gathers :
    (stream : List ℕ) (g : Gatherer) → Gathers stream g → Gathers (whole stream) (clear g)
clear-Gathers stream g v = record {
  whole = append-nil (concat g.sent) ∙ sym (whole-Gathers stream g v);
  room = omega arith;
  full = v.full;
}

module _ (config : PlutoConfig) (net : Network) (valid : net.valid_address ≡ true) where
  configure_transmitter-Relays :
      (r : Bool × List ℕ) (s : PlutoSink)
      → Relays r s.output s.transmit_enabled
      → (let s' = configure_transmitter config net s in Relays r s'.output s'.transmit_enabled)
  unfolding configure_transmitter
  configure_transmitter-Relays r s v =
      if_elim Kept (s.configured || not config.mqtt_enabled) v
        (if_elim Kept (is_empty (device_id config)) v v)
    where
      Kept : PlutoSink → Type 0
      Kept s' = Relays r s'.output s'.transmit_enabled

  switch-Relays :
      (enabled : Bool) (r : Bool × List ℕ) (s : PlutoSink)
      → Gathers r.1 s.output
      → (let s' = switch config net enabled s in
          Relays (turn enabled r) s'.output s'.transmit_enabled)
  unfolding publish_transmit_state
  switch-Relays true r s v = record { on = refl; gathers = v; quiet = λ e. absurd (cc) }
  switch-Relays false r s v = record {
    on = refl;
    gathers = clear-Gathers r.1 s.output v;
    quiet = λ e. refl;
  }

  write_output-Relays :
      (bytes : List ℕ) (r : Bool × List ℕ) (w : PlutoSink × Bool)
      → w.1 ≡ false
      → Relays r w.0.output w.0.transmit_enabled
      → (let s' = (write_output config net true bytes w).0 in
          Relays (add bytes r) s'.output s'.transmit_enabled)
  write_output-Relays bytes r (s, true) e v = absurd (cc)
  write_output-Relays bytes (true, stream) (s, false) e v =
      if_else Kept (not s.transmit_enabled) _ (ap not v.on) (
        if_then Kept (s.socket || true) _ (or_true s.socket)
          (record { on = v.on; gathers = pushed; quiet = λ e. absurd (cc) }))
    where
      Kept : PlutoSink × Bool → Type 0
      Kept w' = Relays (true, stream ++ bytes) w'.0.output w'.0.transmit_enabled

      pushed : Gathers (stream ++ bytes) (push_bytes net.valid_address bytes s.output).0
      pushed =
          subst (λ b. Gathers (stream ++ bytes) (push_bytes b bytes s.output).0) (sym valid)
            (push_bytes-Gathers stream bytes s.output v.gathers).0
  write_output-Relays bytes (false, stream) (s, false) e v =
      if_then (λ (w' : PlutoSink × Bool). Relays (false, stream) w'.0.output w'.0.transmit_enabled)
        (not s.transmit_enabled) _ (ap not v.on)
        (record { on = v.on; gathers = cleared; quiet = λ e. refl })
    where
      cleared : Gathers stream (clear s.output)
      cleared = record {
        whole = ap (λ d. concat s.output.sent ++ d) (sym (v.quiet refl)) ∙ v.gathers.whole;
        room = omega arith;
        full = v.gathers.full;
      }

  write_mux_data-Relays :
      (bytes : List ℕ) (r : Bool × List ℕ) (s : PlutoSink)
      → Relays r s.output s.transmit_enabled
      → (let s' = (write_mux_data config net true true bytes s).0 in
          Relays (add bytes r) s'.output s'.transmit_enabled)
  unfolding write_mux_data write_preview_data
  write_mux_data-Relays [] (true, stream) s v =
      subst (λ z. Relays (true, z) s.output s.transmit_enabled) (sym (append-nil stream)) v
  write_mux_data-Relays [] (false, stream) s v = v
  write_mux_data-Relays (b ∷ bytes) r s v =
      write_output-Relays (b ∷ bytes) r (write_preview_data config net true (b ∷ bytes) configured)
        (if_elim (λ (w : PlutoSink × Bool). w.1 ≡ false) (not configured.preview_enabled || false)
          refl
          (if_then (λ (w : PlutoSink × Bool). w.1 ≡ false) (configured.preview_socket || true) _
            (or_true configured.preview_socket) refl))
        (if_elim Kept (not configured.preview_enabled || false) v'
          (if_elim Kept (configured.preview_socket || true) v' v'))
    where
      configured : PlutoSink
      configured = configure_transmitter config net s

      Kept : PlutoSink × Bool → Type 0
      Kept w = Relays r w.0.output w.0.transmit_enabled

      v' : Relays r configured.output configured.transmit_enabled
      v' = configure_transmitter-Relays r s v

  set_transmit_enabled-Relays :
      (on : Bool) (r : Bool × List ℕ) (s : PlutoSink)
      → Relays r s.output s.transmit_enabled
      → (let s' = set_transmit_enabled config net on s in
          Relays (turn on r) s'.output s'.transmit_enabled)
  unfolding set_transmit_enabled
  set_transmit_enabled-Relays on (before, stream) s v = cases on before v
    where
      test : Bool → Bool → Bool
      test t on = t && on || not t && not on

      Kept : Bool × List ℕ → PlutoSink → Type 0
      Kept r s' = Relays r s'.output s'.transmit_enabled

      switched :
          (on : Bool) (r : Bool × List ℕ)
          → Kept r s
          → Kept (turn on r) (switch config net on (configure_transmitter config net s))
      switched on r v =
          switch-Relays on r (configure_transmitter config net s)
            (configure_transmitter-Relays r s v).gathers

      still : Kept (false, stream) s → Kept (false, whole stream) s
      still v =
          subst (λ z. Kept (false, z) s)
            (sym (
              whole-Gathers stream s.output v.gathers
              ∙ (sym (append-nil (concat s.output.sent))
                  ∙ ap (λ d. concat s.output.sent ++ d) (sym (v.quiet refl))
                  ∙ v.gathers.whole)))
            v

      cases :
          (on before : Bool)
          → Kept (before, stream) s
          → Kept (turn on (before, stream)) (
              if test s.transmit_enabled on
              then s
              else switch config net on (configure_transmitter config net s))
      cases true true v =
          if_elim (Kept (true, stream)) (test s.transmit_enabled true) v
            (switched true (true, stream) v)
      cases false false v =
          if_elim (Kept (false, whole stream)) (test s.transmit_enabled false) (still v)
            (switched false (false, stream) v)
      cases true false v =
          if_else (Kept (true, stream)) (test s.transmit_enabled true) _
            (ap (λ t. test t true) v.on) (switched true (false, stream) v)
      cases false true v =
          if_else (Kept (false, whole stream)) (test s.transmit_enabled false) _
            (ap (λ t. test t false) v.on) (switched false (true, stream) v)

  run-Relays :
      (c : Command) (r : Bool × List ℕ) (s : PlutoSink)
      → Opens c
      → Relays r s.output s.transmit_enabled
      → (let s' = run config net c s in Relays (relay c r) s'.output s'.transmit_enabled)
  unfolding write set_preview_enabled reconfigure_transmitter
  run-Relays (writing opens_preview opens packet) r s o v =
      rw (o.0, o.1) (aligned (length packet % 188 == 0))
    where
      aligned :
          (b : Bool)
          → (let s' =
                (if not b then (s, false) else write_mux_data config net true true packet s).0 in
              Relays (if b then add packet r else r) s'.output s'.transmit_enabled)
      aligned true = write_mux_data-Relays packet r s v
      aligned false = v
  run-Relays (writing_mux_data opens_preview opens bytes) r s o v =
      rw (o.0, o.1) (write_mux_data-Relays bytes r s v)
  run-Relays (transmitting on) r s o v = set_transmit_enabled-Relays on r s v
  run-Relays (previewing on) r s o v =
      if_elim (λ (s' : PlutoSink). Relays r s'.output s'.transmit_enabled)
        (s.preview_enabled && on || not s.preview_enabled && not on) v v
  run-Relays (reconfiguring on) r s o v =
      switch-Relays on r (configure_transmitter config net reset)
        (configure_transmitter-Relays r reset v).gathers
    where
      reset : PlutoSink
      reset = record s { configured = false }

  run_all-from :
      (commands : List Command) (r : Bool × List ℕ) (s : PlutoSink)
      → All Opens commands
      → Relays r s.output s.transmit_enabled
      → (let s' = run_all config net commands s in
          Relays (relay_all commands r) s'.output s'.transmit_enabled)
  run_all-from [] r s o v = v
  run_all-from (c ∷ commands) r s o v =
      run_all-from commands (relay c r) (run config net c s) o.1 (run-Relays c r s o.0 v)

-- Where the address is valid and the sockets are created: after any calls of the sink's methods, it
-- transmits if that was asked for last, and the datagrams that it has sent and the bytes that it gathers are the stream as it should be. The datagrams
-- are of 1316 bytes, fewer are gathered, none while the sink does not transmit.
pub run_all-relay_all :
    (config : PlutoConfig) (net : Network) (commands : List Command)
    → net.valid_address ≡ true
    → All Opens commands
    → (let s = run_all config net commands new_pluto_sink in
        let (on, stream) = relay_all commands (false, []) in
        (s.transmit_enabled ≡ on)
        × Gathers stream s.output
        × ((on ≡ true) ⊎ (s.output.datagram ≡ [])))
run_all-relay_all config net commands valid opens =
    let v =
      run_all-from config net valid commands (false, []) new_pluto_sink opens
        (record {
          on = refl;
          gathers = record { whole = refl; room = omega arith; full = tt };
          quiet = λ e. refl;
        }) in
    (
      v.on,
      v.gathers,
      elim (Bool-cases (relay_all commands (false, [])).0) [
        | inl e ↦ inl e
        | inr e ↦ inr (v.quiet e)
      ],
    )

-- ===== src/Inspect/Receives.antt =====
-- Every stream is inspected to its end: the packets and datagrams of tools/ts_gateway_inspect.cpp.
use wh_repeater.Common.{
  leb→le, ℕ, zero, suc, ◌+◌, ◌-◌, ◌<◌, ◌≤◌, ◌/◌, ◌%◌, ◌^◌, Bool, true, false, ◌&&◌, ◌||◌, Option,
  none, some, List, [], ◌∷◌, ◌++◌, length, drop, ltb, leb, ◌==◌, if◌then◌else◌, ◌≡◌, refl, ap,
  subst, ◌∙◌, arith,
}
use wh_repeater.Inspect.Tables.{Bytes, ◌>>=◌, byte_at, span_at, read13, read12, parse_section}
use wh_repeater.Inspect.Total.{
  IsDone, if-IsDone, bind-IsDone, byte_at-IsDone, read13-IsDone, read12-IsDone, span_at-IsDone,
  parse_section-IsDone,
}
use wh_repeater.Inspect.Packets.{
  ts_packet_size, preferred_datagram_size, SectionBuffer, no_section, Stats, no_stats, u64,
  put_section, behind_pointer, expect, with_size, complete, add_payload, start_payload, section_of,
  append_payload_section, payload_at, in_sync, inspect_synced, inspect_packet, count_datagram,
  packet_rounds, receive, receive_all,
}

-- It has a result, and a property holds of it.
abbrev pub Gives {ℓ} : {A : Type ℓ} → (A → Type 0) → Option A → Type 0
Gives P none = ⊥
Gives P (some a) = P a

pub bind-Gives {ℓ κ} :
    {A : Type ℓ} {B : Type κ} (P : B → Type 0) (o : Option A) (f : A → Option B)
    → IsDone o
    → ((a : A) → o ≡ some a → Gives P (f a))
    → Gives P (o >>= f)
bind-Gives P none f done next = ground arith
bind-Gives P (some a) f done next = next a refl

pub bind-Gives_given {ℓ κ} :
    {A : Type ℓ} {B : Type κ} (Q : A → Type 0) (P : B → Type 0) (o : Option A) (f : A → Option B)
    → Gives Q o
    → ((a : A) → Q a → Gives P (f a))
    → Gives P (o >>= f)
bind-Gives_given Q P none f given next = elim given [ ]
bind-Gives_given Q P (some a) f given next = next a given

pub if-Gives {ℓ} :
    {A : Type ℓ} (P : A → Type 0) (b : Bool) (x y : Option A)
    → (b ≡ true → Gives P x)
    → (b ≡ false → Gives P y)
    → Gives P (if b then x else y)
if-Gives P true x y on_true on_false = on_true refl
if-Gives P false x y on_true on_false = on_false refl

-- The counters that only the datagrams' loop moves.
pub record Counts (d b p : ℕ) (s : Stats) : Type 0 where
  pub datagrams_eq : s.datagrams ≡ d
  pub bytes_eq : s.bytes ≡ b
  pub packets_eq : s.packets ≡ p

pub Counts-eq :
    (s : Stats) (d b p d' b' p' : ℕ) → d ≡ d' → b ≡ b' → p ≡ p' → Counts d b p s → Counts d' b' p' s
Counts-eq s d b p d' b' p' e f g c = record {
  datagrams_eq = c.datagrams_eq ∙ e;
  bytes_eq = c.bytes_eq ∙ f;
  packets_eq = c.packets_eq ∙ g;
}

pub Gives-map {ℓ} :
    {A : Type ℓ} (P Q : A → Type 0) (o : Option A) → ((a : A) → P a → Q a) → Gives P o → Gives Q o
Gives-map P Q none f g = g
Gives-map P Q (some a) f g = f a g

abbrev pub put_section-Counts :
    (d b p pid : ℕ) (buffer : SectionBuffer) (s : Stats)
    → Counts d b p s
    → Counts d b p (put_section pid buffer s)
put_section-Counts d b p pid buffer s c = record {
  datagrams_eq = c.datagrams_eq;
  bytes_eq = c.bytes_eq;
  packets_eq = c.packets_eq;
}

pub expect-IsDone : (buffer : SectionBuffer) → IsDone (expect buffer)
unfolding expect
expect-IsDone buffer =
    if-IsDone (leb 3 (length buffer.bytes)) _ _
      (λ e.
        bind-IsDone (read12 buffer.bytes 1) _ (read12-IsDone buffer.bytes 1 (ground arith))
          (λ size _. refl))
      (λ _. refl)

pub complete-Counts :
    (d b p pid : ℕ) (s : Stats) (buffer : SectionBuffer) (size : Option ℕ)
    → Counts d b p s
    → Gives (Counts d b p) (complete pid s buffer size)
complete-Counts d b p pid s buffer none c = put_section-Counts d b p pid buffer s c
complete-Counts d b p pid s buffer (some size) c =
    if-Gives _ (leb size (length buffer.bytes)) _ _
      (λ e.
        bind-Gives _ (span_at buffer.bytes 0 size) _
          (span_at-IsDone buffer.bytes 0 size (ground arith))
          (λ section _.
            bind-Gives _ (parse_section pid section s.programs) _
              (parse_section-IsDone pid section s.programs)
              (λ programs _. record {
                datagrams_eq = c.datagrams_eq;
                bytes_eq = c.bytes_eq;
                packets_eq = c.packets_eq;
              })))
      (λ _. put_section-Counts d b p pid buffer s c)

pub with_size-IsDone : (buffer : SectionBuffer) (size : Option ℕ) → IsDone (with_size buffer size)
with_size-IsDone buffer none = expect-IsDone buffer
with_size-IsDone buffer (some size) = refl

pub add_payload-Counts :
    (d b p pid : ℕ) (payload : Bytes) (buffer : SectionBuffer) (s : Stats)
    → Counts d b p s
    → Gives (Counts d b p) (add_payload pid payload buffer s)
add_payload-Counts d b p pid [] buffer s c = put_section-Counts d b p pid buffer s c
add_payload-Counts d b p pid (x ∷ xs) buffer s c =
    if-Gives _ (x == 0xff) _ _ (λ _. put_section-Counts d b p pid buffer s c)
      (λ _.
        bind-Gives _
          (with_size (record buffer { bytes = buffer.bytes ++ x ∷ xs }) buffer.expected_size) _
          (with_size-IsDone (record buffer { bytes = buffer.bytes ++ x ∷ xs }) buffer.expected_size)
          (λ grown _. complete-Counts d b p pid s grown grown.expected_size c))

pub start_payload-Counts :
    (d b p pid : ℕ) (payload : Option Bytes) (buffer : SectionBuffer) (s : Stats)
    → Counts d b p s
    → Gives (Counts d b p) (start_payload pid payload buffer s)
start_payload-Counts d b p pid none buffer s c = put_section-Counts d b p pid buffer s c
start_payload-Counts d b p pid (some payload) buffer s c =
    add_payload-Counts d b p pid payload no_section s c

pub append_payload_section-Counts :
    (d b p pid : ℕ) (start : Bool) (payload : Bytes) (s : Stats)
    → Counts d b p s
    → Gives (Counts d b p) (append_payload_section pid start payload s)
unfolding append_payload_section
append_payload_section-Counts d b p pid start payload s c =
    if-Gives _ (length payload == 0) _ _ (λ _. c)
      (λ _.
        if-Gives _ start _ _
          (λ _. start_payload-Counts d b p pid (behind_pointer payload) (section_of pid s) s c)
          (λ _. add_payload-Counts d b p pid payload (section_of pid s) s c))

-- A packet in sync has its full size.
pub in_sync-length : (packet : Bytes) → in_sync packet ≡ true → length packet ≡ 188
in_sync-length [] h = ground arith
in_sync-length (x ∷ xs) h = ground arith

pub payload_at-IsDone :
    (control : ℕ) (packet : Bytes) → length packet ≡ 188 → IsDone (payload_at control packet)
payload_at-IsDone control packet h =
    if-IsDone (control == 2 || control == 3) _ _
      (λ _.
        bind-IsDone (byte_at packet 4) _ (byte_at-IsDone packet 4 (omega arith)) (λ size _. refl))
      (λ _. refl)

pub inspect_synced-Counts :
    (d b p : ℕ) (packet : Bytes) (s : Stats)
    → length packet ≡ 188
    → Counts d b p s
    → Gives (Counts d b p) (inspect_synced packet s)
unfolding inspect_synced
inspect_synced-Counts d b p packet s h c =
    bind-Gives _ (byte_at packet 1) _ (byte_at-IsDone packet 1 (omega arith)) (λ flags _.
      bind-Gives _ (read13 packet 1) _ (read13-IsDone packet 1 (omega arith)) (λ pid _.
        bind-Gives _ (byte_at packet 3) _ (byte_at-IsDone packet 3 (omega arith)) (λ fourth _.
          bind-Gives _ (payload_at (fourth / 16 % 4) packet) _
            (payload_at-IsDone (fourth / 16 % 4) packet h)
            (λ offset _.
              if-Gives _
                ((fourth / 16 % 4 == 1 || fourth / 16 % 4 == 3) && ltb offset (length packet)) _ _
                (λ _.
                  append_payload_section-Counts d b p pid (flags / 64 % 2 == 1) (drop offset packet)
                    _
                    (record {
                      datagrams_eq = c.datagrams_eq;
                      bytes_eq = c.bytes_eq;
                      packets_eq = c.packets_eq;
                    }))
                (λ _. record {
                  datagrams_eq = c.datagrams_eq;
                  bytes_eq = c.bytes_eq;
                  packets_eq = c.packets_eq;
                })))))

pub inspect_packet-Counts :
    (d b p : ℕ) (packet : Bytes) (s : Stats)
    → Counts d b p s
    → Gives (Counts d b p) (inspect_packet packet s)
unfolding inspect_packet
inspect_packet-Counts d b p packet s c =
    if-Gives _ (in_sync packet) _ _
      (λ e. inspect_synced-Counts d b p packet s (in_sync-length packet e) c)
      (λ _. record {
        datagrams_eq = c.datagrams_eq;
        bytes_eq = c.bytes_eq;
        packets_eq = c.packets_eq;
      })

-- The counter's steps, with its wrap-around.
pub succ_u64 : (n p : ℕ) → n ≡ u64 p → u64 (n + 1) ≡ u64 (p + 1)
succ_u64 n p h = omega arith

pub add_u64 : (n p k : ℕ) → n ≡ u64 p → u64 (n + k) ≡ u64 (p + k)
add_u64 n p k h = omega arith

pub if-holds {ℓ} :
    {A : Type ℓ} (P : A → Type 0) (b : Bool) (x y : A) → P x → P y → P (if b then x else y)
if-holds P true x y p q = p
if-holds P false x y p q = q

pub more_packets :
    (size offset p : ℕ)
    → offset + 188 ≤ size
    → u64 (p + 1 + (size - (offset + 188)) / 188) ≡ u64 (p + (size - offset) / 188)
more_packets size offset p h = ap (λ n. n % 2 ^ 64) (omega arith)

pub no_more :
    (size offset p : ℕ)
    → leb (offset + 188) size ≡ false
    → offset ≤ size
    → u64 p ≡ u64 (p + (size - offset) / 188)
no_more size offset p e k = ap (λ n. n % 2 ^ 64) (ground arith)

-- From the offset on, every packet that the datagram holds is counted once.
pub packet_rounds-Counts :
    (fuel offset d b p : ℕ) (datagram : Bytes) (s : Stats)
    → length datagram < offset + fuel
    → offset ≤ length datagram
    → Counts d b (u64 p) s
    → Gives
        (Counts d b (u64 (p + (length datagram - offset) / 188)))
        (packet_rounds fuel offset datagram s)
unfolding packet_rounds
packet_rounds-Counts zero offset d b p datagram s h k c = ground arith
packet_rounds-Counts (suc fuel) offset d b p datagram s h k c =
    if-Gives _ (leb (offset + ts_packet_size) (length datagram)) _ _
      (λ e.
        let l = leb→le (offset + ts_packet_size) (length datagram) e in
        bind-Gives _ (span_at datagram offset ts_packet_size) _
          (span_at-IsDone datagram offset ts_packet_size l)
          (λ packet _.
            bind-Gives_given (Counts d b (u64 (p + 1))) _
              (inspect_packet packet (record s { packets = u64 (s.packets + 1) })) _
              (inspect_packet-Counts d b (u64 (p + 1)) packet
                (record s { packets = u64 (s.packets + 1) })
                (record {
                  datagrams_eq = c.datagrams_eq;
                  bytes_eq = c.bytes_eq;
                  packets_eq = succ_u64 s.packets p c.packets_eq;
                }))
              (λ s' c'.
                subst (λ n. Gives (Counts d b n) (packet_rounds fuel (offset + 188) datagram s'))
                  (more_packets (length datagram) offset p l)
                  (packet_rounds-Counts fuel (offset + 188) d b (p + 1) datagram s' (omega arith) l
                    c'))))
      (λ e. subst (λ n. Counts d b n s) (no_more (length datagram) offset p e k) c)

pub count_datagram-Counts :
    (size d b p : ℕ) (s : Stats)
    → Counts (u64 d) (u64 b) p s
    → Counts (u64 (d + 1)) (u64 (b + size)) p (count_datagram size s)
unfolding count_datagram
count_datagram-Counts size d b p s c =
    let e : u64 (s.datagrams + 1) ≡ u64 (d + 1) = succ_u64 s.datagrams d c.datagrams_eq in
    let f : u64 (s.bytes + size) ≡ u64 (b + size) = add_u64 s.bytes b size c.bytes_eq in
    if-holds (Counts (u64 (d + 1)) (u64 (b + size)) p) (size == preferred_datagram_size) _ _
      (record { datagrams_eq = e; bytes_eq = f; packets_eq = c.packets_eq })
      (if-holds (Counts (u64 (d + 1)) (u64 (b + size)) p) (size % ts_packet_size == 0) _ _
        (record { datagrams_eq = e; bytes_eq = f; packets_eq = c.packets_eq })
        (record { datagrams_eq = e; bytes_eq = f; packets_eq = c.packets_eq }))

pub receive-Counts :
    (datagram : Bytes) (d b p : ℕ) (s : Stats)
    → Counts (u64 d) (u64 b) (u64 p) s
    → Gives
        (Counts (u64 (d + 1)) (u64 (b + length datagram)) (u64 (p + length datagram / 188)))
        (receive datagram s)
unfolding receive
receive-Counts datagram d b p s c =
    Gives-map _ _
      (packet_rounds (length datagram + 1) 0 datagram (count_datagram (length datagram) s))
      (λ s'. Counts-eq s' _ _ _ _ _ _ refl refl (ap (λ n. n % 2 ^ 64) (omega arith)))
      (packet_rounds-Counts (length datagram + 1) 0 _ _ p datagram
        (count_datagram (length datagram) s) (omega arith) (omega arith)
        (count_datagram-Counts (length datagram) d b (u64 p) s c))

-- The bytes of all datagrams, and their whole packets.
unfoldable pub total_bytes : List Bytes → ℕ
total_bytes [] = 0
total_bytes (datagram ∷ rest) = length datagram + total_bytes rest

unfoldable pub whole_packets : List Bytes → ℕ
whole_packets [] = 0
whole_packets (datagram ∷ rest) = length datagram / 188 + whole_packets rest

pub receive_all_from :
    (datagrams : List Bytes) (d b p : ℕ) (s : Stats)
    → Counts (u64 d) (u64 b) (u64 p) s
    → Gives
        (Counts
          (u64 (d + length datagrams))
          (u64 (b + total_bytes datagrams))
          (u64 (p + whole_packets datagrams)))
        (receive_all datagrams s)
unfolding receive_all total_bytes whole_packets
receive_all_from [] d b p s c = Counts-eq s _ _ _ _ _ _ (omega arith) (omega arith) (omega arith) c
receive_all_from (datagram ∷ rest) d b p s c =
    bind-Gives_given _ _ (receive datagram s) _ (receive-Counts datagram d b p s c) (λ s' c'.
      Gives-map _ _ (receive_all rest s')
        (λ s''.
          Counts-eq s'' _ _ _ _ _ _ (ap (λ n. n % 2 ^ 64) (omega arith))
            (ap (λ n. n % 2 ^ 64) (omega arith)) (ap (λ n. n % 2 ^ 64) (omega arith)))
        (receive_all_from rest (d + 1) (b + length datagram) (p + length datagram / 188) s' c'))

-- The inspector comes to an end of any sequence of datagrams, whatever bytes they hold and whether or not they are whole packets, without a read outside a buffer: no section, descriptor or adaptation field, however its lengths lie, takes it there. It has then counted the datagrams, their bytes, and the whole packets that they hold, as 64-bit counters do.
pub receive_all-Counts :
    (datagrams : List Bytes)
    → Gives
        (Counts
          (u64 (length datagrams))
          (u64 (total_bytes datagrams))
          (u64 (whole_packets datagrams)))
        (receive_all datagrams no_stats)
receive_all-Counts datagrams =
    Gives-map _ _ (receive_all datagrams no_stats)
      (λ s.
        Counts-eq s _ _ _ _ _ _ (ap (λ n. n % 2 ^ 64) (omega arith))
          (ap (λ n. n % 2 ^ 64) (omega arith)) (ap (λ n. n % 2 ^ 64) (omega arith)))
      (receive_all_from datagrams 0 0 0 no_stats
        (record { datagrams_eq = refl; bytes_eq = refl; packets_eq = refl }))

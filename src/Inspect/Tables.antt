-- ===== src/Inspect/Tables.antt =====
-- The program tables of the stream in tools/ts_gateway_inspect.cpp.
use wh_repeater.Common.{
  ℕ, zero, suc, ◌+◌, ◌-◌, ◌*◌, ◌%◌, ◌^◌, Bool, true, false, ◌&&◌, ◌||◌, Option, none, some, List,
  [], ◌∷◌, ◌++◌, map, length, get_elem?, take, drop, ltb, leb, ◌==◌, if◌then◌else◌,
}
use wh_repeater.Domain.{Text}

abbrev pub Bytes : Type 0
Bytes = List ℕ

infixl 5 ◌>>=◌
abbrev pub ◌>>=◌ {ℓ κ} : {A : Type ℓ} {B : Type κ} → Option A → (A → Option B) → Option B
none >>= f = none
some a >>= f = f a

pub record ProgramInfo : Type 0 where
  pub service_id : ℕ
  pub pmt_pid : ℕ
  pub pcr_pid : ℕ
  pub provider : Text
  pub service_name : Text
  pub stream_types : List ℕ

abbrev pub no_program : ProgramInfo
no_program = record {
  service_id = 0;
  pmt_pid = 0;
  pcr_pid = 0;
  provider = [];
  service_name = [];
  stream_types = [];
}

-- `std::map` by the service, as the list of its entries.
abbrev pub Programs : Type 0
Programs = List (ℕ × ProgramInfo)

-- `std::map::operator[]` with what is then done to the value: a missing key gets a fresh one first.
unfoldable pub update_key {ℓ} : {A : Type ℓ} → A → ℕ → (A → A) → List (ℕ × A) → List (ℕ × A)
update_key fresh id change [] = (id, change fresh) ∷ []
update_key fresh id change ((k, a) ∷ rest) =
    if k == id then (k, change a) ∷ rest else (k, a) ∷ update_key fresh id change rest

abbrev pub update_program : ℕ → (ProgramInfo → ProgramInfo) → Programs → Programs
update_program = update_key no_program

abbrev pub byte_at : Bytes → ℕ → Option ℕ
byte_at bytes i = get_elem? bytes i

-- A part of a buffer as a span of its own.
abbrev pub span_at : Bytes → ℕ → ℕ → Option Bytes
span_at bytes offset size =
    if leb (offset + size) (length bytes) then some (take size (drop offset bytes)) else none

unfoldable pub read16 : Bytes → ℕ → Option ℕ
read16 bytes offset = do
  high ← byte_at bytes offset
  low ← byte_at bytes (offset + 1)
  some ((high * 256 + low) % 2 ^ 16)

-- Thirteen bits, and twelve, behind a byte's upper ones.
unfoldable pub read13 : Bytes → ℕ → Option ℕ
read13 bytes offset = do
  high ← byte_at bytes offset
  low ← byte_at bytes (offset + 1)
  some ((high % 32 * 256 + low) % 2 ^ 16)

unfoldable pub read12 : Bytes → ℕ → Option ℕ
read12 bytes offset = do
  high ← byte_at bytes offset
  low ← byte_at bytes (offset + 1)
  some (high % 16 * 256 + low)

abbrev pub printable : ℕ → ℕ
printable ch = if leb 0x20 ch && ltb ch 0x7f then ch else 0x20

abbrev pub dvb_string : Bytes → Text
dvb_string [] = []
dvb_string (b ∷ bs) = map printable (if ltb b 0x20 then bs else b ∷ bs)

-- The end of a section behind its checks, less its checksum: `none` is an early return, and the outer
-- one a read outside.
unfoldable pub section_end : Bytes → Option (Option ℕ)
section_end section = do
  size ← read12 section 1
  some (if ltb (length section) (3 + size) || ltb (3 + size) 4 then none else some (3 + size - 4))

unfoldable pub pat_loop : ℕ → ℕ → ℕ → Bytes → Programs → Option Programs
pat_loop zero offset last section programs = none
pat_loop (suc fuel) offset last section programs =
    let round : Option Programs = (do
      service_id ← read16 section offset
      pid ← read13 section (offset + 2)
      pat_loop fuel (offset + 4) last section (
          if service_id == 0
          then programs
          else update_program service_id (λ p. record p { service_id = service_id; pmt_pid = pid })
              programs)) in
    if ltb last (offset + 4) then some programs else round

-- A table whose first byte is there and whose size is at least a minimum.
abbrev pub is_table : Bytes → ℕ → ℕ → Bool
is_table [] minimum table = false
is_table (b ∷ bs) minimum table = leb minimum (length (b ∷ bs)) && b == table

abbrev pub up_to : {A : Type 0} → Option (Option ℕ) → A → (ℕ → Option A) → Option A
up_to none a f = none
up_to (some none) a f = some a
up_to (some (some last)) a f = f last

unfoldable pub parse_pat : Bytes → Programs → Option Programs
parse_pat section programs =
    if is_table section 12 0x00
    then up_to (section_end section) programs
        (λ last. pat_loop (length section) 8 last section programs)
    else some programs

unfoldable pub pmt_loop : ℕ → ℕ → ℕ → Bytes → List ℕ → Option (List ℕ)
pmt_loop zero offset last section types = none
pmt_loop (suc fuel) offset last section types =
    let round : Option (List ℕ) = (do
      type ← byte_at section offset
      es_info_length ← read12 section (offset + 3)
      pmt_loop fuel (offset + (5 + es_info_length)) last section (types ++ type ∷ [])) in
    if ltb last (offset + 5) then some types else round

unfoldable pub parse_pmt : ℕ → Bytes → Programs → Option Programs
parse_pmt pid section programs =
    if is_table section 16 0x02
    then (do
      service_id ← read16 section 3
      up_to (section_end section) programs (λ last. do
        pcr_pid ← read13 section 8
        program_info_length ← read12 section 10
        types ← pmt_loop (length section) (12 + program_info_length) last section []
        some (
            update_program service_id
              (λ p. record p {
                service_id = service_id;
                pmt_pid = pid;
                pcr_pid = pcr_pid;
                stream_types = types;
              })
              programs)))
    else some programs

abbrev pub set_name : ℕ → Option Bytes → ProgramInfo → ProgramInfo
set_name id none p = p
set_name id (some name) p = record p { service_name = dvb_string name }

-- The service's name is read only if it lies within the descriptor.
abbrev pub name_at : Bytes → ℕ → ℕ → Bool → Option (Option Bytes)
name_at section offset size true = do name ← span_at section offset size; some (some name)
name_at section offset size false = some none

-- A service descriptor's body, at its offset and of its length.
unfoldable pub parse_service : ℕ → ℕ → ℕ → Bytes → Programs → Option Programs
parse_service id body size section programs = do
  provider_length ← byte_at section (body + 1)
  if ltb (body + 2 + provider_length) (body + size)
      then (do
        service_length ← byte_at section (body + 2 + provider_length)
        provider ← span_at section (body + 2) provider_length
        name ←
            name_at section (body + 2 + provider_length + 1) service_length
              (leb (body + 2 + provider_length + 1 + service_length) (body + size))
        some (
            update_program id
              (λ p. set_name id name (record p { service_id = id; provider = dvb_string provider }))
              programs))
      else some programs

unfoldable pub sdt_descriptors : ℕ → ℕ → ℕ → ℕ → ℕ → Bytes → Programs → Option Programs
sdt_descriptors zero id desc desc_end last section programs = none
sdt_descriptors (suc fuel) id desc desc_end last section programs =
    let round : Option Programs = (do
      tag ← byte_at section desc
      size ← byte_at section (desc + 1)
      after ←
          if tag == 0x48 && leb (desc + 2 + size) desc_end && leb 3 size
          then parse_service id (desc + 2) size section programs
          else some programs
      sdt_descriptors fuel id (desc + (2 + size)) desc_end last section after) in
    if ltb desc_end (desc + 2) || ltb last desc_end then some programs else round

unfoldable pub sdt_loop : ℕ → ℕ → ℕ → Bytes → Programs → Option Programs
sdt_loop zero offset last section programs = none
sdt_loop (suc fuel) offset last section programs =
    let round : Option Programs = (do
      service_id ← read16 section offset
      descriptor_length ← read12 section (offset + 3)
      after ←
          sdt_descriptors (length section + 1) service_id (offset + 5)
            (offset + 5 + descriptor_length) last section programs
      sdt_loop fuel (offset + 5 + descriptor_length) last section after) in
    if ltb last (offset + 5) then some programs else round

unfoldable pub parse_sdt : Bytes → Programs → Option Programs
parse_sdt section programs =
    if is_table section 15 0x42
    then up_to (section_end section) programs
        (λ last. sdt_loop (length section) 11 last section programs)
    else some programs

abbrev pub has_pmt : ℕ → Programs → Bool
has_pmt pid [] = false
has_pmt pid ((k, p) ∷ rest) = p.pmt_pid == pid || has_pmt pid rest

unfoldable pub parse_section : ℕ → Bytes → Programs → Option Programs
parse_section pid section programs =
    if pid == 0
    then parse_pat section programs
    else if pid == 0x11
    then parse_sdt section programs
    else if has_pmt pid programs
    then parse_pmt pid section programs
    else some programs

-- ===== src/Inspect/Total.antt =====
-- No read outside a buffer and no loop without end in tools/ts_gateway_inspect.cpp.
use wh_repeater.Common.{
  ◌⊎◌, ltb→lt, ℕ, zero, suc, ◌+◌, ◌-◌, ◌<◌, ◌≤◌, Bool, true, false, ◌&&◌, ◌||◌, Option, none,
  is_some, some, List, [], ◌∷◌, length, get_elem?-lt, ltb, leb, ◌==◌, if◌then◌else◌, ◌≡◌, refl, ap,
  arith,
}
use wh_repeater.Inspect.Tables.{
  Bytes, ◌>>=◌, Programs, byte_at, span_at, read16, read13, read12, section_end, up_to, is_table,
  pat_loop, parse_pat, pmt_loop, parse_pmt, name_at, parse_service, sdt_descriptors, sdt_loop,
  parse_sdt, has_pmt, parse_section,
}

-- It has a result: nothing is read outside, and the loops' fuel is enough.
abbrev pub IsDone {ℓ} : {A : Type ℓ} → Option A → Type 0
IsDone o = is_some o ≡ true

pub bind-IsDone {ℓ κ} :
    {A : Type ℓ} {B : Type κ} (o : Option A) (f : A → Option B)
    → IsDone o
    → ((a : A) → o ≡ some a → IsDone (f a))
    → IsDone (o >>= f)
bind-IsDone none f done next = done
bind-IsDone (some a) f done next = next a refl

pub if-IsDone {ℓ} :
    {A : Type ℓ} (b : Bool) (x y : Option A)
    → (b ≡ true → IsDone x)
    → (b ≡ false → IsDone y)
    → IsDone (if b then x else y)
if-IsDone true x y on_true on_false = on_true refl
if-IsDone false x y on_true on_false = on_false refl

pub byte_at-IsDone : (bytes : Bytes) (i : ℕ) → i < length bytes → IsDone (byte_at bytes i)
byte_at-IsDone bytes i h = let (a, e) = get_elem?-lt bytes i h in ap is_some e

pub read16-IsDone : (bytes : Bytes) (i : ℕ) → i + 1 < length bytes → IsDone (read16 bytes i)
unfolding read16
read16-IsDone bytes i h =
    bind-IsDone (byte_at bytes i) _ (byte_at-IsDone bytes i (omega arith)) (λ high e.
      bind-IsDone (byte_at bytes (i + 1)) _ (byte_at-IsDone bytes (i + 1) h) (λ low e. refl))

pub read13-IsDone : (bytes : Bytes) (i : ℕ) → i + 1 < length bytes → IsDone (read13 bytes i)
unfolding read13
read13-IsDone bytes i h =
    bind-IsDone (byte_at bytes i) _ (byte_at-IsDone bytes i (omega arith)) (λ high e.
      bind-IsDone (byte_at bytes (i + 1)) _ (byte_at-IsDone bytes (i + 1) h) (λ low e. refl))

pub read12-IsDone : (bytes : Bytes) (i : ℕ) → i + 1 < length bytes → IsDone (read12 bytes i)
unfolding read12
read12-IsDone bytes i h =
    bind-IsDone (byte_at bytes i) _ (byte_at-IsDone bytes i (omega arith)) (λ high e.
      bind-IsDone (byte_at bytes (i + 1)) _ (byte_at-IsDone bytes (i + 1) h) (λ low e. refl))

pub span_at-IsDone :
    (bytes : Bytes) (offset size : ℕ)
    → offset + size ≤ length bytes
    → IsDone (span_at bytes offset size)
span_at-IsDone bytes offset size h =
    if-IsDone (leb (offset + size) (length bytes)) _ _ (λ _. refl) (λ e. ground arith)

pub pat_loop-IsDone :
    (fuel offset last : ℕ) (section : Bytes) (programs : Programs)
    → 0 < fuel
    → last < offset + fuel
    → last ≤ length section
    → IsDone (pat_loop fuel offset last section programs)
unfolding pat_loop
pat_loop-IsDone zero offset last section programs h k l = ground arith
pat_loop-IsDone (suc fuel) offset last section programs h k l =
    if-IsDone (ltb last (offset + 4)) _ _ (λ _. refl)
      (λ e.
        bind-IsDone (read16 section offset) _ (read16-IsDone section offset (ground arith))
          (λ service_id _.
            bind-IsDone (read13 section (offset + 2)) _
              (read13-IsDone section (offset + 2) (ground arith))
              (λ pid _.
                pat_loop-IsDone fuel (offset + 4) last section _ (ground arith) (ground arith) l)))

pub section_end-IsDone : (section : Bytes) → 3 ≤ length section → IsDone (section_end section)
unfolding section_end
section_end-IsDone section h =
    bind-IsDone (read12 section 1) _ (read12-IsDone section 1 (omega arith)) (λ size _. refl)

-- What a section's end allows: it lies four bytes before the end of the section, or further in.
pub checked_le :
    (section : Bytes) (o : Option ℕ) (last : ℕ)
    → (o >>= (λ size. some (
        if ltb (length section) (3 + size) || ltb (3 + size) 4 then none else some (3 + size - 4))))
      ≡ some (some last)
    → last ≤ length section
checked_le section none last k = ground arith
checked_le section (some size) last k = ground arith

pub section_end_le :
    (section : Bytes) (last : ℕ) → section_end section ≡ some (some last) → last ≤ length section
unfolding section_end
section_end_le section last h = checked_le section (read12 section 1) last h

pub up_to-IsDone :
    {A : Type 0} (o : Option (Option ℕ)) (a : A) (f : ℕ → Option A)
    → IsDone o
    → ((last : ℕ) → o ≡ some (some last) → IsDone (f last))
    → IsDone (up_to o a f)
up_to-IsDone none a f done next = ground arith
up_to-IsDone (some none) a f done next = refl
up_to-IsDone (some (some last)) a f done next = next last refl

-- A table of at least a size holds its header.
pub is_table_le :
    (section : Bytes) (minimum table : ℕ)
    → is_table section minimum table ≡ true
    → minimum ≤ length section
is_table_le [] minimum table h = ground arith
is_table_le (b ∷ bs) minimum table h = ground arith

pub parse_pat-IsDone : (section : Bytes) (programs : Programs) → IsDone (parse_pat section programs)
unfolding parse_pat
parse_pat-IsDone section programs =
    if-IsDone (is_table section 12 0) _ _
      (λ e.
        let h = is_table_le section 12 0 e in
        up_to-IsDone (section_end section) programs _ (section_end-IsDone section (omega arith))
          (λ last k.
            let l = section_end_le section last k in
            pat_loop-IsDone (length section) 8 last section programs (omega arith) (omega arith) l))
      (λ _. refl)

pub pmt_loop-IsDone :
    (fuel offset last : ℕ) (section : Bytes) (types : List ℕ)
    → 0 < fuel
    → last < offset + fuel
    → last ≤ length section
    → IsDone (pmt_loop fuel offset last section types)
unfolding pmt_loop
pmt_loop-IsDone zero offset last section types h k l = ground arith
pmt_loop-IsDone (suc fuel) offset last section types h k l =
    if-IsDone (ltb last (offset + 5)) _ _ (λ _. refl)
      (λ e.
        bind-IsDone (byte_at section offset) _ (byte_at-IsDone section offset (ground arith))
          (λ type _.
            bind-IsDone (read12 section (offset + 3)) _
              (read12-IsDone section (offset + 3) (ground arith))
              (λ size _.
                pmt_loop-IsDone fuel (offset + (5 + size)) last section _ (ground arith)
                  (ground arith) l)))

pub parse_pmt-IsDone :
    (pid : ℕ) (section : Bytes) (programs : Programs) → IsDone (parse_pmt pid section programs)
unfolding parse_pmt
parse_pmt-IsDone pid section programs =
    if-IsDone (is_table section 16 2) _ _
      (λ e.
        let h = is_table_le section 16 2 e in
        bind-IsDone (read16 section 3) _ (read16-IsDone section 3 (omega arith)) (λ id _.
          up_to-IsDone (section_end section) programs _ (section_end-IsDone section (omega arith))
            (λ last k.
              let l = section_end_le section last k in
              bind-IsDone (read13 section 8) _ (read13-IsDone section 8 (omega arith)) (λ pcr _.
                bind-IsDone (read12 section 10) _ (read12-IsDone section 10 (omega arith))
                  (λ size _.
                    bind-IsDone (pmt_loop (length section) (12 + size) last section []) _
                      (pmt_loop-IsDone (length section) (12 + size) last section [] (omega arith)
                        (omega arith) l)
                      (λ types _. refl))))))
      (λ _. refl)

pub name_at-IsDone :
    (section : Bytes) (offset size : ℕ) (b : Bool)
    → (b ≡ true → offset + size ≤ length section)
    → IsDone (name_at section offset size b)
name_at-IsDone section offset size true h =
    bind-IsDone (span_at section offset size) _ (span_at-IsDone section offset size (h refl))
      (λ name _. refl)
name_at-IsDone section offset size false h = refl

pub parse_service-IsDone :
    (id body size : ℕ) (section : Bytes) (programs : Programs)
    → 3 ≤ size
    → body + size ≤ length section
    → IsDone (parse_service id body size section programs)
unfolding parse_service
parse_service-IsDone id body size section programs h k =
    bind-IsDone (byte_at section (body + 1)) _ (byte_at-IsDone section (body + 1) (omega arith))
      (λ p _.
        if-IsDone (ltb (body + 2 + p) (body + size)) _ _
          (λ e.
            let l = ltb→lt (body + 2 + p) (body + size) e in
            bind-IsDone (byte_at section (body + 2 + p)) _
              (byte_at-IsDone section (body + 2 + p) (omega arith))
              (λ s _.
                bind-IsDone (span_at section (body + 2) p) _
                  (span_at-IsDone section (body + 2) p (omega arith))
                  (λ provider _.
                    bind-IsDone
                      (name_at section (body + 2 + p + 1) s
                        (leb (body + 2 + p + 1 + s) (body + size)))
                      _ (name_at-IsDone section (body + 2 + p + 1) s _ (λ fits. ground arith))
                      (λ name _. refl))))
          (λ _. refl))

pub sdt_descriptors-IsDone :
    (fuel id desc desc_end last : ℕ) (section : Bytes) (programs : Programs)
    → 0 < fuel
    → desc_end < desc + fuel ⊎ last < desc_end
    → last ≤ length section
    → IsDone (sdt_descriptors fuel id desc desc_end last section programs)
unfolding sdt_descriptors
sdt_descriptors-IsDone zero id desc desc_end last section programs h k l = ground arith
sdt_descriptors-IsDone (suc fuel) id desc desc_end last section programs h k l =
    if-IsDone (ltb desc_end (desc + 2) || ltb last desc_end) _ _ (λ _. refl)
      (λ e.
        bind-IsDone (byte_at section desc) _ (byte_at-IsDone section desc (ground arith)) (λ tag _.
          bind-IsDone (byte_at section (desc + 1)) _
            (byte_at-IsDone section (desc + 1) (ground arith))
            (λ size _.
              bind-IsDone
                (if tag == 0x48 && leb (desc + 2 + size) desc_end && leb 3 size
                  then parse_service id (desc + 2) size section programs
                  else some programs)
                _
                (if-IsDone (tag == 0x48 && leb (desc + 2 + size) desc_end && leb 3 size) _ _
                  (λ fits.
                    parse_service-IsDone id (desc + 2) size section programs (ground arith)
                      (ground arith))
                  (λ _. refl))
                (λ after _.
                  sdt_descriptors-IsDone fuel id (desc + (2 + size)) desc_end last section after
                    (ground arith) (ground arith) l))))

pub sdt_loop-IsDone :
    (fuel offset last : ℕ) (section : Bytes) (programs : Programs)
    → 0 < fuel
    → last < offset + fuel
    → last ≤ length section
    → IsDone (sdt_loop fuel offset last section programs)
unfolding sdt_loop
sdt_loop-IsDone zero offset last section programs h k l = ground arith
sdt_loop-IsDone (suc fuel) offset last section programs h k l =
    if-IsDone (ltb last (offset + 5)) _ _ (λ _. refl)
      (λ e.
        bind-IsDone (read16 section offset) _ (read16-IsDone section offset (ground arith)) (λ id _.
          bind-IsDone (read12 section (offset + 3)) _
            (read12-IsDone section (offset + 3) (ground arith))
            (λ size _.
              bind-IsDone
                (sdt_descriptors (length section + 1) id (offset + 5) (offset + 5 + size) last
                  section programs)
                _
                (sdt_descriptors-IsDone (length section + 1) id (offset + 5) (offset + 5 + size)
                  last section programs (omega arith) (ground arith) l)
                (λ after _.
                  sdt_loop-IsDone fuel (offset + 5 + size) last section after (ground arith)
                    (ground arith) l))))

pub parse_sdt-IsDone : (section : Bytes) (programs : Programs) → IsDone (parse_sdt section programs)
unfolding parse_sdt
parse_sdt-IsDone section programs =
    if-IsDone (is_table section 15 0x42) _ _
      (λ e.
        let h = is_table_le section 15 0x42 e in
        up_to-IsDone (section_end section) programs _ (section_end-IsDone section (omega arith))
          (λ last k.
            let l = section_end_le section last k in
            sdt_loop-IsDone (length section) 11 last section programs (omega arith) (omega arith)
              l))
      (λ _. refl)

pub parse_section-IsDone :
    (pid : ℕ) (section : Bytes) (programs : Programs) → IsDone (parse_section pid section programs)
unfolding parse_section
parse_section-IsDone pid section programs =
    if-IsDone (pid == 0) _ _ (λ _. parse_pat-IsDone section programs)
      (λ _.
        if-IsDone (pid == 0x11) _ _ (λ _. parse_sdt-IsDone section programs)
          (λ _.
            if-IsDone (has_pmt pid programs) _ _ (λ _. parse_pmt-IsDone pid section programs)
              (λ _. refl)))

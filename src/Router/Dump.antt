-- ===== src/Router/Dump.antt =====
-- What TsRouter copies to its file.
use wh_repeater.Common.{
  ℕ, zero, suc, ◌-◌, true, not, List, [], ◌∷◌, ◌++◌, length, length-append, take, min, leb, ◌≤◌,
  Bool-cases, inl, inr, if_then, if_else, concat, ◌==◌, ◌≡◌, refl, ap, sym, ◌∙◌, arith,
  append_assoc, append-nil,
}
use wh_repeater.Nim.Packets.{TransportPacket}
use wh_repeater.Router.{TsRouter, Files, dump_packet, forward}

take_nil : {A : Type 0} (n : ℕ) → take {A = A} n [] ≡ []
take_nil zero = refl
take_nil (suc n) = refl

take-append :
    {A : Type 0} (n : ℕ) (xs ys : List A) → take n (xs ++ ys) ≡ take n xs ++ take (n - length xs) ys
take-append n [] ys =
    let e : n - 0 ≡ n = omega arith in
    sym (ap (λ z. z ++ take (n - 0) ys) (take_nil n) ∙ ap (λ k. take k ys) e)
take-append zero (x ∷ xs) ys =
    let e : 0 ≡ 0 - length (x ∷ xs) = omega arith in ap (λ k. take k ys) e
take-append (suc n) (x ∷ xs) ys =
    let e : n - length xs ≡ suc n - length (x ∷ xs) = omega arith in
    ap (◌∷◌ x) (take-append n xs ys ∙ ap (λ k. take n xs ++ take k ys) e)

take_all : {A : Type 0} (n : ℕ) (xs : List A) → length xs ≤ n → take n xs ≡ xs
take_all zero [] h = refl
take_all (suc n) [] h = refl
take_all zero (x ∷ xs) h = absurd (omega arith)
take_all (suc n) (x ∷ xs) h = ap (◌∷◌ x) (take_all n xs (omega arith))

take-min : {A : Type 0} (n : ℕ) (xs : List A) → take (min (length xs) n) xs ≡ take n xs
take-min n xs = elim (Bool-cases (leb (length xs) n)) [
  | inl e ↦ take_all (min (length xs) n) xs (ground arith) ∙ sym (take_all n xs (ground arith))
  | inr e ↦ let m : min (length xs) n ≡ n = ground arith in ap (λ k. take k xs) m
]

-- The file is open while bytes remain.
pub record Dumps {D : Type 0} (s : TsRouter D) : Type 0 where
  pub open_while : s.dump_open ≡ not (s.dump_remaining == 0)

-- From one state to another a stream of bytes is copied, up to what remained.
pub record Copies {D : Type 0} (bytes : List ℕ) (s s' : TsRouter D) : Type 0 where
  pub dumps : Dumps s'
  pub copied : s'.dumped ≡ s.dumped ++ take s.dump_remaining bytes
  pub remains : s'.dump_remaining ≡ s.dump_remaining - length bytes

dump_packet_lem :
    {D : Type 0} (files : Files) (packet : TransportPacket) (s : TsRouter D)
    → files.writes ≡ true
    → Dumps s
    → Copies packet s (dump_packet files packet s)
unfolding dump_packet
dump_packet_lem files packet s good v = elim (Bool-cases s.dump_open) [
  | inl o ↦ if_else (Copies packet s) (not s.dump_open) _ (ap not o) (record {
    dumps = record { open_while = ground arith };
    copied = ap (λ bytes. s.dumped ++ bytes) (take-min s.dump_remaining packet);
    remains = omega arith;
  })
  | inr c ↦
      let empty : s.dump_remaining ≡ 0 = let w = v.open_while in ground arith in
      if_then (Copies packet s) (not s.dump_open) _ (ap not c) (record {
        dumps = v;
        copied = sym (append-nil s.dumped) ∙ ap (λ n. s.dumped ++ take n packet) (sym empty);
        remains = omega arith;
      })
]

-- While the writes succeed, a dump that is open while bytes remain stays so, and from any number of
-- packets it copies their bytes up to what remained, and no more.
pub forward-dump :
    {D S : Type 0} (write : TransportPacket → S → S) (files : Files)
    (packets : List TransportPacket) (s : TsRouter D) (sink : S)
    → files.writes ≡ true
    → Dumps s
    → Copies (concat packets) s (forward write files packets (s, sink)).0
forward-dump write files [] s sink good v = record {
  dumps = v;
  copied =
      sym (append-nil s.dumped) ∙ ap (λ bytes. s.dumped ++ bytes) (sym (take_nil s.dump_remaining));
  remains = omega arith;
}
forward-dump write files (packet ∷ packets) s sink good v =
    let one = dump_packet_lem files packet s good v in
    let rest =
      forward-dump write files packets (dump_packet files packet s) (write packet sink) good
        one.dumps in
    let l = length-append packet (concat packets) in
    let r = rest.remains in
    let r' = one.remains in
    record {
      dumps = rest.dumps;
      copied =
          rest.copied
          ∙ ap (λ d. d ++ take (dump_packet files packet s).dump_remaining (concat packets))
              one.copied
          ∙ append_assoc s.dumped (take s.dump_remaining packet)
              (take (dump_packet files packet s).dump_remaining (concat packets))
          ∙ ap (λ n. s.dumped ++ (take s.dump_remaining packet ++ take n (concat packets)))
              one.remains
          ∙ ap (λ bytes. s.dumped ++ bytes)
              (sym (take-append s.dump_remaining packet (concat packets)));
      remains = omega (arith, l, r, r');
    }

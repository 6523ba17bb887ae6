-- ===== src/Pluto/Gather.antt =====
-- Bytes gathered into datagrams of seven transport packets, as PlutoSink of src/pluto_sink.cpp does for
-- its output and for its preview. `sent` records the datagrams that were handed to `sendto`, whose
-- result is only logged.
use wh_repeater.Common.{
  ℕ, ◌*◌, ◌<◌, Bool, true, false, List, [], ◌∷◌, ◌++◌, length, length-append, concat, concat_snoc,
  All, All-append, ◌==◌, if◌then◌else◌, ◌≡◌, refl, ap, sym, ◌∙◌, arith, append_assoc, append-nil,
  Bool-cases, inl, inr, subst,
}

abbrev pub datagram_size : ℕ
datagram_size = 188 * 7

pub record Gatherer : Type 0 where
  pub datagram : List ℕ
  pub sent : List (List ℕ)

abbrev pub new_gatherer : Gatherer
new_gatherer = record { datagram = []; sent = [] }

abbrev pub clear : Gatherer → Gatherer
clear g = record g { datagram = [] }

abbrev pub append : ℕ → Gatherer → Gatherer
append b g = record g { datagram = g.datagram ++ b ∷ [] }

abbrev pub send : Gatherer → Gatherer
send g = record { datagram = []; sent = g.sent ++ g.datagram ∷ [] }

-- The loop over the bytes: the gatherer, and whether an invalid address made a flush throw, which keeps
-- the datagram.
unfoldable pub push_bytes : Bool → List ℕ → Gatherer → Gatherer × Bool
push_bytes valid [] g = (g, false)
push_bytes valid (b ∷ bytes) g =
    let flushed = push_bytes valid bytes (send (append b g)) in
    let waiting = push_bytes valid bytes (append b g) in
    let filled = if valid then flushed else (append b g, true) in
    if length (g.datagram ++ b ∷ []) == datagram_size then filled else waiting

-- All bytes of a stream are in the datagrams, which are full, and in the one that is gathered.
pub record Gathers (stream : List ℕ) (g : Gatherer) : Type 0 where
  pub whole : concat g.sent ++ g.datagram ≡ stream
  pub room : length g.datagram < datagram_size
  pub full : All (λ d. length d ≡ datagram_size) g.sent

append_whole :
    (stream : List ℕ) (b : ℕ) (g : Gatherer)
    → concat g.sent ++ g.datagram ≡ stream
    → concat g.sent ++ (g.datagram ++ b ∷ []) ≡ stream ++ b ∷ []
append_whole stream b g h =
    sym (append_assoc (concat g.sent) g.datagram (b ∷ [])) ∙ ap (λ s. s ++ b ∷ []) h

send-Gathers :
    (stream : List ℕ) (b : ℕ) (g : Gatherer)
    → length (g.datagram ++ b ∷ []) ≡ datagram_size
    → Gathers stream g
    → Gathers (stream ++ b ∷ []) (send (append b g))
send-Gathers stream b g l v = record {
  whole =
      append-nil (concat (g.sent ++ (g.datagram ++ b ∷ []) ∷ []))
      ∙ concat_snoc g.sent (g.datagram ++ b ∷ [])
      ∙ append_whole stream b g v.whole;
  room = omega arith;
  full =
      All-append (λ d. length d ≡ datagram_size) g.sent ((g.datagram ++ b ∷ []) ∷ []) v.full
        (l, tt);
}

append-Gathers :
    (stream : List ℕ) (b : ℕ) (g : Gatherer)
    → (length (g.datagram ++ b ∷ []) == datagram_size) ≡ false
    → Gathers stream g
    → Gathers (stream ++ b ∷ []) (append b g)
append-Gathers stream b g e v = record {
  whole = append_whole stream b g v.whole;
  room = let l = length-append g.datagram (b ∷ []) in let r = v.room in ground arith;
  full = v.full;
}

pub push_bytes-Gathers :
    (stream bytes : List ℕ) (g : Gatherer)
    → Gathers stream g
    → Gathers (stream ++ bytes) (push_bytes true bytes g).0 × ((push_bytes true bytes g).1 ≡ false)
unfolding push_bytes
push_bytes-Gathers stream [] g v = (subst (λ s. Gathers s g) (sym (append-nil stream)) v, refl)
push_bytes-Gathers stream (b ∷ bytes) g v =
    elim (Bool-cases (length (g.datagram ++ b ∷ []) == datagram_size)) [
      | inl e ↦ rw e (
          regroup (
            push_bytes-Gathers (stream ++ b ∷ []) bytes (send (append b g))
              (send-Gathers stream b g (ground arith) v)))
      | inr e ↦ rw e (
          regroup (
            push_bytes-Gathers (stream ++ b ∷ []) bytes (append b g)
              (append-Gathers stream b g e v)))
    ]
  where
    regroup :
        {r : Gatherer × Bool}
        → Gathers ((stream ++ b ∷ []) ++ bytes) r.0 × (r.1 ≡ false)
        → Gathers (stream ++ b ∷ bytes) r.0 × (r.1 ≡ false)
    regroup {r} h = (subst (λ s. Gathers s r.0) (append_assoc stream (b ∷ []) bytes) h.0, h.1)

-- ===== src/Pipeline/Input/Flow.antt =====
-- The stream's bytes go through BlockingTsInput in order, and its threads do not wait for each other.
use wh_repeater.Common.{
  concat, ℕ, zero, suc, ◌≤◌, true, ◌&&◌, List, [], ◌∷◌, ◌++◌, length, take, drop, ◌==◌, ◌≡◌, ◌⊎◌,
  inl, inr, refl, ap, sym, ◌∙◌, arith, append_assoc, length-append, length-drop, take-append-drop,
  length-take, All, Bool-cases,
}
use wh_repeater.Pipeline.Input.{
  max_buffered_bytes, max_append_chunk, BlockingTsInput, new_input, chunks, append_ready,
  append_chunk, read_ready, read, stop, Step, appends, reads, stops, Reach, here, next,
}

-- What goes in is what came out and what waits, and what waits keeps within the bound.
pub record Flows (s : BlockingTsInput) : Type 0 where
  pub kept : s.handed ++ s.buffer ≡ s.given
  pub room : length s.buffer ≤ max_buffered_bytes

append_chunk-Flows :
    (chunk : List ℕ) (s : BlockingTsInput)
    → append_ready chunk s ≡ true
    → Flows s
    → Flows (append_chunk chunk s)
unfolding append_chunk
append_chunk-Flows chunk s ready v = elim (Bool-cases s.stopped) [
  | inl e ↦ ground arith
  | inr e ↦ rw e (record {
    kept = sym (append_assoc s.handed s.buffer chunk) ∙ ap (λ g. g ++ chunk) v.kept;
    room = ground (arith, length-append s.buffer chunk);
  })
]

read-Flows : (size : ℕ) (s : BlockingTsInput) → Flows s → Flows (read size s).0
unfolding read
read-Flows size s v = elim (Bool-cases (s.stopped && length s.buffer == 0)) [
  | inl e ↦ rw e v
  | inr e ↦ rw e (record {
    kept =
        append_assoc s.handed (take size s.buffer) (drop size s.buffer)
        ∙ ap (λ b. s.handed ++ b) (take-append-drop size s.buffer)
        ∙ v.kept;
    room = let r = v.room in omega (arith, length-drop size s.buffer);
  })
]

Step-Flows : {s t : BlockingTsInput} → Step s t → Flows s → Flows t
unfolding stop
Step-Flows {s = s} (appends chunk h ready) v = append_chunk-Flows chunk s ready v
Step-Flows {s = s} (reads size ready) v = read-Flows size s v
Step-Flows stops v = record { kept = v.kept; room = v.room }

Reach-Flows : {s t : BlockingTsInput} → Flows s → Reach s t → Flows t
Reach-Flows v here = v
Reach-Flows v (next r st) = Step-Flows st (Reach-Flows v r)

-- However the threads interleave: the bytes that were read and those that wait are the bytes that were appended, in order, none lost and none twice; the buffer keeps within its 32 MiB; and at no moment do both sides wait: a read can go on, or every chunk that `append` makes can.
pub new_input-Flows :
    (s : BlockingTsInput)
    → Reach new_input s
    → (s.handed ++ s.buffer ≡ s.given)
      × (length s.buffer ≤ max_buffered_bytes)
      × ((read_ready s ≡ true)
          ⊎ ((chunk : List ℕ) → length chunk ≤ max_append_chunk → append_ready chunk s ≡ true))
new_input-Flows s r =
    let v = Reach-Flows (record { kept = refl; room = omega arith }) r in
    (
      v.kept,
      v.room,
      elim (Bool-cases (read_ready s)) [ inl e ↦ inl e | inr e ↦ inr (λ chunk h. ground arith) ],
    )

-- The chunks of any data are the data, each of them small enough to fit once the buffer is empty.
pub chunks_lem :
    (fuel : ℕ) (bytes : List ℕ)
    → length bytes ≤ fuel
    → (concat (chunks fuel bytes) ≡ bytes)
      × All (λ chunk. length chunk ≤ max_append_chunk) (chunks fuel bytes)
unfolding chunks
chunks_lem zero [] h = (refl, tt)
chunks_lem zero (b ∷ bytes) h = absurd (omega arith)
chunks_lem (suc fuel) [] h = (refl, tt)
chunks_lem (suc fuel) (b ∷ bytes) h =
    let l = length-drop max_append_chunk (b ∷ bytes) in
    let rest = chunks_lem fuel (drop max_append_chunk (b ∷ bytes)) (omega arith) in
    (
      ap (λ c. take max_append_chunk (b ∷ bytes) ++ c) rest.0
          ∙ take-append-drop max_append_chunk (b ∷ bytes),
      (let k = length-take max_append_chunk (b ∷ bytes) in omega arith, rest.1),
    )

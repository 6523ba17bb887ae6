-- ===== src/Pipeline/Input.antt =====
-- BlockingTsInput of src/media_pipeline.cpp: the bounded buffer between the thread that receives the
-- transport stream and the one that decodes it. A step is what a thread does when its wait is over.
-- `given` and `handed` record the bytes that went in and came out.
pub mod Flow
use wh_repeater.Common.{
  ℕ, zero, suc, ◌+◌, ◌*◌, ◌≤◌, Bool, true, false, not, ◌&&◌, ◌||◌, Option, none, some, List, [],
  ◌∷◌, ◌++◌, length, take, drop, leb, ◌==◌, if◌then◌else◌, ◌≡◌, min,
}

abbrev pub max_buffered_bytes : ℕ
max_buffered_bytes = 32 * 1024 * 1024

abbrev pub max_append_chunk : ℕ
max_append_chunk = 1 * 1024 * 1024

pub record BlockingTsInput : Type 0 where
  pub buffer : List ℕ
  pub stopped : Bool
  pub given : List ℕ
  pub handed : List ℕ

abbrev pub new_input : BlockingTsInput
new_input = record { buffer = []; stopped = false; given = []; handed = [] }

-- The chunks that the loop of `append` makes of its data, for data no longer than the fuel.
unfoldable pub chunks : ℕ → List ℕ → List (List ℕ)
chunks zero bytes = []
chunks (suc fuel) [] = []
chunks (suc fuel) (b ∷ bytes) =
    take max_append_chunk (b ∷ bytes) ∷ chunks fuel (drop max_append_chunk (b ∷ bytes))

-- What `append` waits for before a chunk, and what it then does.
abbrev pub append_ready : List ℕ → BlockingTsInput → Bool
append_ready chunk s = s.stopped || leb (length s.buffer + length chunk) max_buffered_bytes

unfoldable pub append_chunk : List ℕ → BlockingTsInput → BlockingTsInput
append_chunk chunk s =
    if s.stopped then s else record s { buffer = s.buffer ++ chunk; given = s.given ++ chunk }

-- What `read` waits for, and what it then does: `none` is the end of the stream.
abbrev pub read_ready : BlockingTsInput → Bool
read_ready s = s.stopped || not (length s.buffer == 0)

unfoldable pub read : ℕ → BlockingTsInput → BlockingTsInput × Option (List ℕ)
read size s = if s.stopped && length s.buffer == 0 then (s, none) else (
  record s { buffer = drop size s.buffer; handed = s.handed ++ take size s.buffer },
  some (take size s.buffer),
)

unfoldable pub stop : BlockingTsInput → BlockingTsInput
stop s = record s { stopped = true }

pub data Step (s : BlockingTsInput) : BlockingTsInput → Type 0 where
  appends :
      (chunk : List ℕ)
      → length chunk ≤ max_append_chunk
      → append_ready chunk s ≡ true
      → Step s (append_chunk chunk s)
  reads : (size : ℕ) → read_ready s ≡ true → Step s (read size s).0
  stops : Step s (stop s)

pub data Reach (s : BlockingTsInput) : BlockingTsInput → Type 0 where
  here : Reach s s
  next : {t u : BlockingTsInput} → Reach s t → Step t u → Reach s u

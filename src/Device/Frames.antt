-- ===== src/Device/Frames.antt =====
-- internal/device/ops.go: `parseFrames`. The reader gives the bytes of `stream` and then ends, or
-- breaks. A handler is told a frame's path, its announced size and what its reader gives; what it
-- leaves unread is drained.
pub mod Total
pub mod RoundTrip
pub mod CutOff
use ipadecrypt.Pipeline.Archive.{IoError}
use ipadecrypt.Prelude.{
  ℕ, zero, suc, ◌+◌, ◌^◌, Bool, true, false, not, ◌&&◌, ◌||◌, Option, none, some, List, [], ◌∷◌,
  ltb, leb, ◌==◌, if◌then◌else◌, length, take, drop, Bytes, big_endian,
}

-- A record as it is delivered: its path, the size that its header announces and its bytes.
pub record Frame : Type 0 where
  pub path : Bytes
  pub size : ℕ
  pub body : Bytes

pub data FrameError : Type 0 where
  read_plen read_path read_size drain_body : FrameError
  bad_plen negative_size : ℕ → FrameError
  refused : IoError → FrameError

-- How a run ends; `stuck` is fuel used up.
pub data Ending : Type 0 where
  finished stuck : Ending
  broken_by : FrameError → Ending

-- What was delivered, in order, and how the run ended.
pub record Delivered : Type 0 where
  pub frames : List Frame
  pub ending : Ending

abbrev pub ends : Ending → Delivered
ends e = record { frames = []; ending = e }

abbrev pub then_frames : Frame → Delivered → Delivered
then_frames f d = record { frames = f ∷ d.frames; ending = d.ending }

module _ (breaks : Bool) (handler : Frame → Option IoError) where
  -- `onFrame` and the drain; `rest` goes on behind the body.
  unfoldable pub deliver : Frame → Bytes → (Bytes → Delivered) → Delivered
  deliver f behind rest = elim (handler f) [
    | some e ↦ record { frames = f ∷ []; ending = broken_by (refused e) }
    | none ↦
        if breaks && ltb (length f.body) f.size
        then record { frames = f ∷ []; ending = broken_by drain_body }
        else then_frames f (rest (drop f.size behind))
  ]

  -- From `szHdr` on, behind the path.
  unfoldable pub read_body : Bytes → Bytes → (Bytes → Delivered) → Delivered
  read_body path s rest =
      let size = big_endian 0 (take 8 s) in
      if ltb (length s) 8
      then ends (broken_by read_size)
      else if leb (2 ^ 63) size
      then ends (broken_by (negative_size size))
      else deliver (record { path = path; size = size; body = take size (drop 8 s) }) (drop 8 s)
          rest

  -- One round of the loop; `rest` is the loop's next round.
  unfoldable pub frame_round : Bytes → (Bytes → Delivered) → Delivered
  frame_round s rest =
      let plen = big_endian 0 (take 4 s) in
      if length s == 0 && not breaks
      then ends finished
      else if ltb (length s) 4
      then ends (broken_by read_plen)
      else if plen == 0 || ltb 4096 plen
      then ends (broken_by (bad_plen plen))
      else if ltb (length (drop 4 s)) plen
      then ends (broken_by read_path)
      else read_body (take plen (drop 4 s)) (drop plen (drop 4 s)) rest

  -- The loop. A round takes a byte at least, so that a fuel above the stream's length is enough.
  unfoldable pub frame_loop : ℕ → Bytes → Delivered
  frame_loop zero s = ends stuck
  frame_loop (suc fuel) s = frame_round s (λ t. frame_loop fuel t)

  unfoldable pub parse_frames : Bytes → Delivered
  parse_frames s = frame_loop (suc (length s)) s

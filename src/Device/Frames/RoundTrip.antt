-- ===== src/Device/Frames/RoundTrip.antt =====
-- `parseFrames` reads back the records that the helper writes.
use ipadecrypt.Device.Frames.{
  Frame, Ending, finished, Delivered, ends, then_frames, deliver, read_body, frame_round,
  frame_loop, parse_frames,
}
use ipadecrypt.Pipeline.Archive.{IoError}
use ipadecrypt.Prelude.Text.Laws.{take_append, drop_append}
use ipadecrypt.Prelude.{
  false, ℕ, zero, suc, ◌/◌, ◌%◌, ◌^◌, ◌≤◌, ◌<◌, ◌≡◌, refl, ap, ◌∙◌, sym, Bool, false, arith, ltb,
  Option, none, List, [], ◌∷◌, ◌++◌, length, take, drop, Bytes, big_endian, length-append,
  append_assoc, append-nil, All,
}

-- The numbers that the helper writes, highest byte first.
abbrev pub big32 : ℕ → Bytes
big32 n = n / 0x1000000 % 256 ∷ n / 0x10000 % 256 ∷ n / 256 % 256 ∷ n % 256 ∷ []

abbrev pub big64 : ℕ → Bytes
big64 n = big32 (n / 0x100000000) ++ big32 n

big32_lem : (n : ℕ) → n < 2 ^ 32 → big_endian 0 (big32 n) ≡ n
unfolding big_endian
big32_lem n h = omega arith

big64_lem : (n : ℕ) → n < 2 ^ 64 → big_endian 0 (big64 n) ≡ n
unfolding big_endian
big64_lem n h = omega arith

-- What the helper writes for a record.
unfoldable pub write_frame : Frame → Bytes
write_frame f = big32 (length f.path) ++ (f.path ++ (big64 f.size ++ f.body))

unfoldable pub write_frames : List Frame → Bytes
write_frames [] = []
write_frames (f ∷ fs) = write_frame f ++ write_frames fs

write_frame-length : (f : Frame) → 12 ≤ length (write_frame f)
unfolding write_frame
write_frame-length f = omega (arith, length-append f.path (big64 f.size ++ f.body))

-- A record that the header can announce.
pub record IsFrame (f : Frame) : Type 0 where
  pub path_min : 1 ≤ length f.path
  pub path_max : length f.path ≤ 4096
  pub size_max : f.size < 2 ^ 63

-- All bytes that the header announces are there.
abbrev pub IsWhole : Frame → Type 0
IsWhole f = IsFrame f × (length f.body ≡ f.size)

pub take_all : (n : ℕ) (s : Bytes) → length s ≤ n → take n s ≡ s
take_all zero [] h = refl
take_all zero (c ∷ s) h = absurd (omega arith)
take_all (suc n) [] h = refl
take_all (suc n) (c ∷ s) h = ap (◌∷◌ c) (take_all n s (omega arith))

pub drop_all : (n : ℕ) (s : Bytes) → length s ≤ n → drop n s ≡ []
drop_all zero [] h = refl
drop_all zero (c ∷ s) h = absurd (omega arith)
drop_all (suc n) [] h = refl
drop_all (suc n) (c ∷ s) h = drop_all n s (omega arith)

module _ (breaks : Bool) (handler : Frame → Option IoError) where
  -- The part of a round behind the path.
  read_body_written :
      (path t : Bytes) (size : ℕ) (rest : Bytes → Delivered)
      → size < 2 ^ 63
      → read_body breaks handler path (big64 size ++ t) rest
        ≡ deliver breaks handler (record { path = path; size = size; body = take size t }) t rest
  unfolding read_body
  read_body_written path t size rest h = rw (big64_lem size (omega arith)) (ground arith)

  pub frame_round_written :
      (path t : Bytes) (size : ℕ) (rest : Bytes → Delivered)
      → 1 ≤ length path
      → length path ≤ 4096
      → size < 2 ^ 63
      → frame_round breaks handler (big32 (length path) ++ (path ++ (big64 size ++ t))) rest
        ≡ deliver breaks handler (record { path = path; size = size; body = take size t }) t rest
  unfolding frame_round
  frame_round_written path t size rest lo hi h =
      let fits : ltb (length (path ++ (big64 size ++ t))) (length path) ≡ false =
        ground (arith, length-append path (big64 size ++ t)) in
      rw
        (
          big32_lem (length path) (omega arith),
          fits,
          take_append path (big64 size ++ t),
          drop_append path (big64 size ++ t),
          read_body_written path t size rest h,
        )
        (ground arith)

  deliver_whole :
      (f : Frame) (t : Bytes) (rest : Bytes → Delivered)
      → IsWhole f
      → handler f ≡ none
      → deliver breaks handler
          (record { path = f.path; size = f.size; body = take f.size (f.body ++ t) })
          (f.body ++ t)
          rest
        ≡ then_frames f (rest t)
  unfolding deliver
  deliver_whole f t rest w accepts =
      let body : take f.size (f.body ++ t) ≡ f.body =
        ap (λ n. take n (f.body ++ t)) (sym w.1) ∙ take_append f.body t in
      let behind : drop f.size (f.body ++ t) ≡ t =
        ap (λ n. drop n (f.body ++ t)) (sym w.1) ∙ drop_append f.body t in
      rw (body) (ground (arith, accepts, w.1, behind))

  write_frame-append :
      (f : Frame) (t : Bytes)
      → write_frame f ++ t ≡ big32 (length f.path) ++ (f.path ++ (big64 f.size ++ (f.body ++ t)))
  unfolding write_frame
  write_frame-append f t =
      ap (λ s. big32 (length f.path) ++ s) (append_assoc f.path (big64 f.size ++ f.body) t)

  frame_round_whole :
      (f : Frame) (t : Bytes) (rest : Bytes → Delivered)
      → IsWhole f
      → handler f ≡ none
      → frame_round breaks handler (write_frame f ++ t) rest ≡ then_frames f (rest t)
  frame_round_whole f t rest w accepts =
      ap (λ s. frame_round breaks handler s rest) (write_frame-append f t)
      ∙ frame_round_written f.path (f.body ++ t) f.size rest w.0.path_min w.0.path_max w.0.size_max
      ∙ deliver_whole f t rest w accepts

  -- The records in front of what follows.
  abbrev pub add_frames : List Frame → Delivered → Delivered
  add_frames [] d = d
  add_frames (f ∷ fs) d = then_frames f (add_frames fs d)

  frame_loop_written :
      (fuel : ℕ) (fs : List Frame) (tail : Bytes) (d : Delivered)
      → All IsWhole fs
      → All (λ f. handler f ≡ none) fs
      → ((k : ℕ) → length tail < k → frame_loop breaks handler k tail ≡ d)
      → length (write_frames fs ++ tail) < fuel
      → frame_loop breaks handler fuel (write_frames fs ++ tail) ≡ add_frames fs d
  unfolding write_frames frame_loop
  frame_loop_written fuel [] tail d w a h enough = h fuel enough
  frame_loop_written zero (f ∷ fs) tail d w a h enough = absurd (omega arith)
  frame_loop_written (suc fuel) (f ∷ fs) tail d (w, ws) (a, as') h enough =
      let split : (write_frame f ++ write_frames fs) ++ tail
          ≡ write_frame f ++ (write_frames fs ++ tail) =
        append_assoc (write_frame f) (write_frames fs) tail in
      let shorter : length (write_frames fs ++ tail) < fuel = omega (
        arith,
        ap length split,
        length-append (write_frame f) (write_frames fs ++ tail),
        write_frame-length f,
      ) in
      ap (λ s. frame_round breaks handler s (λ t. frame_loop breaks handler fuel t)) split
      ∙ frame_round_whole f (write_frames fs ++ tail) (λ t. frame_loop breaks handler fuel t) w a
      ∙ ap (then_frames f) (frame_loop_written fuel fs tail d ws as' h shorter)

  add_frames_ended :
      (fs : List Frame) (e : Ending) → add_frames fs (ends e) ≡ record { frames = fs; ending = e }
  add_frames_ended [] e = refl
  add_frames_ended (f ∷ fs) e = ap (then_frames f) (add_frames_ended fs e)

-- The records of `fs` in front of `tail`, where the loop on `tail` gives `d`.
pub parse_frames_written :
    (breaks : Bool) (handler : Frame → Option IoError) (fs : List Frame) (tail : Bytes)
    (d : Delivered)
    → All IsWhole fs
    → All (λ f. handler f ≡ none) fs
    → ((k : ℕ) → length tail < k → frame_loop breaks handler k tail ≡ d)
    → parse_frames breaks handler (write_frames fs ++ tail) ≡ add_frames breaks handler fs d
unfolding parse_frames
parse_frames_written breaks handler fs tail d w a h =
    let s : Bytes = write_frames fs ++ tail in
    frame_loop_written breaks handler (suc (length s)) fs tail d w a h (omega arith)

pub frame_loop_end :
    (handler : Frame → Option IoError) (k : ℕ)
    → 0 < k
    → frame_loop false handler k [] ≡ ends finished
unfolding frame_loop frame_round
frame_loop_end handler zero h = absurd (omega arith)
frame_loop_end handler (suc k) h = refl

-- The records that the helper writes are delivered, all of them and in order, and the run ends
-- well, where the stream does not break and the handler refuses none of them.
pub parse_frames-write_frames :
    (handler : Frame → Option IoError) (fs : List Frame)
    → All IsWhole fs
    → All (λ f. handler f ≡ none) fs
    → parse_frames false handler (write_frames fs) ≡ record { frames = fs; ending = finished }
parse_frames-write_frames handler fs w a =
    ap (parse_frames false handler) (sym (append-nil (write_frames fs)))
    ∙ parse_frames_written false handler fs [] (ends finished) w a (frame_loop_end handler)
    ∙ add_frames_ended false handler fs finished

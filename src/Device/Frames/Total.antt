-- ===== src/Device/Frames/Total.antt =====
-- `parseFrames` ends.
use ipadecrypt.Device.Frames.{
  Frame, stuck, Delivered, deliver, read_body, frame_round, frame_loop, parse_frames,
}
use ipadecrypt.Pipeline.Archive.{IoError}
use ipadecrypt.Prelude.{
  ℕ, zero, suc, ◌≤◌, ◌<◌, ◌≢◌, Bool, Bool-cases, inl, inr, arith, ltb, Option, length, take, drop,
  Bytes, big_endian, length-drop,
}

module _ (breaks : Bool) (handler : Frame → Option IoError) where
  deliver_ends :
      (f : Frame) (behind : Bytes) (rest : Bytes → Delivered)
      → (rest (drop f.size behind)).ending ≢ stuck
      → (deliver breaks handler f behind rest).ending ≢ stuck
  unfolding deliver
  deliver_ends f behind rest h = ground arith

  read_body_ends :
      (path s : Bytes) (rest : Bytes → Delivered)
      → ((t : Bytes) → length t ≤ length s → (rest t).ending ≢ stuck)
      → (read_body breaks handler path s rest).ending ≢ stuck
  unfolding read_body
  read_body_ends path s rest h =
      let size = big_endian 0 (take 8 s) in
      let f : Frame = record { path = path; size = size; body = take size (drop 8 s) } in
      let shorter : length (drop size (drop 8 s)) ≤ length s =
        omega (arith, length-drop size (drop 8 s), length-drop 8 s) in
      ground (arith, deliver_ends f (drop 8 s) rest (h (drop size (drop 8 s)) shorter))

  frame_round_ends :
      (s : Bytes) (rest : Bytes → Delivered)
      → ((t : Bytes) → length t < length s → (rest t).ending ≢ stuck)
      → (frame_round breaks handler s rest).ending ≢ stuck
  unfolding frame_round
  frame_round_ends s rest h =
      let plen = big_endian 0 (take 4 s) in
      elim (Bool-cases (ltb (length s) 4)) [
        | inl cut ↦ ground arith
        | inr whole ↦
            let four : 4 ≤ length s = ground arith in
            let behind = drop plen (drop 4 s) in
            let shorter : length behind < length s =
              omega (arith, length-drop plen (drop 4 s), length-drop 4 s) in
            ground (
              arith,
              read_body_ends (take plen (drop 4 s)) behind rest
                  (λ t k. h t (omega (arith, shorter, k))),
            )
      ]

  -- With more fuel than the stream has bytes the loop does not get stuck.
  frame_loop_ends :
      (fuel : ℕ) (s : Bytes) → length s < fuel → (frame_loop breaks handler fuel s).ending ≢ stuck
  unfolding frame_loop
  frame_loop_ends zero s h = absurd (omega arith)
  frame_loop_ends (suc fuel) s h =
      frame_round_ends s (λ t. frame_loop breaks handler fuel t)
        (λ t k. frame_loop_ends fuel t (omega arith))

  -- `parseFrames` ends on every stream, whatever the handler does.
  pub parse_frames_ends : (s : Bytes) → (parse_frames breaks handler s).ending ≢ stuck
  unfolding parse_frames
  parse_frames_ends s = frame_loop_ends (suc (length s)) s (omega arith)

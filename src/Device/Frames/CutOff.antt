-- ===== src/Device/Frames/CutOff.antt =====
-- `parseFrames` takes a last record that is cut off for a whole one.
use ipadecrypt.Device.Frames.RoundTrip.{
  big32, big64, write_frames, IsFrame, IsWhole, add_frames, take_all, drop_all, frame_round_written,
  parse_frames_written, frame_loop_end,
}
use ipadecrypt.Device.Frames.{
  Frame, finished, Delivered, ends, then_frames, deliver, frame_loop, parse_frames,
}
use ipadecrypt.Pipeline.Archive.{IoError}
use ipadecrypt.Prelude.{
  false, ℕ, zero, suc, ◌≤◌, ◌<◌, ◌≡◌, refl, ap, ◌∙◌, false, arith, Option, none, List, [], ◌∷◌,
  ◌++◌, length, take, Bytes, All,
}

-- What is left of a record whose connection is closed behind the first bytes `part` of its body.
abbrev pub write_cut : Frame → Bytes → Bytes
write_cut f part = big32 (length f.path) ++ (f.path ++ (big64 f.size ++ part))

abbrev pub cut_frame : Frame → Bytes → Frame
cut_frame f part = record { path = f.path; size = f.size; body = part }

deliver_cut :
    (handler : Frame → Option IoError) (f : Frame) (part : Bytes) (rest : Bytes → Delivered)
    → length part ≤ f.size
    → handler (cut_frame f part) ≡ none
    → deliver false handler (cut_frame f (take f.size part)) part rest
      ≡ then_frames (cut_frame f part) (rest [])
unfolding deliver
deliver_cut handler f part rest short accepts =
    rw (take_all f.size part short) (ground (arith, accepts, drop_all f.size part short))

frame_loop_cut :
    (handler : Frame → Option IoError) (f : Frame) (part : Bytes)
    → IsFrame f
    → length part ≤ f.size
    → handler (cut_frame f part) ≡ none
    → (k : ℕ) → length (write_cut f part) < k
    → frame_loop false handler k (write_cut f part) ≡ then_frames (cut_frame f part) (ends finished)
unfolding frame_loop
frame_loop_cut handler f part is short accepts zero h = absurd (omega arith)
frame_loop_cut handler f part is short accepts (suc k) h =
    frame_round_written false handler f.path part f.size (λ t. frame_loop false handler k t)
      is.path_min is.path_max is.size_max
    ∙ deliver_cut handler f part (λ t. frame_loop false handler k t) short accepts
    ∙ ap (then_frames (cut_frame f part)) (frame_loop_end handler k (omega arith))

-- A last record whose body is cut off, at whatever byte of it, is delivered with the bytes that
-- came, and the run still ends well: where the stream ends without an error and the handler
-- refuses nothing, `parseFrames` does not tell a file that was transferred in part.
pub parse_frames-write_cut :
    (handler : Frame → Option IoError) (fs : List Frame) (f : Frame) (part : Bytes)
    → All IsWhole fs
    → All (λ g. handler g ≡ none) fs
    → IsFrame f
    → length part ≤ f.size
    → handler (cut_frame f part) ≡ none
    → parse_frames false handler (write_frames fs ++ write_cut f part)
      ≡ record { frames = fs ++ (cut_frame f part ∷ []); ending = finished }
parse_frames-write_cut handler fs f part w a is short accepts =
    parse_frames_written false handler fs (write_cut f part)
      (then_frames (cut_frame f part) (ends finished)) w a
      (frame_loop_cut handler f part is short accepts)
    ∙ add_frames_last fs
  where
    add_frames_last :
        (gs : List Frame)
        → add_frames false handler gs (then_frames (cut_frame f part) (ends finished))
          ≡ record { frames = gs ++ (cut_frame f part ∷ []); ending = finished }
    add_frames_last [] = refl
    add_frames_last (g ∷ gs) = ap (then_frames g) (add_frames_last gs)

-- ===== src/Tests/Device.antt =====
-- `parseFrames` of internal/device/ops.go on two small records.
use ipadecrypt.Device.Events.Tokens.{IsAttr, write_event}
use ipadecrypt.Device.Events.RoundTrip.{parse_event-write_event}
use ipadecrypt.Device.Events.{attr, parse_event}
use ipadecrypt.Prelude.Text.{codes, equal}
use ipadecrypt.Versions.Entry.{look_up}
use ipadecrypt.Versions.Screen.{put_entry}
use ipadecrypt.Device.Frames.CutOff.{write_cut, cut_frame, parse_frames-write_cut}
use ipadecrypt.Device.Frames.RoundTrip.{IsFrame, IsWhole, write_frames, parse_frames-write_frames}
use ipadecrypt.Device.Frames.Total.{parse_frames_ends}
use ipadecrypt.Device.Frames.{Frame, finished, stuck, parse_frames}
use ipadecrypt.Pipeline.Archive.{IoError}
use ipadecrypt.Prelude.{◌≡◌, ◌≢◌, refl, arith, false, Option, none, some, [], ◌∷◌, ◌++◌}

abbrev first : Frame
first = record { path = b'a' ∷ []; size = 2; body = 7 ∷ 8 ∷ [] }

abbrev second : Frame
second = record { path = b'b' ∷ []; size = 3; body = 1 ∷ 2 ∷ 3 ∷ [] }

abbrev accept : Frame → Option IoError
accept _ = none

first-IsWhole : IsWhole first
first-IsWhole =
    (record { path_min = omega arith; path_max = omega arith; size_max = omega arith }, refl)

second-IsFrame : IsFrame second
second-IsFrame = record { path_min = omega arith; path_max = omega arith; size_max = omega arith }

parse_frames-write_frames_example :
    parse_frames false accept (write_frames (first ∷ second ∷ []))
    ≡ record { frames = first ∷ second ∷ []; ending = finished }
parse_frames-write_frames_example =
    parse_frames-write_frames accept (first ∷ second ∷ [])
      (first-IsWhole, ((second-IsFrame, refl), tt)) (refl, (refl, tt))

parse_frames-write_cut_example :
    parse_frames false accept (write_frames (first ∷ []) ++ write_cut second (1 ∷ []))
    ≡ record { frames = first ∷ cut_frame second (1 ∷ []) ∷ []; ending = finished }
parse_frames-write_cut_example =
    parse_frames-write_cut accept (first ∷ []) second (1 ∷ []) (first-IsWhole, tt) (refl, tt)
      second-IsFrame (omega arith) refl

parse_frames_ends_example : (parse_frames false accept (1 ∷ 2 ∷ [])).ending ≢ stuck
parse_frames_ends_example = parse_frames_ends false accept (1 ∷ 2 ∷ [])

started : IsAttr (codes "event", codes "start")
started = (
  (
    λ e. cc,
    (refl, (refl, (refl, (refl, (refl, tt))))),
    (refl, (refl, (refl, (refl, (refl, tt))))),
    (refl, (refl, (refl, (refl, (refl, tt))))),
  ),
  (refl, (refl, (refl, (refl, (refl, tt))))),
)

named : IsAttr (codes "name", codes "a b")
named = (
  (
    λ e. cc,
    (refl, (refl, (refl, (refl, tt)))),
    (refl, (refl, (refl, (refl, tt)))),
    (refl, (refl, (refl, (refl, tt)))),
  ),
  (refl, (refl, (refl, tt))),
)

parse_event-write_event_example :
    parse_event (write_event ((codes "event", codes "start") ∷ (codes "name", codes "a b") ∷ []))
    ≡ some (record {
      name = codes "start";
      attrs = (codes "event", codes "start") ∷ (codes "name", codes "a b") ∷ [];
    })
unfolding attr put_entry look_up equal
parse_event-write_event_example =
    parse_event-write_event (codes "event", codes "start") ((codes "name", codes "a b") ∷ [])
      started (named, tt)

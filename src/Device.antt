-- ===== src/Device.antt =====
-- internal/device: what comes back from the device. Frames is the stream of Mach-O records of
-- ops.go, and Events the event lines of events.go.
pub mod Frames
pub mod Events

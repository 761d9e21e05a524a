-- ===== src/Versions.antt =====
-- cmd/ipadecrypt/versions_tui.go and versions.go: the table of an app's versions. Semver reads and
-- writes version numbers, Guess predicts those of the rows not fetched yet, Screen is the table and
-- its keys, Fetching the two workers and their channels, Entry and Cache the versions kept in a file.
pub mod Semver
pub mod Guess
pub mod Entry
pub mod Cache
pub mod Rows
pub mod Screen
pub mod Tally
pub mod Keys
pub mod Fetching

-- ===== src/Lib.antt =====
-- ipadecrypt decrypts App Store apps on a jailbroken device and reassembles the archive on the
-- host. This library models the part that reads, rewrites and checks archives and Mach-O files, the
-- configuration file, the replacement of the executable by an update, the sign-in around calls of
-- the App Store, the download of packages, the records that come from the device and the table of
-- an app's versions.
--
-- The program's parts and the files that model them:
--
-- * internal/macho/macho.go is MachO. MachO/Encryption has `ReadEncryptionInfo` and `ReadThinCpu`,
--   MachO/Cryptid has `SliceHasCryptid`, `checkFat` and `checkThin`, MachO/Pick has `PickSlice` and
--   `pickFatSlice`. MachO/Commands and MachO/Cryptid/Fat describe load commands and fat entries
--   without the loops. The modules below these prove the parsers right.
-- * internal/pipeline/verify.go is Pipeline/Compare (`compareMachOSlice`, `cryptZeroed`,
--   `isAllZero`) and Pipeline/Verify (`Verify`, `readMachO`, `VerifyResult`). `Verify` calls the
--   parsers of MachO on every entry of the output and of the source.
-- * internal/pipeline/assemble.go is Pipeline/Assemble (`Assemble`).
-- * internal/pipeline/patch.go is Pipeline/Install (`PatchForInstall`), Pipeline/Patch
--   (`planInfoPlist` and its helpers), Pipeline/Version (`cmpVer`), Pipeline/Info (`AppInfo`,
--   `MainExecSHA256`) and Pipeline/Cleanup (`rewriteIPA`, `rewriteIPAKnown`, `CleanupIPA`,
--   `StripMetadata`, `StripWatch`).
-- * internal/config/config.go is Config (`Config`, `NormalizeOutputKeep`, `Load`, `LoadReadOnly`,
--   `Save` and the migration); Config/Files proves what they leave in the file.
-- * internal/updater/self_update.go is Updater (`replaceExecutable`, `rollbackExecutable`, the names
--   and `verifySHA256`).
-- * internal/appstoreworkflow/auth.go is Workflow (`LoginAndSave`, `Reauth`, `AcquireLicense`,
--   `WithAuth`). It saves the configuration with Config's `save`.
-- * `parseFrames` of internal/device/ops.go is Device/Frames, and internal/device/events.go is
--   Device/Events (`ParseEvent`).
-- * cmd/ipadecrypt/versions_tui.go is Versions: Semver (`parseSemver3`), Guess
--   (`monotonicVersionFill`), Rows (`rebuildPredictions`), Screen and Keys (the table and
--   `handleInput`), Fetching (the loops of `runVersionsUI`, the fetch workers and the channels).
--   Versions/Entry and Versions/Cache are the cache of cmd/ipadecrypt/versions.go.
-- * internal/appstore/download.go is Download (`fetchToFile`), Download/Package (`applyPatches`) and
--   Download/Package/Complete (`CompleteDownload`, with Contents telling what a package holds, and `fetchRemoteEncryptedSource` of
--   cmd/ipadecrypt/decrypt.go, which calls it for a file of the cache).
-- * cmd/ipadecrypt/keep.go is Keep (`keepOptions`).
-- * The tests on entry names, which all of these share, are in Pipeline/Paths.
-- * Prelude has lists, texts, uint64 sums and Go ints, Slice has Go's byte slices, Outcome has the
--   results of functions that can fail or panic, and Pipeline/Archive has what archive/zip hands
--   out. Tests runs the definitions on small files and archives.
--
-- How the state corresponds: a byte slice is a window of its backing array, so a cut may reach up
-- to the capacity, and a cut out of range panics. An archive is the list of its entries, each with
-- the result of reading it. The disk of a rewrite is the archive and the temporary file beside it.
-- The calls of the file system and of the zip writer fail where an argument of the model says so.
-- The packages howett.net/plist and encoding/json are parameters, and so are the callback of
-- `Assemble`, the hash, the client and the servers of the App Store, the handler of records and the
-- answers of the fetches. The table's loop and its workers are one step relation, whose state holds
-- both channels.
--
-- Numbers: uint64 sums are taken modulo 2 ^ 64 wherever the code makes them on data of the file;
-- sums of an int that stay below 2 ^ 63 on every slice are plain sums. Every loop is a structural
-- recursion, over the list it ranges over or over the count of rounds left, but for `parseFrames`,
-- whose fuel is the length of the stream and one more: a round takes a byte at least, and for
-- `strings.TrimSpace` likewise. The digits of a number are written with a fuel of 20, which every
-- number of 64 bits stays below.
--
-- Not modelled: the texts of errors, the zip headers that are passed on with an entry, debug
-- output, drawing on the terminal, and the rest of the parts of the repository that talk to the
-- device, the App Store, GitHub or the terminal (internal/appstore, internal/device, internal/tui,
-- cmd and internal/updater), nor the C and Objective-C code (helper, app).
pub mod Config
pub mod Device
pub mod Download
pub mod Keep
pub mod MachO
pub mod Outcome
pub mod Pipeline
pub mod Prelude
pub mod Slice
pub mod Tests
pub mod Updater
pub mod Versions
pub mod Workflow

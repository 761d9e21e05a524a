-- ===== src/Tests/Versions.antt =====
-- The versions table of cmd/ipadecrypt/versions_tui.go and the cache entries of versions.go.
use ipadecrypt.Versions.Cache.{VersionsCache, CacheJson, CacheDisk, entries_of, SaveFaults}
use ipadecrypt.Versions.Entry.{float, items, text, CachedVersion}
use ipadecrypt.Prelude.Int.{pos}
use ipadecrypt.Prelude.Text.{codes, split}
use ipadecrypt.Prelude.{
  ◌≡◌, refl, ◌++◌, arith, false, if◌then◌else◌, ◌==◌, inl, Option, none, some, List, [], ◌∷◌, map,
  length, Bytes,
}
use ipadecrypt.Versions.Fetching.Settles.{Runs, Reachable-settles}
use ipadecrypt.Versions.Fetching.{State, start, started}
use ipadecrypt.Versions.Guess.Falls.{Falls}
use ipadecrypt.Versions.Guess.Sampled.{monotonic_version_fill-Falls}
use ipadecrypt.Versions.Guess.{version, show_guess, monotonic_version_fill}
use ipadecrypt.Versions.Keys.Picks.{Shown}
use ipadecrypt.Versions.Keys.Shown.{handle_input-Shown}
use ipadecrypt.Versions.Keys.{handle_input}
use ipadecrypt.Versions.Rows.{row_unfetched, Row}
use ipadecrypt.Versions.Screen.{FetchResult, Ui, mem, has_pending}
use ipadecrypt.Versions.Semver.{
  Semver, component, in_range, next_component, parse_parts, parse_semver3,
}
use ipadecrypt.Pipeline.Version.{digits, number}

abbrev no_version : CachedVersion
no_version = record {
  fetched_at = 0;
  display_version = [];
  bundle_version = [];
  supported_devices = [];
  minimum_os_version = [];
  release_date = 0;
  raw = none;
}

abbrev old_entry : CachedVersion
old_entry = record no_version {
  raw = some (
      (codes "bundleShortVersionString", text (codes "5.1"))
      ∷ (codes "softwareSupportedDeviceIds", items (float (pos 2) ∷ []))
      ∷ []);
}

newest : parse_semver3 (codes "5.4.2") ≡ some (version 5 4 2)
unfolding parse_semver3 parse_parts next_component split component in_range number digits
newest = refl

oldest : parse_semver3 (codes "5.1") ≡ some (version 5 1 0)
unfolding parse_semver3 parse_parts next_component split component in_range number digits
oldest = refl

monotonic_version_fill-Falls_example :
    (guesses : List (Option Semver)) × (monotonic_version_fill (codes "5.4.2") (codes "5.1") 3
      ≡ map show_guess guesses)
    × (length guesses ≡ 3)
    × Falls (version 5 4 2) guesses (version 5 1 0)
monotonic_version_fill-Falls_example =
    monotonic_version_fill-Falls (codes "5.4.2") (codes "5.1") (version 5 4 2) (version 5 1 0) 3
      newest oldest (refl, inl (omega arith)) (omega arith) (omega arith)

abbrev row : Bytes → Row
row id = record {
  ext_ver_id = id;
  state = row_unfetched;
  meta = no_version;
  err_msg = [];
  predicted = [];
}

abbrev table : Ui
table = record {
  cache = [];
  saved = [];
  rows = row (codes "2") ∷ row (codes "1") ∷ [];
  cursor = pos 0;
  offset = pos 0;
  queued = [];
  selection_limit = pos 1;
  selected = [];
  finished = false;
  aborted = false;
}

abbrev refused : Bytes → FetchResult
refused id = record {
  ext_ver_id = id;
  meta = record {
    external_version_id = id;
    display_version = [];
    bundle_version = [];
    supported_devices = [];
    release_date = 0;
    raw = none;
  };
  min_os = [];
  err = some (codes "no network");
}

Reachable-settles_example : (t : State) × Runs (start table) t × (has_pending t.ui ≡ false)
Reachable-settles_example =
    Reachable-settles table (start table) 0 refused refl (omega arith) started (λ id. refl)

table-Shown : Shown table
table-Shown = record {
  cursor_in = λ h. (0, refl, omega arith);
  picked = record { in_table = λ a. unfold mem in (λ h. cc); single = λ h. omega arith };
}

handle_input-Shown_example : Shown (handle_input 24 (b'd' ∷ []) table).ui
handle_input-Shown_example = handle_input-Shown 24 (b'd' ∷ []) table table-Shown

abbrev stored : VersionsCache
stored = record {
  bundle_id = codes "b";
  updated_at = 1;
  versions = some ((codes "1", old_entry) ∷ []);
}

abbrev filled : VersionsCache
filled = record stored {
  versions = some (
      (
        codes "1",
        record old_entry { display_version = codes "5.1"; supported_devices = pos 2 ∷ [] },
      )
      ∷ []);
}

-- Fetched, with the version in `Raw` alone.
abbrev fetched : List (Bytes × CachedVersion)
fetched = (codes "2", record old_entry { fetched_at = 7 }) ∷ []

abbrev saved_at : VersionsCache
saved_at = record filled { updated_at = 9; versions = some (entries_of filled.versions ++ fetched) }

abbrev unmarshal : Bytes → Option VersionsCache
unmarshal [] = none
unmarshal (c ∷ bs) = if c == 1 then some stored else some saved_at

abbrev cache_json : CacheJson
cache_json = record { unmarshal = unmarshal; marshal = λ c. some (2 ∷ []) }

abbrev no_faults : SaveFaults
no_faults = record {
  mkdir = none;
  open_tmp = none;
  write = none;
  part = [];
  sync = none;
  close = none;
  rename = none;
}

abbrev cache_disk : CacheDisk
cache_disk = record { file = some (1 ∷ []); tmp = none }

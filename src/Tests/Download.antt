-- ===== src/Tests/Download.antt =====
-- `CompleteDownload` of internal/appstore/download.go on a server with a file of three bytes.
use ipadecrypt.Download.Package.Complete.{
  download_to, settle_fetch, settle_patch, remove_temporary, Place, not_patched, DownloadFaults,
  Completed, Ticket, complete_download, set_place, cached, fetch_remote_encrypted_source,
}
use ipadecrypt.Download.Package.Contents.{IsPackage}
use ipadecrypt.Download.Package.Partial.{BreaksOff, fetch_remote-complete_download}
use ipadecrypt.Download.Package.Sealed.{complete_download-Seals}
use ipadecrypt.Download.Package.{
  apply_patches, seal, write_package, copy_all, copy_zip_entry, write_one, write_metadata_entry,
  inject, read_bundle_name, find_entry, is_info, contains, inject_sinfs, is_manifest,
  without_manifest, with_plist, write_first_sinf, PlistCalls, Packed, no_bundle, absent, ipa,
}
use ipadecrypt.Download.Copies.{Resumes}
use ipadecrypt.Download.Resumes.{Serves, fetch_to_file-Resumes, fetch_to_file-stays_stuck}
use ipadecrypt.Download.{
  request_rest, receive, copy_body, write_at, Response, FetchFaults, fetch_to_file, existing,
}
use ipadecrypt.Pipeline.Archive.{Entry, Opened, readable, archive}
use ipadecrypt.Prelude.Int.{pos}
use ipadecrypt.Prelude.Text.{codes, equal, has_prefix, has_suffix}
use ipadecrypt.Prelude.{
  ℕ, ◌<◌, ◌==◌, ◌≡◌, ◌≢◌, refl, arith, false, true, ltb, if◌then◌else◌, Option, none, some, List,
  [], ◌∷◌, drop, Bytes,
}

abbrev file : Bytes
file = 1 ∷ 2 ∷ 3 ∷ []

-- A server that answers to ranges inside the file.
abbrev answer : ℕ → Response
answer k =
    if k == 0
    then record { status = 200; body = file }
    else if ltb k 3
    then record { status = 206; body = drop k file }
    else record { status = 416; body = [] }

whole : (k : ℕ) → (answer k).status ≡ 200 → (answer k).body ≡ file
whole k h = ground (arith, h)

rest : (k : ℕ) → 0 < k → (answer k).status ≡ 206 → (answer k).body ≡ drop k file
rest k h e = ground (arith, h, e)

answer-Serves : Serves answer file
answer-Serves = record { whole = whole; rest = rest }

abbrev fine : FetchFaults
fine = record {
  open_file = none;
  stat_fails = false;
  request = none;
  send = none;
  seek = none;
  truncate = none;
  cut = none;
}

fetch_to_file-Resumes_example : Resumes file (fetch_to_file fine answer (some (1 ∷ [])))
fetch_to_file-Resumes_example =
    fetch_to_file-Resumes fine answer (some (1 ∷ [])) file answer-Serves (2 ∷ 3 ∷ [], refl)

fetch_to_file-stays_stuck_example :
    ((fetch_to_file fine answer (some file)).file ≡ some file)
    × ((fetch_to_file fine answer (some file)).error ≢ none)
fetch_to_file-stays_stuck_example = fetch_to_file-stays_stuck fine answer file refl refl

abbrev plist : PlistCalls
plist = record {
  marshal = λ m. some (7 ∷ []);
  sinf_paths = λ bs. none;
  executable = λ bs. some (codes "x");
}

abbrev faults : DownloadFaults
faults = record {
  no_account = false;
  stat = none;
  fetch = fine;
  patch = record { open_dst = none; write = λ n. none; close_writer = none };
  remove = none;
}

abbrev no_entries : Bytes → Opened
no_entries bs = archive []

abbrev ticket : Ticket
ticket = record {
  version = codes "1";
  server = answer;
  metadata = [];
  sinfs = record { id = pos 1; blob = 5 ∷ [] } ∷ [];
}

abbrev empty : Place
empty = record { dst = absent; tmp = none }

abbrev wrote : List Packed
wrote = record { name = codes "iTunesMetadata.plist"; content = 7 ∷ [] } ∷ []

breaks_off : BreaksOff plist no_entries faults (codes "a@b") ticket empty wrote no_bundle
unfolding fetch_to_file request_rest receive copy_body write_at write_package copy_all
    write_metadata_entry write_one inject read_bundle_name find_entry
breaks_off = record {
  tmp = file;
  entries = [];
  stat_ok = refl;
  no_dir = refl;
  fetched = refl;
  opened = refl;
  created = refl;
  broken_off = refl;
}

abbrev path_of : Bytes → Option Bytes
path_of v = some (codes "p")

abbrev failed : Completed
failed = complete_download plist no_entries faults (codes "a@b") (codes "p") ticket empty

fetch_remote-complete_download_example :
    (failed.error ≡ some (not_patched no_bundle))
    × ((set_place (codes "p") failed.place (λ _. empty) (codes "p")).dst ≡ ipa wrote false)
    × (fetch_remote_encrypted_source plist no_entries faults
          (codes "a@b")
          path_of
          (codes "1")
          []
          none
          (set_place (codes "p") failed.place (λ _. empty))
        ≡ record {
          disk = set_place (codes "p") failed.place (λ _. empty);
          source = some (codes "p", cached);
        })
fetch_remote-complete_download_example =
    fetch_remote-complete_download plist no_entries faults (codes "a@b") path_of (codes "1") b'p' []
      ticket none (λ _. empty) wrote no_bundle breaks_off refl

abbrev one_app : Bytes → Opened
one_app bs = archive (
    record { name = codes "Payload/A.app/Info.plist"; is_dir = false; content = readable (9 ∷ []) }
    ∷ [])

succeeds :
    (complete_download plist one_app faults (codes "a@b") (codes "p") ticket empty).error ≡ none
unfolding complete_download download_to settle_fetch fetch_to_file request_rest receive copy_body
    write_at settle_patch apply_patches seal write_package copy_all copy_zip_entry write_one
    write_metadata_entry inject read_bundle_name find_entry is_info contains has_prefix equal
    inject_sinfs is_manifest has_suffix without_manifest with_plist write_first_sinf
    remove_temporary
succeeds = refl

complete_download-Seals_example :
    let f = fetch_to_file fine answer none in
    let left =
      (complete_download plist one_app faults (codes "a@b") (codes "p") ticket empty).place in
    (f.error ≡ none)
    × (left.tmp ≡ none)
    × ((fs : List Entry) × (ws : List Packed) × (one_app (existing f.file) ≡ archive fs)
        × (left.dst ≡ ipa ws true)
        × IsPackage plist (codes "a@b") [] ticket.sinfs fs ws)
complete_download-Seals_example =
    complete_download-Seals plist one_app faults (codes "a@b") (codes "p") ticket empty succeeds

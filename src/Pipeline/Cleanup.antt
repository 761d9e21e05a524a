-- ===== src/Pipeline/Cleanup.antt =====
-- internal/pipeline/patch.go: `rewriteIPA`, `rewriteIPAKnown`, `CleanupIPA`, `cleanupEntryKind`,
-- `StripMetadata` and `StripWatch`. The disk holds the archive and the temporary file beside it;
-- whether a call of the file system or of the zip writer fails is the argument `faults`.
-- `CleanupOptions.Debug` only receives texts and is left out.
pub mod Atomic
pub mod Clean
pub mod Leaves
pub mod Succeeds
use ipadecrypt.Pipeline.Archive.{IoError, Entry}
use ipadecrypt.Pipeline.Paths.{is_watch_path}
use ipadecrypt.Prelude.Text.{codes, base, equal_fold}
use ipadecrypt.Prelude.{
  ℕ, ◌+◌, Bool, true, false, not, ◌&&◌, ◌||◌, Option, none, some, List, [], ◌∷◌, ◌++◌, ltb, ◌==◌,
  if◌then◌else◌, Bytes,
}

-- The archive at `ipaPath` (none: no readable archive) and the file at `ipaPath + ".tmp"`.
pub record Disk : Type 0 where
  pub ipa : Option (List Entry)
  pub tmp : Option (List Entry)

-- What fails. `reopen_reader` is about the opening in `rewriteIPAKnown`, and `remove_fails` is about the removal of the temporary file, whose error is dropped.
pub record Faults : Type 0 where
  pub open_reader : Option IoError
  pub reopen_reader : Option IoError
  pub close_reader : Option IoError
  pub open_tmp : Option IoError
  pub copy : Entry → Option IoError
  pub close_zip : Option IoError
  pub close_file : Option IoError
  pub rename : Option IoError
  pub remove_fails : Bool

-- A Go result: the new disk with a value, or with an error.
pub data Done {ℓ} (A : Type ℓ) : Type ℓ where
  done : Disk → A → Done A
  failed : Disk → IoError → Done A

-- The error of an archive that is not there or cannot be read.
abbrev pub no_archive : IoError
no_archive = 0

-- `zip.OpenReader(ipaPath)`.
unfoldable pub with_reader : Option IoError → Disk → (List Entry → Done ℕ) → Done ℕ
with_reader fault disk k = elim fault [
  | some e ↦ failed disk e
  | none ↦ elim disk.ipa [ none ↦ failed disk no_archive | some entries ↦ k entries ]
]

-- `cleanup()`.
unfoldable pub remove_tmp : Faults → Disk → Disk
remove_tmp faults disk = if faults.remove_fails then disk else record disk { tmp = none }

-- The loop over the entries: what is written so far and the count of dropped entries, or the first
-- error of `copyEntry`.
pub data Copied : Type 0 where
  copied : List Entry → ℕ → Copied
  copy_failed : List Entry → IoError → Copied

unfoldable pub copy_entries :
    (Entry → Option IoError) → (Bytes → Bool) → List Entry → ℕ → List Entry → Copied
copy_entries copy skip written removed [] = copied written removed
copy_entries copy skip written removed (f ∷ fs) =
    let dropped = copy_entries copy skip written (removed + 1) fs in
    let kept = copy_entries copy skip (written ++ f ∷ []) removed fs in
    if skip f.name then dropped else elim (copy f) [ some e ↦ copy_failed written e | none ↦ kept ]

-- `w.Close()`, `out.Close()` and `os.Rename`, with the archive written.
unfoldable pub commit : Faults → Disk → List Entry → ℕ → Done ℕ
commit faults disk written removed = elim faults.close_zip [
  | some e ↦ failed (remove_tmp faults disk) e
  | none ↦ elim faults.close_file [
    | some e ↦ failed (remove_tmp faults disk) e
    | none ↦ elim faults.rename [
      | some e ↦ failed disk e
      | none ↦ done (record disk { ipa = some written; tmp = none }) removed
    ]
  ]
]

-- The temporary file is open and holds what is written.
unfoldable pub fill_tmp : Faults → Disk → Copied → Done ℕ
fill_tmp faults disk (copy_failed written e) =
    failed (remove_tmp faults (record disk { tmp = some written })) e
fill_tmp faults disk (copied written removed) =
    commit faults (record disk { tmp = some written }) written removed

unfoldable pub rewrite_ipa_known : Faults → (Bytes → Bool) → Disk → Done ℕ
rewrite_ipa_known faults skip disk = with_reader faults.reopen_reader disk λ entries.
    elim faults.open_tmp [
      | some e ↦ failed disk e
      | none ↦ fill_tmp faults disk (copy_entries faults.copy skip [] 0 entries)
    ]

unfoldable pub count_skipped : (Bytes → Bool) → List Entry → ℕ
count_skipped skip [] = 0
count_skipped skip (f ∷ fs) = (if skip f.name then 1 else 0) + count_skipped skip fs

unfoldable pub rewrite_ipa : Faults → (Bytes → Bool) → Disk → Done ℕ
rewrite_ipa faults skip disk = with_reader faults.open_reader disk λ entries.
    elim faults.close_reader [
      | some e ↦ failed disk e
      | none ↦
          if count_skipped skip entries == 0
          then done disk 0
          else rewrite_ipa_known faults skip disk
    ]

pub record CleanupOptions : Type 0 where
  pub strip_metadata : Bool
  pub strip_watch : Bool

pub record CleanupResult : Type 0 where
  pub metadata_removed : Bool
  pub watch_removed : ℕ
  pub entries_scanned : ℕ
  pub removed_entries : ℕ
  pub rewritten : Bool

abbrev pub empty_cleanup : CleanupResult
empty_cleanup = record {
  metadata_removed = false;
  watch_removed = 0;
  entries_scanned = 0;
  removed_entries = 0;
  rewritten = false;
}

pub data CleanupEntry : Type 0 where
  keep metadata watch : CleanupEntry

unfoldable pub is_metadata : Bytes → Bool
is_metadata name = equal_fold (base name) (codes "iTunesMetadata.plist")

unfoldable pub cleanup_entry_kind : Bytes → CleanupOptions → CleanupEntry
cleanup_entry_kind name opts =
    if opts.strip_metadata && is_metadata name
    then metadata
    else if opts.strip_watch && is_watch_path name
    then watch
    else keep

-- One round of the scan.
unfoldable pub scan_entry : CleanupResult → CleanupEntry → CleanupResult
scan_entry res keep = record res { entries_scanned = res.entries_scanned + 1 }
scan_entry res metadata = record res {
  entries_scanned = res.entries_scanned + 1;
  metadata_removed = true;
  removed_entries = res.removed_entries + 1;
}
scan_entry res watch = record res {
  entries_scanned = res.entries_scanned + 1;
  watch_removed = res.watch_removed + 1;
  removed_entries = res.removed_entries + 1;
}

unfoldable pub scan_entries : CleanupOptions → CleanupResult → List Entry → CleanupResult
scan_entries opts res [] = res
scan_entries opts res (f ∷ fs) =
    scan_entries opts (scan_entry res (cleanup_entry_kind f.name opts)) fs

-- The function that `CleanupIPA` hands to the rewrite.
unfoldable pub is_dropped : CleanupOptions → Bytes → Bool
is_dropped opts name = elim (cleanup_entry_kind name opts) [ keep ↦ false | _ ↦ true ]

-- Where the scan fails, the counts so far are returned beside the error; here an error stands alone.
unfoldable pub with_value : CleanupResult → Done ℕ → Done CleanupResult
with_value res (done disk n) = done disk res
with_value res (failed disk e) = failed disk e

-- The scan's result decides on the rewrite.
unfoldable pub cleanup_scanned : Faults → CleanupOptions → Disk → CleanupResult → Done CleanupResult
cleanup_scanned faults opts disk res =
    if not res.metadata_removed && res.watch_removed == 0
    then done disk res
    else with_value (record res { rewritten = true })
        (rewrite_ipa_known faults (is_dropped opts) disk)

-- `CleanupIPA` behind the opening of the archive.
unfoldable pub cleanup_entries : Faults → CleanupOptions → Disk → List Entry → Done CleanupResult
cleanup_entries faults opts disk entries = elim faults.close_reader [
  | some e ↦ failed disk e
  | none ↦ cleanup_scanned faults opts disk (scan_entries opts empty_cleanup entries)
]

unfoldable pub cleanup_ipa : Faults → CleanupOptions → Disk → Done CleanupResult
cleanup_ipa faults opts disk =
    if not opts.strip_metadata && not opts.strip_watch
    then done disk empty_cleanup
    else elim faults.open_reader [
      | some e ↦ failed disk e
      | none ↦ elim disk.ipa [
        | none ↦ failed disk no_archive
        | some entries ↦ cleanup_entries faults opts disk entries
      ]
    ]

-- `return n > 0, err`.
unfoldable pub any_removed : Done ℕ → Done Bool
any_removed (done disk n) = done disk (ltb 0 n)
any_removed (failed disk e) = failed disk e

unfoldable pub strip_metadata : Faults → Disk → Done Bool
strip_metadata faults disk = any_removed (rewrite_ipa faults is_metadata disk)

unfoldable pub strip_watch : Faults → Disk → Done ℕ
strip_watch faults disk = rewrite_ipa faults is_watch_path disk

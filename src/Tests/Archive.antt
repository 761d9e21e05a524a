-- ===== src/Tests/Archive.antt =====
-- The rewrites of internal/pipeline/patch.go and assemble.go on a small archive.
use ipadecrypt.Outcome.{ok}
use ipadecrypt.Pipeline.Archive.{IoError, Entry, archive, readable, read_all}
use ipadecrypt.Pipeline.Assemble.{
  Substitute, OutEntry, created, raw, has_name, write, fill, copy_rest, close_writer, assemble,
}
use ipadecrypt.Pipeline.Assemble.Exact.{assemble_exact, substituted, substituted_names, forwarded}
use ipadecrypt.Pipeline.Cleanup.{
  Disk, Done, done, failed, with_reader, copy_entries, commit, fill_tmp, rewrite_ipa_known,
  count_skipped, rewrite_ipa, CleanupOptions, CleanupResult, is_metadata, cleanup_entry_kind,
  scan_entry, scan_entries, is_dropped, with_value, cleanup_scanned, cleanup_entries, cleanup_ipa,
}
use ipadecrypt.Pipeline.Cleanup.Atomic.{Replaces, rewrite_ipa_known-Replaces}
use ipadecrypt.Pipeline.Cleanup.Leaves.{LeavesTmp, RenameFails, rewrite_ipa_known-LeavesTmp_iff}
use ipadecrypt.Pipeline.Cleanup.Clean.{cleanup_ipa_idem}
use ipadecrypt.Pipeline.Cleanup
use ipadecrypt.Pipeline.Assemble
use ipadecrypt.Pipeline.Paths.{is_watch_path, is_excluded_ipa_entry, any_excluded, excluded_segment}
use ipadecrypt.Pipeline.Assemble.Succeeds.{assemble_succeeds}
use ipadecrypt.Prelude.{
  ◌++◌, ◌≡◌, ◌↔◌, refl, true, false, Option, none, some, List, [], ◌∷◌, Bytes, ◌++◌,
}
use ipadecrypt.Prelude.Text.{
  codes, equal, split, base, equal_fold, has_suffix, has_prefix, trim_suffix,
}

abbrev of_name : Bytes → Entry
of_name name = record { name = name; is_dir = false; content = readable [] }

abbrev app_file : Entry
app_file = of_name (codes "Payload/A.app/A")

abbrev watch_file : Entry
watch_file = of_name (codes "Payload/A.app/Watch/W.app/W")

abbrev metadata_file : Entry
metadata_file = of_name (codes "iTunesMetadata.plist")

abbrev ipa : List Entry
ipa = metadata_file ∷ app_file ∷ watch_file ∷ []

abbrev disk : Disk
disk = record { ipa = some ipa; tmp = none }

abbrev no_copy_fault : Entry → Option IoError
no_copy_fault f = none

abbrev no_faults : Cleanup.Faults
no_faults = record {
  open_reader = none;
  reopen_reader = none;
  close_reader = none;
  open_tmp = none;
  copy = no_copy_fault;
  close_zip = none;
  close_file = none;
  rename = none;
  remove_fails = false;
}

abbrev rename_fault : Cleanup.Faults
rename_fault = record no_faults { rename = some 1 }

rewrite_ipa_known-Replaces_example :
    Replaces no_faults is_watch_path disk (rewrite_ipa_known no_faults is_watch_path disk)
rewrite_ipa_known-Replaces_example = rewrite_ipa_known-Replaces no_faults is_watch_path disk

no_copy_fault_lem : (f : Entry) → no_copy_fault f ≡ none
no_copy_fault_lem f = refl

rewrite_ipa_known-LeavesTmp_iff_example :
    LeavesTmp (rewrite_ipa_known rename_fault is_watch_path disk)
    ↔ RenameFails rename_fault is_watch_path disk
rewrite_ipa_known-LeavesTmp_iff_example =
    rewrite_ipa_known-LeavesTmp_iff rename_fault is_watch_path disk refl refl

abbrev both : CleanupOptions
both = record { strip_metadata = true; strip_watch = true }

abbrev clean_disk : Disk
clean_disk = record { ipa = some (app_file ∷ []); tmp = none }

abbrev cleaned : CleanupResult
cleaned = record {
  metadata_removed = true;
  watch_removed = 1;
  entries_scanned = 3;
  removed_entries = 2;
  rewritten = true;
}

cleans : cleanup_ipa no_faults both disk ≡ done clean_disk cleaned
unfolding cleanup_ipa cleanup_entries cleanup_scanned scan_entries scan_entry cleanup_entry_kind
    is_metadata equal_fold base is_watch_path has_suffix with_value rewrite_ipa_known with_reader
    fill_tmp copy_entries is_dropped commit equal split
cleans = refl

cleanup_ipa_idem_example :
    (res' : CleanupResult) × (cleanup_ipa rename_fault both clean_disk ≡ done clean_disk res')
    × (res'.removed_entries ≡ 0)
    × (res'.rewritten ≡ false)
cleanup_ipa_idem_example =
    cleanup_ipa_idem no_faults both disk clean_disk cleaned refl cleans rename_fault refl refl

abbrev no_create_fault : Bytes → Option IoError
no_create_fault name = none

abbrev no_write_faults : Assemble.Faults
no_write_faults = record { create = no_create_fault; copy = no_copy_fault; close = none }

abbrev no_error : Option IoError
no_error = none

abbrev substitutes : List Substitute
substitutes = record { name = app_file.name; content = readable (7 ∷ []) } ∷ []

assembled :
    assemble no_write_faults (archive ipa) substitutes no_error
    ≡ ok (created app_file.name (7 ∷ []) ∷ [])
unfolding assemble fill write is_excluded_ipa_entry equal trim_suffix has_prefix split any_excluded
    excluded_segment read_all copy_rest has_name close_writer
assembled = refl

assemble_exact_example :
    (no_error ≡ none)
    × (created app_file.name (7 ∷ []) ∷ []
        ≡ substituted substitutes ++ forwarded (substituted_names [] substitutes) ipa)
assemble_exact_example =
    assemble_exact no_write_faults ipa substitutes no_error (created app_file.name (7 ∷ []) ∷ [])
      assembled

is_watch : is_watch_path watch_file.name ≡ true
unfolding is_watch_path split equal has_suffix
is_watch = refl

no_create_fault_lem : (name : Bytes) → no_create_fault name ≡ none
no_create_fault_lem name = refl

no_write_faults-NoFaults : Assemble.Succeeds.NoFaults no_write_faults
no_write_faults-NoFaults = record {
  create = no_create_fault_lem;
  copy = no_copy_fault_lem;
  close = refl;
}

assemble_succeeds_example :
    assemble no_write_faults (archive ipa) substitutes none
    ≡ ok (substituted substitutes ++ forwarded (substituted_names [] substitutes) ipa)
assemble_succeeds_example =
    assemble_succeeds no_write_faults ipa substitutes no_write_faults-NoFaults ((7 ∷ [], refl), tt)

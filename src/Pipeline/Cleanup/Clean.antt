-- ===== src/Pipeline/Cleanup/Clean.antt =====
-- `CleanupIPA` leaves exactly the entries that it does not drop, and a second run finds nothing.
use ipadecrypt.Pipeline.Archive.{Entry}
use ipadecrypt.Pipeline.Cleanup.Atomic.{kept, kept-eq_self, Replaces, rewrite_ipa_known-Replaces}
use ipadecrypt.Pipeline.Cleanup.{
  Disk, Faults, Done, done, failed, count_skipped, CleanupOptions, CleanupResult, empty_cleanup,
  CleanupEntry, keep, metadata, watch, cleanup_entry_kind, scan_entry, scan_entries, is_dropped,
  with_value, cleanup_scanned, cleanup_entries, cleanup_ipa, rewrite_ipa_known,
}
use ipadecrypt.Prelude.{
  ℕ, ◌+◌, ◌≡◌, inl, inr, refl, Bool, true, false, not, ◌&&◌, ◌||◌, arith, none, some, List, [], ◌∷◌,
  ◌==◌, Bytes, Bool-cases, Option-cases, length,
}

-- The scan has found nothing to drop.
abbrev quiet : CleanupResult → Bool
quiet r = not r.metadata_removed && r.watch_removed == 0

scan_entry-quiet :
    (r : CleanupResult) (k : CleanupEntry)
    → quiet (scan_entry r k) ≡ (quiet r && elim k [ keep ↦ true | _ ↦ false ])
unfolding scan_entry
scan_entry-quiet r keep = ground arith
scan_entry-quiet r metadata = ground arith
scan_entry-quiet r watch = ground arith

scan_entries-quiet :
    (opts : CleanupOptions) (r : CleanupResult) (fs : List Entry)
    → quiet (scan_entries opts r fs) ≡ (quiet r && count_skipped (is_dropped opts) fs == 0)
unfolding scan_entries count_skipped is_dropped
scan_entries-quiet opts r [] = ground arith
scan_entries-quiet opts r (f ∷ fs) = ground (
  arith,
  scan_entries-quiet opts (scan_entry r (cleanup_entry_kind f.name opts)) fs,
  scan_entry-quiet r (cleanup_entry_kind f.name opts),
)

-- The counts of the scan.
record Counts (opts : CleanupOptions) (r : CleanupResult) (fs : List Entry) (s : CleanupResult)
    : Type 0 where
  scanned : s.entries_scanned ≡ r.entries_scanned + length fs
  removed : s.removed_entries ≡ r.removed_entries + count_skipped (is_dropped opts) fs
  not_rewritten : s.rewritten ≡ r.rewritten

scan_entries-Counts :
    (opts : CleanupOptions) (r : CleanupResult) (fs : List Entry)
    → Counts opts r fs (scan_entries opts r fs)
unfolding scan_entries scan_entry count_skipped is_dropped
scan_entries-Counts opts r [] = ground arith
scan_entries-Counts opts r (f ∷ fs) =
    ground (arith, scan_entries-Counts opts (scan_entry r (cleanup_entry_kind f.name opts)) fs)

-- A finished cleanup of the entries `fs`.
pub record Cleaned (opts : CleanupOptions) (fs : List Entry) (disk' : Disk) (res : CleanupResult)
    : Type 0 where
  pub left : disk'.ipa ≡ some (kept (is_dropped opts) fs)
  pub scanned : res.entries_scanned ≡ length fs
  pub removed : res.removed_entries ≡ count_skipped (is_dropped opts) fs
  pub rewritten : res.rewritten ≡ not (count_skipped (is_dropped opts) fs == 0)

rewritten_lem :
    (faults : Faults) (opts : CleanupOptions) (disk disk' : Disk) (fs : List Entry)
    (res : CleanupResult) (r : Done ℕ)
    → disk.ipa ≡ some fs
    → quiet (scan_entries opts empty_cleanup fs) ≡ false
    → Replaces faults (is_dropped opts) disk r
    → with_value (record (scan_entries opts empty_cleanup fs) { rewritten = true }) r
      ≡ done disk' res
    → Cleaned opts fs disk' res
unfolding with_value
rewritten_lem faults opts disk disk' fs res (done d n) here loud (es, h0, h1, h2, h3) x =
    ground
      (arith, scan_entries-quiet opts empty_cleanup fs, scan_entries-Counts opts empty_cleanup fs)
rewritten_lem faults opts disk disk' fs res (failed d e) here loud h x = absurd (ground arith)

cleanup_scanned_lem :
    (faults : Faults) (opts : CleanupOptions) (disk : Disk) (fs : List Entry) {disk' : Disk}
    {res : CleanupResult}
    → disk.ipa ≡ some fs
    → cleanup_scanned faults opts disk (scan_entries opts empty_cleanup fs) ≡ done disk' res
    → Cleaned opts fs disk' res
unfolding cleanup_scanned
cleanup_scanned_lem faults opts disk fs {disk'} {res} here e =
    let s = scan_entries opts empty_cleanup fs in
    elim (Bool-cases (quiet s)) [
      | inl nothing ↦ ground (
        arith,
        scan_entries-quiet opts empty_cleanup fs,
        scan_entries-Counts opts empty_cleanup fs,
        kept-eq_self (is_dropped opts) fs,
      )
      | inr loud ↦
          rewritten_lem faults opts disk disk' fs res
            (rewrite_ipa_known faults (is_dropped opts) disk) here loud
            (rewrite_ipa_known-Replaces faults (is_dropped opts) disk) (ground arith)
    ]

pub cleanup_ipa_cleans :
    (faults : Faults) (opts : CleanupOptions) (disk disk' : Disk) (res : CleanupResult)
    → (opts.strip_metadata || opts.strip_watch) ≡ true
    → cleanup_ipa faults opts disk ≡ done disk' res
    → (fs : List Entry) × (disk.ipa ≡ some fs) × Cleaned opts fs disk' res
unfolding cleanup_ipa cleanup_entries
cleanup_ipa_cleans faults opts disk disk' res on e = elim (Option-cases disk.ipa) [
  | inl nothing ↦ absurd (ground (arith, nothing))
  | inr (fs, here) ↦
      let scan : cleanup_scanned faults opts disk (scan_entries opts empty_cleanup fs)
          ≡ done disk' res =
        ground (arith, here) in
      (fs, here, cleanup_scanned_lem faults opts disk fs here scan)
]

count_skipped-kept : (skip : Bytes → Bool) (fs : List Entry) → count_skipped skip (kept skip fs) ≡ 0
unfolding count_skipped kept
count_skipped-kept skip [] = refl
count_skipped-kept skip (f ∷ fs) = ground (arith, count_skipped-kept skip fs)

-- Cleaning up twice is cleaning up once: where one of the two options is set and the first run
-- succeeds, a second run with the same options that can open and close the archive succeeds and leaves the disk alone, drops nothing and does not rewrite.
pub cleanup_ipa_idem :
    (faults : Faults) (opts : CleanupOptions) (disk disk' : Disk) (res : CleanupResult)
    → (opts.strip_metadata || opts.strip_watch) ≡ true
    → cleanup_ipa faults opts disk ≡ done disk' res
    → (again : Faults) → again.open_reader ≡ none
    → again.close_reader ≡ none
    → (res' : CleanupResult) × (cleanup_ipa again opts disk' ≡ done disk' res')
      × (res'.removed_entries ≡ 0)
      × (res'.rewritten ≡ false)
unfolding cleanup_ipa cleanup_entries cleanup_scanned
cleanup_ipa_idem faults opts disk disk' res on e again o c =
    let (fs, here, done_once) = cleanup_ipa_cleans faults opts disk disk' res on e in
    let left = kept (is_dropped opts) fs in
    let none_left = count_skipped-kept (is_dropped opts) fs in
    let q = scan_entries-quiet opts empty_cleanup left in
    let counts = scan_entries-Counts opts empty_cleanup left in
    (
      scan_entries opts empty_cleanup left,
      ground (arith, done_once.left, o, c, none_left, q),
      ground (arith, counts, none_left),
      ground (arith, counts, none_left),
    )

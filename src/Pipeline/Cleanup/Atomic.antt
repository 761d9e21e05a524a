-- ===== src/Pipeline/Cleanup/Atomic.antt =====
-- A rewrite replaces the archive as a whole, or leaves it as it was.
use ipadecrypt.Pipeline.Archive.{IoError, Entry}
use ipadecrypt.Pipeline.Cleanup.{
  Disk, Faults, Done, done, failed, with_reader, remove_tmp, Copied, copied, copy_failed,
  copy_entries, commit, fill_tmp, rewrite_ipa_known, count_skipped, rewrite_ipa, no_archive,
}
use ipadecrypt.Prelude.{
  ℕ, ◌+◌, ◌≡◌, inl, inr, refl, sym, ◌∙◌, subst, Bool, false, arith, Option, none, some, List, [],
  ◌∷◌, ◌++◌, ◌==◌, if◌then◌else◌, Bytes, Bool-cases, Option-cases, append-nil, append_assoc,
}

-- The entries that `skip` does not name.
unfoldable pub kept : (Bytes → Bool) → List Entry → List Entry
kept skip [] = []
kept skip (f ∷ fs) = if skip f.name then kept skip fs else f ∷ kept skip fs

-- All that the loop writes and counts, for every content of the accumulators.
copy_entries_lem :
    (copy : Entry → Option IoError) (skip : Bytes → Bool) (written : List Entry) (removed : ℕ)
    (fs : List Entry) {w : List Entry} {n : ℕ}
    → copy_entries copy skip written removed fs ≡ copied w n
    → (w ≡ written ++ kept skip fs) × (n ≡ removed + count_skipped skip fs)
unfolding copy_entries count_skipped kept
copy_entries_lem copy skip written removed [] e = rw append-nil (ground arith)
copy_entries_lem copy skip written removed (f ∷ fs) {w} {n} e = elim (Bool-cases (skip f.name)) [
  | inl dropped ↦
      let more : copy_entries copy skip written (removed + 1) fs ≡ copied w n =
        ground (arith, dropped) in
      let h = copy_entries_lem copy skip written (removed + 1) fs more in
      rw dropped (h.0, omega (arith, h.1))
  | inr stays ↦
      let more : copy_entries copy skip (written ++ f ∷ []) removed fs ≡ copied w n =
        ground (arith, stays) in
      let h = copy_entries_lem copy skip (written ++ f ∷ []) removed fs more in
      rw stays (h.0 ∙ append_assoc written (f ∷ []) (kept skip fs), omega (arith, h.1))
]

-- The archive is replaced by the entries that stay, with no temporary file left, or is as it was.
-- With `rename` and the removal of the temporary file in order, none is left on a failure either.
abbrev pub Replaces : Faults → (Bytes → Bool) → Disk → Done ℕ → Type 0
Replaces faults skip disk (done disk' n) =
    (entries : List Entry) × (disk.ipa ≡ some entries)
    × (disk'.ipa ≡ some (kept skip entries))
    × (disk'.tmp ≡ none)
    × (n ≡ count_skipped skip entries)
Replaces faults skip disk (failed disk' e) =
    (disk'.ipa ≡ disk.ipa)
    × (disk.tmp ≡ none → faults.rename ≡ none → faults.remove_fails ≡ false → disk'.tmp ≡ none)

commit-Replaces :
    (faults : Faults) (skip : Bytes → Bool) (disk : Disk) (entries : List Entry)
    → disk.ipa ≡ some entries
    → Replaces faults skip disk (
        commit faults
          (record disk { tmp = some (kept skip entries) })
          (kept skip entries)
          (count_skipped skip entries))
unfolding commit remove_tmp
commit-Replaces faults skip disk entries here = elim (Option-cases faults.close_zip) [
  | inr (e, b) ↦ rw b (ground arith, λ x y z. ground arith)
  | inl zip ↦ rw zip (elim (Option-cases faults.close_file) [
    | inr (e, b) ↦ rw b (ground arith, λ x y z. ground arith)
    | inl file ↦ rw file (elim (Option-cases faults.rename) [
      | inr (e, b) ↦ rw b (refl, λ x y z. absurd (ground arith))
      | inl fine ↦ rw fine (entries, here, refl, refl, refl)
    ])
  ])
]

fill_tmp-Replaces :
    (faults : Faults) (skip : Bytes → Bool) (disk : Disk) (entries : List Entry) (c : Copied)
    → disk.ipa ≡ some entries
    → copy_entries faults.copy skip [] 0 entries ≡ c
    → Replaces faults skip disk (fill_tmp faults disk c)
unfolding fill_tmp remove_tmp
fill_tmp-Replaces faults skip disk entries (copy_failed w e) here c =
    (ground arith, λ a b r. ground arith)
fill_tmp-Replaces faults skip disk entries (copied w n) here c =
    let h = copy_entries_lem faults.copy skip [] 0 entries c in
    let count : n ≡ count_skipped skip entries = omega (arith, h.1) in
    rw (h.0, count) (commit-Replaces faults skip disk entries here)

-- Whatever fails, `rewriteIPAKnown` replaces the archive by its entries that stay and counts the
-- others, or leaves it as it was; and unless the rename fails, or the removal of the temporary
-- file, none is left behind.
pub rewrite_ipa_known-Replaces :
    (faults : Faults) (skip : Bytes → Bool) (disk : Disk)
    → Replaces faults skip disk (rewrite_ipa_known faults skip disk)
unfolding rewrite_ipa_known with_reader
rewrite_ipa_known-Replaces faults skip disk = elim (Option-cases faults.reopen_reader) [
  | inr (e, b) ↦ unchanged e (ground (arith, b))
  | inl fine ↦ elim (Option-cases disk.ipa) [
    | inl nothing ↦ unchanged no_archive (ground (arith, fine, nothing))
    | inr (entries, here) ↦ elim (Option-cases faults.open_tmp) [
      | inr (e, b) ↦ unchanged e (ground (arith, fine, here, b))
      | inl opens ↦
          let c = copy_entries faults.copy skip [] 0 entries in
          let fills : rewrite_ipa_known faults skip disk ≡ fill_tmp faults disk c =
            ground (arith, fine, here, opens) in
          subst (Replaces faults skip disk) (sym fills)
            (fill_tmp-Replaces faults skip disk entries c here refl)
    ]
  ]
]
  where
    unchanged :
        (e : IoError)
        → rewrite_ipa_known faults skip disk ≡ failed disk e
        → Replaces faults skip disk (rewrite_ipa_known faults skip disk)
    unchanged e eq = subst (Replaces faults skip disk) (sym eq) (refl, λ x y z. x)

pub copies_fine :
    (copy : Entry → Option IoError) (skip : Bytes → Bool) (written : List Entry) (removed : ℕ)
    (fs : List Entry)
    → ((f : Entry) → copy f ≡ none)
    → copy_entries copy skip written removed fs
      ≡ copied (written ++ kept skip fs) (removed + count_skipped skip fs)
unfolding copy_entries count_skipped kept
copies_fine copy skip written removed [] fine = rw append-nil (ground arith)
copies_fine copy skip written removed (f ∷ fs) fine = elim (Bool-cases (skip f.name)) [
  | inl dropped ↦ rw dropped (ground (arith, copies_fine copy skip written (removed + 1) fs fine))
  | inr stays ↦
      rw (stays, fine f)
        (ground (
          arith,
          copies_fine copy skip (written ++ f ∷ []) removed fs fine,
          append_assoc written (f ∷ []) (kept skip fs),
        ))
]

pub kept-eq_self :
    (skip : Bytes → Bool) (fs : List Entry) → count_skipped skip fs ≡ 0 → kept skip fs ≡ fs
unfolding count_skipped kept
kept-eq_self skip [] h = refl
kept-eq_self skip (f ∷ fs) h = ground (arith, kept-eq_self skip fs)

-- `rewriteIPA` too replaces the archive as a whole or leaves it as it was; where nothing is to be
-- dropped, the archive is its own rewrite.
pub rewrite_ipa_lem :
    (faults : Faults) (skip : Bytes → Bool) (disk : Disk) {disk' : Disk} {n : ℕ}
    → rewrite_ipa faults skip disk ≡ done disk' n
    → (entries : List Entry) × (disk.ipa ≡ some entries)
      × (disk'.ipa ≡ some (kept skip entries))
      × (n ≡ count_skipped skip entries)
unfolding rewrite_ipa with_reader
rewrite_ipa_lem faults skip disk {disk'} {n} e = elim (Option-cases disk.ipa) [
  | inl nothing ↦ absurd (ground (arith, nothing))
  | inr (entries, here) ↦ elim (Bool-cases (count_skipped skip entries == 0)) [
    | inl none_skipped ↦ (entries, here, ground (arith, kept-eq_self skip entries), ground arith)
    | inr some_skipped ↦
        let known : rewrite_ipa_known faults skip disk ≡ done disk' n = ground arith in
        let r =
          subst (Replaces faults skip disk) known (rewrite_ipa_known-Replaces faults skip disk) in
        (r.0, r.1, r.2, r.4)
  ]
]

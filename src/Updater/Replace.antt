-- ===== src/Updater/Replace.antt =====
-- What becomes of the executable.
use ipadecrypt.Prelude.{
  ◌≡◌, refl, sym, ◌∙◌, arith, none, some, Bytes, if◌then◌else◌, Option-cases, inl, inr,
}
use ipadecrypt.Updater.{
  Files, ReplaceFaults, Swapped, swapped, failed, lost, remove_fresh, remove_backup, move_in,
  move_out, write_fresh, replace_executable, RollbackFaults, move_aside, restore, set_aside,
  rollback_executable,
}

-- The new executable is in place with the old one as its backup; or the old one is in place; or,
-- where the way back fails too, the old one is the backup.
abbrev pub Replaced : Files → Bytes → Swapped → Type 0
Replaced d data' (swapped d') = (d'.exe ≡ some data') × (d'.backup ≡ d.exe) × (d'.fresh ≡ none)
Replaced d data' (failed d' e) = d'.exe ≡ d.exe
Replaced d data' (lost d' e x) = d'.backup ≡ d.exe

-- Whatever fails, `replaceExecutable` installs the new executable and keeps the old one as the
-- backup, or leaves the old one in place, or, where its return fails too, keeps it as the backup.
pub replace_executable-Replaced :
    (faults : ReplaceFaults) (d : Files) (data' : Bytes)
    → Replaced d data' (replace_executable faults d data')
unfolding replace_executable write_fresh move_out move_in remove_fresh remove_backup
replace_executable-Replaced faults d data' = ground arith

replaced_files :
    (faults : ReplaceFaults) (d d' : Files) (data' : Bytes)
    → replace_executable faults d data' ≡ swapped d'
    → (d'.exe ≡ some data') × (d'.backup ≡ d.exe) × ((old : Bytes) × (d.exe ≡ some old))
unfolding replace_executable write_fresh move_out move_in remove_fresh remove_backup
replaced_files faults d d' data' e = elim (Option-cases d.exe) [
  | inl nothing ↦ absurd (ground (arith, nothing))
  | inr (old, here) ↦ (ground (arith, here), ground (arith, here), (old, here))
]

-- Where no call fails, `rollbackExecutable` after a `replaceExecutable` that succeeds brings the old
-- executable back, and leaves no backup.
pub rollback-replace :
    (faults : ReplaceFaults) (back : RollbackFaults) (d d' : Files) (data' : Bytes)
    → replace_executable faults d data' ≡ swapped d'
    → back.stat ≡ none
    → back.rename_aside ≡ none
    → back.restore ≡ none
    → (r : Files) × (rollback_executable back d' ≡ swapped r) × (r.exe ≡ d.exe) × (r.backup ≡ none)
unfolding rollback_executable set_aside restore move_aside
rollback-replace faults back d d' data' e s a r =
    let (new_exe, old_backup, (old, here)) = replaced_files faults d d' data' e in
    let backed : d'.backup ≡ some old = old_backup ∙ here in
    (
      record {
        exe = some old;
        backup = none;
        fresh = d'.fresh;
        aside = if back.remove_aside_fails then some data' else none;
      },
      ground (arith, new_exe, backed, s, a, r),
      sym here,
      refl,
    )

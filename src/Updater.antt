-- ===== src/Updater.antt =====
-- internal/updater/self_update.go: `replaceExecutable`, `rollbackExecutable`, `verifySHA256` and the
-- names, with `IsDev` of updater.go. File modes are left out. A rename of a missing file fails.
pub mod Replace
use ipadecrypt.Pipeline.Archive.{IoError}
use ipadecrypt.Prelude.Text.{codes, equal, equal_fold, has_prefix}
use ipadecrypt.Prelude.{
  Bool, true, false, not, ◌||◌, Option, none, some, List, [], ◌∷◌, ◌++◌, drop, if◌then◌else◌, Bytes,
}

-- The files at `exe`, `exe.bak`, `exe.new` and `exe.rollback` (none: no file).
pub record Files : Type 0 where
  pub exe : Option Bytes
  pub backup : Option Bytes
  pub fresh : Option Bytes
  pub aside : Option Bytes

-- What fails in `replaceExecutable`; `part` is what a failing write has written.
pub record ReplaceFaults : Type 0 where
  pub stat : Option IoError
  pub write : Option IoError
  pub part : Bytes
  pub chmod : Option IoError
  pub remove_fails : Bool
  pub remove_backup_fails : Bool
  pub rename_out : Option IoError
  pub rename_in : Option IoError
  pub rename_back : Option IoError

pub data Swapped : Type 0 where
  swapped : Files → Swapped
  failed : Files → IoError → Swapped
  lost : Files → IoError → IoError → Swapped

abbrev pub no_file : IoError
no_file = 0

unfoldable pub remove_fresh : ReplaceFaults → Files → Files
remove_fresh faults d = if faults.remove_fails then d else record d { fresh = none }

unfoldable pub remove_backup : ReplaceFaults → Files → Files
remove_backup faults d = if faults.remove_backup_fails then d else record d { backup = none }

-- `os.Rename(tmp, exe)` and what follows, with the executable moved to the backup.
unfoldable pub move_in : ReplaceFaults → Files → Swapped
move_in faults d = elim faults.rename_in [
  | none ↦ swapped (record d { exe = d.fresh; fresh = none })
  | some e ↦ elim faults.rename_back [
    | none ↦ failed (record d { exe = d.backup; backup = none }) e
    | some x ↦ lost d e x
  ]
]

-- `os.Rename(exe, backup)` and what follows.
unfoldable pub move_out : ReplaceFaults → Files → Swapped
move_out faults d = elim faults.rename_out [
  | some e ↦ failed (remove_fresh faults d) e
  | none ↦ move_in faults (record d { exe = none; backup = d.exe })
]

unfoldable pub write_fresh : ReplaceFaults → Files → Bytes → Swapped
write_fresh faults d data' = elim faults.write [
  | some e ↦ failed (record d { fresh = some faults.part }) e
  | none ↦ elim faults.chmod [
    | some e ↦ failed (remove_fresh faults (record d { fresh = some data' })) e
    | none ↦ move_out faults (remove_backup faults (record d { fresh = some data' }))
  ]
]

unfoldable pub replace_executable : ReplaceFaults → Files → Bytes → Swapped
replace_executable faults d data' = elim d.exe [
  | none ↦ failed d no_file
  | some old ↦ elim faults.stat [ some e ↦ failed d e | none ↦ write_fresh faults d data' ]
]

-- What fails in `rollbackExecutable`.
pub record RollbackFaults : Type 0 where
  pub stat : Option IoError
  pub remove_fails : Bool
  pub remove_aside_fails : Bool
  pub rename_aside : Option IoError
  pub restore : Option IoError
  pub stat_aside_fails : Bool
  pub rename_back_fails : Bool

-- `os.Rename(exe, tmp)`: an executable that is not there is no error.
unfoldable pub move_aside : Files → Files
move_aside d = elim d.exe [ none ↦ d | some old ↦ record d { exe = none; aside = some old } ]

-- The way back where the restore fails.
unfoldable pub move_back : RollbackFaults → Files → Files
move_back faults d = elim d.aside [
  | none ↦ d
  | some old ↦
      if faults.stat_aside_fails || faults.rename_back_fails
      then d
      else record d { exe = some old; aside = none }
]

-- `os.Rename(backup, exe)` and what follows.
unfoldable pub restore : RollbackFaults → Files → Swapped
restore faults d = elim faults.restore [
  | some e ↦ failed (move_back faults d) e
  | none ↦ swapped (record d {
    exe = d.backup;
    backup = none;
    aside = if faults.remove_aside_fails then d.aside else none;
  })
]

unfoldable pub set_aside : RollbackFaults → Files → Swapped
set_aside faults d = elim d.exe [
  | none ↦ restore faults d
  | some old ↦ elim faults.rename_aside [
    | some e ↦ failed d e
    | none ↦ restore faults (move_aside d)
  ]
]

unfoldable pub rollback_executable : RollbackFaults → Files → Swapped
rollback_executable faults d = elim d.backup [
  | none ↦ failed d no_file
  | some old ↦ elim faults.stat [
    | some e ↦ failed d e
    | none ↦ set_aside faults (if faults.remove_fails then d else record d { aside = none })
  ]
]

-- `backupPathFor`.
unfoldable pub backup_path_for : Bytes → Bytes
backup_path_for exe = exe ++ codes ".bak"

-- `IsDev` and `shouldInstallUpdate`.
unfoldable pub is_dev : Bytes → Bool
is_dev current = equal current [] || equal current (codes "dev")

unfoldable pub should_install_update : Bytes → Bool → Bool
should_install_update current newer = is_dev current || newer

-- `assetNameForPlatform`.
unfoldable pub asset_name_for_platform : Bytes → Bytes → Bytes → Bytes
asset_name_for_platform tag goos goarch =
    let version = if has_prefix tag (codes "v") then drop 1 tag else tag in
    let name = codes "ipadecrypt_" ++ (version ++ (b'_' ∷ (goos ++ (b'_' ∷ goarch)))) in
    if equal goos (codes "windows") then name ++ codes ".exe" else name

-- `verifySHA256`; `digest` stands for the hexadecimal SHA-256.
unfoldable pub verify_sha256 : (Bytes → Bytes) → Bytes → Bytes → Bool
verify_sha256 digest data' want = equal_fold (digest data') want

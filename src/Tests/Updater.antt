-- ===== src/Tests/Updater.antt =====
-- `replaceExecutable` and `rollbackExecutable` of internal/updater/self_update.go on small files.
use ipadecrypt.Prelude.{◌≡◌, refl, false, none, some, [], ◌∷◌}
use ipadecrypt.Updater.{
  Files, ReplaceFaults, swapped, move_in, move_out, write_fresh, remove_backup, replace_executable,
  RollbackFaults, rollback_executable,
}
use ipadecrypt.Updater.Replace.{Replaced, replace_executable-Replaced, rollback-replace}

abbrev installed : Files
installed = record { exe = some (1 ∷ []); backup = none; fresh = none; aside = none }

abbrev updated : Files
updated = record { exe = some (2 ∷ []); backup = some (1 ∷ []); fresh = none; aside = none }

abbrev calm : ReplaceFaults
calm = record {
  stat = none;
  write = none;
  part = [];
  chmod = none;
  remove_fails = false;
  remove_backup_fails = false;
  rename_out = none;
  rename_in = none;
  rename_back = none;
}

abbrev stuck : ReplaceFaults
stuck = record calm { rename_in = some 1; rename_back = some 2 }

abbrev calm_back : RollbackFaults
calm_back = record {
  stat = none;
  remove_fails = false;
  remove_aside_fails = false;
  rename_aside = none;
  restore = none;
  stat_aside_fails = false;
  rename_back_fails = false;
}

replace_executable-Replaced_example :
    Replaced installed (2 ∷ []) (replace_executable stuck installed (2 ∷ []))
replace_executable-Replaced_example = replace_executable-Replaced stuck installed (2 ∷ [])

updates : replace_executable calm installed (2 ∷ []) ≡ swapped updated
unfolding replace_executable write_fresh move_out move_in remove_backup
updates = refl

rollback-replace_example :
    (r : Files) × (rollback_executable calm_back updated ≡ swapped r)
    × (r.exe ≡ installed.exe)
    × (r.backup ≡ none)
rollback-replace_example =
    rollback-replace calm calm_back installed updated (2 ∷ []) updates refl refl refl

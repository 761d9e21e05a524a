-- ===== src/Tests/Install.antt =====
-- The Info.plist plan and `PatchForInstall` of internal/pipeline/patch.go on a small archive.
use ipadecrypt.Outcome.{Outcome, ok, err}
use ipadecrypt.Pipeline.Archive.{IoError, Entry, archive, readable, read_all}
use ipadecrypt.Pipeline.Assemble.{OutEntry, created}
use ipadecrypt.Pipeline.Install.{
  Faults, PatchResult, patched, find_plist, is_at, out_entry, patch_entries, result_of,
  close_patched, write_patched, plan_of, with_plan, patch_for_install,
}
use ipadecrypt.Pipeline.Install.Filtered.{patch_for_install_exact}
use ipadecrypt.Pipeline.Install.Described.{survivors, watch_count, InstalledFrom, with_info}
use ipadecrypt.Pipeline.Install.Succeeds.{NoFaults, patch_for_install_succeeds}
use ipadecrypt.Pipeline.Patch.{
  text, items, uint64, Dict, get, put, get_text, Plist, device_family_mismatch, PlistPlan,
  read_device_family, contains_int, min_os_key, family_key, lower_min_os, expand_family,
  finish_plan, plan_info_plist,
}
use ipadecrypt.Pipeline.Patch.Plan.{Rewrites, plan_info_plist-Rewrites}
use ipadecrypt.Pipeline.Patch.Installs.{IsInt}
use ipadecrypt.Pipeline.Paths.{is_watch_path, is_main_app_info_plist}
use ipadecrypt.Pipeline.Version.{atoi, cmp_ver}
use ipadecrypt.Pipeline.Version.Order.{
  IsPlainPart, cmp_ver-is_greater, cmp_ver_irrefl, is_greater, values,
}
use ipadecrypt.Prelude.Int.{pos, is_pos, int_eq, sub_int}
use ipadecrypt.Prelude.Text.{codes, equal, split, has_suffix}
use ipadecrypt.Prelude.{
  ℕ, ◌≡◌, refl, true, false, arith, Option, none, some, List, [], ◌∷◌, Bytes, All,
}

abbrev old_version : Bytes
old_version = codes "14.2"

abbrev new_version : Bytes
new_version = codes "16.0"

old_version-IsPlainPart : All IsPlainPart (split b'.' old_version)
unfolding split atoi
old_version-IsPlainPart = ((14, refl, omega arith), ((2, refl, omega arith), tt))

new_version-IsPlainPart : All IsPlainPart (split b'.' new_version)
unfolding split atoi
new_version-IsPlainPart = ((16, refl, omega arith), ((0, refl, omega arith), tt))

cmp_ver-is_greater_example :
    is_pos (cmp_ver new_version old_version)
    ≡ is_greater
        (values (split b'.' new_version) new_version-IsPlainPart)
        (values (split b'.' old_version) old_version-IsPlainPart)
cmp_ver-is_greater_example =
    cmp_ver-is_greater new_version old_version new_version-IsPlainPart old_version-IsPlainPart

cmp_ver_irrefl_example : is_pos (cmp_ver old_version old_version) ≡ false
cmp_ver_irrefl_example = cmp_ver_irrefl old_version old_version-IsPlainPart

-- An app for iPhones of the newer version.
abbrev info : Dict
info = (min_os_key, text new_version) ∷ (family_key, items (uint64 1 ∷ [])) ∷ []

abbrev read_info : Bytes → Option (Dict × ℕ)
read_info bs = some (info, 1)

abbrev write_info : Dict → ℕ → Outcome IoError Bytes
write_info m format = ok (9 ∷ [])

-- A property list package for this app alone.
abbrev plist : Plist
plist = record { unmarshal = read_info; marshal = write_info }

abbrev plan : PlistPlan
plan = record {
  content = some (9 ∷ []);
  min_os_changed = true;
  previous_min_os = new_version;
  device_family_expanded = true;
  previous_family = pos 1 ∷ [];
  new_family = pos 1 ∷ pos 2 ∷ [];
}

plans : plan_info_plist plist (readable []) old_version (pos 2) true ≡ ok plan
unfolding plan_info_plist read_all expand_family is_pos read_device_family get lower_min_os get_text
    equal cmp_ver split int_eq atoi sub_int put contains_int finish_plan
plans = refl

family-IsInt : All IsInt (read_device_family (get family_key info))
unfolding read_device_family get equal
family-IsInt = (omega arith, tt)

plan_info_plist-Rewrites_example : Rewrites plist info 1 old_version (pos 2) plan
plan_info_plist-Rewrites_example =
    plan_info_plist-Rewrites plist [] info 1 old_version (pos 2) true plan old_version-IsPlainPart
      (omega arith) family-IsInt refl plans

abbrev info_file : Entry
info_file = record {
  name = codes "Payload/A.app/Info.plist";
  is_dir = false;
  content = readable [];
}

abbrev watch_file : Entry
watch_file = record { name = codes "Payload/A.app/Watch/W"; is_dir = false; content = readable [] }

abbrev ipa : List Entry
ipa = info_file ∷ watch_file ∷ []

abbrev no_fault : Entry → Option IoError
no_fault f = none

abbrev no_faults : Faults
no_faults = record { mkdir = none; open_dst = none; write = no_fault; close = none }

abbrev result : PatchResult
result = record {
  min_os_changed = true;
  previous_min_os = new_version;
  watch_removed = 1;
  device_family_expanded = true;
  previous_device_family = pos 1 ∷ [];
  new_device_family = pos 1 ∷ pos 2 ∷ [];
}

abbrev new_ipa : List OutEntry
new_ipa = created info_file.name (9 ∷ []) ∷ []

patches :
    patch_for_install no_faults plist (archive ipa) old_version (pos 2) true false
    ≡ patched new_ipa result
unfolding patch_for_install with_plan plan_of find_plist is_main_app_info_plist has_suffix
    close_patched is_at out_entry patch_entries result_of write_patched is_watch_path
    plan_info_plist read_all expand_family is_pos read_device_family get lower_min_os get_text equal
    cmp_ver split int_eq atoi sub_int put contains_int finish_plan
patches = refl

patch_for_install_exact_example :
    InstalledFrom plist old_version (pos 2) true false ipa new_ipa result
patch_for_install_exact_example =
    patch_for_install_exact no_faults plist ipa old_version (pos 2) true false new_ipa result
      patches

mismatch :
    plan_info_plist plist info_file.content old_version (pos 2) false
    ≡ err (device_family_mismatch (pos 1 ∷ []) (pos 2))
unfolding plan_info_plist read_all expand_family is_pos read_device_family get lower_min_os get_text
    equal cmp_ver split int_eq atoi sub_int put contains_int finish_plan
mismatch = refl

no_fault_lem : (f : Entry) → no_fault f ≡ none
no_fault_lem f = refl

no_faults-NoFaults : NoFaults no_faults
no_faults-NoFaults = record { mkdir = refl; open_dst = refl; write = no_fault_lem; close = refl }

is_info_file : is_main_app_info_plist info_file.name ≡ true
unfolding is_main_app_info_plist split equal has_suffix
is_info_file = refl

described : InstalledFrom plist old_version (pos 2) true false ipa new_ipa result
unfolding survivors watch_count is_watch_path split equal has_suffix
described = with_info [] (watch_file ∷ []) info_file plan refl tt is_info_file plans refl refl

patch_for_install_succeeds_example :
    patch_for_install no_faults plist (archive ipa) old_version (pos 2) true false
    ≡ patched new_ipa result
patch_for_install_succeeds_example =
    patch_for_install_succeeds no_faults plist ipa old_version (pos 2) true false new_ipa result
      no_faults-NoFaults described

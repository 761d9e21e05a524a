-- ===== src/Pipeline/Install.antt =====
-- internal/pipeline/patch.go: `PatchForInstall`.
pub mod Described
pub mod Filtered
pub mod Succeeds
use ipadecrypt.Outcome.{Outcome, ok, err, panic}
use ipadecrypt.Pipeline.Archive.{IoError, Entry, Opened, unreadable, archive}
use ipadecrypt.Pipeline.Assemble.{OutEntry, created, raw}
use ipadecrypt.Pipeline.Patch.{PatchError, io, Plist, PlistPlan, empty_plan, plan_info_plist}
use ipadecrypt.Pipeline.Paths.{is_main_app_info_plist, is_watch_path}
use ipadecrypt.Prelude.Int.{ℤ}
use ipadecrypt.Prelude.{
  ℕ, ◌+◌, Bool, true, false, not, ◌&&◌, Option, none, some, List, [], ◌∷◌, ◌++◌, ◌==◌,
  if◌then◌else◌, Bytes,
}

pub record PatchResult : Type 0 where
  pub min_os_changed : Bool
  pub previous_min_os : Bytes
  pub watch_removed : ℕ
  pub device_family_expanded : Bool
  pub previous_device_family : List ℤ
  pub new_device_family : List ℤ

-- Which calls of the file system and of the zip writer fail.
pub record Faults : Type 0 where
  pub mkdir : Option IoError
  pub open_dst : Option IoError
  pub write : Entry → Option IoError
  pub close : Option IoError

-- The file at `dst` (none: as it was) with the result, or with an error.
pub data Patched : Type 0 where
  patched : List OutEntry → PatchResult → Patched
  failed : Option (List OutEntry) → PatchError → Patched
  panicked : Patched

-- `infoFile`, with its place from `i` on: the first entry of that name.
unfoldable pub find_plist : ℕ → List Entry → Option (ℕ × Entry)
find_plist i [] = none
find_plist i (f ∷ fs) = if is_main_app_info_plist f.name then some (i, f) else find_plist (i + 1) fs

unfoldable pub is_at : Option (ℕ × Entry) → ℕ → Bool
is_at none i = false
is_at (some (j, f)) i = i == j

-- What one entry becomes. `f == infoFile` compares pointers, so places.
unfoldable pub out_entry : Bool → Option Bytes → Entry → OutEntry
out_entry true (some bs) f = created f.name bs
out_entry _ _ f = raw f

-- What the loop has written and counted, or the first error.
pub data Written : Type 0 where
  written : List OutEntry → ℕ → Written
  write_failed : List OutEntry → IoError → Written

unfoldable pub patch_entries :
    (Entry → Option IoError)
    → Bool
    → Option (ℕ × Entry)
    → Option Bytes
    → ℕ
    → List OutEntry
    → ℕ
    → List Entry
    → Written
patch_entries faults keep_watch info content i out removed [] = written out removed
patch_entries faults keep_watch info content i out removed (f ∷ fs) =
    let dropped = patch_entries faults keep_watch info content (i + 1) out (removed + 1) fs in
    let kept =
      patch_entries faults keep_watch info content (i + 1)
        (out ++ out_entry (is_at info i) content f ∷ []) removed fs in
    if not keep_watch && is_watch_path f.name
    then dropped
    else elim (faults f) [ some e ↦ write_failed out e | none ↦ kept ]

unfoldable pub result_of : PlistPlan → ℕ → PatchResult
result_of plan removed = record {
  min_os_changed = plan.min_os_changed;
  previous_min_os = plan.previous_min_os;
  watch_removed = removed;
  device_family_expanded = plan.device_family_expanded;
  previous_device_family = plan.previous_family;
  new_device_family = plan.new_family;
}

-- `w.Close()`.
unfoldable pub close_patched : Faults → PlistPlan → Written → Patched
close_patched faults plan (write_failed out e) = failed (some out) (io e)
close_patched faults plan (written out removed) = elim faults.close [
  | some e ↦ failed (some out) (io e)
  | none ↦ patched out (result_of plan removed)
]

-- From `os.MkdirAll` on, with the plan made.
unfoldable pub write_patched : Faults → Bool → Option (ℕ × Entry) → List Entry → PlistPlan → Patched
write_patched faults keep_watch info entries plan = elim faults.mkdir [
  | some e ↦ failed none (io e)
  | none ↦ elim faults.open_dst [
    | some e ↦ failed none (io e)
    | none ↦
        close_patched faults plan
          (patch_entries faults.write keep_watch info plan.content 0 [] 0 entries)
  ]
]

unfoldable pub plan_of :
    Plist → Option (ℕ × Entry) → Bytes → ℤ → Bool → Outcome PatchError PlistPlan
plan_of plist none target device patch = ok empty_plan
plan_of plist (some (i, f)) target device patch =
    plan_info_plist plist f.content target device patch

unfoldable pub with_plan : Outcome PatchError PlistPlan → (PlistPlan → Patched) → Patched
with_plan (ok plan) k = k plan
with_plan (err e) k = failed none e
with_plan panic k = panicked

unfoldable pub patch_for_install : Faults → Plist → Opened → Bytes → ℤ → Bool → Bool → Patched
patch_for_install faults plist (unreadable e) target device patch keep_watch = failed none (io e)
patch_for_install faults plist (archive entries) target device patch keep_watch =
    let info = find_plist 0 entries in
    with_plan (plan_of plist info target device patch)
      (write_patched faults keep_watch info entries)

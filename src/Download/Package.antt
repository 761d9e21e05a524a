-- ===== src/Download/Package.antt =====
-- internal/appstore/download.go: `applyPatches` with its helpers. howett.net/plist is a parameter. The
-- zip headers that an entry keeps are left out.
pub mod Complete
pub mod Contents
pub mod Sealed
pub mod Written
pub mod Partial
use ipadecrypt.Pipeline.Archive.{
  IoError, Content, unopenable, readable, broken, Entry, Opened, unreadable, archive,
}
use ipadecrypt.Prelude.Int.{ℤ}
use ipadecrypt.Prelude.Text.{codes, equal, has_prefix, has_suffix, trim_suffix, base}
use ipadecrypt.Prelude.{
  ℕ, suc, Bool, true, false, not, ◌&&◌, ◌||◌, Option, none, some, List, [], ◌∷◌, ◌++◌, length, ◌==◌,
  if◌then◌else◌, Bytes,
}
use ipadecrypt.Versions.Entry.{RawValue, text}
use ipadecrypt.Versions.Screen.{put_entry}

pub record Sinf : Type 0 where
  pub id : ℤ
  pub blob : Bytes

abbrev pub Metadata : Type 0
Metadata = List (Bytes × RawValue)

-- `plist.Marshal` of the metadata, and `plist.Unmarshal` into `pkgManifest` and `pkgInfo`.
pub record PlistCalls : Type 0 where
  pub marshal : Metadata → Option Bytes
  pub sinf_paths : Bytes → Option (List Bytes)
  pub executable : Bytes → Option Bytes

pub data PackageError : Type 0 where
  open_source open_target copy_entry write_entry close_zip : IoError → PackageError
  marshal_failed no_bundle parse_manifest parse_info no_info no_sinfs : PackageError
  sinf_mismatch : ℕ → ℕ → PackageError

-- An entry as it is written.
pub record Packed : Type 0 where
  pub name : Bytes
  pub content : Bytes

-- The entries written so far, and the error that ended it.
pub data Progress : Type 0 where
  going : List Packed → Progress
  halted : List Packed → PackageError → Progress

abbrev pub and_then : Progress → (List Packed → Progress) → Progress
and_then (going ws) next = next ws
and_then (halted ws e) next = halted ws e

-- A write fails where it is told to, by the number of entries in front of it.
abbrev pub WriteFaults : Type 0
WriteFaults = ℕ → Option IoError

unfoldable pub write_one : WriteFaults → Bytes → Bytes → List Packed → Progress
write_one faults name bs ws = elim (faults (length ws)) [
  | some e ↦ halted ws (write_entry e)
  | none ↦ going (ws ++ record { name = name; content = bs } ∷ [])
]

unfoldable pub copy_zip_entry : WriteFaults → Entry → List Packed → Progress
copy_zip_entry faults f ws = elim f.content [
  | unopenable e ↦ halted ws (copy_entry e)
  | broken bs e ↦ halted ws (copy_entry e)
  | readable bs ↦ write_one faults f.name bs ws
]

unfoldable pub copy_all : WriteFaults → List Entry → List Packed → Progress
copy_all faults [] ws = going ws
copy_all faults (f ∷ fs) ws = and_then (copy_zip_entry faults f ws) (λ ws'. copy_all faults fs ws')

unfoldable pub with_account : Bytes → Metadata → Metadata
with_account email metadata =
    put_entry (codes "userName") (text email) (put_entry (codes "apple-id") (text email) metadata)

unfoldable pub write_metadata_entry :
    PlistCalls → WriteFaults → Metadata → Bytes → List Packed → Progress
write_metadata_entry plist faults metadata email ws =
    elim (plist.marshal (with_account email metadata)) [
      | none ↦ halted ws marshal_failed
      | some bs ↦ write_one faults (codes "iTunesMetadata.plist") bs ws
    ]

-- `strings.Contains`.
unfoldable pub contains : Bytes → Bytes → Bool
contains [] p = has_prefix [] p
contains (c ∷ s) p = has_prefix (c ∷ s) p || contains s p

-- An Info.plist of the package, of some .app.
unfoldable pub is_info : Bytes → Bool
is_info name = contains name (codes ".app/Info.plist") && not (contains name (codes "/Watch/"))

unfoldable pub find_entry : (Bytes → Bool) → List Entry → Option Entry
find_entry p [] = none
find_entry p (f ∷ fs) = let rest = find_entry p fs in if p f.name then some f else rest

unfoldable pub is_manifest : Bytes → Bool
is_manifest name = has_suffix name (codes ".app/SC_Info/Manifest.plist")

unfoldable pub read_bundle_name : List Entry → Option Bytes
read_bundle_name fs = elim (find_entry is_info fs) [
  | none ↦ none
  | some f ↦ some (base (trim_suffix f.name (codes ".app/Info.plist")))
]

-- The sinfs at the paths of the manifest, which are as many.
unfoldable pub write_sinfs : WriteFaults → Bytes → List Bytes → List Sinf → List Packed → Progress
write_sinfs faults bundle [] sinfs ws = going ws
write_sinfs faults bundle (p ∷ ps) [] ws = going ws
write_sinfs faults bundle (p ∷ ps) (s ∷ sinfs) ws =
    and_then (write_one faults (codes "Payload/" ++ (bundle ++ (codes ".app/" ++ p))) s.blob ws)
      (λ ws'. write_sinfs faults bundle ps sinfs ws')

unfoldable pub replicate_sinfs :
    WriteFaults → Bytes → List Bytes → List Sinf → List Packed → Progress
replicate_sinfs faults bundle paths sinfs ws =
    if length sinfs == length paths
    then write_sinfs faults bundle paths sinfs ws
    else halted ws (sinf_mismatch (length sinfs) (length paths))

-- The first sinf, named for the executable.
unfoldable pub write_first_sinf : WriteFaults → Bytes → Bytes → List Sinf → List Packed → Progress
write_first_sinf faults bundle exe [] ws = halted ws no_sinfs
write_first_sinf faults bundle exe (s ∷ _) ws =
    write_one faults
      (codes "Payload/" ++ (bundle ++ (codes ".app/SC_Info/" ++ (exe ++ codes ".sinf")))) s.blob ws

-- An entry that is read as a property list.
unfoldable pub with_plist {ℓ} :
    {A : Type ℓ}
    → Content
    → (Bytes → Option A)
    → PackageError
    → List Packed
    → (A → Progress)
    → Progress
with_plist (unopenable e) parse bad ws next = halted ws (copy_entry e)
with_plist (broken bs e) parse bad ws next = halted ws (copy_entry e)
with_plist (readable bs) parse bad ws next = elim (parse bs) [
  | none ↦ halted ws bad
  | some a ↦ next a
]

-- `readInfo` and the fallback.
unfoldable pub without_manifest :
    PlistCalls → WriteFaults → Bytes → List Entry → List Sinf → List Packed → Progress
without_manifest plist faults bundle fs sinfs ws = elim (find_entry is_info fs) [
  | none ↦ halted ws no_info
  | some f ↦
      with_plist f.content plist.executable parse_info ws
        (λ exe. write_first_sinf faults bundle exe sinfs ws)
]

-- From `readManifest` on.
unfoldable pub inject_sinfs :
    PlistCalls → WriteFaults → Bytes → List Entry → List Sinf → List Packed → Progress
inject_sinfs plist faults bundle fs sinfs ws = elim (find_entry is_manifest fs) [
  | none ↦ without_manifest plist faults bundle fs sinfs ws
  | some f ↦
      with_plist f.content plist.sinf_paths parse_manifest ws
        (λ paths. replicate_sinfs faults bundle paths sinfs ws)
]

unfoldable pub inject : PlistCalls → WriteFaults → List Entry → List Sinf → List Packed → Progress
inject plist faults fs sinfs ws = elim (read_bundle_name fs) [
  | none ↦ halted ws no_bundle
  | some bundle ↦ inject_sinfs plist faults bundle fs sinfs ws
]

-- What is written, in order.
unfoldable pub write_package :
    PlistCalls → WriteFaults → List Entry → Metadata → List Sinf → Bytes → Progress
write_package plist faults fs metadata sinfs email = and_then (copy_all faults fs []) (λ ws.
    and_then (write_metadata_entry plist faults metadata email ws)
      (λ ws'. inject plist faults fs sinfs ws'))

-- What stands at a path. An archive whose directory was not written is `sealed` false.
pub data Node : Type 0 where
  absent directory : Node
  ipa : List Packed → Bool → Node

pub record PatchFaults : Type 0 where
  pub open_dst : Option IoError
  pub write : WriteFaults
  pub close_writer : Option IoError

-- The destination, and the error.
pub record Repacked : Type 0 where
  pub dst : Node
  pub error : Option PackageError

unfoldable pub seal : Option IoError → Progress → Repacked
seal close (halted ws e) = record { dst = ipa ws false; error = some e }
seal none (going ws) = record { dst = ipa ws true; error = none }
seal (some e) (going ws) = record { dst = ipa ws false; error = some (close_zip e) }

-- `src` is what `zip.OpenReader` finds.
unfoldable pub apply_patches :
    PlistCalls → PatchFaults → Opened → Node → Metadata → List Sinf → Bytes → Repacked
apply_patches plist faults (unreadable e) dst metadata sinfs email = record {
  dst = dst;
  error = some (open_source e);
}
apply_patches plist faults (archive fs) dst metadata sinfs email = elim faults.open_dst [
  | some e ↦ record { dst = dst; error = some (open_target e) }
  | none ↦ seal faults.close_writer (write_package plist faults.write fs metadata sinfs email)
]

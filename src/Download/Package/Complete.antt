-- ===== src/Download/Package/Complete.antt =====
-- internal/appstore/download.go: `CompleteDownload`, and `fetchRemoteEncryptedSource` of
-- cmd/ipadecrypt/decrypt.go, which calls it. archive/zip is a parameter.
use ipadecrypt.Download.Package.{
  Metadata, Sinf, PlistCalls, PackageError, Node, absent, directory, ipa, PatchFaults, Repacked,
  apply_patches,
}
use ipadecrypt.Download.{FetchError, Server, FetchFaults, Fetched, existing, fetch_to_file}
use ipadecrypt.Pipeline.Archive.{IoError, Opened}
use ipadecrypt.Prelude.Text.{equal}
use ipadecrypt.Prelude.{Bool, true, false, Option, none, some, List, [], ◌∷◌, if◌then◌else◌, Bytes}

-- The destination, and the temporary file beside it.
pub record Place : Type 0 where
  pub dst : Node
  pub tmp : Option Bytes

pub data DownloadError : Type 0 where
  no_path is_directory : DownloadError
  stat_failed remove_failed : IoError → DownloadError
  not_fetched : FetchError → DownloadError
  not_patched : PackageError → DownloadError

-- `no_account` is an error of `accountWithStorefront` in front of `CompleteDownload`.
pub record DownloadFaults : Type 0 where
  pub no_account : Bool
  pub stat : Option IoError
  pub fetch : FetchFaults
  pub patch : PatchFaults
  pub remove : Option IoError

pub record Completed : Type 0 where
  pub place : Place
  pub error : Option DownloadError

-- The ticket, and the server that its address names.
pub record Ticket : Type 0 where
  pub version : Bytes
  pub server : Server
  pub metadata : Metadata
  pub sinfs : List Sinf

abbrev pub is_dir : Node → Bool
is_dir directory = true
is_dir absent = false
is_dir (ipa _ _) = false

-- `fileExists`.
abbrev pub file_exists : Node → Bool
file_exists absent = false
file_exists directory = true
file_exists (ipa _ _) = true

-- The disk by paths, with one place changed.
unfoldable pub set_place : Bytes → Place → (Bytes → Place) → Bytes → Place
set_place path place disk key = if equal key path then place else disk key

pub data Kind : Type 0 where
  cached downloaded : Kind

-- The disk, and the file with its kind where there is no error.
pub record Fetch : Type 0 where
  pub disk : Bytes → Place
  pub source : Option (Bytes × Kind)

-- What the operations are given; `unzip` is `zip.OpenReader` on a file of these bytes.
module _ (plist : PlistCalls) (unzip : Bytes → Opened) (faults : DownloadFaults)
    (email : Bytes) where
  unfoldable pub remove_temporary : Node → Option Bytes → Completed
  remove_temporary dst tmp = elim faults.remove [
    | some e ↦ record { place = record { dst = dst; tmp = tmp }; error = some (remove_failed e) }
    | none ↦ record { place = record { dst = dst; tmp = none }; error = none }
  ]

  unfoldable pub settle_patch : Option Bytes → Repacked → Completed
  settle_patch tmp p = elim p.error [
    | some e ↦ record { place = record { dst = p.dst; tmp = tmp }; error = some (not_patched e) }
    | none ↦ remove_temporary p.dst tmp
  ]

  unfoldable pub settle_fetch : Ticket → Node → Fetched → Completed
  settle_fetch t dst f = elim f.error [
    | some e ↦ record { place = record { dst = dst; tmp = f.file }; error = some (not_fetched e) }
    | none ↦
        settle_patch f.file
          (apply_patches plist faults.patch (unzip (existing f.file)) dst t.metadata t.sinfs email)
  ]

  -- Behind the test of the path.
  unfoldable pub download_to : Ticket → Place → Completed
  download_to t place = elim faults.stat [
    | some e ↦ record { place = place; error = some (stat_failed e) }
    | none ↦
        if is_dir place.dst
        then record { place = place; error = some is_directory }
        else settle_fetch t place.dst (fetch_to_file faults.fetch t.server place.tmp)
  ]

  unfoldable pub complete_download : Bytes → Ticket → Place → Completed
  complete_download [] t place = record { place = place; error = some no_path }
  complete_download (c ∷ path) t place = download_to t place

  unfoldable pub settle_download : Bytes → (Bytes → Place) → Completed → Fetch
  settle_download path disk c = elim c.error [
    | some e ↦ record { disk = set_place path c.place disk; source = none }
    | none ↦ record { disk = set_place path c.place disk; source = some (path, downloaded) }
  ]

  -- With a ticket; `path_of` is `CachedEncryptedIPA` of a version, which may fail.
  unfoldable pub fetch_ticket : (Bytes → Option Bytes) → Option Ticket → (Bytes → Place) → Fetch
  fetch_ticket path_of none disk = record { disk = disk; source = none }
  fetch_ticket path_of (some t) disk = elim (path_of t.version) [
    | none ↦ record { disk = disk; source = none }
    | some path ↦
        if file_exists (disk path).dst
        then record { disk = disk; source = some (path, cached) }
        else if faults.no_account
        then record { disk = disk; source = none }
        else settle_download path disk (complete_download path t (disk path))
  ]

  -- `ticket` is the result of `PrepareDownload` under `withAuth`.
  unfoldable pub fetch_remote_encrypted_source :
      (Bytes → Option Bytes) → Bytes → Bytes → Option Ticket → (Bytes → Place) → Fetch
  fetch_remote_encrypted_source path_of app_version (c ∷ ext_ver_id) ticket disk =
      fetch_ticket path_of ticket disk
  fetch_remote_encrypted_source path_of app_version [] ticket disk = elim (path_of app_version) [
    | none ↦ record { disk = disk; source = none }
    | some path ↦
        if file_exists (disk path).dst
        then record { disk = disk; source = some (path, cached) }
        else fetch_ticket path_of ticket disk
  ]

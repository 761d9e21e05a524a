-- ===== src/Download/Package/Partial.antt =====
-- An archive that could not be finished stays at its destination and is taken for a cached one.
use ipadecrypt.Download.Package.Complete.{
  Place, not_patched, DownloadFaults, Ticket, is_dir, settle_patch, settle_fetch, download_to,
  complete_download, set_place, cached, fetch_remote_encrypted_source,
}
use ipadecrypt.Download.Package.{
  PackageError, Packed, halted, PlistCalls, ipa, seal, apply_patches, write_package,
}
use ipadecrypt.Download.{fetch_to_file}
use ipadecrypt.Pipeline.Archive.{Entry, Opened, archive}
use ipadecrypt.Prelude.Text.Laws.{equal_refl}
use ipadecrypt.Prelude.{ℕ, ◌≡◌, ap, ◌∙◌, arith, false, Option, none, some, List, [], ◌∷◌, Bytes}

module _ (plist : PlistCalls) (unzip : Bytes → Opened) (faults : DownloadFaults)
    (email : Bytes) where
  -- The package is fetched and opened, and writing it breaks off.
  pub record BreaksOff (t : Ticket) (place : Place) (ws : List Packed) (e : PackageError)
      : Type 0 where
    pub tmp : Bytes
    pub entries : List Entry
    pub stat_ok : faults.stat ≡ none
    pub no_dir : is_dir place.dst ≡ false
    pub fetched :
        fetch_to_file faults.fetch t.server place.tmp ≡ record { file = some tmp; error = none }
    pub opened : unzip tmp ≡ archive entries
    pub created : faults.patch.open_dst ≡ none
    pub broken_off :
        write_package plist faults.patch.write entries t.metadata t.sinfs email ≡ halted ws e

  apply-BreaksOff :
      (t : Ticket) (place : Place) (ws : List Packed) (e : PackageError)
      (h : BreaksOff t place ws e)
      → apply_patches plist faults.patch (archive h.entries) place.dst t.metadata t.sinfs email
        ≡ record { dst = ipa ws false; error = some e }
  unfolding apply_patches seal
  apply-BreaksOff t place ws e h = ground (arith, h.created, h.broken_off)

  fetch-BreaksOff :
      (t : Ticket) (place : Place) (ws : List Packed) (e : PackageError)
      (h : BreaksOff t place ws e)
      → settle_fetch plist unzip faults email t place.dst
          (record { file = some h.tmp; error = none })
        ≡ record {
          place = record { dst = ipa ws false; tmp = some h.tmp };
          error = some (not_patched e);
        }
  unfolding settle_fetch settle_patch
  fetch-BreaksOff t place ws e h = ground (arith, h.opened, apply-BreaksOff t place ws e h)

  breaks_off :
      (c : ℕ) (path : Bytes) (t : Ticket) (place : Place) (ws : List Packed) (e : PackageError)
      (h : BreaksOff t place ws e)
      → complete_download plist unzip faults email (c ∷ path) t place ≡ record {
        place = record { dst = ipa ws false; tmp = some h.tmp };
        error = some (not_patched e);
      }
  unfolding complete_download download_to
  breaks_off c path t place ws e h =
      ground (arith, h.stat_ok, h.no_dir, h.fetched, fetch-BreaksOff t place ws e h)

  placed : (path : Bytes) (pl : Place) (disk : Bytes → Place) → set_place path pl disk path ≡ pl
  unfolding set_place
  placed path pl disk = ground (arith, equal_refl path)

  -- Where writing the archive breaks off, `CompleteDownload` returns the error and leaves an
  -- archive without its directory at the destination, and the next run without a version asked for
  -- takes that file for a cached download, without asking the App Store.
  pub fetch_remote-complete_download :
      (path_of : Bytes → Option Bytes) (version : Bytes) (c : ℕ) (path : Bytes) (t : Ticket)
      (ticket : Option Ticket) (disk : Bytes → Place) (ws : List Packed) (e : PackageError)
      → BreaksOff t (disk (c ∷ path)) ws e
      → path_of version ≡ some (c ∷ path)
      → let failed = complete_download plist unzip faults email (c ∷ path) t (disk (c ∷ path)) in
        let after = set_place (c ∷ path) failed.place disk in
        (failed.error ≡ some (not_patched e))
        × ((after (c ∷ path)).dst ≡ ipa ws false)
        × (fetch_remote_encrypted_source plist unzip faults email path_of version [] ticket after
            ≡ record { disk = after; source = some (c ∷ path, cached) })
  unfolding fetch_remote_encrypted_source
  fetch_remote-complete_download path_of version c path t ticket disk ws e h there =
      let run = breaks_off c path t (disk (c ∷ path)) ws e h in
      let failed = complete_download plist unzip faults email (c ∷ path) t (disk (c ∷ path)) in
      let left : (set_place (c ∷ path) failed.place disk (c ∷ path)).dst ≡ ipa ws false =
        ap (λ pl. pl.dst) (placed (c ∷ path) failed.place disk) ∙ ap (λ r. r.place.dst) run in
      (ap (λ r. r.error) run, left, ground (arith, there, left))

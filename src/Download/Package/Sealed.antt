-- ===== src/Download/Package/Sealed.antt =====
-- A `CompleteDownload` without an error leaves the whole package at its destination.
use ipadecrypt.Download.Package.Complete.{
  Place, DownloadFaults, Completed, Ticket, is_dir, remove_temporary, settle_patch, settle_fetch,
  download_to, complete_download,
}
use ipadecrypt.Download.Package.{
  Packed, Progress, going, halted, PlistCalls, Node, ipa, Repacked, seal, apply_patches,
  write_package,
}
use ipadecrypt.Download.{Fetched, existing, fetch_to_file}
use ipadecrypt.Download.Package.Contents.{IsPackage}
use ipadecrypt.Download.Package.Written.{write_package-inv}
use ipadecrypt.Pipeline.Archive.{IoError, Entry, Opened, archive, unreadable}
use ipadecrypt.Prelude.{
  either_option, either_branch, ◌≡◌, refl, sym, subst, arith, true, Option, none, some,
  Option-cases, inl, inr, List, [], ◌∷◌, Bytes,
}

module _ (plist : PlistCalls) (unzip : Bytes → Opened) (faults : DownloadFaults)
    (email : Bytes) where
  -- The archive that `found` opens is written as a whole, with the ticket's metadata and sinfs.
  abbrev Packs : Ticket → Opened → Node → Type 0
  Packs t found dst =
      (fs : List Entry) × (ws : List Packed) × (found ≡ archive fs)
      × (dst ≡ ipa ws true)
      × IsPackage plist email t.metadata t.sinfs fs ws

  abbrev PatchSeals : Ticket → Opened → Repacked → Type 0
  PatchSeals t found p = p.error ≡ none → Packs t found p.dst

  seal-PatchSeals :
      (t : Ticket) (fs : List Entry) (close : Option IoError) (p : Progress)
      → ((ws : List Packed) → p ≡ going ws → IsPackage plist email t.metadata t.sinfs fs ws)
      → PatchSeals t (archive fs) (seal close p)
  unfolding seal
  seal-PatchSeals t fs close (halted ws e) packs h = cc
  seal-PatchSeals t fs none (going ws) packs h = (fs, ws, refl, refl, packs ws refl)
  seal-PatchSeals t fs (some e) (going ws) packs h = cc

  apply-PatchSeals :
      (found : Opened) (dst : Node) (t : Ticket)
      → PatchSeals t found (apply_patches plist faults.patch found dst t.metadata t.sinfs email)
  unfolding apply_patches
  apply-PatchSeals (unreadable e) dst t = λ h. cc
  apply-PatchSeals (archive fs) dst t =
      either_option (PatchSeals t (archive fs)) faults.patch.open_dst
        (seal-PatchSeals t fs faults.patch.close_writer
          (write_package plist faults.patch.write fs t.metadata t.sinfs email)
          (λ ws h. write_package-inv plist faults.patch.write fs t.sinfs t.metadata email ws h))
        (λ e h. cc)

  -- What was fetched is opened and packed, and the temporary file is gone.
  abbrev Seals : Ticket → Opened → Completed → Type 0
  Seals t found c = c.error ≡ none → Packs t found c.place.dst × (c.place.tmp ≡ none)

  remove_temporary-Seals :
      (t : Ticket) (found : Opened) (dst : Node) (tmp : Option Bytes)
      → Packs t found dst
      → Seals t found (remove_temporary plist unzip faults email dst tmp)
  unfolding remove_temporary
  remove_temporary-Seals t found dst tmp packs =
      either_option (Seals t found) faults.remove (λ k. (packs, refl)) (λ e k. cc)

  settle_patch-Seals :
      (t : Ticket) (found : Opened) (tmp : Option Bytes) (p : Repacked)
      → PatchSeals t found p
      → Seals t found (settle_patch plist unzip faults email tmp p)
  unfolding settle_patch
  settle_patch-Seals t found tmp p seals = elim (Option-cases p.error) [
    | inl e ↦
        subst (Seals t found) (sym (clean e)) (remove_temporary-Seals t found p.dst tmp (seals e))
    | inr (x, e) ↦ λ h. absurd (ground (arith, e, h))
  ]
    where
      clean :
          p.error ≡ none
          → settle_patch plist unzip faults email tmp p
            ≡ remove_temporary plist unzip faults email p.dst tmp
      clean e = ground (arith, e)

  -- The fetch of the ticket from the temporary file on, and what it leaves.
  abbrev Delivers : Ticket → Fetched → Completed → Type 0
  Delivers t f c =
      c.error ≡ none
      → (f.error ≡ none) × (c.place.tmp ≡ none) × Packs t (unzip (existing f.file)) c.place.dst

  settle_fetch-Delivers :
      (t : Ticket) (dst : Node) (f : Fetched)
      → Delivers t f (settle_fetch plist unzip faults email t dst f)
  unfolding settle_fetch
  settle_fetch-Delivers t dst f = elim (Option-cases f.error) [
    | inl e ↦ rw e (λ h.
        let whole =
          settle_patch-Seals t (unzip (existing f.file)) f.file
            (apply_patches plist faults.patch (unzip (existing f.file)) dst t.metadata t.sinfs
              email)
            (apply-PatchSeals (unzip (existing f.file)) dst t) h in
        (refl, whole.1, whole.0))
    | inr (x, e) ↦ rw e (λ h. cc)
  ]

  -- A `CompleteDownload` that returns no error has fetched a file without an error and opened it, has
  -- removed it, and leaves a whole archive at its destination, whatever stood there and wherever
  -- earlier runs broke off. The archive holds every entry of the fetched one with its bytes, in order;
  -- then the metadata with the account's email under its two keys; then the sinfs, one at each path of
  -- the first manifest, or without a manifest the first sinf, named for the executable.
  pub complete_download-Seals :
      (path : Bytes) (t : Ticket) (place : Place)
      → (complete_download plist unzip faults email path t place).error ≡ none
      → let f = fetch_to_file faults.fetch t.server place.tmp in
        let left = (complete_download plist unzip faults email path t place).place in
        (f.error ≡ none)
        × (left.tmp ≡ none)
        × ((fs : List Entry) × (ws : List Packed) × (unzip (existing f.file) ≡ archive fs)
            × (left.dst ≡ ipa ws true)
            × IsPackage plist email t.metadata t.sinfs fs ws)
  unfolding complete_download download_to
  complete_download-Seals [] t place = λ h. cc
  complete_download-Seals (c ∷ path) t place =
      let f = fetch_to_file faults.fetch t.server place.tmp in
      either_option (Delivers t f) faults.stat
        (either_branch (Delivers t f) (is_dir place.dst) (λ h. cc)
          (settle_fetch-Delivers t place.dst f))
        (λ e h. cc)

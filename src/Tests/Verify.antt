-- ===== src/Tests/Verify.antt =====
-- The comparisons of internal/pipeline/verify.go on small files.
use ipadecrypt.Tests.Files.{
  plain_file, plain_file-IsSlice, fat_file, early_file, early_file-IsSlice, outside_file,
  outside_file-IsSlice,
}
use ipadecrypt.MachO.Cryptid.{
  check_round, check_commands, check_thin, fat_extent, slice_has_cryptid,
}
use ipadecrypt.MachO.Encryption.{
  EncryptionInfo, read_thin_cpu, read_encryption_info, find_command, find_round, read_fields,
}
use ipadecrypt.MachO.Encryption.Bounds.{read_encryption_info-InRange}
use ipadecrypt.MachO.Pick.{pick_slice, pick_fat_slice, pick_arch, pick_round}
use ipadecrypt.MachO.{is_magic, is_thin_le}
use ipadecrypt.Outcome.{ok, panic}
use ipadecrypt.Pipeline.Archive.{Entry, archive, readable, by_name}
use ipadecrypt.Pipeline.Compare.{
  is_all_zero, tail_differs_at, compare_regions, compare_bytes, compare_encrypted, compare_thin,
  compare_macho_slice, crypt_zeroed,
}
use ipadecrypt.Pipeline.Compare.Accepts.{Consistent, compare_macho_slice_accepts, cut}
use ipadecrypt.Pipeline.Compare.Panics.{compare_encrypted_panics, crypt_zeroed_lem}
use ipadecrypt.Pipeline.Verify.{
  VerifyError, VerifyResult, empty_result, is_ok, is_scanned, with_magic, read_macho, check_source,
  check_plain, check_macho, verify_entry, verify_entries, verify,
}
use ipadecrypt.Pipeline.Verify.Sound.{EntryPassed, verify_sound, source_entries}
use ipadecrypt.Prelude.{
  ℕ, ◌≡◌, ◌≢◌, ◌≤◌, ◌<◌, ◌+◌, ◌↔◌, refl, true, false, arith, none, some, [], ◌∷◌, All, length,
}
use ipadecrypt.Prelude.Text.{codes, equal, has_prefix}
use ipadecrypt.Slice.{Slice, uint32_at, sub, bytes, number, little}
use ipadecrypt.Slice.Laws.{word}

abbrev plain_info : EncryptionInfo
plain_info = record { cryptid_offset = 48; crypt_off = 60; crypt_size = 4; cryptid = 0 }

abbrev encrypted_info : EncryptionInfo
encrypted_info = record { cryptid_offset = 48; crypt_off = 60; crypt_size = 4; cryptid = 1 }

abbrev early_info : EncryptionInfo
early_info = record { cryptid_offset = 48; crypt_off = 50; crypt_size = 4; cryptid = 1 }

abbrev outside_info : EncryptionInfo
outside_info = record { cryptid_offset = 48; crypt_off = 60; crypt_size = 400; cryptid = 0 }

read_plain : read_encryption_info plain_file ≡ ok plain_info
unfolding read_encryption_info find_command find_round read_fields uint32_at
read_plain = refl

read_early : read_encryption_info early_file ≡ ok early_info
unfolding read_encryption_info find_command find_round read_fields uint32_at
read_early = refl

read_outside : read_encryption_info outside_file ≡ ok outside_info
unfolding read_encryption_info find_command find_round read_fields uint32_at
read_outside = refl

accepted : compare_macho_slice {F = VerifyError} plain_file fat_file ≡ ok none
unfolding compare_macho_slice uint32_at read_thin_cpu pick_slice pick_fat_slice pick_arch pick_round
    fat_extent compare_thin read_encryption_info find_command find_round read_fields
    compare_encrypted compare_bytes equal tail_differs_at compare_regions is_all_zero bytes sub
accepted = refl

compare_macho_slice_accepts_example : Consistent plain_file fat_file
compare_macho_slice_accepts_example =
    compare_macho_slice_accepts {F = VerifyError} plain_file fat_file plain_file-IsSlice accepted

compare_encrypted_panics_example :
    compare_encrypted {F = VerifyError} early_file early_file early_info early_info ≡ panic
compare_encrypted_panics_example =
    compare_encrypted_panics VerifyError early_file early_file early_info early_info
      early_file-IsSlice early_file-IsSlice
      (read_encryption_info-InRange early_file early_info early_file-IsSlice read_early) refl refl
      refl refl (omega arith)

thin_magic : is_thin_le (word little outside_file 0) ≡ true
unfolding word number
thin_magic = refl

crypt_zeroed_lem_example :
    ((crypt_zeroed {F = VerifyError} outside_file ≡ panic) ↔ (
      (outside_info.crypt_size ≢ 0)
      × (length outside_file.mem < outside_info.crypt_off + outside_info.crypt_size)))
    × ((crypt_zeroed {F = VerifyError} outside_file ≡ ok true) ↔ (
        (outside_info.crypt_size ≢ 0)
        × (outside_info.crypt_off + outside_info.crypt_size ≤ length outside_file.mem)
        × (is_all_zero (
              cut outside_file outside_info.crypt_off
                (outside_info.crypt_off + outside_info.crypt_size))
            ≡ true)))
crypt_zeroed_lem_example =
    crypt_zeroed_lem VerifyError outside_file outside_info outside_file-IsSlice thin_magic
      (omega arith) read_outside

abbrev no_spare : ℕ → ℕ
no_spare n = 0

abbrev main_exec : Slice → Entry
main_exec s = record { name = codes "Payload/A.app/A"; is_dir = false; content = readable s.mem }

abbrev verified : VerifyResult
verified = record empty_result { scanned = 1; compared = 1 }

verifies :
    verify no_spare
      (archive (main_exec plain_file ∷ []))
      (some (archive (main_exec fat_file ∷ [])))
      false
    ≡ ok verified
unfolding verify verify_entries verify_entry is_scanned has_prefix read_macho with_magic is_magic
    check_macho slice_has_cryptid check_thin check_commands check_round check_plain by_name
    check_source compare_macho_slice uint32_at read_thin_cpu pick_slice pick_fat_slice pick_arch
    pick_round fat_extent compare_thin read_encryption_info find_command find_round read_fields
    compare_encrypted compare_bytes equal tail_differs_at compare_regions is_all_zero bytes sub
verifies = refl

verified-is_ok : is_ok verified ≡ true
unfolding is_ok
verified-is_ok = refl

verify_sound_example :
    All
      (EntryPassed no_spare
        (source_entries no_spare (some (archive (main_exec fat_file ∷ []))))
        false)
      (main_exec plain_file ∷ [])
verify_sound_example =
    verify_sound no_spare (main_exec plain_file ∷ []) (some (archive (main_exec fat_file ∷ [])))
      false verified verifies verified-is_ok

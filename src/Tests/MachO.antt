-- ===== src/Tests/MachO.antt =====
-- The parsers of internal/macho/macho.go on small files.
use ipadecrypt.Tests.Files.{
  plain_file, plain_file-IsSlice, encrypted_file, fat_file, fat_plain_file, fat_plain_file-IsSlice,
  wrapping_file, wrapping_file-IsSlice,
}
use ipadecrypt.MachO.Agreement.{plain-cryptid}
use ipadecrypt.MachO.Commands.{AllClear}
use ipadecrypt.MachO.Cryptid.{
  check_round, check_commands, check_thin, fat_extent, check_slice, check_arch, check_archs,
  check_fat, slice_has_cryptid,
}
use ipadecrypt.MachO.Cryptid.Fat.{extent_off, extent_size, NoWrap32}
use ipadecrypt.MachO.Cryptid.Fat.Slices.{AllPlain, check_fat-false_iff}
use ipadecrypt.MachO.Cryptid.Fat.Wrapped.{Wraps, slice_has_cryptid_panics}
use ipadecrypt.MachO.Cryptid.Thin.{HasHeader, Commands, check_thin-false_iff, is64_of}
use ipadecrypt.MachO.Encryption.{
  EncryptionInfo, read_encryption_info, wanted, find_command, find_round, read_fields,
}
use ipadecrypt.MachO.Encryption.Bounds.{InRange, read_encryption_info-InRange}
use ipadecrypt.MachO.Encryption.Correct.{HasInfo, read_encryption_info_iff}
use ipadecrypt.MachO.Pick.{pick_slice, pick_fat_slice, pick_arch, pick_round}
use ipadecrypt.Outcome.{ok, panic}
use ipadecrypt.Prelude.{◌≡◌, ◌≤◌, refl, true, false, arith}
use ipadecrypt.Slice.{Slice, uint32_at, sub, number, little, big}
use ipadecrypt.Slice.Laws.{word, word64}

abbrev pub plain_info : EncryptionInfo
plain_info = record { cryptid_offset = 48; crypt_off = 60; crypt_size = 4; cryptid = 0 }

pub read_plain : read_encryption_info plain_file ≡ ok plain_info
unfolding read_encryption_info find_command find_round read_fields uint32_at
read_plain = refl

read_encryption_info_iff_example : HasInfo plain_file plain_info
read_encryption_info_iff_example =
    (read_encryption_info_iff plain_file plain_info plain_file-IsSlice).0 read_plain

read_encryption_info-InRange_example : InRange plain_file plain_info
read_encryption_info-InRange_example =
    read_encryption_info-InRange plain_file plain_info plain_file-IsSlice read_plain

plain_clear : check_thin plain_file false ≡ ok false
unfolding check_thin check_commands check_round uint32_at
plain_clear = refl

encrypted_seen : check_thin encrypted_file false ≡ ok true
unfolding check_thin check_commands check_round uint32_at
encrypted_seen = refl

check_thin-false_iff_example :
    HasHeader plain_file false
    × Commands plain_file false (AllClear little plain_file (wanted (is64_of little plain_file)))
check_thin-false_iff_example =
    (check_thin-false_iff plain_file false plain_file-IsSlice).0 plain_clear

no_cryptid : slice_has_cryptid plain_file ≡ ok false
unfolding slice_has_cryptid check_thin check_commands check_round uint32_at
no_cryptid = refl

plain-cryptid_example : plain_info.cryptid ≡ 0
plain-cryptid_example = plain-cryptid plain_file plain_info plain_file-IsSlice read_plain no_cryptid

fat_clear : check_fat fat_plain_file false ≡ ok false
unfolding check_fat check_archs check_arch check_slice fat_extent check_thin check_commands
    check_round uint32_at sub
fat_clear = refl

check_fat-false_iff_example :
    (8 ≤ fat_plain_file.len)
    × (1 ≤ word big fat_plain_file 4)
    × (word big fat_plain_file 4 ≤ 32)
    × AllPlain fat_plain_file false (word big fat_plain_file 4) 8
check_fat-false_iff_example =
    (check_fat-false_iff fat_plain_file false fat_plain_file-IsSlice
        (NoWrap32 fat_plain_file (word big fat_plain_file 4) 8 fat_plain_file-IsSlice)).0
      fat_clear

wrapping_file-Wraps : Wraps wrapping_file
unfolding word word64 extent_off extent_size number
wrapping_file-Wraps = record {
  magic = refl;
  counts = (omega arith, omega arith);
  entry_fits = omega arith;
  wraps = omega arith;
  passes = omega arith;
  not_tiny = omega arith;
}

slice_has_cryptid_panics_example : slice_has_cryptid wrapping_file ≡ panic
slice_has_cryptid_panics_example =
    slice_has_cryptid_panics wrapping_file wrapping_file-IsSlice wrapping_file-Wraps

-- The slice of `encrypted_file` in `fat_file`.
abbrev pub picked_file : Slice
picked_file = encrypted_file

pick_encrypted : pick_slice fat_file 0x0100000c 0 ≡ ok picked_file
unfolding pick_slice pick_fat_slice pick_arch pick_round fat_extent uint32_at sub
pick_encrypted = refl

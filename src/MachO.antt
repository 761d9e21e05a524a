-- ===== src/MachO.antt =====
-- internal/macho/macho.go: the magic numbers, the errors and `IsMagic`. The parsers are in the
-- children: `ReadEncryptionInfo` and `ReadThinCpu` in Encryption, `SliceHasCryptid` in Cryptid and
-- `PickSlice` in Pick.
pub mod Encryption
pub mod Cryptid
pub mod Pick
pub mod Commands
pub mod Agreement
use ipadecrypt.Outcome.{Outcome, ok, ◌>>=◌}
use ipadecrypt.Prelude.{ℕ, Bool, false, ◌||◌, ltb, ◌==◌, if◌then◌else◌}
use ipadecrypt.Slice.{Slice, little, uint32_at}

abbrev pub magic_le : ℕ
magic_le = 0xfeedface

abbrev pub magic64_le : ℕ
magic64_le = 0xfeedfacf

abbrev pub magic_be : ℕ
magic_be = 0xcefaedfe

abbrev pub magic64_be : ℕ
magic64_be = 0xcffaedfe

abbrev pub fat_magic : ℕ
fat_magic = 0xcafebabe

abbrev pub fat_cigam : ℕ
fat_cigam = 0xbebafeca

abbrev pub fat_magic64 : ℕ
fat_magic64 = 0xcafebabf

abbrev pub fat_cigam64 : ℕ
fat_cigam64 = 0xbfbafeca

abbrev pub lc_encryption_info : ℕ
lc_encryption_info = 0x21

abbrev pub lc_encryption_info64 : ℕ
lc_encryption_info64 = 0x2c

abbrev pub cpu_subtype_feature_mask : ℕ
cpu_subtype_feature_mask = 0x00ffffff

-- One constructor for each error text, with the numbers that the text shows.
pub data Error : Type 0 where
  mach_header_truncated load_commands_truncated load_cmd_truncated : Error
  encryption_info_truncated no_encryption_info too_short not_macho_data : Error
  source_too_short fat_header_truncated fat_truncated fat_arch_truncated fat_slice_out_of_range :
      Error
  not_thin_le : ℕ → Error
  bad_cmdsize : ℕ → Error
  implausible_nfat_arch : ℕ → Error
  implausible_ncmds : ℕ → Error
  source_not_macho : ℕ → Error
  source_cpu_mismatch : ℕ → ℕ → ℕ → ℕ → Error
  no_fat_slice : ℕ → ℕ → Error

abbrev pub is_fat32 : ℕ → Bool
is_fat32 m = m == fat_magic || m == fat_cigam

abbrev pub is_fat64 : ℕ → Bool
is_fat64 m = m == fat_magic64 || m == fat_cigam64

abbrev pub is_thin_le : ℕ → Bool
is_thin_le m = m == magic_le || m == magic64_le

abbrev pub is_thin_be : ℕ → Bool
is_thin_be m = m == magic_be || m == magic64_be

-- `IsMagic`.
unfoldable pub is_magic : Slice → Outcome Error Bool
is_magic b =
    if ltb b.len 4
    then ok false
    else do m ← uint32_at little b 0; ok (is_thin_le m || is_thin_be m || is_fat32 m || is_fat64 m)

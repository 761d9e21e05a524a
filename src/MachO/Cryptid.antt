-- ===== src/MachO/Cryptid.antt =====
-- internal/macho/macho.go: `SliceHasCryptid`, `checkFat` and `checkThin`.
-- `int` sums stand as they are: each is at most a slice's length plus 2 ^ 32, and a slice is shorter
-- than 2 ^ 62 bytes on every platform.
pub mod Thin
pub mod Fat
use ipadecrypt.MachO.{
  Error, magic64_le, magic64_be, is_thin_le, is_thin_be, is_fat32, is_fat64, lc_encryption_info,
  lc_encryption_info64, mach_header_truncated, load_commands_truncated, load_cmd_truncated,
  encryption_info_truncated, too_short, not_macho_data, fat_header_truncated, fat_arch_truncated,
  fat_slice_out_of_range, bad_cmdsize, implausible_nfat_arch, implausible_ncmds,
}
use ipadecrypt.MachO.Encryption.{header_size, wanted}
use ipadecrypt.Outcome.{Outcome, ok, err, ◌>>=◌}
use ipadecrypt.Prelude.{
  ℕ, zero, suc, ◌+◌, ◌-◌, ◌^◌, Bool, true, false, ◌&&◌, ◌||◌, ltb, ◌==◌, if◌then◌else◌, add64, not,
}
use ipadecrypt.Slice.{Slice, ByteOrder, little, big, sub, uint32_at, uint64_at}

-- One round of the loop of `checkThin` at `p`; `rest` is the loop's next round, and `want` the
-- command that `is64` chooses.
unfoldable pub check_round :
    ByteOrder → Slice → ℕ → ℕ → (ℕ → Outcome Error Bool) → Outcome Error Bool
check_round bo d want p rest = if ltb d.len (p + 8) then err load_cmd_truncated else do
  cmd ← uint32_at bo d p
  cmd_size ← uint32_at bo d (p + 4)
  if ltb cmd_size 8 || ltb (d.len - p) cmd_size
      then err (bad_cmdsize cmd_size)
      else if not (cmd == want)
      then rest (p + cmd_size)
      else if ltb cmd_size 20
      then err encryption_info_truncated
      else do
        cryptid ← uint32_at bo d (p + 16)
        if not (cryptid == 0) then ok true else rest (p + cmd_size)

-- `for range ncmds`: the number counts the rounds left.
unfoldable pub check_commands : ByteOrder → Slice → ℕ → ℕ → ℕ → Outcome Error Bool
check_commands bo d want zero p = ok false
check_commands bo d want (suc n) p = check_round bo d want p (λ q. check_commands bo d want n q)

-- `bo`, by `swap`.
abbrev pub order : Bool → ByteOrder
order swap = if swap then big else little

unfoldable pub check_thin : Slice → Bool → Outcome Error Bool
check_thin d swap = if ltb d.len 28 then err mach_header_truncated else do
  magic ← uint32_at (order swap) d 0
  ncmds ← uint32_at (order swap) d 16
  sizeofcmds ← uint32_at (order swap) d 20
  let is64 = magic == magic64_le || magic == magic64_be
  if ltb d.len (add64 (header_size is64) sizeofcmds)
      then err load_commands_truncated
      else if ltb (2 ^ 16) ncmds
      then err (implausible_ncmds ncmds)
      else check_commands (order swap) d (wanted is64) ncmds (header_size is64)

-- `sliceOff` and `sliceSize` of the fat_arch at `off`, as `checkFat` and `pickFatSlice` read them.
unfoldable pub fat_extent : Slice → Bool → ℕ → Outcome Error (ℕ × ℕ)
fat_extent d true off = do
  slice_off ← uint64_at big d (off + 8)
  slice_size ← uint64_at big d (off + 16)
  ok (slice_off, slice_size)
fat_extent d false off = do
  slice_off ← uint32_at big d (off + 8)
  slice_size ← uint32_at big d (off + 12)
  ok (slice_off, slice_size)

-- `archSize`.
abbrev pub arch_size : Bool → ℕ
arch_size is64 = if is64 then 32 else 20

-- The slice of a fat file, checked as a thin one in the byte order that its magic asks for.
unfoldable pub check_slice : Slice → ℕ → ℕ → Outcome Error Bool
check_slice d slice_off slice_size = do
  slice ← sub d slice_off (add64 slice_off slice_size)
  m ← uint32_at little slice 0
  check_thin slice (is_thin_be m)

-- One round of the loop of `checkFat` at `off`; `rest` is the loop's next round.
unfoldable pub check_arch : Slice → Bool → ℕ → (ℕ → Outcome Error Bool) → Outcome Error Bool
check_arch d is64 off rest = if ltb d.len (off + arch_size is64) then err fat_arch_truncated else do
  (slice_off, slice_size) ← fat_extent d is64 off
  if ltb d.len (add64 slice_off slice_size)
      then err fat_slice_out_of_range
      else if ltb slice_size 4
      then rest (off + arch_size is64)
      else do
        enc ← check_slice d slice_off slice_size
        if enc then ok true else rest (off + arch_size is64)

-- `for range nfat`: the number counts the rounds left.
unfoldable pub check_archs : Slice → Bool → ℕ → ℕ → Outcome Error Bool
check_archs d is64 zero off = ok false
check_archs d is64 (suc n) off = check_arch d is64 off (λ q. check_archs d is64 n q)

unfoldable pub check_fat : Slice → Bool → Outcome Error Bool
check_fat d is64 = if ltb d.len 8 then err fat_header_truncated else do
  nfat ← uint32_at big d 4
  if nfat == 0 || ltb 32 nfat then err (implausible_nfat_arch nfat) else check_archs d is64 nfat 8

unfoldable pub slice_has_cryptid : Slice → Outcome Error Bool
slice_has_cryptid d = if ltb d.len 4 then err too_short else do
  magic ← uint32_at little d 0
  if is_fat32 magic
      then check_fat d false
      else if is_fat64 magic
      then check_fat d true
      else if is_thin_le magic
      then check_thin d false
      else if is_thin_be magic
      then check_thin d true
      else err not_macho_data

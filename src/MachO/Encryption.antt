-- ===== src/MachO/Encryption.antt =====
-- internal/macho/macho.go: `EncryptionInfo`, `ReadEncryptionInfo` and `ReadThinCpu`.
pub mod Correct
pub mod Bounds
use ipadecrypt.MachO.{
  Error, magic64_le, is_thin_le, lc_encryption_info, lc_encryption_info64, mach_header_truncated,
  load_commands_truncated, load_cmd_truncated, encryption_info_truncated, no_encryption_info,
  not_thin_le, bad_cmdsize,
}
use ipadecrypt.Outcome.{Outcome, ok, err, ◌>>=◌}
use ipadecrypt.Prelude.{ℕ, zero, suc, ◌+◌, Bool, not, ◌||◌, ltb, ◌==◌, if◌then◌else◌, add64, sub64}
use ipadecrypt.Slice.{Slice, little, uint32_at}

pub record EncryptionInfo : Type 0 where
  pub cryptid_offset : ℕ
  pub crypt_off : ℕ
  pub crypt_size : ℕ
  pub cryptid : ℕ

-- What the loop does at an LC_ENCRYPTION_INFO command of `cmd_size` bytes at `p`.
unfoldable pub read_fields : Slice → ℕ → ℕ → Outcome Error EncryptionInfo
read_fields d p cmd_size = if ltb cmd_size 20 then err encryption_info_truncated else do
  off ← uint32_at little d (add64 p 8)
  size ← uint32_at little d (add64 p 12)
  id ← uint32_at little d (add64 p 16)
  ok (record { cryptid_offset = add64 p 16; crypt_off = off; crypt_size = size; cryptid = id })

-- One round of the loop at `p`; `rest` is the loop's next round.
unfoldable pub find_round :
    Slice → ℕ → ℕ → (ℕ → Outcome Error EncryptionInfo) → Outcome Error EncryptionInfo
find_round d want p rest = if ltb d.len (add64 p 8) then err load_cmd_truncated else do
  cmd ← uint32_at little d p
  cmd_size ← uint32_at little d (add64 p 4)
  if ltb cmd_size 8 || ltb (sub64 d.len p) cmd_size
      then err (bad_cmdsize cmd_size)
      else if cmd == want
      then read_fields d p cmd_size
      else rest (add64 p cmd_size)

-- `for range ncmds`: the number counts the rounds left.
unfoldable pub find_command : Slice → ℕ → ℕ → ℕ → Outcome Error EncryptionInfo
find_command d want zero p = err no_encryption_info
find_command d want (suc n) p = find_round d want p (λ q. find_command d want n q)

-- `headerSize` and `want`, by `is64`.
abbrev pub header_size : Bool → ℕ
header_size is64 = if is64 then 32 else 28

abbrev pub wanted : Bool → ℕ
wanted is64 = if is64 then lc_encryption_info64 else lc_encryption_info

unfoldable pub read_encryption_info : Slice → Outcome Error EncryptionInfo
read_encryption_info d = if ltb d.len 28 then err mach_header_truncated else do
  magic ← uint32_at little d 0
  let is64 = magic == magic64_le
  if not (is_thin_le magic) then err (not_thin_le magic) else do
    ncmds ← uint32_at little d 16
    sizeofcmds ← uint32_at little d 20
    if ltb d.len (add64 (header_size is64) sizeofcmds)
        then err load_commands_truncated
        else find_command d (wanted is64) ncmds (header_size is64)

-- `ReadThinCpu`.
unfoldable pub read_thin_cpu : Slice → Outcome Error (ℕ × ℕ)
read_thin_cpu d = if ltb d.len 16 then err mach_header_truncated else do
  magic ← uint32_at little d 0
  if not (is_thin_le magic)
      then err (not_thin_le magic)
      else do cpu ← uint32_at little d 4; cpu_sub ← uint32_at little d 8; ok (cpu, cpu_sub)

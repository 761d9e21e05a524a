-- ===== src/MachO/Pick.antt =====
-- internal/macho/macho.go: `PickSlice` and `pickFatSlice`.
pub mod Loop
pub mod Fat
pub mod Window
use ipadecrypt.MachO.{
  Error, is_thin_le, is_fat32, is_fat64, cpu_subtype_feature_mask, source_too_short, fat_truncated,
  fat_arch_truncated, fat_slice_out_of_range, implausible_nfat_arch, source_not_macho,
  source_cpu_mismatch, no_fat_slice,
}
use ipadecrypt.MachO.Cryptid.{fat_extent, arch_size}
use ipadecrypt.MachO.Encryption.{read_thin_cpu}
use ipadecrypt.Outcome.{Outcome, ok, err, ◌>>=◌}
use ipadecrypt.Prelude.{
  ℕ, zero, suc, ◌+◌, Bool, not, true, false, ◌&&◌, ◌||◌, ltb, ◌==◌, if◌then◌else◌, add64, bit_and,
}
use ipadecrypt.Slice.{Slice, little, big, sub, uint32_at}

-- The test on a cpu type and subtype, with the feature bits of the subtype left out.
abbrev pub same_cpu : ℕ → ℕ → ℕ → ℕ → Bool
same_cpu c s cpu cpu_sub =
    c == cpu && bit_and s cpu_subtype_feature_mask == bit_and cpu_sub cpu_subtype_feature_mask

-- One round of the loop of `pickFatSlice` at `off`; `rest` is the loop's next round.
unfoldable pub pick_round :
    Slice → Bool → ℕ → ℕ → ℕ → (ℕ → Outcome Error Slice) → Outcome Error Slice
pick_round d is64 cpu cpu_sub off rest =
    if ltb d.len (off + arch_size is64) then err fat_arch_truncated else do
      cputype ← uint32_at big d off
      cpusubtype ← uint32_at big d (off + 4)
      (slice_off, slice_size) ← fat_extent d is64 off
      if not (same_cpu cputype cpusubtype cpu cpu_sub)
          then rest (off + arch_size is64)
          else if ltb d.len (add64 slice_off slice_size)
          then err fat_slice_out_of_range
          else sub d slice_off (add64 slice_off slice_size)

-- `for range nfat`: the number counts the rounds left.
unfoldable pub pick_arch : Slice → Bool → ℕ → ℕ → ℕ → ℕ → Outcome Error Slice
pick_arch d is64 cpu cpu_sub zero off = err (no_fat_slice cpu cpu_sub)
pick_arch d is64 cpu cpu_sub (suc n) off =
    pick_round d is64 cpu cpu_sub off (λ q. pick_arch d is64 cpu cpu_sub n q)

unfoldable pub pick_fat_slice : Slice → Bool → ℕ → ℕ → Outcome Error Slice
pick_fat_slice d is64 cpu cpu_sub = if ltb d.len 8 then err fat_truncated else do
  nfat ← uint32_at big d 4
  if nfat == 0 || ltb 32 nfat
      then err (implausible_nfat_arch nfat)
      else pick_arch d is64 cpu cpu_sub nfat 8

unfoldable pub pick_slice : Slice → ℕ → ℕ → Outcome Error Slice
pick_slice d cpu cpu_sub = if ltb d.len 4 then err source_too_short else do
  magic ← uint32_at little d 0
  if is_thin_le magic
      then (do
        (c, s) ← read_thin_cpu d
        if same_cpu c s cpu cpu_sub then ok d else err (source_cpu_mismatch c s cpu cpu_sub))
      else if is_fat32 magic
      then pick_fat_slice d false cpu cpu_sub
      else if is_fat64 magic
      then pick_fat_slice d true cpu cpu_sub
      else err (source_not_macho magic)

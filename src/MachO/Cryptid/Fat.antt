-- ===== src/MachO/Cryptid/Fat.antt =====
-- The entries of a fat file, and one round of `checkFat`'s loop over them.
pub mod Slices
pub mod Wrapped
use ipadecrypt.MachO.Cryptid.Thin.{check_thin-Returns}
use ipadecrypt.MachO.Cryptid.{
  fat_extent, arch_size, check_slice, check_arch, check_archs, check_fat, check_thin,
}
use ipadecrypt.MachO.{
  Error, is_thin_be, fat_header_truncated, fat_arch_truncated, fat_slice_out_of_range,
  implausible_nfat_arch,
}
use ipadecrypt.Outcome.{Outcome, ok, err, panic, ◌>>=◌, Returns}
use ipadecrypt.Prelude.{
  ℕ, zero, suc, ◌+◌, ◌-◌, ◌%◌, ◌^◌, ◌≤◌, ◌<◌, ◌≡◌, ◌↔◌, ◌⊎◌, refl, sym, ap, ◌∙◌, Bool, true, false,
  not, ◌||◌, arith, ltb, ◌==◌, if◌then◌else◌, length, Bool-cases, inl, inr, drop, add64,
}
use ipadecrypt.Slice.Laws.{
  IsSlice, word, word64, word-lt, word64-lt, uint32_at-ok, uint64_at-ok, sub-ok, sub-IsSlice,
}
use ipadecrypt.Slice.{Slice, big, little, sub, uint32_at, uint64_at}

-- The offset and the size in the fat_arch entry at `off`.
unfoldable pub extent_off : Slice → Bool → ℕ → ℕ
extent_off d is64 off = if is64 then word64 big d (off + 8) else word big d (off + 8)

unfoldable pub extent_size : Slice → Bool → ℕ → ℕ
extent_size d is64 off = if is64 then word64 big d (off + 16) else word big d (off + 12)

-- The slice that the entry names.
abbrev pub fat_slice : Slice → Bool → ℕ → Slice
fat_slice d is64 off = record {
  mem = drop (extent_off d is64 off) d.mem;
  len = extent_size d is64 off;
}

-- The entry at `off` and its slice lie in the file; the sum of offset and size does not wrap.
pub record IsArch (d : Slice) (is64 : Bool) (off : ℕ) : Type 0 where
  pub entry_fits : off + arch_size is64 ≤ d.len
  pub slice_fits : extent_off d is64 off + extent_size d is64 off ≤ d.len

pub fat_extent_lem :
    (d : Slice) (is64 : Bool) (off : ℕ)
    → IsSlice d
    → off + arch_size is64 ≤ d.len
    → fat_extent d is64 off ≡ ok (extent_off d is64 off, extent_size d is64 off)
unfolding fat_extent extent_off extent_size
fat_extent_lem d true off s h =
    let within = s.within in
    rw (uint64_at-ok big d (off + 8) (omega arith), uint64_at-ok big d (off + 16) (omega arith))
fat_extent_lem d false off s h =
    let within = s.within in
    rw (uint32_at-ok big d (off + 8) (omega arith), uint32_at-ok big d (off + 12) (omega arith))

pub extent-lt :
    (d : Slice) (is64 : Bool) (off : ℕ)
    → IsSlice d
    → (extent_off d is64 off < 2 ^ 64) × (extent_size d is64 off < 2 ^ 64)
unfolding extent_off extent_size
extent-lt d true off s = (word64-lt big d (off + 8) s, word64-lt big d (off + 16) s)
extent-lt d false off s = omega (arith, word-lt big d (off + 8) s, word-lt big d (off + 12) s)

-- The sum of two uint32 values does not wrap in a uint64.
pub extent32-lt :
    (d : Slice) (off : ℕ) → IsSlice d → extent_off d false off + extent_size d false off < 2 ^ 64
unfolding extent_off extent_size
extent32-lt d off s = omega (arith, word-lt big d (off + 8) s, word-lt big d (off + 12) s)

pub fat_slice-IsSlice :
    (d : Slice) (is64 : Bool) (off : ℕ)
    → IsSlice d
    → extent_off d is64 off + extent_size d is64 off ≤ d.len
    → IsSlice (fat_slice d is64 off)
fat_slice-IsSlice d is64 off s fits = let w = s.within in sub-IsSlice d _ _ s (omega arith)

-- `data[sliceOff : sliceOff+sliceSize]`, where the sum does not wrap.
pub sub_fat :
    (d : Slice) (is64 : Bool) (off : ℕ)
    → IsSlice d
    → extent_off d is64 off + extent_size d is64 off ≤ d.len
    → sub {E = Error} d
        (extent_off d is64 off)
        (add64 (extent_off d is64 off) (extent_size d is64 off))
      ≡ ok (fat_slice d is64 off)
sub_fat d is64 off s fits =
    let within = s.within in
    let counted = s.counted in
    let o = extent_off d is64 off in
    let n = extent_size d is64 off in
    let sum : add64 o n ≡ o + n = omega arith in
    let size : o + n - o ≡ n = omega arith in
    rw (sum, sub-ok d o (o + n) (omega arith) (omega arith), size)

check_slice_lem :
    (d : Slice) (is64 : Bool) (off : ℕ)
    → IsSlice d
    → IsArch d is64 off
    → 4 ≤ extent_size d is64 off
    → check_slice d (extent_off d is64 off) (extent_size d is64 off)
      ≡ check_thin (fat_slice d is64 off) (is_thin_be (word little (fat_slice d is64 off) 0))
unfolding check_slice
check_slice_lem d is64 off s a h =
    let w = (fat_slice-IsSlice d is64 off s a.slice_fits).within in
    rw (
      sub_fat d is64 off s a.slice_fits,
      uint32_at-ok {E = Error} little (fat_slice d is64 off) 0 (omega arith),
    )

-- No sum of an offset and a size wraps, in the `n` entries from `off` on.
pub data NoWrap (d : Slice) (is64 : Bool) : ℕ → ℕ → Type 0 where
  no_more : {off : ℕ} → NoWrap d is64 0 off
  no_wrap :
      {n off : ℕ}
      → extent_off d is64 off + extent_size d is64 off < 2 ^ 64
      → NoWrap d is64 n (off + arch_size is64)
      → NoWrap d is64 (suc n) off

pub NoWrap32 : (d : Slice) (n off : ℕ) → IsSlice d → NoWrap d false n off
NoWrap32 d zero off s = no_more
NoWrap32 d (suc n) off s = no_wrap (extent32-lt d off s) (NoWrap32 d n (off + 20) s)

-- One round of the loop, with the reads made.
abbrev pub arch_result : Slice → Bool → ℕ → (ℕ → Outcome Error Bool) → Outcome Error Bool
arch_result d is64 off rest =
    let w = fat_slice d is64 off in
    if ltb d.len (off + arch_size is64)
    then err fat_arch_truncated
    else if ltb d.len (extent_off d is64 off + w.len)
    then err fat_slice_out_of_range
    else if ltb w.len 4
    then rest (off + arch_size is64)
    else (do
      enc ← check_thin w (is_thin_be (word little w 0))
      if enc then ok true else rest (off + arch_size is64))

pub check_arch_lem :
    (d : Slice) (is64 : Bool) (off : ℕ) (rest : ℕ → Outcome Error Bool)
    → IsSlice d
    → extent_off d is64 off + extent_size d is64 off < 2 ^ 64
    → check_arch d is64 off rest ≡ arch_result d is64 off rest
unfolding check_arch
check_arch_lem d is64 off rest s nowrap =
    let o = extent_off d is64 off in
    let n = extent_size d is64 off in
    let sum : add64 o n ≡ o + n = omega arith in
    elim (Bool-cases (ltb d.len (off + arch_size is64))) [
      | inl cut ↦ rw cut
      | inr entry ↦
          rw (entry, fat_extent_lem d is64 off s (ground arith), sum)
            (elim (Bool-cases (ltb d.len (o + n) || ltb n 4)) [
              | inl left ↦ ground arith
              | inr slice ↦
                  rw (check_slice_lem d is64 off s (ground arith) (ground arith)) (ground arith)
            ])
    ]

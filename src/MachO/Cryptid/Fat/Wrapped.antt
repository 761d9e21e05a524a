-- ===== src/MachO/Cryptid/Fat/Wrapped.antt =====
-- A fat file with 64-bit entries whose first offset and size sum to 2 ^ 64 or more.
use ipadecrypt.MachO.Cryptid.Fat.{extent_off, extent_size, fat_extent_lem, extent-lt}
use ipadecrypt.MachO.Cryptid.{check_slice, check_arch, check_archs, check_fat, slice_has_cryptid}
use ipadecrypt.MachO.{Error, is_fat64}
use ipadecrypt.Outcome.{Outcome, panic}
use ipadecrypt.Prelude.{ℕ, zero, suc, ◌+◌, ◌%◌, ◌^◌, ◌≤◌, ◌<◌, ◌≡◌, Bool, true, arith}
use ipadecrypt.Slice.Laws.{IsSlice, word, uint32_at-ok}
use ipadecrypt.Slice.{Slice, big, little, sub}

-- The first entry wraps, and passes the range check by that.
pub record Wraps (d : Slice) : Type 0 where
  pub magic : is_fat64 (word little d 0) ≡ true
  pub counts : (1 ≤ word big d 4) × (word big d 4 ≤ 32)
  pub entry_fits : 40 ≤ d.len
  pub wraps : 2 ^ 64 ≤ extent_off d true 8 + extent_size d true 8
  pub passes : (extent_off d true 8 + extent_size d true 8) % 2 ^ 64 ≤ d.len
  pub not_tiny : 4 ≤ extent_size d true 8

check_slice_panic :
    (d : Slice) (o n : ℕ) → o < 2 ^ 64 → n < 2 ^ 64 → 2 ^ 64 ≤ o + n → check_slice d o n ≡ panic
unfolding check_slice sub
check_slice_panic d o n ho hn h = ground arith

check_arch_panic :
    (d : Slice) (rest : ℕ → Outcome Error Bool)
    → IsSlice d
    → Wraps d
    → check_arch d true 8 rest ≡ panic
unfolding check_arch
check_arch_panic d rest s w =
    let o = extent_off d true 8 in
    let n = extent_size d true 8 in
    let lt = extent-lt d true 8 s in
    rw (fat_extent_lem d true 8 s w.entry_fits) (
      ground (arith, w.passes, w.entry_fits, w.not_tiny, check_slice_panic d o n lt.0 lt.1 w.wraps))

check_archs_panic :
    (d : Slice) (n : ℕ) → IsSlice d → Wraps d → 1 ≤ n → check_archs d true n 8 ≡ panic
unfolding check_archs
check_archs_panic d zero s w h = absurd (omega arith)
check_archs_panic d (suc n) s w h = check_arch_panic d (λ q. check_archs d true n q) s w

-- A byte slice with the magic of 64-bit fat files that counts 1 to 32 entries, holds the first one as
-- a whole, and whose first offset and size, of at least 4 bytes, sum to 2 ^ 64 or more, but modulo
-- 2 ^ 64 to no more than the slice's length, makes `SliceHasCryptid` panic, whatever else it holds.
pub slice_has_cryptid_panics : (d : Slice) → IsSlice d → Wraps d → slice_has_cryptid d ≡ panic
unfolding slice_has_cryptid check_fat
slice_has_cryptid_panics d s w =
    let within = s.within in
    let fits = w.entry_fits in
    rw
      (
        uint32_at-ok {E = Error} little d 0 (omega arith),
        uint32_at-ok {E = Error} big d 4 (omega arith),
      )
      (ground (arith, w.magic, w.counts, check_archs_panic d (word big d 4) s w w.counts.0))

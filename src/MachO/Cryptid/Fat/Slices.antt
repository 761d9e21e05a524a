-- ===== src/MachO/Cryptid/Fat/Slices.antt =====
-- `checkFat` answers for the slices of a fat file.
use ipadecrypt.MachO.Cryptid.Fat.{
  extent_off, extent_size, fat_slice, IsArch, NoWrap, no_wrap, no_more, NoWrap32, arch_result,
  check_arch_lem, fat_slice-IsSlice,
}
use ipadecrypt.MachO.Cryptid.Thin.{check_thin-Returns}
use ipadecrypt.MachO.Cryptid.{arch_size, check_archs, check_fat, check_thin}
use ipadecrypt.MachO.{Error, is_thin_be, fat_header_truncated, implausible_nfat_arch}
use ipadecrypt.Outcome.{Outcome, ok, err, Returns}
use ipadecrypt.Prelude.{
  ℕ, suc, ◌+◌, ◌^◌, ◌≤◌, ◌<◌, ◌≡◌, ◌↔◌, refl, ◌∙◌, Bool, false, ◌||◌, arith, ltb, ◌==◌,
  if◌then◌else◌, Bool-cases, inl, inr,
}
use ipadecrypt.Slice.Laws.{IsSlice, word, uint32_at-ok}
use ipadecrypt.Slice.{Slice, big, little}

-- `checkThin` on the slice of the entry at `off`, in the byte order of the slice's magic.
abbrev pub slice_verdict : Slice → Bool → ℕ → Outcome Error Bool
slice_verdict d is64 off =
    check_thin (fat_slice d is64 off) (is_thin_be (word little (fat_slice d is64 off) 0))

-- The `n` entries from `off` on lie in the file, and each slice of at least four bytes is a Mach-O
-- file that announces no encryption.
pub data AllPlain (d : Slice) (is64 : Bool) : ℕ → ℕ → Type 0 where
  all_seen : {off : ℕ} → AllPlain d is64 0 off
  plain :
      {n off : ℕ}
      → IsArch d is64 off
      → (4 ≤ extent_size d is64 off → slice_verdict d is64 off ≡ ok false)
      → AllPlain d is64 n (off + arch_size is64)
      → AllPlain d is64 (suc n) off

check_archs_step :
    (d : Slice) (is64 : Bool) (n off : ℕ)
    → IsSlice d
    → extent_off d is64 off + extent_size d is64 off < 2 ^ 64
    → check_archs d is64 (suc n) off ≡ arch_result d is64 off (λ q. check_archs d is64 n q)
unfolding check_archs
check_archs_step d is64 n off s w = check_arch_lem d is64 off (λ q. check_archs d is64 n q) s w

check_archs-false :
    {d : Slice} {is64 : Bool} {n off : ℕ}
    → IsSlice d
    → NoWrap d is64 n off
    → check_archs d is64 n off ≡ ok false
    → AllPlain d is64 n off
check_archs-false s no_more e = all_seen
check_archs-false {d} {is64} s (no_wrap {n} {off} w more) e =
    let step = rw (check_archs_step d is64 n off s w) at e in
    let arch : IsArch d is64 off = ground (arith, step) in
    let rest : check_archs d is64 n (off + arch_size is64) ≡ ok false = ground (arith, step) in
    plain arch (λ h. ground (arith, step)) (check_archs-false s more rest)

check_archs_plain :
    {d : Slice} {is64 : Bool} {n off : ℕ}
    → IsSlice d
    → NoWrap d is64 n off
    → AllPlain d is64 n off
    → check_archs d is64 n off ≡ ok false
check_archs_plain s no_more p = unfold check_archs in refl
check_archs_plain {d} {is64} s (no_wrap {n} {off} w more) (plain a v rest) =
    check_archs_step d is64 n off s w ∙ ground (arith, a, v, check_archs_plain s more rest)

check_archs-Returns :
    {d : Slice} {is64 : Bool} {n off : ℕ}
    → IsSlice d
    → NoWrap d is64 n off
    → Returns (check_archs d is64 n off)
check_archs-Returns s no_more = unfold check_archs in tt
check_archs-Returns {d} {is64} s (no_wrap {n} {off} w more) =
    let rest = check_archs-Returns s more in
    rw (check_archs_step d is64 n off s w)
      (elim (Bool-cases (ltb d.len (extent_off d is64 off + extent_size d is64 off))) [
        | inl cut ↦ ground (arith, cut)
        | inr fits ↦
            let w' = fat_slice-IsSlice d is64 off s (ground arith) in
            ground (
              arith,
              check_thin-Returns (fat_slice d is64 off)
                  (is_thin_be (word little (fat_slice d is64 off) 0)) w',
            )
      ])

check_fat_lem :
    (d : Slice) (is64 : Bool)
    → IsSlice d
    → check_fat d is64 ≡ (
        if ltb d.len 8
        then err fat_header_truncated
        else if word big d 4 == 0 || ltb 32 (word big d 4)
        then err (implausible_nfat_arch (word big d 4))
        else check_archs d is64 (word big d 4) 8)
unfolding check_fat
check_fat_lem d is64 s = elim (Bool-cases (ltb d.len 8)) [
  | inl cut ↦ rw cut
  | inr whole ↦ rw (whole, uint32_at-ok big d 4 (ground (arith, s.within)))
]

-- `checkFat` answers false exactly when the header counts 1 to 32 entries, all entries and slices
-- lie in the file, and every slice of at least four bytes announces no encryption; this on a file
-- where no offset and size sum to 2 ^ 64 or more.
pub check_fat-false_iff :
    (d : Slice) (is64 : Bool)
    → IsSlice d
    → NoWrap d is64 (word big d 4) 8
    → (check_fat d is64 ≡ ok false)
      ↔ ((8 ≤ d.len) × (1 ≤ word big d 4) × (word big d 4 ≤ 32) × AllPlain d is64 (word big d 4) 8)
check_fat-false_iff d is64 s w = (
  λ e.
      let r = rw (check_fat_lem d is64 s) at e in
      (ground arith, ground arith, ground arith, check_archs-false s w (ground arith)),
  λ (h, lo, hi, p). check_fat_lem d is64 s ∙ ground (arith, check_archs_plain s w p),
)

-- On a file with 32-bit entries `checkFat` never panics.
pub check_fat-Returns : (d : Slice) → IsSlice d → Returns (check_fat d false)
check_fat-Returns d s =
    rw (check_fat_lem d false s)
      (ground (arith, check_archs-Returns s (NoWrap32 d (word big d 4) 8 s)))

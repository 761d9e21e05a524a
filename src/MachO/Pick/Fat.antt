-- ===== src/MachO/Pick/Fat.antt =====
-- The slice that `pickFatSlice` picks.
use ipadecrypt.MachO.Pick.Loop.{
  FirstMatch, match_here, match_later, Picked, pick_arch_sound, pick_arch_complete,
}
use ipadecrypt.MachO.Cryptid.Fat.{IsArch, NoWrap, fat_slice-IsSlice}
use ipadecrypt.MachO.Pick.{pick_arch, pick_fat_slice}
use ipadecrypt.MachO.{fat_truncated, implausible_nfat_arch}
use ipadecrypt.Outcome.{ok, err}
use ipadecrypt.Prelude.{
  ◌≤◌, ℕ, ◌≤◌, ◌≡◌, ◌↔◌, ◌∙◌, Bool, ◌||◌, arith, ltb, ◌==◌, if◌then◌else◌, Bool-cases, inl, inr,
}
use ipadecrypt.Slice.Laws.{IsSlice, word, uint32_at-ok}
use ipadecrypt.Slice.{Slice, big}

pick_fat_slice_lem :
    (d : Slice) (is64 : Bool) (cpu cpu_sub : ℕ)
    → IsSlice d
    → pick_fat_slice d is64 cpu cpu_sub ≡ (
        if ltb d.len 8
        then err fat_truncated
        else if word big d 4 == 0 || ltb 32 (word big d 4)
        then err (implausible_nfat_arch (word big d 4))
        else pick_arch d is64 cpu cpu_sub (word big d 4) 8)
unfolding pick_fat_slice
pick_fat_slice_lem d is64 cpu cpu_sub s = elim (Bool-cases (ltb d.len 8)) [
  | inl cut ↦ rw cut
  | inr whole ↦ rw (whole, uint32_at-ok big d 4 (ground (arith, s.within)))
]

-- The header counts 1 to 32 entries, and the picked slice is that of the first match.
pub record FatPick (d : Slice) (is64 : Bool) (cpu cpu_sub : ℕ) (w : Slice) : Type 0 where
  pub header_fits : 8 ≤ d.len
  pub count_min : 1 ≤ word big d 4
  pub count_max : word big d 4 ≤ 32
  pub picked : Picked d is64 cpu cpu_sub (word big d 4) 8 w

-- `pickFatSlice` answers exactly with the slice of the first entry for the wanted processor, when
-- that slice lies in the file; this on a file where no offset and size sum to 2 ^ 64 or more.
pub pick_fat_slice_iff :
    (d w : Slice) (is64 : Bool) (cpu cpu_sub : ℕ)
    → IsSlice d
    → NoWrap d is64 (word big d 4) 8
    → (pick_fat_slice d is64 cpu cpu_sub ≡ ok w) ↔ FatPick d is64 cpu cpu_sub w
pick_fat_slice_iff d w is64 cpu cpu_sub s nw = (sound, complete)
  where
    sound : pick_fat_slice d is64 cpu cpu_sub ≡ ok w → FatPick d is64 cpu cpu_sub w
    sound e =
        let r = rw (pick_fat_slice_lem d is64 cpu cpu_sub s) at e in
        let header : 8 ≤ d.len = ground arith in
        let lo : 1 ≤ word big d 4 = ground arith in
        let hi : word big d 4 ≤ 32 = ground arith in
        let found : pick_arch d is64 cpu cpu_sub (word big d 4) 8 ≡ ok w = ground arith in
        let p = pick_arch_sound s nw found in
        record { header_fits = header; count_min = lo; count_max = hi; picked = p }

    complete : FatPick d is64 cpu cpu_sub w → pick_fat_slice d is64 cpu cpu_sub ≡ ok w
    complete f =
        pick_fat_slice_lem d is64 cpu cpu_sub s
        ∙ ground (
          arith,
          f.header_fits,
          f.count_min,
          f.count_max,
          f.picked.window,
          pick_arch_complete s nw f.picked.first,
        )

FirstMatch-IsArch :
    {d : Slice} {is64 : Bool} {cpu cpu_sub q n off : ℕ}
    → FirstMatch d is64 cpu cpu_sub q n off
    → IsArch d is64 q
FirstMatch-IsArch (match_here e a hit) = a
FirstMatch-IsArch (match_later fits miss rest) = FirstMatch-IsArch rest

pub FatPick-IsSlice :
    {d w : Slice} {is64 : Bool} {cpu cpu_sub : ℕ}
    → IsSlice d
    → FatPick d is64 cpu cpu_sub w
    → IsSlice w
FatPick-IsSlice {d} {is64 = is64} s f =
    let p = f.picked in
    rw p.window (fat_slice-IsSlice d is64 p.at s (FirstMatch-IsArch p.first).slice_fits)

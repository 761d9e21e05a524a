-- ===== src/MachO/Pick/Loop.antt =====
-- The loop of `pickFatSlice`, both ways between its answer and the entries.
use ipadecrypt.MachO.Cryptid.Fat.{
  extent_off, extent_size, fat_slice, IsArch, NoWrap, no_wrap, no_more, fat_extent_lem, sub_fat,
}
use ipadecrypt.MachO.Cryptid.{arch_size}
use ipadecrypt.MachO.Pick.{same_cpu, pick_round, pick_arch}
use ipadecrypt.MachO.{Error, fat_arch_truncated, fat_slice_out_of_range}
use ipadecrypt.Outcome.{Outcome, ok, err}
use ipadecrypt.Prelude.{
  ℕ, suc, ◌+◌, ◌^◌, ◌≤◌, ◌<◌, ◌≡◌, refl, ◌∙◌, Bool, true, false, not, arith, ltb, if◌then◌else◌,
  length, Bool-cases, ◌↔◌, bit_and, inl, inr, add64,
}
use ipadecrypt.Slice.Laws.{IsSlice, word, uint32_at-ok}
use ipadecrypt.Slice.{Slice, big}

-- The entry at `off` is for the wanted processor.
abbrev pub matches : Slice → ℕ → ℕ → ℕ → Bool
matches d cpu cpu_sub off = same_cpu (word big d off) (word big d (off + 4)) cpu cpu_sub

-- The processor of a header or an entry is the wanted one, the feature bits of the subtype left out.
abbrev pub SameCpu : ℕ → ℕ → ℕ → ℕ → Type 0
SameCpu c s cpu cpu_sub = (c ≡ cpu) × (bit_and s 0x00ffffff ≡ bit_and cpu_sub 0x00ffffff)

pub same_cpu-SameCpu :
    (c s cpu cpu_sub : ℕ) → (same_cpu c s cpu cpu_sub ≡ true) ↔ SameCpu c s cpu cpu_sub
same_cpu-SameCpu c s cpu cpu_sub = (λ h. ground arith, λ h. ground arith)

same_cpu-false :
    (c s cpu cpu_sub : ℕ) → same_cpu c s cpu cpu_sub ≡ false → ¬ SameCpu c s cpu cpu_sub
same_cpu-false c s cpu cpu_sub h =
    λ same. absurd (ground (arith, h, (same_cpu-SameCpu c s cpu cpu_sub).1 same))

same_cpu_other :
    (c s cpu cpu_sub : ℕ) → ¬ SameCpu c s cpu cpu_sub → same_cpu c s cpu cpu_sub ≡ false
same_cpu_other c s cpu cpu_sub h = elim (Bool-cases (same_cpu c s cpu cpu_sub)) [
  | inl same ↦ absurd (h ((same_cpu-SameCpu c s cpu cpu_sub).0 same))
  | inr other ↦ other
]

-- The entry at `off` is for the wanted processor.
abbrev pub IsFor : Slice → ℕ → ℕ → ℕ → Type 0
IsFor d cpu cpu_sub off = SameCpu (word big d off) (word big d (off + 4)) cpu cpu_sub

-- Of the `n` entries from `off` on, the one at `q` is the first match; its slice lies in the file.
pub data FirstMatch (d : Slice) (is64 : Bool) (cpu cpu_sub q : ℕ) : ℕ → ℕ → Type 0 where
  match_here :
      {n off : ℕ}
      → off ≡ q
      → IsArch d is64 q
      → IsFor d cpu cpu_sub q
      → FirstMatch d is64 cpu cpu_sub q (suc n) off
  match_later :
      {n off : ℕ}
      → off + arch_size is64 ≤ d.len
      → ¬ IsFor d cpu cpu_sub off
      → FirstMatch d is64 cpu cpu_sub q n (off + arch_size is64)
      → FirstMatch d is64 cpu cpu_sub q (suc n) off

-- One round of the loop, with the reads made.
abbrev round_result : Slice → Bool → ℕ → ℕ → ℕ → (ℕ → Outcome Error Slice) → Outcome Error Slice
round_result d is64 cpu cpu_sub off rest =
    if ltb d.len (off + arch_size is64)
    then err fat_arch_truncated
    else if not (matches d cpu cpu_sub off)
    then rest (off + arch_size is64)
    else if ltb d.len (extent_off d is64 off + extent_size d is64 off)
    then err fat_slice_out_of_range
    else ok (fat_slice d is64 off)

pick_round_lem :
    (d : Slice) (is64 : Bool) (cpu cpu_sub off : ℕ) (rest : ℕ → Outcome Error Slice)
    → IsSlice d
    → extent_off d is64 off + extent_size d is64 off < 2 ^ 64
    → pick_round d is64 cpu cpu_sub off rest ≡ round_result d is64 cpu cpu_sub off rest
unfolding pick_round
pick_round_lem d is64 cpu cpu_sub off rest s nowrap =
    let o = extent_off d is64 off in
    let n = extent_size d is64 off in
    let sum : add64 o n ≡ o + n = omega arith in
    elim (Bool-cases (ltb d.len (off + arch_size is64))) [
      | inl cut ↦ rw cut
      | inr entry ↦
          let room : off + 20 ≤ length d.mem = room_of is64 entry in
          rw
            (
              entry,
              uint32_at-ok big d off (omega arith),
              uint32_at-ok big d (off + 4) (omega arith),
              fat_extent_lem d is64 off s (ground arith),
            )
            (elim (Bool-cases (ltb d.len (o + n))) [
              | inl cut ↦ rw (sum) (ground arith)
              | inr fits ↦ rw (sub_fat d is64 off s (ground arith), sum) (ground arith)
            ])
    ]
  where
    room_of : (k : Bool) → ltb d.len (off + arch_size k) ≡ false → off + 20 ≤ length d.mem
    room_of true e = ground (arith, s.within)
    room_of false e = ground (arith, s.within)

pick_arch_step :
    (d : Slice) (is64 : Bool) (cpu cpu_sub n off : ℕ)
    → IsSlice d
    → extent_off d is64 off + extent_size d is64 off < 2 ^ 64
    → pick_arch d is64 cpu cpu_sub (suc n) off
      ≡ round_result d is64 cpu cpu_sub off (λ q. pick_arch d is64 cpu cpu_sub n q)
unfolding pick_arch
pick_arch_step d is64 cpu cpu_sub n off s w =
    pick_round_lem d is64 cpu cpu_sub off (λ q. pick_arch d is64 cpu cpu_sub n q) s w

-- The picked slice is that of the first match.
pub record Picked (d : Slice) (is64 : Bool) (cpu cpu_sub n off : ℕ) (w : Slice) : Type 0 where
  pub at : ℕ
  pub first : FirstMatch d is64 cpu cpu_sub at n off
  pub window : w ≡ fat_slice d is64 at

pub pick_arch_sound :
    {d w : Slice} {is64 : Bool} {cpu cpu_sub n off : ℕ}
    → IsSlice d
    → NoWrap d is64 n off
    → pick_arch d is64 cpu cpu_sub n off ≡ ok w
    → Picked d is64 cpu cpu_sub n off w
pick_arch_sound s no_more e = unfold pick_arch in cc
pick_arch_sound {d} {w} {is64} {cpu} {cpu_sub} s (no_wrap {n} {off} nw more) e =
    let step = rw (pick_arch_step d is64 cpu cpu_sub n off s nw) at e in
    elim (Bool-cases (matches d cpu cpu_sub off)) [
      | inl hit ↦
          let arch : IsArch d is64 off = ground arith in
          let same = (same_cpu-SameCpu (word big d off) (word big d (off + 4)) cpu cpu_sub).0 hit in
          record { at = off; first = match_here refl arch same; window = ground arith }
      | inr miss ↦
          let rest : pick_arch d is64 cpu cpu_sub n (off + arch_size is64) ≡ ok w = ground arith in
          let fits : off + arch_size is64 ≤ d.len = ground arith in
          let p = pick_arch_sound s more rest in
          let other = same_cpu-false (word big d off) (word big d (off + 4)) cpu cpu_sub in
          record { at = p.at; first = match_later fits (other miss) p.first; window = p.window }
    ]

pub pick_arch_complete :
    {d : Slice} {is64 : Bool} {cpu cpu_sub q n off : ℕ}
    → IsSlice d
    → NoWrap d is64 n off
    → FirstMatch d is64 cpu cpu_sub q n off
    → pick_arch d is64 cpu cpu_sub n off ≡ ok (fat_slice d is64 q)
pick_arch_complete s no_more m = elim m [ ]
pick_arch_complete {d} {is64} {cpu} {cpu_sub} {q} s (no_wrap {n} {off} nw more)
      (match_here e a hit) =
    let hits = (same_cpu-SameCpu (word big d q) (word big d (q + 4)) cpu cpu_sub).1 hit in
    pick_arch_step d is64 cpu cpu_sub n off s nw ∙ rw e (ground (arith, a, hits))
pick_arch_complete {d} {is64} {cpu} {cpu_sub} s (no_wrap {n} {off} nw more)
      (match_later fits miss rest) =
    let misses = same_cpu_other (word big d off) (word big d (off + 4)) cpu cpu_sub miss in
    pick_arch_step d is64 cpu cpu_sub n off s nw
    ∙ ground (arith, misses, pick_arch_complete s more rest)

-- ===== src/MachO/Pick/Window.antt =====
-- When `PickSlice` answers, and with which window of the file.
use ipadecrypt.MachO.Pick.Loop.{SameCpu}
use ipadecrypt.Prelude.{◌≤◌, ℕ, ◌≤◌, ◌≡◌, true, false, ◌⊎◌}
use ipadecrypt.Slice.Laws.{word}
use ipadecrypt.Slice.{Slice, little}
use ipadecrypt.MachO.Pick.Fat.{FatPick}

-- The magics, read little-endian: of thin files, of fat files with 32-bit and with 64-bit entries.
abbrev pub ThinMagic : ℕ → Type 0
ThinMagic m = (m ≡ 0xfeedface) ⊎ (m ≡ 0xfeedfacf)

abbrev pub FatMagic32 : ℕ → Type 0
FatMagic32 m = (m ≡ 0xcafebabe) ⊎ (m ≡ 0xbebafeca)

abbrev pub FatMagic64 : ℕ → Type 0
FatMagic64 m = (m ≡ 0xcafebabf) ⊎ (m ≡ 0xbfbafeca)

-- The ways in which `PickSlice` answers: with the whole of a thin file whose header names the wanted
-- processor, or with the first matching slice of a fat file, whose magic tells how wide its entries
-- are.
pub data PickedFrom (d : Slice) (cpu cpu_sub : ℕ) (w : Slice) : Type 0 where
  of_thin :
      ThinMagic (word little d 0)
      → 16 ≤ d.len
      → SameCpu (word little d 4) (word little d 8) cpu cpu_sub
      → w ≡ d
      → PickedFrom d cpu cpu_sub w
  of_fat32 :
      FatMagic32 (word little d 0) → FatPick d false cpu cpu_sub w → PickedFrom d cpu cpu_sub w
  of_fat64 :
      FatMagic64 (word little d 0) → FatPick d true cpu cpu_sub w → PickedFrom d cpu cpu_sub w

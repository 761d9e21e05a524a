-- ===== src/MachO/Cryptid/Thin.antt =====
-- `checkThin` answers for the file's load commands.
mod Loop
use Loop.{
  check_commands-false, check_commands_clear, check_commands-true, check_commands_encrypted,
  check_commands-Returns,
}
use ipadecrypt.MachO.Commands.{
  EncryptedSomewhere, IsCommand, IsClear, AllClear, none_left, clear, EncryptedAt, encrypted,
  behind,
}
use ipadecrypt.MachO.Cryptid.{check_round, check_commands, order, check_thin}
use ipadecrypt.MachO.Encryption.{header_size, wanted}
use ipadecrypt.MachO.{
  Error, magic64_le, magic64_be, mach_header_truncated, load_commands_truncated, load_cmd_truncated,
  encryption_info_truncated, bad_cmdsize, implausible_ncmds,
}
use ipadecrypt.Outcome.{Outcome, ok, err, Returns}
use ipadecrypt.Prelude.{
  ℕ, zero, suc, ◌+◌, ◌^◌, ◌≤◌, ◌<◌, ◌≡◌, ◌≢◌, ◌↔◌, ◌⊎◌, refl, sym, ap, ◌∙◌, Bool, true, false, not,
  ◌&&◌, ◌||◌, arith, ltb, ◌==◌, if◌then◌else◌, length, Bool-cases, inl, inr,
}
use ipadecrypt.Slice.Laws.{IsSlice, word, word-lt, uint32_at-ok}
use ipadecrypt.Slice.{Slice, ByteOrder, uint32_at}

-- The kind of file that `checkThin` takes `d` for.
abbrev pub is64_of : ByteOrder → Slice → Bool
is64_of bo d = word bo d 0 == magic64_le || word bo d 0 == magic64_be

-- `checkThin` with the header's reads made.
check_thin_lem :
    (d : Slice) (swap : Bool)
    → IsSlice d
    → check_thin d swap ≡ (
        let bo = order swap in
        if ltb d.len 28
        then err mach_header_truncated
        else if ltb d.len (header_size (is64_of bo d) + word bo d 20)
        then err load_commands_truncated
        else if ltb (2 ^ 16) (word bo d 16)
        then err (implausible_ncmds (word bo d 16))
        else check_commands bo d
            (wanted (is64_of bo d))
            (word bo d 16)
            (header_size (is64_of bo d)))
unfolding check_thin
check_thin_lem d swap s = elim (Bool-cases (ltb d.len 28)) [
  | inl cut ↦ rw cut
  | inr whole ↦
      let inside : 28 ≤ length d.mem = ground (arith, s.within) in
      rw
        (
          whole,
          uint32_at-ok (order swap) d 0 (omega arith),
          uint32_at-ok (order swap) d 16 (omega arith),
          uint32_at-ok (order swap) d 20 (omega arith),
        )
        (ground (arith, word-lt (order swap) d 20 s))
]

-- The header of a file that `checkThin` goes through.
pub record HasHeader (d : Slice) (swap : Bool) : Type 0 where
  pub header_fits : 28 ≤ d.len
  pub commands_fit : header_size (is64_of (order swap) d) + word (order swap) d 20 ≤ d.len
  pub plausible : word (order swap) d 16 ≤ 2 ^ 16

-- The commands of the file, behind its header.
abbrev pub Commands : Slice → Bool → (ℕ → ℕ → Type 0) → Type 0
Commands d swap P = P (word (order swap) d 16) (header_size (is64_of (order swap) d))

-- `checkThin` answers false exactly when the header is in order and every load command is well
-- formed and announces no encryption.
pub check_thin-false_iff :
    (d : Slice) (swap : Bool)
    → IsSlice d
    → (check_thin d swap ≡ ok false) ↔ (
        HasHeader d swap
        × Commands d swap (AllClear (order swap) d (wanted (is64_of (order swap) d))))
check_thin-false_iff d swap s = (sound, complete)
  where
    bo : ByteOrder
    bo = order swap

    sound :
        check_thin d swap ≡ ok false
        → HasHeader d swap
          × Commands d swap (AllClear (order swap) d (wanted (is64_of (order swap) d)))
    sound e =
        let r = rw (check_thin_lem d swap s) at e in
        let h : HasHeader d swap = ground arith in
        (
          h,
          check_commands-false bo d _ (word bo d 16) (header_size (is64_of bo d)) s
              (ground (arith, h)) (ground (arith, h)),
        )

    complete :
        HasHeader d swap
          × Commands d swap (AllClear (order swap) d (wanted (is64_of (order swap) d)))
        → check_thin d swap ≡ ok false
    complete (h, c) =
        check_thin_lem d swap s ∙ ground (arith, h, check_commands_clear s (ground (arith, h)) c)

-- `checkThin` answers true exactly when the header is in order and an encryption command with a
-- cryptid other than 0 stands behind clear commands only.
pub check_thin-true_iff :
    (d : Slice) (swap : Bool)
    → IsSlice d
    → (check_thin d swap ≡ ok true) ↔ (
        HasHeader d swap
        × Commands d swap (EncryptedSomewhere (order swap) d (wanted (is64_of (order swap) d))))
check_thin-true_iff d swap s = (sound, complete)
  where
    bo : ByteOrder
    bo = order swap

    sound :
        check_thin d swap ≡ ok true
        → HasHeader d swap
          × Commands d swap (EncryptedSomewhere (order swap) d (wanted (is64_of (order swap) d)))
    sound e =
        let r = rw (check_thin_lem d swap s) at e in
        let h : HasHeader d swap = ground arith in
        (
          h,
          check_commands-true bo d _ (word bo d 16) (header_size (is64_of bo d)) s
              (ground (arith, h)) (ground (arith, h)),
        )

    complete :
        HasHeader d swap
          × Commands d swap (EncryptedSomewhere (order swap) d (wanted (is64_of (order swap) d)))
        → check_thin d swap ≡ ok true
    complete (h, c) =
        check_thin_lem d swap s ∙ ground (arith, h, check_commands_encrypted s c.found)

-- `checkThin` never panics.
pub check_thin-Returns : (d : Slice) (swap : Bool) → IsSlice d → Returns (check_thin d swap)
check_thin-Returns d swap s = rw (check_thin_lem d swap s) (
    ground (
      arith,
      check_commands-Returns (order swap) d (wanted (is64_of (order swap) d))
          (word (order swap) d 16) (header_size (is64_of (order swap) d)) s,
    ))

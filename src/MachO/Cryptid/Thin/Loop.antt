-- ===== src/MachO/Cryptid/Thin/Loop.antt =====
-- The loop of `checkThin` over the load commands, both ways between its answer and the commands.
use ipadecrypt.MachO.Commands.{
  EncryptedSomewhere, IsCommand, IsClear, AllClear, none_left, clear, EncryptedAt, encrypted,
  behind,
}
use ipadecrypt.MachO.Cryptid.{check_round, check_commands}
use ipadecrypt.MachO.{Error, load_cmd_truncated, encryption_info_truncated, bad_cmdsize}
use ipadecrypt.Outcome.{Outcome, ok, err, Returns}
use ipadecrypt.Prelude.{
  ℕ, zero, suc, ◌+◌, ◌≤◌, ◌≡◌, refl, ◌∙◌, Bool, true, false, not, ◌&&◌, ◌||◌, arith, ltb, ◌==◌,
  if◌then◌else◌, Bool-cases, inl, inr,
}
use ipadecrypt.Slice.Laws.{IsSlice, word, uint32_at-ok}
use ipadecrypt.Slice.{Slice, ByteOrder}

-- One round of the loop, with the reads made.
abbrev round_result : ByteOrder → Slice → ℕ → ℕ → (ℕ → Outcome Error Bool) → Outcome Error Bool
round_result bo d want p rest =
    let size = word bo d (p + 4) in
    if ltb d.len (p + 8)
    then err load_cmd_truncated
    else if ltb size 8 || ltb d.len (p + size)
    then err (bad_cmdsize size)
    else if not (word bo d p == want)
    then rest (p + size)
    else if ltb size 20
    then err encryption_info_truncated
    else if not (word bo d (p + 16) == 0)
    then ok true
    else rest (p + size)

check_round_lem :
    (bo : ByteOrder) (d : Slice) (want p : ℕ) (rest : ℕ → Outcome Error Bool)
    → IsSlice d
    → p ≤ d.len
    → check_round bo d want p rest ≡ round_result bo d want p rest
unfolding check_round
check_round_lem bo d want p rest s h = elim (Bool-cases (ltb d.len (p + 8))) [
  | inl cut ↦ rw cut
  | inr whole ↦
      rw
        (
          whole,
          uint32_at-ok bo d p (ground (arith, s.within)),
          uint32_at-ok bo d (p + 4) (ground (arith, s.within)),
        )
        (ground (arith, uint32_at-ok {E = Error} bo d (p + 16), s.counted, s.within))
]

check_commands_step :
    (bo : ByteOrder) (d : Slice) (want n p : ℕ)
    → IsSlice d
    → p ≤ d.len
    → check_commands bo d want (suc n) p
      ≡ round_result bo d want p (λ q. check_commands bo d want n q)
unfolding check_commands
check_commands_step bo d want n p s h =
    check_round_lem bo d want p (λ q. check_commands bo d want n q) s h

pub check_commands-false :
    (bo : ByteOrder) (d : Slice) (want n p : ℕ)
    → IsSlice d
    → p ≤ d.len
    → check_commands bo d want n p ≡ ok false
    → AllClear bo d want n p
check_commands-false bo d want zero p s h e = none_left
check_commands-false bo d want (suc n) p s h e =
    let step = rw (check_commands_step bo d want n p s h) at e in
    let command : IsCommand bo d p = ground (arith, step) in
    clear
      (record {
        command = command;
        roomy = λ hit. ground (arith, step);
        plain = λ hit. ground (arith, step);
      })
      (check_commands-false bo d want n (p + word bo d (p + 4)) s command.size_fits
        (ground (arith, step, command)))

pub check_commands_clear :
    {bo : ByteOrder} {d : Slice} {want n p : ℕ}
    → IsSlice d
    → p ≤ d.len
    → AllClear bo d want n p
    → check_commands bo d want n p ≡ ok false
check_commands_clear s h none_left = unfold check_commands in refl
check_commands_clear {bo} {d} {want} s h (clear {n} {p} c more) =
    check_commands_step bo d want n p s h
    ∙ ground (arith, c.command, c.roomy, c.plain, check_commands_clear s c.command.size_fits more)

pub check_commands-true :
    (bo : ByteOrder) (d : Slice) (want n p : ℕ)
    → IsSlice d
    → p ≤ d.len
    → check_commands bo d want n p ≡ ok true
    → EncryptedSomewhere bo d want n p
check_commands-true bo d want zero p s h e = unfold check_commands in cc
check_commands-true bo d want (suc n) p s h e =
    let step = rw (check_commands_step bo d want n p s h) at e in
    let command : IsCommand bo d p = ground (arith, step) in
    let size_fits = command.size_fits in
    elim (Bool-cases (word bo d p == want && not (word bo d (p + 16) == 0))) [
      | inl hit ↦ record {
        at = p;
        found = encrypted refl command (ground arith) (ground (arith, step)) (ground arith);
      }
      | inr miss ↦
          let clear_here : IsClear bo d want p = record {
            command = command;
            roomy = λ c. ground (arith, step);
            plain = λ c. ground arith;
          } in
          let rest : check_commands bo d want n (p + word bo d (p + 4)) ≡ ok true =
            ground (arith, step) in
          let f = check_commands-true bo d want n (p + word bo d (p + 4)) s size_fits rest in
          record { at = f.at; found = behind clear_here f.found }
    ]

pub check_commands_encrypted :
    {bo : ByteOrder} {d : Slice} {want q n p : ℕ}
    → IsSlice d
    → EncryptedAt bo d want q n p
    → check_commands bo d want n p ≡ ok true
check_commands_encrypted {bo} {d} {want} {q} s (encrypted {n} {p} e c hit roomy secret) =
    let fits = c.size_fits in
    rw e (check_commands_step bo d want n q s (omega arith) ∙ ground (arith, c))
check_commands_encrypted {bo} {d} {want} s (behind {n} {p} c more) =
    let fits = c.command.size_fits in
    check_commands_step bo d want n p s (omega arith)
    ∙ ground (arith, c.command, c.roomy, c.plain, check_commands_encrypted s more)

pub check_commands-Returns :
    (bo : ByteOrder) (d : Slice) (want n p : ℕ)
    → IsSlice d
    → p ≤ d.len
    → Returns (check_commands bo d want n p)
check_commands-Returns bo d want zero p s h = unfold check_commands in tt
check_commands-Returns bo d want (suc n) p s h =
    rw (check_commands_step bo d want n p s h)
      (ground (arith, check_commands-Returns bo d want n (p + word bo d (p + 4)) s))

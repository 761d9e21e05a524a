-- ===== src/MachO/Agreement.antt =====
-- `ReadEncryptionInfo` and `SliceHasCryptid` read the same command.
use ipadecrypt.MachO.Commands.{FirstAt, here, later, AllClear, clear}
use ipadecrypt.MachO.Cryptid.Thin.{check_thin-false_iff, is64_of}
use ipadecrypt.MachO.Cryptid.{check_thin, slice_has_cryptid}
use ipadecrypt.MachO.Encryption.Correct.{HasInfo, read_encryption_info_iff, fields}
use ipadecrypt.MachO.Encryption.{EncryptionInfo, header_size, wanted, read_encryption_info}
use ipadecrypt.MachO.{is_thin_le}
use ipadecrypt.Outcome.{ok}
use ipadecrypt.Prelude.{ℕ, ◌+◌, ◌≤◌, ◌≡◌, sym, ap, ◌∙◌, subst, true, false, arith}
use ipadecrypt.Slice.Laws.{IsSlice, word, uint32_at-ok}
use ipadecrypt.Slice.{Slice, ByteOrder, little}

first-AllClear :
    {bo : ByteOrder} {d : Slice} {want q n p : ℕ}
    → FirstAt bo d want q n p
    → AllClear bo d want n p
    → word bo d (q + 16) ≡ 0
first-AllClear {bo} {d} {want} (here e c hit) (clear x more) =
    subst (λ t. word bo d t ≡ want → word bo d (t + 16) ≡ 0) e x.plain hit
first-AllClear (later c miss more) (clear x rest) = first-AllClear more rest

-- A thin little-endian file is handed to `checkThin` as it is.
pub slice_has_cryptid_thin :
    (d : Slice)
    → IsSlice d
    → 4 ≤ d.len
    → is_thin_le (word little d 0) ≡ true
    → slice_has_cryptid d ≡ check_thin d false
unfolding slice_has_cryptid
slice_has_cryptid_thin d s h thin =
    rw (uint32_at-ok little d 0 (ground (arith, s.within))) (ground arith)

-- Where `ReadEncryptionInfo` answers and `SliceHasCryptid` says no, the cryptid that was read is 0.
pub plain-cryptid :
    (d : Slice) (info : EncryptionInfo)
    → IsSlice d
    → read_encryption_info d ≡ ok info
    → slice_has_cryptid d ≡ ok false
    → info.cryptid ≡ 0
unfolding fields
plain-cryptid d info s r e =
    let h : HasInfo d info = (read_encryption_info_iff d info s).0 r in
    let thin =
      slice_has_cryptid_thin d s (omega (arith, h.header_fits)) (ground (arith, h.magic)) in
    let clear = ((check_thin-false_iff d false s).0 (sym thin ∙ e)).1 in
    let same : is64_of little d ≡ h.is64 = ground (arith, h.magic) in
    let cleared : AllClear little d (wanted h.is64) (word little d 16) (header_size h.is64) =
      subst (λ k. AllClear little d (wanted k) (word little d 16) (header_size k)) same clear in
    ap (λ (i : EncryptionInfo). i.cryptid) h.info_is ∙ first-AllClear h.first cleared

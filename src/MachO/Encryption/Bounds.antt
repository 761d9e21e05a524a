-- ===== src/MachO/Encryption/Bounds.antt =====
-- The range of what `ReadEncryptionInfo` reports.
use ipadecrypt.MachO.Commands.{IsCommand, FirstAt, here, later}
use ipadecrypt.MachO.Encryption.Correct.{read_encryption_info_iff, fields}
use ipadecrypt.MachO.Encryption.{EncryptionInfo, read_encryption_info}
use ipadecrypt.Outcome.{ok}
use ipadecrypt.Prelude.{ℕ, ◌+◌, ◌≤◌, ◌<◌, ◌^◌, ◌≡◌, arith}
use ipadecrypt.Slice.Laws.{IsSlice, word-lt}
use ipadecrypt.Slice.{Slice, ByteOrder, little}

first-IsCommand :
    {bo : ByteOrder} {d : Slice} {want q n p : ℕ} → FirstAt bo d want q n p → IsCommand bo d q
first-IsCommand (here e c hit) = c
first-IsCommand (later c miss more) = first-IsCommand more

-- The cryptid lies in the file, and the three words are uint32 values.
pub record InRange (d : Slice) (info : EncryptionInfo) : Type 0 where
  pub cryptid_fits : info.cryptid_offset + 4 ≤ d.len
  pub off_lt : info.crypt_off < 2 ^ 32
  pub size_lt : info.crypt_size < 2 ^ 32
  pub cryptid_lt : info.cryptid < 2 ^ 32

-- Where `ReadEncryptionInfo` answers, the cryptid lies in the file, and the region's offset and size
-- and the cryptid are below 2 ^ 32.
pub read_encryption_info-InRange :
    (d : Slice) (info : EncryptionInfo)
    → IsSlice d
    → read_encryption_info d ≡ ok info
    → InRange d info
unfolding fields
read_encryption_info-InRange d info s e =
    let h = (read_encryption_info_iff d info s).0 e in
    let c = first-IsCommand h.first in
    let roomy = h.roomy in
    let fits = c.size_fits in
    ground (
      arith,
      h.info_is,
      roomy,
      fits,
      word-lt little d (h.at + 8) s,
      word-lt little d (h.at + 12) s,
      word-lt little d (h.at + 16) s,
    )

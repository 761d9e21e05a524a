-- ===== src/Pipeline/Compare.antt =====
-- internal/pipeline/verify.go: `compareMachOSlice`, `cryptZeroed` and `isAllZero`. The text that
-- `compareMachOSlice` returns is a `Reason`, and the empty text is `none`.
pub mod Accepts
pub mod Panics
use ipadecrypt.MachO.Encryption.{EncryptionInfo, read_encryption_info, read_thin_cpu}
use ipadecrypt.MachO.Pick.{pick_slice}
use ipadecrypt.MachO.{Error, is_fat32, is_fat64, is_thin_le}
use ipadecrypt.Outcome.{Outcome, ok, ◌>>=◌, attempt}
use ipadecrypt.Prelude.Text.{equal}
use ipadecrypt.Prelude.{
  ℕ, Bool, true, false, not, ◌&&◌, ◌||◌, Option, none, some, List, [], ◌∷◌, ltb, ◌==◌,
  if◌then◌else◌, add64, Bytes,
}
use ipadecrypt.Slice.{Slice, bytes, little, sub, uint32_at}

pub data Reason : Type 0 where
  output_too_short fat_passthrough_differs thin_passthrough_differs : Reason
  parse_output_cpu match_source_slice parse_source_info : Error → Reason
  crypt_moved : ℕ → ℕ → ℕ → ℕ → Reason
  size_differs : ℕ → ℕ → Reason
  header_differs commands_differ tail_differs all_zeros ciphertext_kept : Reason

unfoldable pub is_all_zero : Bytes → Bool
is_all_zero [] = true
is_all_zero (c ∷ b) = c == 0 && is_all_zero b

-- The function returns no error, so its outcome is at every error type.
module _ {F : Type 0} where
  -- `cryptEnd < uint64(len(outData)) && !bytes.Equal(outData[cryptEnd:], srcSlice[cryptEnd:])`.
  unfoldable pub tail_differs_at : Slice → Slice → ℕ → Outcome F Bool
  tail_differs_at out src crypt_end = if not (ltb crypt_end out.len) then ok false else do
    a ← sub out crypt_end out.len
    b ← sub src crypt_end src.len
    ok (not (equal (bytes a) (bytes b)))

  -- The encrypted regions, from `outCryptBytes := …` on.
  unfoldable pub compare_regions :
      Slice → Slice → EncryptionInfo → EncryptionInfo → Outcome F (Option Reason)
  compare_regions out src oc sc = do
    out_crypt ← sub out oc.crypt_off (add64 oc.crypt_off oc.crypt_size)
    src_crypt ← sub src sc.crypt_off (add64 sc.crypt_off sc.crypt_size)
    ok (
        if sc.cryptid == 0
        then none
        else if is_all_zero (bytes out_crypt)
        then some all_zeros
        else if equal (bytes out_crypt) (bytes src_crypt)
        then some ciphertext_kept
        else none)

  -- The byte comparisons outside the region, from `cryptidEnd := …` on.
  unfoldable pub compare_bytes :
      Slice → Slice → EncryptionInfo → EncryptionInfo → Outcome F (Option Reason)
  compare_bytes out src oc sc = do
    out_head ← sub out 0 oc.cryptid_offset
    src_head ← sub src 0 oc.cryptid_offset
    if not (equal (bytes out_head) (bytes src_head)) then ok (some header_differs) else do
      out_rest ← sub out (add64 oc.cryptid_offset 4) oc.crypt_off
      src_rest ← sub src (add64 oc.cryptid_offset 4) oc.crypt_off
      if not (equal (bytes out_rest) (bytes src_rest)) then ok (some commands_differ) else do
        differs ← tail_differs_at out src (add64 oc.crypt_off oc.crypt_size)
        if differs then ok (some tail_differs) else compare_regions out src oc sc

  -- Both sides have an encryption command.
  unfoldable pub compare_encrypted :
      Slice → Slice → EncryptionInfo → EncryptionInfo → Outcome F (Option Reason)
  compare_encrypted out src oc sc =
      if not (oc.crypt_off == sc.crypt_off) || not (oc.crypt_size == sc.crypt_size)
      then ok (some (crypt_moved oc.crypt_off oc.crypt_size sc.crypt_off sc.crypt_size))
      else if not (out.len == src.len)
      then ok (some (size_differs out.len src.len))
      else compare_bytes out src oc sc

  -- A thin output against the slice that was picked of the source.
  unfoldable pub compare_thin : Slice → Slice → Outcome F (Option Reason)
  compare_thin out src =
      attempt (read_encryption_info out)
        (λ oc.
          attempt (read_encryption_info src) (λ sc. compare_encrypted out src oc sc)
            (λ e. ok (some (parse_source_info e))))
        (λ _. ok (if equal (bytes out) (bytes src) then none else some thin_passthrough_differs))

  unfoldable pub compare_macho_slice : Slice → Slice → Outcome F (Option Reason)
  compare_macho_slice out src = if ltb out.len 4 then ok (some output_too_short) else do
    m ← uint32_at little out 0
    if is_fat32 m || is_fat64 m
        then ok (if equal (bytes out) (bytes src) then none else some fat_passthrough_differs)
        else attempt (read_thin_cpu out)
            (λ (cpu, cpu_sub).
              attempt (pick_slice src cpu cpu_sub) (λ slice. compare_thin out slice)
                (λ e. ok (some (match_source_slice e))))
            (λ e. ok (some (parse_output_cpu e)))

  unfoldable pub crypt_zeroed : Slice → Outcome F Bool
  crypt_zeroed d = if ltb d.len 4 then ok false else do
    m ← uint32_at little d 0
    if not (is_thin_le m)
        then ok false
        else attempt (read_encryption_info d)
            (λ info. if info.crypt_size == 0 then ok false else do
              region ← sub d info.crypt_off (add64 info.crypt_off info.crypt_size)
              ok (is_all_zero (bytes region)))
            (λ _. ok false)

-- ===== src/Pipeline/Compare/Panics.antt =====
-- Where the comparisons of verify.go go out of a slice's range: nothing ties the region that
-- LC_ENCRYPTION_INFO announces to the file.
use ipadecrypt.MachO.Encryption.Bounds.{InRange, read_encryption_info-InRange}
use ipadecrypt.MachO.Encryption.{EncryptionInfo, read_encryption_info}
use ipadecrypt.MachO.{is_thin_le}
use ipadecrypt.Outcome.{ok, panic, Returns}
use ipadecrypt.Pipeline.Compare.Accepts.{cut}
use ipadecrypt.Pipeline.Compare.{
  tail_differs_at, compare_regions, compare_bytes, compare_encrypted, crypt_zeroed, is_all_zero,
}
use ipadecrypt.Prelude.Text.Laws.{equal_iff}
use ipadecrypt.Prelude.{◌+◌, ◌≤◌, ◌<◌, ◌≡◌, ◌≢◌, ◌↔◌, true, arith, length, add64}
use ipadecrypt.Slice.Laws.{IsSlice, word, uint32_at-ok}
use ipadecrypt.Slice.{Slice, bytes, little, sub}

module _ (F : Type 0) where
  -- The comparison of two encrypted slices never panics where the region starts behind the cryptid
  -- and ends inside the output.
  pub compare_encrypted-Returns :
      (out w : Slice) (oc sc : EncryptionInfo)
      → IsSlice out
      → IsSlice w
      → InRange out oc
      → oc.cryptid_offset + 4 ≤ oc.crypt_off
      → oc.crypt_off + oc.crypt_size ≤ out.len
      → Returns (compare_encrypted {F = F} out w oc sc)
  unfolding compare_encrypted compare_bytes tail_differs_at compare_regions sub
  compare_encrypted-Returns out w oc sc s t r behind inside =
      let end : add64 oc.crypt_off oc.crypt_size ≡ oc.crypt_off + oc.crypt_size =
        omega (arith, r.off_lt, r.size_lt) in
      let after : add64 oc.cryptid_offset 4 ≡ oc.cryptid_offset + 4 =
        omega (arith, r.cryptid_fits, s.within, s.counted) in
      ground (arith, s.within, t.within, end, after)

  -- The comparison of two encrypted slices panics on every pair of equal lengths and regions that
  -- agrees up to the cryptid, where the region starts in front of the cryptid's end.
  pub compare_encrypted_panics :
      (out w : Slice) (oc sc : EncryptionInfo)
      → IsSlice out
      → IsSlice w
      → InRange out oc
      → oc.crypt_off ≡ sc.crypt_off
      → oc.crypt_size ≡ sc.crypt_size
      → out.len ≡ w.len
      → cut out 0 oc.cryptid_offset ≡ cut w 0 oc.cryptid_offset
      → oc.crypt_off < oc.cryptid_offset + 4
      → compare_encrypted {F = F} out w oc sc ≡ panic
  unfolding compare_encrypted compare_bytes sub bytes
  compare_encrypted_panics out w oc sc s t r off size same heads early =
      let after : add64 oc.cryptid_offset 4 ≡ oc.cryptid_offset + 4 =
        omega (arith, r.cryptid_fits, s.within, s.counted) in
      ground (
        arith,
        s.within,
        t.within,
        r.cryptid_fits,
        equal_iff (cut out 0 oc.cryptid_offset) (cut w 0 oc.cryptid_offset),
      )

  -- On a thin file with an encryption command `cryptZeroed` panics exactly when the region is not
  -- empty and ends behind the slice's capacity; else it says whether the region is all zeros.
  pub crypt_zeroed_lem :
      (d : Slice) (info : EncryptionInfo)
      → IsSlice d
      → is_thin_le (word little d 0) ≡ true
      → 4 ≤ d.len
      → read_encryption_info d ≡ ok info
      → ((crypt_zeroed {F = F} d ≡ panic)
          ↔ ((info.crypt_size ≢ 0) × (length d.mem < info.crypt_off + info.crypt_size)))
        × ((crypt_zeroed {F = F} d ≡ ok true) ↔ (
            (info.crypt_size ≢ 0)
            × (info.crypt_off + info.crypt_size ≤ length d.mem)
            × (is_all_zero (cut d info.crypt_off (info.crypt_off + info.crypt_size)) ≡ true)))
  unfolding crypt_zeroed sub bytes
  crypt_zeroed_lem d info s thin long e =
      let r = read_encryption_info-InRange d info s e in
      let end : add64 info.crypt_off info.crypt_size ≡ info.crypt_off + info.crypt_size =
        omega (arith, r.off_lt, r.size_lt) in
      let read = uint32_at-ok {E = F} little d 0 (ground (arith, s.within)) in
      rw (read, thin, e, end) (ground arith)

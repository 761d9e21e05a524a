-- ===== src/Pipeline/Compare/Accepts.antt =====
-- What an output that `compareMachOSlice` finds nothing against has in common with its source.
use ipadecrypt.MachO.Encryption.Bounds.{InRange, read_encryption_info-InRange}
use ipadecrypt.MachO.Encryption.{EncryptionInfo, read_encryption_info, read_thin_cpu}
use ipadecrypt.MachO.Pick.{pick_slice}
use ipadecrypt.MachO.{is_fat32, is_fat64}
use ipadecrypt.Outcome.{ok, Outcome-cases}
use ipadecrypt.Pipeline.Compare.{
  is_all_zero, tail_differs_at, compare_regions, compare_bytes, compare_encrypted, compare_thin,
  compare_macho_slice,
}
use ipadecrypt.Prelude.Text.Laws.{equal_iff}
use ipadecrypt.Prelude.{
  ℕ, ◌+◌, ◌-◌, ◌≤◌, ◌<◌, ◌≡◌, ◌≢◌, ◌⊎◌, inl, inr, refl, sym, ap, ◌∙◌, subst, true, false, ◌||◌,
  arith, none, ltb, add64, Bytes, Bool-cases, length, take, drop, get_elem?, get_elem?-take,
  get_elem?-drop,
}
use ipadecrypt.Slice.Laws.{IsSlice, word, uint32_at-ok}
use ipadecrypt.Slice.{Slice, bytes, little, sub}

-- The bytes of `s` from `lo` up to `hi`.
abbrev pub cut : Slice → ℕ → ℕ → Bytes
cut s lo hi = take (hi - lo) (drop lo s.mem)

-- Equal cuts agree at each place inside.
cut_agrees :
    (a b : Bytes) (lo n i : ℕ)
    → take n (drop lo a) ≡ take n (drop lo b)
    → lo ≤ i
    → i < lo + n
    → get_elem? a i ≡ get_elem? b i
cut_agrees a b lo n i e low high =
    let k : lo + (i - lo) ≡ i = omega arith in
    let at : (xs : Bytes) → get_elem? (take n (drop lo xs)) (i - lo) ≡ get_elem? xs i = λ xs.
      get_elem?-take n (i - lo) (drop lo xs) (omega arith)
      ∙ get_elem?-drop lo (i - lo) xs
      ∙ ap (get_elem? xs) k in
    sym (at a) ∙ ap (λ w. get_elem? w (i - lo)) e ∙ at b

module _ {F : Type 0} where
  sub-eq-ok :
      (s : Slice) (lo hi : ℕ) {w : Slice}
      → sub {E = F} s lo hi ≡ ok w
      → (lo ≤ hi) × (hi ≤ length s.mem) × (bytes w ≡ cut s lo hi)
  unfolding sub bytes
  sub-eq-ok s lo hi e = ground arith

-- The output and the source slice are alike outside the cryptid and the encrypted region, which is
-- `crypt_size` bytes from `crypt_off` on.
pub record AgreeOutside (out src : Slice) (oc : EncryptionInfo) : Type 0 where
  pub crypt_behind : oc.cryptid_offset + 4 ≤ oc.crypt_off
  pub same_len : out.len ≡ src.len
  pub agree :
      (i : ℕ)
      → i < out.len
      → (i < oc.cryptid_offset)
        ⊎ ((oc.cryptid_offset + 4 ≤ i) × (i < oc.crypt_off))
        ⊎ (oc.crypt_off + oc.crypt_size ≤ i)
      → get_elem? out.mem i ≡ get_elem? src.mem i

-- The comparisons that `compareMachOSlice` makes, as equations of the cuts.
record Compared (out src : Slice) (oc : EncryptionInfo) : Type 0 where
  head_in : oc.cryptid_offset ≤ length out.mem
  crypt_behind : add64 oc.cryptid_offset 4 ≤ oc.crypt_off
  head : cut out 0 oc.cryptid_offset ≡ cut src 0 oc.cryptid_offset
  middle :
      cut out (add64 oc.cryptid_offset 4) oc.crypt_off
      ≡ cut src (add64 oc.cryptid_offset 4) oc.crypt_off
  tail :
      add64 oc.crypt_off oc.crypt_size < out.len
      → cut out (add64 oc.crypt_off oc.crypt_size) out.len
        ≡ cut src (add64 oc.crypt_off oc.crypt_size) src.len

module _ {F : Type 0} where
  compare_bytes_inv :
      (out src : Slice) (oc sc : EncryptionInfo)
      → compare_bytes {F = F} out src oc sc ≡ ok none
      → Compared out src oc
  unfolding compare_bytes tail_differs_at sub bytes
  compare_bytes_inv out src oc sc e = record {
    head_in = ground arith;
    crypt_behind = ground arith;
    head = ground (arith, equal_iff (cut out 0 oc.cryptid_offset) (cut src 0 oc.cryptid_offset));
    middle = ground (
      arith,
      equal_iff (cut out (add64 oc.cryptid_offset 4) oc.crypt_off)
          (cut src (add64 oc.cryptid_offset 4) oc.crypt_off),
    );
    tail = λ h. ground (
      arith,
      equal_iff (cut out (add64 oc.crypt_off oc.crypt_size) out.len)
          (cut src (add64 oc.crypt_off oc.crypt_size) src.len),
    );
  }

  compare_bytes_regions :
      (out src : Slice) (oc sc : EncryptionInfo)
      → compare_bytes {F = F} out src oc sc ≡ ok none
      → compare_regions {F = F} out src oc sc ≡ ok none
  unfolding compare_bytes tail_differs_at sub
  compare_bytes_regions out src oc sc e = ground arith

  -- The source was encrypted, and its region was written over with something else than zeros.
  regions_inv :
      (out src : Slice) (oc sc : EncryptionInfo)
      → compare_regions {F = F} out src oc sc ≡ ok none
      → sc.cryptid ≢ 0
      → (is_all_zero (cut out oc.crypt_off (add64 oc.crypt_off oc.crypt_size)) ≡ false)
        × (cut out oc.crypt_off (add64 oc.crypt_off oc.crypt_size)
            ≢ cut src sc.crypt_off (add64 sc.crypt_off sc.crypt_size))
  unfolding compare_regions sub bytes
  regions_inv out src oc sc e secret = (
    ground arith,
    ground (
      arith,
      equal_iff (cut out oc.crypt_off (add64 oc.crypt_off oc.crypt_size))
          (cut src sc.crypt_off (add64 sc.crypt_off sc.crypt_size)),
    ),
  )

Compared-AgreeOutside :
    (out src : Slice) (oc : EncryptionInfo)
    → IsSlice out
    → InRange out oc
    → out.len ≡ src.len
    → Compared out src oc
    → AgreeOutside out src oc
Compared-AgreeOutside out src oc s r same c = record {
  crypt_behind = behind;
  same_len = same;
  agree = agrees;
}
  where
    after : add64 oc.cryptid_offset 4 ≡ oc.cryptid_offset + 4
    after = omega (arith, r.cryptid_fits, s.within, s.counted)

    end : add64 oc.crypt_off oc.crypt_size ≡ oc.crypt_off + oc.crypt_size
    end = omega (arith, r.off_lt, r.size_lt)

    behind : oc.cryptid_offset + 4 ≤ oc.crypt_off
    behind = omega (arith, c.crypt_behind, after)

    agrees :
        (i : ℕ)
        → i < out.len
        → (i < oc.cryptid_offset)
          ⊎ ((oc.cryptid_offset + 4 ≤ i) × (i < oc.crypt_off))
          ⊎ (oc.crypt_off + oc.crypt_size ≤ i)
        → get_elem? out.mem i ≡ get_elem? src.mem i
    agrees i h (inl front) =
        cut_agrees out.mem src.mem 0 (oc.cryptid_offset - 0) i c.head (omega arith) (omega arith)
    agrees i h (inr (inl (lo, hi))) =
        cut_agrees out.mem src.mem (add64 oc.cryptid_offset 4)
          (oc.crypt_off - add64 oc.cryptid_offset 4) i c.middle (omega (arith, after))
          (omega (arith, after, behind))
    agrees i h (inr (inr back)) =
        let crypt_end = add64 oc.crypt_off oc.crypt_size in
        let tail : cut out crypt_end out.len ≡ cut src crypt_end out.len =
          subst (λ t. cut out crypt_end out.len ≡ cut src crypt_end t) (sym same)
            (c.tail (omega (arith, end))) in
        cut_agrees out.mem src.mem crypt_end (out.len - crypt_end) i tail (omega (arith, end))
          (omega (arith, end))

-- The source was encrypted, and the output's region holds neither zeros only nor the source's bytes.
pub record WrittenOver (out src : Slice) (oc : EncryptionInfo) : Type 0 where
  pub not_zeros : is_all_zero (cut out oc.crypt_off (oc.crypt_off + oc.crypt_size)) ≡ false
  pub not_kept :
      cut out oc.crypt_off (oc.crypt_off + oc.crypt_size)
      ≢ cut src oc.crypt_off (oc.crypt_off + oc.crypt_size)

-- The ways in which an output is consistent with its source.
pub data Consistent (out src : Slice) : Type 0 where
  fat_copy :
      (m : ℕ)
      → m ≡ word little out 0
      → (is_fat32 m || is_fat64 m) ≡ true
      → bytes out ≡ bytes src
      → Consistent out src
  plain_copy :
      {cpu cpu_sub : ℕ} {w : Slice}
      → read_thin_cpu out ≡ ok (cpu, cpu_sub)
      → pick_slice src cpu cpu_sub ≡ ok w
      → bytes out ≡ bytes w
      → Consistent out src
  decrypted :
      {cpu cpu_sub : ℕ} {w : Slice} {oc sc : EncryptionInfo}
      → read_thin_cpu out ≡ ok (cpu, cpu_sub)
      → pick_slice src cpu cpu_sub ≡ ok w
      → read_encryption_info out ≡ ok oc
      → read_encryption_info w ≡ ok sc
      → AgreeOutside out w oc
      → (sc.cryptid ≢ 0 → WrittenOver out w oc)
      → Consistent out src

module _ {F : Type 0} where
  encrypted_accepts :
      (out w : Slice) (oc sc : EncryptionInfo)
      → IsSlice out
      → InRange out oc
      → compare_encrypted {F = F} out w oc sc ≡ ok none
      → AgreeOutside out w oc × (sc.cryptid ≢ 0 → WrittenOver out w oc)
  unfolding compare_encrypted
  encrypted_accepts out w oc sc s r e =
      let off : oc.crypt_off ≡ sc.crypt_off = ground arith in
      let size : oc.crypt_size ≡ sc.crypt_size = ground arith in
      let same : out.len ≡ w.len = ground arith in
      let inner : compare_bytes {F = F} out w oc sc ≡ ok none = ground arith in
      let end : add64 oc.crypt_off oc.crypt_size ≡ oc.crypt_off + oc.crypt_size =
        omega (arith, r.off_lt, r.size_lt) in
      (
        Compared-AgreeOutside out w oc s r same (compare_bytes_inv out w oc sc inner),
        λ secret.
            let p = regions_inv out w oc sc (compare_bytes_regions out w oc sc inner) secret in
            record {
              not_zeros = rw end at p.0;
              not_kept = λ kept. p.1 (
                  ap (cut out oc.crypt_off) end
                  ∙ kept
                  ∙ ap (cut w oc.crypt_off) (sym end)
                  ∙ ap (λ t. cut w t (add64 t oc.crypt_size)) off
                  ∙ ap (λ t. cut w sc.crypt_off (add64 sc.crypt_off t)) size);
            },
      )

  thin_accepts :
      (out src w : Slice) {cpu cpu_sub : ℕ}
      → IsSlice out
      → read_thin_cpu out ≡ ok (cpu, cpu_sub)
      → pick_slice src cpu cpu_sub ≡ ok w
      → compare_thin {F = F} out w ≡ ok none
      → Consistent out src
  unfolding compare_thin
  thin_accepts out src w s c p e = elim (Outcome-cases (read_encryption_info out)) [
    | inl (oc, eo) ↦
        let r = read_encryption_info-InRange out oc s eo in
        elim (Outcome-cases (read_encryption_info w)) [
          | inl (sc, es) ↦
              let (agree, over) = encrypted_accepts out w oc sc s r (rw (eo, es) at e) in
              decrypted c p eo es agree over
          | inr (inl (x, es)) ↦ absurd (ground (arith, eo, es))
          | inr (inr es) ↦ absurd (ground (arith, eo, es))
        ]
    | inr (inl (x, eo)) ↦
        let same : bytes out ≡ bytes w = ground (arith, eo, equal_iff (bytes out) (bytes w)) in
        plain_copy c p same
    | inr (inr eo) ↦ absurd (ground (arith, eo))
  ]

  -- An output that `compareMachOSlice` finds nothing against is a copy of a fat source, or a copy
  -- of the source's slice for its processor, or differs from that slice in the cryptid and in the
  -- encrypted region alone; in the last case the region of a source with a cryptid other than 0
  -- was written over, and not with zeros only.
  pub compare_macho_slice_accepts :
      (out src : Slice)
      → IsSlice out
      → compare_macho_slice {F = F} out src ≡ ok none
      → Consistent out src
  unfolding compare_macho_slice
  compare_macho_slice_accepts out src s e = elim (Bool-cases (ltb out.len 4)) [
    | inl cut_off ↦ absurd (ground arith)
    | inr long ↦
        let m = word little out 0 in
        let read = uint32_at-ok {E = F} little out 0 (ground (arith, s.within)) in
        let e' = rw (long, read) at e in
        elim (Bool-cases (is_fat32 m || is_fat64 m)) [
          | inl fat ↦
              let same : bytes out ≡ bytes src =
                ground (arith, equal_iff (bytes out) (bytes src)) in
              fat_copy m refl fat same
          | inr thin ↦ elim (Outcome-cases (read_thin_cpu out)) [
            | inl ((cpu, cpu_sub), c) ↦ elim (Outcome-cases (pick_slice src cpu cpu_sub)) [
              | inl (w, p) ↦ thin_accepts out src w s c p (ground (arith, thin, c, p))
              | inr (inl (x, p)) ↦ absurd (ground (arith, thin, c, p))
              | inr (inr p) ↦ absurd (ground (arith, thin, c, p))
            ]
            | inr (inl (x, c)) ↦ absurd (ground (arith, thin, c))
            | inr (inr c) ↦ absurd (ground (arith, thin, c))
          ]
        ]
  ]

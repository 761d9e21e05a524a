-- ===== src/Slice/Laws.antt =====
-- Reads and cuts of a slice inside its bounds.
use native.Mathlib.Nat.{pow-suc, mul-le-mul_right, le-mul_of_pos_right}
use ipadecrypt.Outcome.{ok}
use ipadecrypt.Prelude.{
  ap, ℕ, ◌+◌, ◌-◌, ◌≤◌, ◌<◌, ◌^◌, ◌≡◌, [], ◌∷◌, arith, length, length-drop, take, drop, zero, suc,
  ◌*◌, little_endian, big_endian, All, Bytes, IsByte, All-drop,
}
use ipadecrypt.Slice.{Slice, ByteOrder, little, big, number, of_bytes, sub, uint32_at, uint64_at}

-- What Go grants of any byte slice: the window lies in the backing array, which is no longer than
-- an int counts, and the elements are bytes.
pub record IsSlice (s : Slice) : Type 0 where
  pub within : s.len ≤ length s.mem
  pub counted : length s.mem < 2 ^ 63
  pub all_bytes : All IsByte s.mem

-- The numbers that stand at offset `lo`.
unfoldable pub word : ByteOrder → Slice → ℕ → ℕ
word bo s lo = number bo (take 4 (drop lo s.mem))

unfoldable pub word64 : ByteOrder → Slice → ℕ → ℕ
word64 bo s lo = number bo (take 8 (drop lo s.mem))

module _ {E : Type 0} where
  pub sub-ok :
      (s : Slice) (lo hi : ℕ)
      → lo ≤ hi
      → hi ≤ length s.mem
      → sub {E = E} s lo hi ≡ ok (record { mem = drop lo s.mem; len = hi - lo })
  unfolding sub
  sub-ok s lo hi h k = ground arith

  pub uint32_at-ok :
      (bo : ByteOrder) (s : Slice) (lo : ℕ)
      → lo + 4 ≤ length s.mem
      → uint32_at {E = E} bo s lo ≡ ok (word bo s lo)
  unfolding uint32_at word
  uint32_at-ok bo s lo h =
      let e : lo + 4 - lo ≡ 4 = omega arith in rw (sub-ok s lo (lo + 4) (omega arith) h, e)

  pub uint64_at-ok :
      (bo : ByteOrder) (s : Slice) (lo : ℕ)
      → lo + 8 ≤ length s.mem
      → uint64_at {E = E} bo s lo ≡ ok (word64 bo s lo)
  unfolding uint64_at word64
  uint64_at-ok bo s lo h =
      let e : lo + 8 - lo ≡ 8 = omega arith in rw (sub-ok s lo (lo + 8) (omega arith) h, e)

pow256-pos : (n : ℕ) → 0 < 256 ^ n
pow256-pos zero = omega arith
pow256-pos (suc n) = omega (arith, pow-suc 256 n, pow256-pos n)

little_endian-lt : (n : ℕ) (l : Bytes) → All IsByte l → little_endian (take n l) < 256 ^ n
unfolding little_endian
little_endian-lt zero l h = omega arith
little_endian-lt (suc n) [] h = pow256-pos (suc n)
little_endian-lt (suc n) (b ∷ l) h = omega (arith, pow-suc 256 n, little_endian-lt n l h.1)

big_endian-lt :
    (n acc : ℕ) (l : Bytes) → All IsByte l → big_endian acc (take n l) < (acc + 1) * 256 ^ n
unfolding big_endian
big_endian-lt zero acc l h = omega arith
big_endian-lt (suc n) acc [] h =
    omega (arith, pow256-pos (suc n), le-mul_of_pos_right acc (pow256-pos (suc n)))
big_endian-lt (suc n) acc (b ∷ l) h =
    let digit : acc * 256 + b + 1 ≤ (acc + 1) * 256 = omega arith in
    omega (
      arith,
      ap (λ (t : ℕ). (acc + 1) * t) (pow-suc 256 n),
      big_endian-lt n (acc * 256 + b) l h.1,
      mul-le-mul_right (256 ^ n) digit,
    )

number-lt : (bo : ByteOrder) (n : ℕ) (l : Bytes) → All IsByte l → number bo (take n l) < 256 ^ n
unfolding number
number-lt little n l h = little_endian-lt n l h
number-lt big n l h = omega (arith, big_endian-lt n 0 l h)

-- A uint32 of a byte slice.
pub word-lt : (bo : ByteOrder) (s : Slice) (lo : ℕ) → IsSlice s → word bo s lo < 2 ^ 32
unfolding word
word-lt bo s lo h = number-lt bo 4 (drop lo s.mem) (All-drop IsByte lo s.mem h.all_bytes)

pub word64-lt : (bo : ByteOrder) (s : Slice) (lo : ℕ) → IsSlice s → word64 bo s lo < 2 ^ 64
unfolding word64
word64-lt bo s lo h = number-lt bo 8 (drop lo s.mem) (All-drop IsByte lo s.mem h.all_bytes)

-- A cut of a slice is a slice again, and no longer than the part behind its start.
pub sub-IsSlice :
    (s : Slice) (lo n : ℕ)
    → IsSlice s
    → lo + n ≤ length s.mem
    → IsSlice (record { mem = drop lo s.mem; len = n })
sub-IsSlice s lo n h fits = record {
  within = omega (arith, length-drop lo s.mem);
  counted = omega (arith, length-drop lo s.mem, h.counted);
  all_bytes = All-drop IsByte lo s.mem h.all_bytes;
}

pub of_bytes-IsSlice : (bs : Bytes) → All IsByte bs → length bs < 2 ^ 63 → IsSlice (of_bytes bs)
of_bytes-IsSlice bs h n = record { within = omega arith; counted = n; all_bytes = h }

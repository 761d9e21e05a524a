-- ===== src/Slice.antt =====
-- A Go byte slice: a window of `len` bytes at the front of `mem`, the backing array from the
-- window's start on. `mem` reaches as far as the capacity, since `s[lo:hi]` may go up to that.
pub mod Laws
use ipadecrypt.Outcome.{Outcome, ok, err, panic, ◌>>=◌}
use ipadecrypt.Prelude.{
  ℕ, ◌+◌, ◌-◌, ◌≤◌, ◌<◌, ◌^◌, Bool, true, false, ◌&&◌, leb, ltb, ◌==◌, if◌then◌else◌, List, [], ◌∷◌,
  length, take, drop, replicate, ◌++◌, Bytes, little_endian, big_endian,
}

pub record Slice : Type 0 where
  pub mem : Bytes
  pub len : ℕ

unfoldable pub bytes : Slice → Bytes
bytes s = take s.len s.mem

-- A slice whose capacity is its length.
abbrev pub of_bytes : Bytes → Slice
of_bytes bs = record { mem = bs; len = length bs }

-- `binary.ByteOrder`.
pub data ByteOrder : Type 0 where
  little big : ByteOrder

unfoldable pub number : ByteOrder → Bytes → ℕ
unfolding little_endian big_endian
number little bs = little_endian bs
number big bs = big_endian 0 bs

module _ {E : Type 0} where
  -- `s[lo:hi]`.
  unfoldable pub sub : Slice → ℕ → ℕ → Outcome E Slice
  sub s lo hi =
      if leb lo hi && leb hi (length s.mem)
      then ok (record { mem = drop lo s.mem; len = hi - lo })
      else panic

  -- `order.Uint32(s[lo:lo+4])`, which reads the four bytes of the window it is handed.
  unfoldable pub uint32_at : ByteOrder → Slice → ℕ → Outcome E ℕ
  unfolding sub number bytes
  uint32_at bo s lo = do w ← sub s lo (lo + 4); ok (number bo (bytes w))

  -- `order.Uint64(s[lo:lo+8])`.
  unfoldable pub uint64_at : ByteOrder → Slice → ℕ → Outcome E ℕ
  unfolding sub number bytes
  uint64_at bo s lo = do w ← sub s lo (lo + 8); ok (number bo (bytes w))

-- ===== src/Pipeline/Version/Order.antt =====
-- `cmpVer` compares versions by their numbers, the shorter one filled up with zeros.
use ipadecrypt.Pipeline.Version.{atoi, compare_ints, compare_parts, cmp_ver}
use ipadecrypt.Prelude.Int.{ℤ, pos, int_eq, sub_int, is_pos, to_bits, of_bits}
use ipadecrypt.Prelude.Text.{split}
use ipadecrypt.Prelude.{
  ℕ, ◌^◌, ◌<◌, ◌≡◌, refl, Bool, false, ◌&&◌, ◌||◌, arith, List, [], ◌∷◌, ltb, ◌==◌, Bytes, All,
}

-- A part that stands for a number from 0 up.
abbrev pub IsPlainPart : Bytes → Type 0
IsPlainPart p = (n : ℕ) × (atoi p ≡ pos n) × (n < 2 ^ 63)

abbrev pub value : (p : Bytes) → IsPlainPart p → ℕ
value p h = h.0

abbrev pub values : (ps : List Bytes) → All IsPlainPart ps → List ℕ
values [] h = []
values (p ∷ ps) h = h.0.0 ∷ values ps h.1

-- The first list is greater, place by place, with zeros behind the end of either.
unfoldable pub is_greater : List ℕ → List ℕ → Bool
is_greater [] ys = false
is_greater (x ∷ xs) [] = ltb 0 x || is_greater xs []
is_greater (x ∷ xs) (y ∷ ys) = ltb y x || (x == y && is_greater xs ys)

sub_int-is_pos : (x y : ℕ) → x < 2 ^ 63 → y < 2 ^ 63 → is_pos (sub_int (pos x) (pos y)) ≡ ltb y x
unfolding sub_int is_pos to_bits of_bits
sub_int-is_pos x y h k = ground arith

compare_ints-is_pos :
    (x y : ℕ) (rest : ℤ)
    → x < 2 ^ 63
    → y < 2 ^ 63
    → is_pos (compare_ints (pos x) (pos y) rest) ≡ (ltb y x || (x == y && is_pos rest))
unfolding compare_ints int_eq
compare_ints-is_pos x y rest h k = ground (arith, sub_int-is_pos x y h k)

below_nothing : (bs : List Bytes) → All IsPlainPart bs → is_pos (compare_parts [] bs) ≡ false
unfolding compare_parts
below_nothing [] h = unfold is_pos in refl
below_nothing (b ∷ bs) ((y, e, k), h) = rw (e) (
    ground
      (arith, compare_ints-is_pos 0 y (compare_parts [] bs) (omega arith) k, below_nothing bs h))

compare_parts-is_greater :
    (as' bs : List Bytes) (h : All IsPlainPart as') (k : All IsPlainPart bs)
    → is_pos (compare_parts as' bs) ≡ is_greater (values as' h) (values bs k)
unfolding compare_parts is_greater
compare_parts-is_greater [] bs h k = below_nothing bs k
compare_parts-is_greater (a ∷ as') [] ((x, e, l), h) k = rw e (
    ground (
      arith,
      compare_ints-is_pos x 0 (compare_parts as' []) l (omega arith),
      compare_parts-is_greater as' [] h k,
    ))
compare_parts-is_greater (a ∷ as') (b ∷ bs) ((x, e, l), h) ((y, f, m), k) =
    rw (e, f)
      (ground (
        arith,
        compare_ints-is_pos x y (compare_parts as' bs) l m,
        compare_parts-is_greater as' bs h k,
      ))

-- On versions whose parts are numbers from 0 to 2 ^ 63 - 1, `cmpVer a b > 0` is the lexicographic
-- order of the numbers, the shorter version filled up with zeros.
pub cmp_ver-is_greater :
    (a b : Bytes)
    → (h : All IsPlainPart (split b'.' a)) → (k : All IsPlainPart (split b'.' b))
    → is_pos (cmp_ver a b) ≡ is_greater (values (split b'.' a) h) (values (split b'.' b) k)
unfolding cmp_ver
cmp_ver-is_greater a b h k = compare_parts-is_greater (split b'.' a) (split b'.' b) h k

is_greater_irrefl : (xs : List ℕ) → is_greater xs xs ≡ false
unfolding is_greater
is_greater_irrefl [] = refl
is_greater_irrefl (x ∷ xs) = ground (arith, is_greater_irrefl xs)

-- A version is never above itself.
pub cmp_ver_irrefl : (a : Bytes) → All IsPlainPart (split b'.' a) → is_pos (cmp_ver a a) ≡ false
cmp_ver_irrefl a h = rw (cmp_ver-is_greater a a h h) (is_greater_irrefl (values (split b'.' a) h))

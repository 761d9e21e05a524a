-- ===== src/Pipeline/Version.antt =====
-- internal/pipeline/patch.go: `cmpVer`, over `strconv.Atoi` and `strings.Split`.
pub mod Order
use ipadecrypt.Prelude.Int.{ℤ, pos, negsuc, int_eq, sub_int}
use ipadecrypt.Prelude.Text.{split}
use ipadecrypt.Prelude.{
  ℕ, zero, suc, ◌+◌, ◌-◌, ◌*◌, ◌^◌, Bool, true, false, not, ◌&&◌, ◌||◌, Option, none, some, List,
  [], ◌∷◌, ltb, leb, ◌==◌, if◌then◌else◌, Bytes,
}

-- The number of a text of digits, behind the digits that `acc` has taken in. As in `ParseUint`, the
-- digits behind the first overflow of a uint64 are not looked at.
unfoldable pub digits : ℕ → Bytes → Option ℕ
digits acc [] = some acc
digits acc (c ∷ s) =
    let next = acc * 10 + (c - b'0') in
    let rest = digits next s in
    if not (leb b'0' c && leb c b'9')
    then none
    else if ltb next (2 ^ 64)
    then rest
    else some (2 ^ 64 - 1)

-- At least one digit.
unfoldable pub number : Bytes → Option ℕ
number [] = none
number (c ∷ s) = digits 0 (c ∷ s)

-- The value that `Atoi` returns beside its error: 0 on a text that is no number, and the nearest
-- int on a number that is out of range.
unfoldable pub clamp_pos : Option ℕ → ℤ
clamp_pos none = pos 0
clamp_pos (some n) = if ltb n (2 ^ 63) then pos n else pos (2 ^ 63 - 1)

unfoldable pub clamp_neg : Option ℕ → ℤ
clamp_neg none = pos 0
clamp_neg (some zero) = pos 0
clamp_neg (some (suc n)) = if ltb n (2 ^ 63) then negsuc n else negsuc (2 ^ 63 - 1)

unfoldable pub atoi : Bytes → ℤ
unfolding digits number clamp_pos clamp_neg
atoi [] = pos 0
atoi (c ∷ s) =
    if c == b'-'
    then clamp_neg (number s)
    else if c == b'+'
    then clamp_pos (number s)
    else clamp_pos (number (c ∷ s))

-- The parts from some place on: `none` for a place behind the end, where `cmpVer` takes 0.
unfoldable pub compare_ints : ℤ → ℤ → ℤ → ℤ
compare_ints x y rest = if int_eq x y then rest else sub_int x y

-- The loop over `i`, up to the longer list's end.
unfoldable pub compare_parts : List Bytes → List Bytes → ℤ
unfolding compare_ints
compare_parts [] [] = pos 0
compare_parts (a ∷ as') [] = compare_ints (atoi a) (pos 0) (compare_parts as' [])
compare_parts [] (b ∷ bs) = compare_ints (pos 0) (atoi b) (compare_parts [] bs)
compare_parts (a ∷ as') (b ∷ bs) = compare_ints (atoi a) (atoi b) (compare_parts as' bs)

unfoldable pub cmp_ver : Bytes → Bytes → ℤ
unfolding compare_parts
cmp_ver a b = compare_parts (split b'.' a) (split b'.' b)

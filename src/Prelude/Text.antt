-- ===== src/Prelude/Text.antt =====
-- Go strings as their bytes: literals, equality, prefixes, suffixes and `strings.Split`.
pub mod Laws
use Prim.Native.Char.{code}
use Prim.Native.String.{String}
use ipadecrypt.Prelude.{
  ℕ, ◌+◌, ◌-◌, Bool, true, false, ◌&&◌, leb, ◌==◌, if◌then◌else◌, Option, none, some, List, [], ◌∷◌,
  ◌++◌, length, take, drop, Bytes,
}

-- The bytes of an ASCII literal.
abbrev pub codes : String → Bytes
codes String.[] = []
codes (String.◌∷◌ c s) = code c ∷ codes s

-- `==` on strings, and `bytes.Equal`.
unfoldable pub equal : Bytes → Bytes → Bool
equal [] [] = true
equal [] (d ∷ t) = false
equal (c ∷ s) [] = false
equal (c ∷ s) (d ∷ t) = c == d && equal s t

-- `strings.HasPrefix(s, p)`.
unfoldable pub has_prefix : Bytes → Bytes → Bool
unfolding equal
has_prefix s p = leb (length p) (length s) && equal (take (length p) s) p

-- `strings.HasSuffix(s, p)`.
unfoldable pub has_suffix : Bytes → Bytes → Bool
unfolding equal
has_suffix s p = leb (length p) (length s) && equal (drop (length s - length p) s) p

-- `strings.TrimSuffix(s, p)`.
unfoldable pub trim_suffix : Bytes → Bytes → Bytes
unfolding has_suffix
trim_suffix s p = if has_suffix s p then take (length s - length p) s else s

-- A byte in front of the first piece.
unfoldable pub onto_first : ℕ → List Bytes → List Bytes
onto_first c [] = (c ∷ []) ∷ []
onto_first c (piece ∷ pieces) = (c ∷ piece) ∷ pieces

-- `strings.Split(s, sep)` at a separator of one byte.
unfoldable pub split : ℕ → Bytes → List Bytes
unfolding onto_first
split sep [] = [] ∷ []
split sep (c ∷ s) =
    let pieces = split sep s in if c == sep then [] ∷ pieces else onto_first c pieces

-- `strings.Join(pieces, sep)`.
unfoldable pub join : ℕ → List Bytes → Bytes
join sep [] = []
join sep (piece ∷ []) = piece
join sep (piece ∷ next ∷ pieces) = piece ++ (sep ∷ join sep (next ∷ pieces))

-- `strings.TrimRight(s, cutset)` at a cutset of one byte.
unfoldable pub trim_right : ℕ → Bytes → Bytes
trim_right sep [] = []
trim_right sep (c ∷ s) = elim (trim_right sep s) [
  | [] ↦ if c == sep then [] else c ∷ []
  | d ∷ r ↦ c ∷ d ∷ r
]

unfoldable pub last_piece : List Bytes → Bytes
last_piece [] = []
last_piece (piece ∷ []) = piece
last_piece (_ ∷ next ∷ pieces) = last_piece (next ∷ pieces)

-- `filepath.Base` of a POSIX host.
unfoldable pub base : Bytes → Bytes
unfolding trim_right last_piece split
base [] = codes "."
base (c ∷ s) = elim (last_piece (split b'/' (trim_right b'/' (c ∷ s)))) [
  | [] ↦ codes "/"
  | d ∷ r ↦ d ∷ r
]

lower : ℕ → ℕ
lower c = if leb b'A' c && leb c b'Z' then c + 32 else c

-- The next character of a text, in lower case, and what follows. Two characters outside ASCII fold
-- into it, the long s (197 191) and the Kelvin sign (226 132 170); other bytes stand for themselves.
next_folded : Bytes → Option (ℕ × Bytes)
next_folded [] = none
next_folded (a ∷ []) = some (lower a, [])
next_folded (a ∷ b ∷ []) =
    if a == 0xc5 && b == 0xbf then some (b's', []) else some (lower a, b ∷ [])
next_folded (a ∷ b ∷ c ∷ s) =
    if a == 0xc5 && b == 0xbf
    then some (b's', c ∷ s)
    else if a == 0xe2 && b == 0x84 && c == 0xaa
    then some (b'k', s)
    else some (lower a, b ∷ c ∷ s)

-- `strings.EqualFold(s, t)` for an ASCII text `t`.
unfoldable pub equal_fold : Bytes → Bytes → Bool
unfolding lower next_folded equal
equal_fold s [] = equal s []
equal_fold s (c ∷ t) = elim (next_folded s) [
  | none ↦ false
  | some (d, rest) ↦ d == lower c && equal_fold rest t
]

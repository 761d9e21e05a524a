-- ===== src/Versions/Semver.antt =====
-- cmd/ipadecrypt/versions_tui.go: `parseSemver3`, over `strconv.Atoi` and its error, and
-- `fmt.Sprintf("%d.%d.%d", …)`.
pub mod RoundTrip
use ipadecrypt.Prelude.Fallible.{◌>>=◌}
use ipadecrypt.Pipeline.Version.{number}
use ipadecrypt.Prelude.Int.{ℤ, pos, negsuc, of_bits}
use ipadecrypt.Prelude.Text.{split}
use ipadecrypt.Prelude.{
  ℕ, zero, suc, ◌+◌, ◌-◌, ◌/◌, ◌%◌, ◌^◌, Bool, true, false, Option, none, some, List, [], ◌∷◌, ◌++◌,
  ltb, leb, ◌==◌, if◌then◌else◌, Bytes,
}

-- Ints that are not negative, as `parseSemver3` returns them.
pub record Semver : Type 0 where
  pub major : ℕ
  pub minor : ℕ
  pub patch : ℕ

-- What `Atoi` gives where it gives no error and no negative number: `none` covers both.
unfoldable pub in_range : Option ℕ → Option ℕ
in_range none = none
in_range (some n) = if ltb n (2 ^ 63) then some n else none

-- "-0" is the one text with a sign in front that is not negative.
unfoldable pub zero_only : Option ℕ → Option ℕ
zero_only none = none
zero_only (some n) = if n == 0 then some 0 else none

unfoldable pub component : Bytes → Option ℕ
component [] = none
component (c ∷ s) =
    if c == b'-'
    then zero_only (number s)
    else if c == b'+'
    then in_range (number s)
    else in_range (number (c ∷ s))

-- A part that is missing is 0.
unfoldable pub next_component : List Bytes → Option (ℕ × List Bytes)
next_component [] = some (0, [])
next_component (part ∷ parts) = do n ← component part; some (n, parts)

unfoldable pub parse_parts : List Bytes → Option Semver
parse_parts parts = do
  (major, second) ← next_component parts
  (minor, third) ← next_component second
  (patch, _) ← next_component third
  some (record { major = major; minor = minor; patch = patch })

unfoldable pub parse_semver3 : Bytes → Option Semver
parse_semver3 [] = none
parse_semver3 (c ∷ s) = parse_parts (split b'.' (c ∷ s))

-- `%d` of a number: its digits, the first `fuel` of them from behind.
unfoldable pub show_digits : ℕ → ℕ → Bytes
show_digits zero n = []
show_digits (suc fuel) n =
    let front = show_digits fuel (n / 10) in
    if ltb n 10 then (b'0' + n) ∷ [] else front ++ (b'0' + n % 10) ∷ []

-- A number of 64 bits has twenty digits at most.
unfoldable pub show_int : ℤ → Bytes
show_int (pos n) = show_digits 20 n
show_int (negsuc n) = b'-' ∷ show_digits 20 (n + 1)

-- `fmt.Sprintf("%d.%d.%d", …)` of ints that are given by their bits.
unfoldable pub show_semver : Semver → Bytes
show_semver v =
    show_int (of_bits v.major)
    ++ b'.' ∷ (show_int (of_bits v.minor) ++ b'.' ∷ show_int (of_bits v.patch))

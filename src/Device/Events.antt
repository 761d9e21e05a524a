-- ===== src/Device/Events.antt =====
-- internal/device/events.go: the lines in which the helper on the device reports. A map is a list
-- without repeated keys.
pub mod Tokens
pub mod RoundTrip
use ipadecrypt.Prelude.Text.{codes, has_prefix, has_suffix}
use ipadecrypt.Prelude.{
  ℕ, zero, suc, ◌-◌, Bool, true, false, not, ◌&&◌, ◌||◌, Option, none, some, List, [], ◌∷◌, ◌++◌,
  reverse, leb, ◌==◌, if◌then◌else◌, length, take, drop, Bytes,
}
use ipadecrypt.Versions.Entry.{look_up}
use ipadecrypt.Versions.Screen.{put_entry}

pub record Event : Type 0 where
  pub name : Bytes
  pub attrs : List (Bytes × Bytes)

abbrev is_blank : ℕ → Bool
is_blank c = c == 32 || leb 9 c && leb c 13

-- The third byte of a blank that begins with 0xe2 0x80.
abbrev is_wide : ℕ → Bool
is_wide c = leb 0x80 c && leb c 0x8a || c == 0xa8 || c == 0xa9 || c == 0xaf

abbrev two_bytes : ℕ → ℕ → Bool
two_bytes a b = a == 0xc2 && (b == 0x85 || b == 0xa0)

abbrev three_bytes : ℕ → ℕ → ℕ → Bool
three_bytes a b c =
    a == 0xe1 && b == 0x9a && c == 0x80
    || a == 0xe2 && (b == 0x80 && is_wide c || b == 0x81 && c == 0x9f)
    || a == 0xe3 && b == 0x80 && c == 0x80

-- The number of bytes of the blank that a text begins with, of those that `unicode.IsSpace` knows.
unfoldable pub blank_at : Bytes → ℕ
blank_at [] = 0
blank_at (a ∷ []) = if is_blank a then 1 else 0
blank_at (a ∷ b ∷ []) = if is_blank a then 1 else if two_bytes a b then 2 else 0
blank_at (a ∷ b ∷ c ∷ s) =
    if is_blank a then 1 else if two_bytes a b then 2 else if three_bytes a b c then 3 else 0

-- The same for a text whose bytes stand in reverse.
unfoldable pub blank_before : Bytes → ℕ
blank_before [] = 0
blank_before (a ∷ []) = if is_blank a then 1 else 0
blank_before (b ∷ a ∷ []) = if is_blank b then 1 else if two_bytes a b then 2 else 0
blank_before (c ∷ b ∷ a ∷ s) =
    if is_blank c then 1 else if two_bytes b c then 2 else if three_bytes a b c then 3 else 0

-- Each round drops a byte at least, so that the text's length is fuel enough.
unfoldable pub skip_blanks : (Bytes → ℕ) → ℕ → Bytes → Bytes
skip_blanks at zero s = s
skip_blanks at (suc fuel) s = elim (at s) [
  | zero ↦ s
  | suc n ↦ skip_blanks at fuel (drop (suc n) s)
]

unfoldable pub trim_left : Bytes → Bytes
trim_left s = skip_blanks blank_at (length s) s

unfoldable pub trim_end : Bytes → Bytes
trim_end s = reverse (skip_blanks blank_before (length s) (reverse s))

-- `strings.TrimSpace`.
unfoldable pub trim_space : Bytes → Bytes
trim_space s = trim_end (trim_left s)

-- `cur` where it holds something.
abbrev pub whole_token : Bytes → List Bytes
whole_token [] = []
whole_token (c ∷ cur) = (c ∷ cur) ∷ []

-- `inQ` and `cur` behind a byte, and the token that it ends.
unfoldable pub next_byte : Bool → Bytes → ℕ → Bool × Bytes × List Bytes
next_byte in_q cur c =
    if c == b'"'
    then (not in_q, cur ++ c ∷ [], [])
    else if c == b' ' && not in_q
    then (in_q, [], whole_token cur)
    else (in_q, cur ++ c ∷ [], [])

unfoldable pub tokens_from : Bool → Bytes → Bytes → List Bytes
tokens_from in_q cur [] = whole_token cur
tokens_from in_q cur (c ∷ s) = let n = next_byte in_q cur c in n.2 ++ tokens_from n.0 n.1 s

unfoldable pub split_tokens : Bytes → List Bytes
split_tokens s = tokens_from false [] s

-- The text before the first '=' and the text behind it.
unfoldable pub cut_equals : Bytes → Option (Bytes × Bytes)
cut_equals [] = none
cut_equals (c ∷ s) =
    let rest = cut_equals s in
    if c == b'=' then some ([], s) else elim rest [ none ↦ none | some (k, v) ↦ some (c ∷ k, v) ]

-- A value without the quotes around it.
unfoldable pub unquote : Bytes → Bytes
unquote [] = []
unquote (c ∷ s) = if c == b'"' && has_suffix s (b'"' ∷ []) then take (length s - 1) s else c ∷ s

-- A pair is kept where its key is not empty.
unfoldable pub add_pair : Option (Bytes × Bytes) → List (Bytes × Bytes) → List (Bytes × Bytes)
add_pair none m = m
add_pair (some ([], v)) m = m
add_pair (some (c ∷ k, v)) m = put_entry (c ∷ k) (unquote v) m

unfoldable pub add_tokens : List Bytes → List (Bytes × Bytes) → List (Bytes × Bytes)
add_tokens [] m = m
add_tokens (tok ∷ toks) m = add_tokens toks (add_pair (cut_equals tok) m)

-- `Event.Attr`; a key that is not there gives the empty text.
unfoldable pub attr : List (Bytes × Bytes) → Bytes → Bytes
attr m key = elim (look_up key m) [ none ↦ [] | some v ↦ v ]

unfoldable pub parse_trimmed : Bytes → Option Event
parse_trimmed line =
    if not (has_prefix line (codes "@evt "))
    then none
    else (let attrs = add_tokens (split_tokens (drop 5 line)) [] in
        some (record { name = attr attrs (codes "event"); attrs = attrs }))

unfoldable pub parse_event : Bytes → Option Event
parse_event line = parse_trimmed (trim_space line)

-- ===== src/Versions/Semver/RoundTrip.antt =====
-- The text of a version number reads back as that number.
use ipadecrypt.Pipeline.Version.{digits, number}
use ipadecrypt.Prelude.Int.{of_bits}
use ipadecrypt.Prelude.Text.Laws.{Free, split_append, split_whole}
use ipadecrypt.Prelude.Text.{split}
use ipadecrypt.Prelude.{
  ℕ, zero, suc, ◌+◌, ◌-◌, ◌*◌, ◌/◌, ◌%◌, ◌^◌, ◌≤◌, ◌<◌, ◌≡◌, refl, ap, ◌∙◌, sym, ◌≢◌, arith, ltb,
  some, [], ◌∷◌, ◌++◌, All, All-append, Bytes, subst, Bool-cases, ltb→lt, ◌⊎◌, inl, inr, length,
  length-append,
}
use ipadecrypt.Versions.Semver.{
  Semver, component, in_range, next_component, parse_parts, parse_semver3, show_digits, show_int,
  show_semver,
}

abbrev IsDigit : ℕ → Type 0
IsDigit c = (b'0' ≤ c) × (c ≤ b'9')

-- The number that a text of digits stands for, behind `acc`.
abbrev value : ℕ → Bytes → ℕ
value acc [] = acc
value acc (c ∷ s) = value (acc * 10 + (c - b'0')) s

value-snoc : (acc c : ℕ) (s : Bytes) → value acc (s ++ c ∷ []) ≡ value acc s * 10 + (c - b'0')
value-snoc acc c [] = refl
value-snoc acc c (d ∷ s) = value-snoc (acc * 10 + (d - b'0')) c s

value_least : (acc : ℕ) (s : Bytes) → acc ≤ value acc s
value_least acc [] = omega arith
value_least acc (c ∷ s) = omega (arith, value_least (acc * 10 + (c - b'0')) s)

digits_lem :
    (acc : ℕ) (s : Bytes) → All IsDigit s → value acc s < 2 ^ 64 → digits acc s ≡ some (value acc s)
unfolding digits
digits_lem acc [] h fits = refl
digits_lem acc (c ∷ s) (h, hs) fits =
    let next : ℕ = acc * 10 + (c - b'0') in
    ground (arith, h.0, h.1, value_least next s, digits_lem next s hs fits)

-- One digit, or the digits of the tenth part and one more.
show_digits-cases :
    (fuel n : ℕ)
    → ((n < 10) × (show_digits (suc fuel) n ≡ (b'0' + n) ∷ []))
      ⊎ ((10 ≤ n) × (show_digits (suc fuel) n ≡ show_digits fuel (n / 10) ++ (b'0' + n % 10) ∷ []))
unfolding show_digits
show_digits-cases fuel n = elim (Bool-cases (ltb n 10)) [
  | inl h ↦ inl (ltb→lt n 10 h, ground (arith, h))
  | inr h ↦ inr (ground (arith, h), ground (arith, h))
]

show_digits-IsDigit : (fuel n : ℕ) → All IsDigit (show_digits fuel n)
unfolding show_digits
show_digits-IsDigit zero n = tt
show_digits-IsDigit (suc fuel) n =
    let all = show_digits-IsDigit fuel (n / 10) in
    elim (show_digits-cases fuel n) [
      | inl (h, e) ↦ subst (All IsDigit) (sym e) ((omega arith, omega arith), tt)
      | inr (h, e) ↦ subst (All IsDigit) (sym e) (
          All-append IsDigit (show_digits fuel (n / 10)) ((b'0' + n % 10) ∷ []) all
            ((omega arith, omega arith), tt))
    ]

show_digits-value : (fuel n : ℕ) → n < 10 ^ fuel → value 0 (show_digits fuel n) ≡ n
unfolding show_digits
show_digits-value zero n h = omega arith
show_digits-value (suc fuel) n h =
    let tenth = show_digits-value fuel (n / 10) in
    elim (show_digits-cases fuel n) [
      | inl (small, e) ↦ ap (value 0) e ∙ omega arith
      | inr (large, e) ↦
          ap (value 0) e
          ∙ value-snoc 0 (b'0' + n % 10) (show_digits fuel (n / 10))
          ∙ omega (arith, tenth (omega arith))
    ]

component_digits :
    (s : Bytes) → s ≢ [] → All IsDigit s → value 0 s < 2 ^ 63 → component s ≡ some (value 0 s)
unfolding component in_range number
component_digits [] some_digit h fits = absurd (some_digit refl)
component_digits (c ∷ s) some_digit h fits =
    ground (arith, h.0.0, h.0.1, digits_lem 0 (c ∷ s) h (omega arith))

show_digits-ne-nil : (fuel n : ℕ) → show_digits (suc fuel) n ≢ []
show_digits-ne-nil fuel n none_left = elim (show_digits-cases fuel n) [
  | inl (h, e) ↦ grind (arith, e, none_left)
  | inr (h, e) ↦
      grind (arith, e, none_left, length-append (show_digits fuel (n / 10)) ((b'0' + n % 10) ∷ []))
]

show_int_lem : (n : ℕ) → n < 2 ^ 63 → show_int (of_bits n) ≡ show_digits 20 n
unfolding show_int of_bits
show_int_lem n h = ground (arith, h)

component-show_int : (n : ℕ) → n < 2 ^ 63 → component (show_int (of_bits n)) ≡ some n
component-show_int n h =
    let same : value 0 (show_digits 20 n) ≡ n = show_digits-value 20 n (omega arith) in
    ap component (show_int_lem n h)
    ∙ component_digits (show_digits 20 n) (show_digits-ne-nil 19 n) (show_digits-IsDigit 20 n)
        (omega (arith, same))
    ∙ ap some same

Free-digits : (s : Bytes) → All IsDigit s → Free b'.' s
Free-digits [] h = tt
Free-digits (c ∷ s) (h, hs) = (ground (arith, h.0), Free-digits s hs)

-- The numbers that `Atoi` can return.
abbrev pub IsSmall : Semver → Type 0
IsSmall v = (v.major < 2 ^ 63) × (v.minor < 2 ^ 63) × (v.patch < 2 ^ 63)

parse_parts-shown :
    (a b c : Bytes) (x y z : ℕ)
    → component a ≡ some x
    → component b ≡ some y
    → component c ≡ some z
    → parse_parts (a ∷ b ∷ c ∷ []) ≡ some (record { major = x; minor = y; patch = z })
unfolding parse_parts next_component
parse_parts-shown a b c x y z p q r = ground (arith, p, q, r)

parse_semver3-dots :
    (a b c : Bytes)
    → Free b'.' a
    → Free b'.' b
    → Free b'.' c
    → parse_semver3 (a ++ b'.' ∷ (b ++ b'.' ∷ c)) ≡ parse_parts (a ∷ b ∷ c ∷ [])
unfolding parse_semver3
parse_semver3-dots a b c p q r =
    parse_semver3_some (a ++ b'.' ∷ (b ++ b'.' ∷ c)) some_byte
    ∙ ap parse_parts (
        split_append b'.' a (b ++ b'.' ∷ c) p
        ∙ ap (◌∷◌ a) (split_append b'.' b c q ∙ ap (◌∷◌ b) (split_whole b'.' c r)))
  where
    parse_semver3_some : (s : Bytes) → s ≢ [] → parse_semver3 s ≡ parse_parts (split b'.' s)
    parse_semver3_some [] h = absurd (h refl)
    parse_semver3_some (c ∷ s) h = refl

    some_byte : a ++ b'.' ∷ (b ++ b'.' ∷ c) ≢ []
    some_byte e =
        let e' = ap length e in absurd (omega (arith, e', length-append a (b'.' ∷ (b ++ b'.' ∷ c))))

-- The text of a version number of three ints reads back as that number.
pub parse_semver3-show_semver : (v : Semver) → IsSmall v → parse_semver3 (show_semver v) ≡ some v
unfolding show_semver
parse_semver3-show_semver v (x, y, z) =
    let dots : (n : ℕ) → n < 2 ^ 63 → Free b'.' (show_int (of_bits n)) = λ n h.
      subst (Free b'.') (sym (show_int_lem n h))
        (Free-digits (show_digits 20 n) (show_digits-IsDigit 20 n)) in
    parse_semver3-dots (show_int (of_bits v.major)) (show_int (of_bits v.minor))
      (show_int (of_bits v.patch)) (dots v.major x) (dots v.minor y) (dots v.patch z)
    ∙ parse_parts-shown (show_int (of_bits v.major)) (show_int (of_bits v.minor))
        (show_int (of_bits v.patch)) v.major v.minor v.patch (component-show_int v.major x)
        (component-show_int v.minor y) (component-show_int v.patch z)

-- ===== src/Versions/Guess/Sampled.antt =====
-- The guesses that `monotonicVersionFill` returns fall strictly between its bounds.
use ipadecrypt.Prelude.Text.Laws.{equal_iff}
use ipadecrypt.Prelude.Text.{equal}
use ipadecrypt.Prelude.{
  ℕ, zero, suc, ◌+◌, ◌-◌, ◌*◌, ◌/◌, ◌≤◌, ◌<◌, ◌^◌, ◌≡◌, refl, ap, ◌∙◌, sym, subst, true, false,
  ◌&&◌, ◌||◌, arith, ltb, leb, ◌==◌, Bool-cases, leb→le, ◌⊎◌, inl, inr, Option, some, List, [], ◌∷◌,
  map, length, length-append, length-drop, get_elem?-drop, get_elem?, drop, Bytes,
}
use ipadecrypt.Versions.Guess.Falls.{
  Precedes, Falls, Falls-ends, Falls-drop, descent-Falls, long_fill-Falls, bottom-Falls,
}
use ipadecrypt.Versions.Guess.{
  descent, blanks, hotfixes, sample_index, clamp_index, sample, bottom, fill_path, fill_between,
  show_guess, monotonic_version_fill,
}
use ipadecrypt.Versions.Semver.{Semver, parse_semver3}
use native.Mathlib.Nat.{
  le-div_iff_mul-le, div-lt_iff_lt-mul, mul-add, mul-lt-mul_of_pos_left, div-mul-le_self,
}

-- The index before its clamps: it grows from slot to slot, and stays below the path's length.
sample_index-grows :
    (n slots i : ℕ)
    → 0 < slots
    → slots ≤ n
    → sample_index n slots i + 1 ≤ sample_index n slots (i + 1)
sample_index-grows n slots i some_slot fits =
    let more : n * (2 * (i + 1) + 1) ≡ n * (2 * i + 1) + n * 2 =
      ap (λ k. n * k) (omega arith) ∙ mul-add n (2 * i + 1) 2 in
    let here : n * (2 * i + 1) / (2 * slots) * (2 * slots) ≤ n * (2 * i + 1) =
      div-mul-le_self (n * (2 * i + 1)) (2 * slots) in
    let room : (n * (2 * i + 1) / (2 * slots) + 1) * (2 * slots) ≤ n * (2 * (i + 1) + 1) =
      subst (λ k. (n * (2 * i + 1) / (2 * slots) + 1) * (2 * slots) ≤ k) (sym more)
        (omega (arith, here)) in
    (le-div_iff_mul-le {k = 2 * slots} {x = sample_index n slots i + 1} {y = n * (2 * (i + 1) + 1)}
        (omega arith)).1
      room

sample_index-below : (n slots i : ℕ) → i < slots → slots ≤ n → sample_index n slots i < n
sample_index-below n slots i h fits =
    let room : n * (2 * i + 1) < n * (2 * slots) =
      mul-lt-mul_of_pos_left {m = 2 * i + 1} {n = 2 * slots} {k = n} (omega arith) (omega arith) in
    (div-lt_iff_lt-mul {k = 2 * slots} {x = n * (2 * i + 1)} {y = n} (omega arith)).1 room

drop-drop : (i j k : ℕ) (path : List Semver) → i + j ≡ k → drop i (drop j path) ≡ drop k path
drop-drop i zero k path h = ap (λ n. drop n path) (omega arith)
drop-drop i (suc j) zero path h = absurd (omega arith)
drop-drop zero (suc j) (suc k) [] h = refl
drop-drop (suc i) (suc j) (suc k) [] h = refl
drop-drop i (suc j) (suc k) (v ∷ path) h = drop-drop i j k path (omega arith)

clamp_index_inside : (n next i : ℕ) → next ≤ i → i < n → clamp_index n next i ≡ i
unfolding clamp_index
clamp_index_inside n next i h k = ground (arith, h, k)

-- Neither clamp applies, and the picks fall.
sample-Falls :
    (path : List Semver) (hi lo : Semver) (slots left i next : ℕ)
    → i + left ≡ slots
    → slots ≤ length path
    → next ≤ length path
    → (0 < left → next ≤ sample_index (length path) slots i)
    → Falls hi (map some (drop next path)) lo
    → Falls hi (sample path slots left i next) lo
unfolding sample
sample-Falls path hi lo slots zero i next sum fits inside order falls =
    Falls-ends hi (map some (drop next path)) lo falls
sample-Falls path hi lo slots (suc left) i next sum fits inside order falls =
    let idx : ℕ = sample_index (length path) slots i in
    let below : idx < length path = sample_index-below (length path) slots i (omega arith) fits in
    let from : next ≤ idx = order (omega arith) in
    let pick =
      Falls-drop hi (drop next path) lo (idx - next) (omega (arith, length-drop next path)) falls in
    let there : get_elem? path idx ≡ some pick.0 =
      ap (get_elem? path) (omega arith) ∙ sym (get_elem?-drop next (idx - next) path) ∙ pick.1 in
    let behind : drop (suc (idx - next)) (drop next path) ≡ drop (idx + 1) path =
      drop-drop (suc (idx - next)) next (idx + 1) path (omega arith) in
    rw (clamp_index_inside (length path) next idx from below, there)
      (
        pick.2,
        sample-Falls path pick.0 lo slots left (i + 1) (idx + 1) (omega arith) fits (omega arith)
            (λ more. sample_index-grows (length path) slots i (omega arith) fits)
            (subst (λ vs. Falls pick.0 (map some vs) lo) behind pick.3),
      )

fill_path-Falls :
    (nm om : Semver) (slots : ℕ)
    → Precedes om nm
    → om.patch + slots < 2 ^ 63
    → 0 < slots
    → Falls nm (fill_path nm om (descent nm om) slots) om
unfolding fill_path
fill_path-Falls nm om slots p fits some_slot =
    let path : List Semver = descent nm om in
    elim (Bool-cases (length path == 0)) [
      | inl empty ↦ rw empty (bottom-Falls nm om nm slots fits p (λ h. inr h))
      | inr more ↦ elim (Bool-cases (leb slots (length path))) [
        | inl short ↦
            rw (more, short)
              (sample-Falls path nm om slots slots 0 0 (omega arith)
                (leb→le slots (length path) short) (omega arith) (λ h. omega arith)
                (descent-Falls nm om p))
        | inr long ↦ rw (more, long) (long_fill-Falls nm om (slots - length path) p (omega arith))
      ]
    ]

fill_between-Falls :
    (nm om : Semver) (slots : ℕ)
    → Precedes om nm
    → om.patch + slots < 2 ^ 63
    → 0 < slots
    → Falls nm (fill_between nm om slots) om
unfolding fill_between
fill_between-Falls nm om slots (e, h) fits some_slot =
    let ordered : (ltb nm.minor om.minor || (nm.minor == om.minor && leb nm.patch om.patch))
        ≡ false =
      not_behind h in
    let same : (nm.major == om.major) ≡ true = ground (arith, e) in
    rw (same, ordered) (fill_path-Falls nm om slots (e, h) fits some_slot)
  where
    not_behind :
        (om.minor < nm.minor) ⊎ ((om.minor ≡ nm.minor) × (om.patch < nm.patch))
        → (ltb nm.minor om.minor || (nm.minor == om.minor && leb nm.patch om.patch)) ≡ false
    not_behind (inl k) = ground (arith, k)
    not_behind (inr k) = ground (arith, k.0, k.1)

sample-length :
    (path : List Semver) (slots left i next : ℕ) → length (sample path slots left i next) ≡ left
unfolding sample
sample-length path slots zero i next = refl
sample-length path slots (suc left) i next =
    let idx : ℕ = clamp_index (length path) next (sample_index (length path) slots i) in
    ap suc (sample-length path slots left (i + 1) (idx + 1))

bottom-length : (nm om : Semver) (n : ℕ) → length (bottom nm om n) ≡ n
unfolding bottom blanks hotfixes
bottom-length nm om zero = ground arith
bottom-length nm om (suc n) = ground (arith, bottom-length nm om n)

map-length : (vs : List Semver) → length (map some vs) ≡ length vs
map-length [] = refl
map-length (v ∷ vs) = ap suc (map-length vs)

not_leb : (a b : ℕ) → leb a b ≡ false → b < a
not_leb a b h = ground (arith, h)

fill_path-length :
    (nm om : Semver) (path : List Semver) (slots : ℕ) → length (fill_path nm om path slots) ≡ slots
unfolding fill_path
fill_path-length nm om path slots = elim (Bool-cases (length path == 0)) [
  | inl empty ↦ rw empty (bottom-length nm om slots)
  | inr more ↦ elim (Bool-cases (leb slots (length path))) [
    | inl short ↦ rw (more, short) (sample-length path slots slots 0 0)
    | inr long ↦
        rw (more, long)
          (length-append (map some path) (bottom nm om (slots - length path))
            ∙ omega (
              arith,
              map-length path,
              bottom-length nm om (slots - length path),
              not_leb slots (length path) long,
            ))
  ]
]

blanks-length : (n : ℕ) → length (blanks n) ≡ n
unfolding blanks
blanks-length zero = refl
blanks-length (suc n) = ap suc (blanks-length n)

fill_between-length : (nm om : Semver) (slots : ℕ) → length (fill_between nm om slots) ≡ slots
unfolding fill_between
fill_between-length nm om slots =
    ground (arith, fill_path-length nm om (descent nm om) slots, blanks-length slots)

Precedes-irrefl : (v : Semver) → ¬ Precedes v v
Precedes-irrefl v (e, inl h) = omega arith
Precedes-irrefl v (e, inr h) = omega (arith, h.1)

-- The texts of two versions in order differ.
differ :
    (newer older : Bytes) (nm om : Semver)
    → parse_semver3 newer ≡ some nm
    → parse_semver3 older ≡ some om
    → Precedes om nm
    → equal newer older ≡ false
differ newer older nm om p q falls = elim (Bool-cases (equal newer older)) [
  | inl e ↦
      let same : some nm ≡ some om = sym p ∙ ap parse_semver3 ((equal_iff newer older).0 e) ∙ q in
      let v : nm ≡ om = cc in absurd (Precedes-irrefl om (subst (λ n. Precedes om n) v falls))
  | inr e ↦ e
]

monotonic_version_fill_between :
    (newer older : Bytes) (nm om : Semver) (slots : ℕ)
    → parse_semver3 newer ≡ some nm
    → parse_semver3 older ≡ some om
    → equal newer older ≡ false
    → monotonic_version_fill newer older slots ≡ map show_guess (fill_between nm om slots)
unfolding monotonic_version_fill
monotonic_version_fill_between newer older nm om slots p q d = ground (arith, p, q, d)

-- Between two rows whose versions are of one major version, the upper one newer, there is a guess or a blank for each of the rows between them, and the guesses fall strictly from the
-- upper version to the lower one, both bounds left out, where the lower one's patch and the number
-- of rows together stay below 2 ^ 63.
pub monotonic_version_fill-Falls :
    (newer older : Bytes) (nm om : Semver) (slots : ℕ)
    → parse_semver3 newer ≡ some nm
    → parse_semver3 older ≡ some om
    → Precedes om nm
    → om.patch + slots < 2 ^ 63
    → 0 < slots
    → (guesses : List (Option Semver)) × (monotonic_version_fill newer older slots
        ≡ map show_guess guesses)
      × (length guesses ≡ slots)
      × Falls nm guesses om
monotonic_version_fill-Falls newer older nm om slots p q falls fits some_slot = (
  fill_between nm om slots,
  monotonic_version_fill_between newer older nm om slots p q (differ newer older nm om p q falls),
  fill_between-length nm om slots,
  fill_between-Falls nm om slots falls fits some_slot,
)

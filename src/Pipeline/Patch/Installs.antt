-- ===== src/Pipeline/Patch/Installs.antt =====
-- What `planInfoPlist` does to the property list.
use ipadecrypt.Outcome.{ok}
use ipadecrypt.Pipeline.Patch.{
  Value, text, Dict, get, put, get_text, read_device_family, to_any_slice, contains_int, min_os_key,
  family_key, is_empty, Draft, lower_min_os, expand_family,
}
use ipadecrypt.Pipeline.Version.Order.{IsPlainPart, cmp_ver_irrefl}
use ipadecrypt.Pipeline.Version.{cmp_ver}
use ipadecrypt.Prelude.Int.{ℤ, pos, negsuc, to_bits, of_bits, is_pos, int_eq_iff}
use ipadecrypt.Prelude.Text.Laws.{equal_iff, equal_refl}
use ipadecrypt.Prelude.Text.{equal, split}
use ipadecrypt.Prelude.{
  All-append, ◌≢◌, ◌&&◌, not, Bool-cases, ◌^◌, ◌<◌, ◌≡◌, refl, sym, ap, ◌∙◌, subst, Bool, true,
  false, arith, some, List, [], ◌∷◌, ◌++◌, if◌then◌else◌, Bytes, All, inl, inr,
}

-- A Go int.
abbrev pub IsInt : ℤ → Type 0
IsInt (pos n) = n < 2 ^ 63
IsInt (negsuc n) = n < 2 ^ 63

of_bits-to_bits : (i : ℤ) → IsInt i → of_bits (to_bits i) ≡ i
unfolding of_bits to_bits
of_bits-to_bits (pos n) h = ground arith
of_bits-to_bits (negsuc n) h = ground arith

-- `readDeviceFamily` reads back what `toAnySlice` makes.
read_device_family-to_any_slice :
    (family : List ℤ) → All IsInt family → read_device_family (some (to_any_slice family)) ≡ family
unfolding read_device_family to_any_slice
read_device_family-to_any_slice [] h = refl
read_device_family-to_any_slice (i ∷ family) (h, t) =
    ground (arith, of_bits-to_bits i h, read_device_family-to_any_slice family t)

get-put :
    (k j : Bytes) (v : Value) (m : Dict)
    → get j (put k v m) ≡ (if equal k j then some v else get j m)
unfolding get put
get-put k j v [] = refl
get-put k j v ((i, w) ∷ m) =
    ground (arith, equal_iff k j, equal_iff i k, equal_iff i j, get-put k j v m)

contains_int-append : (xs : List ℤ) (i : ℤ) → contains_int (xs ++ i ∷ []) i ≡ true
unfolding contains_int
contains_int-append [] i = ground (arith, int_eq_iff i i)
contains_int-append (x ∷ xs) i = ground (arith, contains_int-append xs i)

lower_min_os_version :
    (target : Bytes) (d : Draft)
    → All IsPlainPart (split b'.' target)
    → is_empty (get_text min_os_key d.dict) ≡ false
    → is_pos (cmp_ver (get_text min_os_key (lower_min_os target d).dict) target) ≡ false
unfolding lower_min_os get_text
lower_min_os_version target d plain set = ground (
  arith,
  cmp_ver_irrefl target plain,
  get-put min_os_key min_os_key (text target) d.dict,
  equal_refl min_os_key,
)

-- The version of `m` is set and above `target`; some families are named in `m`, the device's not
-- among them.
abbrev pub IsAbove : Bytes → Dict → Type 0
IsAbove target m =
    (get_text min_os_key m ≢ []) × (is_pos (cmp_ver (get_text min_os_key m) target) ≡ true)

abbrev pub families : Dict → List ℤ
families m = read_device_family (get family_key m)

abbrev pub Lacks : ℤ → Dict → Type 0
Lacks device m =
    (is_pos device ≡ true) × (families m ≢ []) × (contains_int (families m) device ≡ false)

-- The property list `m'` lets the app install where `m` may not: its minimum version is not above
-- `target`, the device's family is supported where any is named, and it is `m` with the version
-- replaced by the target exactly where it is above it, and with the device put behind the families
-- exactly where it is not among them.
pub record Installs (target : Bytes) (device : ℤ) (m m' : Dict) : Type 0 where
  pub version :
      is_empty (get_text min_os_key m) ≡ false
      → is_pos (cmp_ver (get_text min_os_key m') target) ≡ false
  pub version_lowered : IsAbove target m → get min_os_key m' ≡ some (text target)
  pub version_kept : ¬ IsAbove target m → get min_os_key m' ≡ get min_os_key m
  pub family :
      is_pos device ≡ true
      → is_empty (families m) ≡ false
      → contains_int (families m') device ≡ true
  pub family_added : Lacks device m → families m' ≡ families m ++ device ∷ []
  pub family_kept : ¬ Lacks device m → get family_key m' ≡ get family_key m
  pub others :
      (j : Bytes) → equal min_os_key j ≡ false → equal family_key j ≡ false → get j m' ≡ get j m

pub is_empty-false {ℓ} : {A : Type ℓ} (xs : List A) → xs ≢ [] → is_empty xs ≡ false
is_empty-false [] h = absurd (h refl)
is_empty-false (x ∷ xs) h = refl

pub is_empty_ne {ℓ} : {A : Type ℓ} (xs : List A) → is_empty xs ≡ false → xs ≢ []
is_empty_ne [] h = λ e. cc
is_empty_ne (x ∷ xs) h = λ e. cc

pub lower_min_os_others :
    (target : Bytes) (d : Draft) (j : Bytes)
    → equal min_os_key j ≡ false
    → get j (lower_min_os target d).dict ≡ get j d.dict
unfolding lower_min_os
lower_min_os_others target d j h = ground (arith, get-put min_os_key j (text target) d.dict)

lower_min_os-IsAbove :
    (target : Bytes) (d : Draft)
    → (IsAbove target d.dict → get min_os_key (lower_min_os target d).dict ≡ some (text target))
      × (¬ IsAbove target d.dict
          → get min_os_key (lower_min_os target d).dict ≡ get min_os_key d.dict)
unfolding lower_min_os
lower_min_os-IsAbove target d = (
  λ (set, above). ground (
    arith,
    above,
    is_empty-false (get_text min_os_key d.dict) set,
    get-put min_os_key min_os_key (text target) d.dict,
    equal_refl min_os_key,
  ),
  λ low. elim (Bool-cases (is_empty current)) [
    | inl blank ↦ ground (arith, blank)
    | inr set ↦ elim (Bool-cases (is_pos (cmp_ver current target))) [
      | inl above ↦ absurd (low (is_empty_ne current set, above))
      | inr fine ↦ ground (arith, fine)
    ]
  ],
)
  where
    current : Bytes
    current = get_text min_os_key d.dict

pub expand_family-Installs :
    (target : Bytes) (device : ℤ) (patch : Bool) (d d' : Draft)
    → All IsPlainPart (split b'.' target)
    → IsInt device
    → All IsInt (read_device_family (get family_key d.dict))
    → expand_family device patch (lower_min_os target d) ≡ ok d'
    → Installs target device d.dict d'.dict
unfolding equal
expand_family-Installs target device patch d d' plain dev ints e = record {
  version = λ set.
      ap (λ v. is_pos (cmp_ver v target)) same_version ∙ lower_min_os_version target d plain set;
  version_lowered = λ h. same_min_os ∙ (lower_min_os-IsAbove target d).0 h;
  version_kept = λ h. same_min_os ∙ (lower_min_os-IsAbove target d).1 h;
  family = λ p q. family_of p q;
  family_added = λ (p, q, r). added p (is_empty-false (families d.dict) q) r;
  family_kept = λ h. kept h;
  others = λ j h k. others_of j k ∙ lower_min_os_others target d j h;
}
  where
    m : Dict
    m = (lower_min_os target d).dict

    supported : List ℤ
    supported = read_device_family (get family_key m)

    same_family : get family_key m ≡ get family_key d.dict
    same_family = lower_min_os_others target d family_key refl

    v : Value
    v = to_any_slice (supported ++ device ∷ [])

    same_version : get_text min_os_key d'.dict ≡ get_text min_os_key m
    same_version =
        unfold expand_family get_text in ground (arith, e, get-put family_key min_os_key v m)

    same_min_os : get min_os_key d'.dict ≡ get min_os_key m
    same_min_os = unfold expand_family in ground (arith, e, get-put family_key min_os_key v m)

    others_of : (j : Bytes) → equal family_key j ≡ false → get j d'.dict ≡ get j m
    others_of j k = unfold expand_family in ground (arith, e, get-put family_key j v m)

    ints' : All IsInt (supported ++ device ∷ [])
    ints' =
        All-append IsInt supported (device ∷ [])
          (subst (λ g. All IsInt (read_device_family g)) (sym same_family) ints) (dev, tt)

    family_of :
        is_pos device ≡ true
        → is_empty (read_device_family (get family_key d.dict)) ≡ false
        → contains_int (families d'.dict) device ≡ true
    family_of p q =
        unfold expand_family in
        ground (
          arith,
          e,
          same_family,
          get-put family_key family_key v m,
          equal_refl family_key,
          read_device_family-to_any_slice (supported ++ device ∷ []) ints',
          contains_int-append supported device,
        )

    added :
        is_pos device ≡ true
        → is_empty (families d.dict) ≡ false
        → contains_int (families d.dict) device ≡ false
        → families d'.dict ≡ families d.dict ++ device ∷ []
    added p q r =
        unfold expand_family in
        ground (
          arith,
          e,
          same_family,
          get-put family_key family_key v m,
          equal_refl family_key,
          read_device_family-to_any_slice (supported ++ device ∷ []) ints',
        )

    unlacking :
        is_pos device && not (is_empty supported) && not (contains_int supported device) ≡ false
        → get family_key d'.dict ≡ get family_key d.dict
    unlacking h = unfold expand_family in ground (arith, e, h, same_family)

    kept : ¬ Lacks device d.dict → get family_key d'.dict ≡ get family_key d.dict
    kept h = elim (Bool-cases (is_pos device)) [
      | inr low ↦ unlacking (ground (arith, low))
      | inl high ↦ elim (Bool-cases (is_empty supported)) [
        | inl none_named ↦ unlacking (ground (arith, none_named))
        | inr named ↦ elim (Bool-cases (contains_int supported device)) [
          | inl there ↦ unlacking (ground (arith, there))
          | inr missing ↦ absurd (
              h (
                high,
                is_empty_ne (families d.dict) (ground (arith, named, same_family)),
                ground (arith, missing, same_family),
              ))
        ]
      ]
    ]

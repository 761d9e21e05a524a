-- ===== src/Versions/Entry.antt =====
-- cmd/ipadecrypt/versions.go: an entry of the versions cache, and `reconcileFromRaw`. Of the values
-- that `Raw` holds, those that the code tests for are told apart. A number of JSON is given by its
-- integer part.
pub mod Settled
use ipadecrypt.Prelude.Int.{ℤ}
use ipadecrypt.Prelude.Text.{codes, equal}
use ipadecrypt.Prelude.{
  ℕ, Bool, true, false, Option, none, some, List, [], ◌∷◌, ◌++◌, if◌then◌else◌, Bytes,
}

pub data RawItem : Type 0 where
  float int int64 : ℤ → RawItem
  other_item : RawItem

pub data RawValue : Type 0 where
  text : Bytes → RawValue
  items : List RawItem → RawValue
  other_value : RawValue

-- `map[string]any`; a nil map is `none`.
abbrev pub Raw : Type 0
Raw = Option (List (Bytes × RawValue))

pub record CachedVersion : Type 0 where
  pub fetched_at : ℕ
  pub display_version : Bytes
  pub bundle_version : Bytes
  pub supported_devices : List ℤ
  pub minimum_os_version : Bytes
  pub release_date : ℕ
  pub raw : Raw

unfoldable pub look_up {ℓ} : {A : Type ℓ} → Bytes → List (Bytes × A) → Option A
look_up k [] = none
look_up k ((key, v) ∷ m) = if equal key k then some v else look_up k m

unfoldable pub text_at : Bytes → List (Bytes × RawValue) → Option Bytes
text_at k m = elim (look_up k m) [
  | none ↦ none
  | some v ↦ elim v [ text s ↦ some s | items xs ↦ none | other_value ↦ none ]
]

-- The loop over the items; what is no number is passed over.
unfoldable pub numbers : List RawItem → List ℤ
numbers [] = []
numbers (float n ∷ xs) = n ∷ numbers xs
numbers (int n ∷ xs) = n ∷ numbers xs
numbers (int64 n ∷ xs) = n ∷ numbers xs
numbers (other_item ∷ xs) = numbers xs

unfoldable pub numbers_at : Bytes → List (Bytes × RawValue) → List ℤ
numbers_at k m = elim (look_up k m) [
  | none ↦ []
  | some v ↦ elim v [ text s ↦ [] | items xs ↦ numbers xs | other_value ↦ [] ]
]

unfoldable pub text_or_blank : Option Bytes → Bytes
text_or_blank none = []
text_or_blank (some s) = s

-- A text field that is empty is taken from `Raw`, where that has a text.
unfoldable pub fill_text : Bytes → Bytes → List (Bytes × RawValue) → Bytes
fill_text [] k m = text_or_blank (text_at k m)
fill_text (c ∷ s) k m = c ∷ s

unfoldable pub fill_numbers : List ℤ → Bytes → List (Bytes × RawValue) → List ℤ
fill_numbers [] k m = numbers_at k m
fill_numbers (n ∷ ns) k m = n ∷ ns

-- The body, at the `Raw` of the entry.
unfoldable pub fill_from : Raw → CachedVersion → CachedVersion
fill_from none v = v
fill_from (some m) v = record v {
  display_version = fill_text v.display_version (codes "bundleShortVersionString") m;
  bundle_version = fill_text v.bundle_version (codes "bundleVersion") m;
  supported_devices = fill_numbers v.supported_devices (codes "softwareSupportedDeviceIds") m;
}

unfoldable pub reconcile_from_raw : CachedVersion → CachedVersion
reconcile_from_raw v = fill_from v.raw v

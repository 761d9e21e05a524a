-- ===== src/Pipeline/Patch.antt =====
-- internal/pipeline/patch.go: `planInfoPlist` with `readDeviceFamily`, `toAnySlice` and
-- `containsInt`.
-- howett.net/plist is the parameter `Plist`; a property list is a map from keys to values, of which
-- the code reads texts and lists of integers.
pub mod Installs
pub mod Plan
use ipadecrypt.Outcome.{Outcome, ok, err, ◌>>=◌, attempt}
use ipadecrypt.Pipeline.Archive.{IoError, Content, Entry, Opened, unreadable, archive, read_all}
use ipadecrypt.Pipeline.Paths.{is_main_app_info_plist, is_watch_path}
use ipadecrypt.Pipeline.Version.{cmp_ver}
use ipadecrypt.Prelude.Int.{ℤ, pos, negsuc, to_bits, of_bits, int_eq, is_pos}
use ipadecrypt.Prelude.Text.{codes, equal}
use ipadecrypt.Prelude.{
  ℕ, ◌+◌, Bool, true, false, not, ◌&&◌, ◌||◌, Option, none, some, List, [], ◌∷◌, ◌++◌, map,
  if◌then◌else◌, Bytes,
}

-- An element of a list of the property list, by its Go type; `other` is any type that the code
-- passes over.
pub data Item : Type 0 where
  uint64 : ℕ → Item
  int64 : ℤ → Item
  int : ℤ → Item
  other : ℕ → Item

pub data Value : Type 0 where
  text : Bytes → Value
  items : List Item → Value
  opaque : ℕ → Value

-- `map[string]any`.
abbrev pub Dict : Type 0
Dict = List (Bytes × Value)

unfoldable pub get : Bytes → Dict → Option Value
get key [] = none
get key ((k, v) ∷ m) = if equal k key then some v else get key m

unfoldable pub put : Bytes → Value → Dict → Dict
put key v [] = (key, v) ∷ []
put key v ((k, w) ∷ m) = if equal k key then (key, v) ∷ m else (k, w) ∷ put key v m

-- `s, _ := m[key].(string)`.
unfoldable pub get_text : Bytes → Dict → Bytes
unfolding get
get_text key m = elim (get key m) [ some v ↦ elim v [ text s ↦ s | _ ↦ [] ] | none ↦ [] ]

-- `plist.Unmarshal` and `plist.Marshal`; the number is the format that the former reports.
pub record Plist : Type 0 where
  pub unmarshal : Bytes → Option (Dict × ℕ)
  pub marshal : Dict → ℕ → Outcome IoError Bytes

pub data PatchError : Type 0 where
  io : IoError → PatchError
  marshal_failed : IoError → PatchError
  device_family_mismatch : List ℤ → ℤ → PatchError

-- `plistPlan`; `content` is its field `data`.
pub record PlistPlan : Type 0 where
  pub content : Option Bytes
  pub min_os_changed : Bool
  pub previous_min_os : Bytes
  pub device_family_expanded : Bool
  pub previous_family : List ℤ
  pub new_family : List ℤ

abbrev pub empty_plan : PlistPlan
empty_plan = record {
  content = none;
  min_os_changed = false;
  previous_min_os = [];
  device_family_expanded = false;
  previous_family = [];
  new_family = [];
}

-- `int(n)`; the result is empty for an element that is passed over.
unfoldable pub item_int : Item → List ℤ
unfolding of_bits
item_int (uint64 n) = of_bits n ∷ []
item_int (int64 i) = i ∷ []
item_int (int i) = i ∷ []
item_int (other _) = []

unfoldable pub read_items : List Item → List ℤ
read_items [] = []
read_items (e ∷ arr) = item_int e ++ read_items arr

-- `readDeviceFamily(m["UIDeviceFamily"])`; `none` is a missing key.
unfoldable pub read_device_family : Option Value → List ℤ
unfolding item_int read_items
read_device_family (some (items arr)) = read_items arr
read_device_family _ = []

unfoldable pub to_any_slice : List ℤ → Value
unfolding to_bits
to_any_slice family = items (map (λ i. uint64 (to_bits i)) family)

unfoldable pub contains_int : List ℤ → ℤ → Bool
contains_int [] needle = false
contains_int (v ∷ haystack) needle = int_eq v needle || contains_int haystack needle

abbrev pub min_os_key : Bytes
min_os_key = codes "MinimumOSVersion"

abbrev pub family_key : Bytes
family_key = codes "UIDeviceFamily"

abbrev pub is_empty {ℓ} : {A : Type ℓ} → List A → Bool
is_empty [] = true
is_empty (_ ∷ _) = false

-- The map and the plan while `planInfoPlist` changes them; `dirty` is the local of that name.
pub record Draft : Type 0 where
  pub dict : Dict
  pub plan : PlistPlan
  pub dirty : Bool

-- The part about MinimumOSVersion.
unfoldable pub lower_min_os : Bytes → Draft → Draft
lower_min_os target d =
    let current = get_text min_os_key d.dict in
    if not (is_empty current) && is_pos (cmp_ver current target)
    then record {
      dict = put min_os_key (text target) d.dict;
      plan = record d.plan { min_os_changed = true; previous_min_os = current };
      dirty = true;
    }
    else d

-- The part about UIDeviceFamily.
unfoldable pub expand_family : ℤ → Bool → Draft → Outcome PatchError Draft
expand_family device patch d =
    let supported = read_device_family (get family_key d.dict) in
    let expanded = supported ++ device ∷ [] in
    if is_pos device && not (is_empty supported) && not (contains_int supported device)
    then (if not patch
        then err (device_family_mismatch supported device)
        else ok (record {
          dict = put family_key (to_any_slice expanded) d.dict;
          plan = record d.plan {
            device_family_expanded = true;
            previous_family = supported;
            new_family = expanded;
          };
          dirty = true;
        }))
    else ok d

-- `planInfoPlist` from `if !dirty` on.
unfoldable pub finish_plan : Plist → ℕ → Draft → Outcome PatchError PlistPlan
finish_plan plist format d =
    if not d.dirty
    then ok d.plan
    else attempt (plist.marshal d.dict format) (λ bs. ok (record d.plan { content = some bs }))
        (λ e. err (marshal_failed e))

-- `planInfoPlist`. What it returns beside an error is read by no caller.
unfoldable pub plan_info_plist : Plist → Content → Bytes → ℤ → Bool → Outcome PatchError PlistPlan
plan_info_plist plist file target device patch =
    attempt (read_all file)
      (λ bs. elim (plist.unmarshal bs) [
        | none ↦ ok empty_plan
        | some (m, format) ↦ do
          d ←
              expand_family device patch
                (lower_min_os target (record { dict = m; plan = empty_plan; dirty = false }))
          finish_plan plist format d
      ])
      (λ e. err (io e))

-- ===== src/Pipeline/Install/Described.antt =====
-- What `PatchForInstall` makes of an archive, told without the loop over its entries.
use ipadecrypt.Outcome.{ok}
use ipadecrypt.Pipeline.Archive.{Entry}
use ipadecrypt.Pipeline.Assemble.{OutEntry, created, raw}
use ipadecrypt.Pipeline.Install.{PatchResult, find_plist, is_at, out_entry}
use ipadecrypt.Pipeline.Patch.{Plist, PlistPlan, plan_info_plist}
use ipadecrypt.Pipeline.Paths.{is_main_app_info_plist, is_watch_path}
use ipadecrypt.Pipeline.Paths.Names.{is_main_app_info_plist-is_watch_path}
use ipadecrypt.Prelude.Int.{ℤ}
use ipadecrypt.Prelude.{
  ℕ, ◌+◌, ◌<◌, ◌≡◌, refl, ap, ◌∙◌, Bool, true, false, not, ◌&&◌, arith, Option, none, some, List,
  [], ◌∷◌, ◌++◌, ◌==◌, length, if◌then◌else◌, Bytes, Bool-cases, inl, inr, ◌⊎◌, All,
}

-- The entries that are copied as they are: all but the watch entries, or all where these are kept.
unfoldable pub survivors : Bool → List Entry → List OutEntry
survivors keep_watch [] = []
survivors keep_watch (f ∷ fs) =
    let rest = survivors keep_watch fs in
    if not keep_watch && is_watch_path f.name then rest else raw f ∷ rest

-- The number of entries that are dropped.
unfoldable pub watch_count : Bool → List Entry → ℕ
watch_count keep_watch [] = 0
watch_count keep_watch (f ∷ fs) =
    (if not keep_watch && is_watch_path f.name then 1 else 0) + watch_count keep_watch fs

-- The main Info.plist in the output.
abbrev pub info_out : Option Bytes → Entry → OutEntry
info_out none f = raw f
info_out (some bs) f = created f.name bs

abbrev pub IsNoInfo : Entry → Type 0
IsNoInfo f = is_main_app_info_plist f.name ≡ false

-- The output and the result that belong to an archive: without a main Info.plist no plan is made and
-- the surviving entries are copied; else the plan is that of the first one, `f`, which has its new
-- content at its place among the surviving entries, if the plan has one.
pub data InstalledFrom (plist : Plist) (target : Bytes) (device : ℤ) (patch keep_watch : Bool)
    (entries : List Entry) (out : List OutEntry) (res : PatchResult) : Type 0 where
  no_info :
      All IsNoInfo entries
      → out ≡ survivors keep_watch entries
      → res ≡ record {
        min_os_changed = false;
        previous_min_os = [];
        watch_removed = watch_count keep_watch entries;
        device_family_expanded = false;
        previous_device_family = [];
        new_device_family = [];
      }
      → InstalledFrom plist target device patch keep_watch entries out res
  with_info :
      (before after : List Entry) (f : Entry) (plan : PlistPlan)
      → entries ≡ before ++ f ∷ after
      → All IsNoInfo before
      → is_main_app_info_plist f.name ≡ true
      → plan_info_plist plist f.content target device patch ≡ ok plan
      → out ≡ survivors keep_watch before ++ info_out plan.content f ∷ survivors keep_watch after
      → res ≡ record {
        min_os_changed = plan.min_os_changed;
        previous_min_os = plan.previous_min_os;
        watch_removed = watch_count keep_watch entries;
        device_family_expanded = plan.device_family_expanded;
        previous_device_family = plan.previous_family;
        new_device_family = plan.new_family;
      }
      → InstalledFrom plist target device patch keep_watch entries out res

pub find_plist-none : (i : ℕ) (fs : List Entry) → All IsNoInfo fs → find_plist i fs ≡ none
unfolding find_plist
find_plist-none i [] h = refl
find_plist-none i (f ∷ fs) (h, t) = rw h (find_plist-none (i + 1) fs t)

pub find_plist_here :
    (i : ℕ) (before after : List Entry) (f : Entry)
    → All IsNoInfo before
    → is_main_app_info_plist f.name ≡ true
    → find_plist i (before ++ f ∷ after) ≡ some (i + length before, f)
unfolding find_plist
find_plist_here i [] after f h here = ground (arith, here)
find_plist_here i (b ∷ before) after f (h, t) here =
    let place : i + 1 + length before ≡ i + length (b ∷ before) = omega arith in
    rw h (find_plist_here (i + 1) before after f t here ∙ ap (λ j. some (j, f)) place)

-- An archive has no main Info.plist, or a first one.
pub info-cases :
    (fs : List Entry)
    → All IsNoInfo fs
      ⊎ ((before : List Entry) × (f : Entry) × (after : List Entry) × (fs ≡ before ++ f ∷ after)
          × (is_main_app_info_plist f.name ≡ true)
          × All IsNoInfo before)
info-cases [] = inl tt
info-cases (f ∷ fs) = elim (Bool-cases (is_main_app_info_plist f.name)) [
  | inl here ↦ inr ([], f, fs, refl, here, tt)
  | inr other ↦ elim (info-cases fs) [
    | inl no_more ↦ inl (other, no_more)
    | inr (before, g, after, e, here, h) ↦
        inr (f ∷ before, g, after, ap (◌∷◌ f) e, here, (other, h))
  ]
]

-- The entries of the output as the loop makes them, from place `i` on.
unfoldable pub filtered : Bool → Option (ℕ × Entry) → Option Bytes → ℕ → List Entry → List OutEntry
filtered keep_watch info content i [] = []
filtered keep_watch info content i (f ∷ fs) =
    let rest = filtered keep_watch info content (i + 1) fs in
    if not keep_watch && is_watch_path f.name
    then rest
    else out_entry (is_at info i) content f ∷ rest

pub filtered-none :
    (keep_watch : Bool) (content : Option Bytes) (i : ℕ) (fs : List Entry)
    → filtered keep_watch none content i fs ≡ survivors keep_watch fs
unfolding filtered survivors is_at out_entry
filtered-none keep_watch content i [] = refl
filtered-none keep_watch content i (f ∷ fs) =
    ground (arith, filtered-none keep_watch content (i + 1) fs)

filtered_past :
    (keep_watch : Bool) (content : Option Bytes) (j : ℕ) (f : Entry) (i : ℕ) (fs : List Entry)
    → j < i
    → filtered keep_watch (some (j, f)) content i fs ≡ survivors keep_watch fs
unfolding filtered survivors is_at out_entry
filtered_past keep_watch content j f i [] h = refl
filtered_past keep_watch content j f i (g ∷ fs) h =
    let other : (i == j) ≡ false = ground arith in
    ground (arith, other, filtered_past keep_watch content j f (i + 1) fs (omega arith))

info_out_lem : (content : Option Bytes) (f : Entry) → out_entry true content f ≡ info_out content f
unfolding out_entry
info_out_lem none f = refl
info_out_lem (some bs) f = refl

other_out_lem : (content : Option Bytes) (f : Entry) → out_entry false content f ≡ raw f
unfolding out_entry
other_out_lem content f = refl

pub filtered_here :
    (keep_watch : Bool) (content : Option Bytes) (i j : ℕ) (before after : List Entry) (f : Entry)
    → j ≡ i + length before
    → is_main_app_info_plist f.name ≡ true
    → filtered keep_watch (some (j, f)) content i (before ++ f ∷ after)
      ≡ survivors keep_watch before ++ info_out content f ∷ survivors keep_watch after
unfolding filtered survivors is_at
filtered_here keep_watch content i j [] after f e here =
    let same : (i == j) ≡ true = ground arith in
    rw (is_main_app_info_plist-is_watch_path f.name here) (
      ground (
        arith,
        same,
        info_out_lem content f,
        filtered_past keep_watch content j f (i + 1) after (omega arith),
      ))
filtered_here keep_watch content i j (b ∷ before) after f e here =
    let other : (i == j) ≡ false = ground arith in
    let rest = filtered_here keep_watch content (i + 1) j before after f (omega arith) here in
    rw other (ground (arith, other_out_lem content b, rest))

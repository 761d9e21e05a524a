-- ===== src/Pipeline/Paths.antt =====
-- internal/pipeline: the tests on entry names. `isMainAppInfoPlist`, `isWatchPath` and
-- `cleanupEntryKind` are in patch.go, `isAppExtPath` in verify.go, `isExcludedIPAEntry` in
-- assemble.go. `filepath.Base` is that of a POSIX host.
pub mod Names
use ipadecrypt.Prelude.Text.{codes, equal, has_prefix, has_suffix, trim_suffix, split}
use ipadecrypt.Prelude.{
  ℕ, ◌+◌, ◌≤◌, Bool, true, false, ◌&&◌, ◌||◌, leb, ◌==◌, if◌then◌else◌, List, [], ◌∷◌, length,
  Bytes, map,
}

-- `parts[0] == "Payload" && strings.HasSuffix(parts[1], ".app")`, on two parts.
abbrev pub in_app : Bytes → Bytes → Bool
in_app first second = equal first (codes "Payload") && has_suffix second (codes ".app")

unfoldable pub main_plist_parts : List Bytes → Bool
main_plist_parts (a ∷ b ∷ c ∷ []) = in_app a b && equal c (codes "Info.plist")
main_plist_parts _ = false

unfoldable pub is_main_app_info_plist : Bytes → Bool
unfolding main_plist_parts
is_main_app_info_plist name = main_plist_parts (split b'/' name)

-- `len(parts) < 3`, then the three parts.
watch_parts : List Bytes → Bool
watch_parts (a ∷ b ∷ c ∷ _) = in_app a b && equal c (codes "Watch")
watch_parts _ = false

unfoldable pub is_watch_path : Bytes → Bool
unfolding watch_parts
is_watch_path name = watch_parts (split b'/' name)

-- `len(parts) >= 4`, then the three parts.
app_ext_parts : List Bytes → Bool
app_ext_parts (a ∷ b ∷ c ∷ d ∷ _) = in_app a b && equal c (codes "PlugIns")
app_ext_parts _ = false

unfoldable pub is_app_ext_path : Bytes → Bool
unfolding app_ext_parts
is_app_ext_path name = app_ext_parts (split b'/' name)

-- One segment of the loop in `isExcludedIPAEntry`.
unfoldable pub excluded_segment : Bytes → Bool
excluded_segment seg =
    equal seg (codes "Watch")
    || equal seg (codes "WatchKitSupport2")
    || equal seg (codes "SC_Info")
    || equal seg (codes "BCSymbolMaps")
    || equal seg (codes "Symbols")
    || has_suffix seg (codes ".dSYM")

unfoldable pub any_excluded : List Bytes → Bool
any_excluded [] = false
any_excluded (seg ∷ segs) = excluded_segment seg || any_excluded segs

-- `for i := 2; i < len(parts); i++`.
excluded_parts : List Bytes → Bool
excluded_parts (_ ∷ _ ∷ segs) = any_excluded segs
excluded_parts _ = false

unfoldable pub is_excluded_ipa_entry : Bytes → Bool
unfolding excluded_parts
is_excluded_ipa_entry name =
    let s = trim_suffix name (codes "/") in
    equal s (codes "iTunesMetadata.plist")
    || equal s (codes "Payload/iTunesMetadata.plist")
    || equal s (codes "Payload/iTunesArtwork")
    || equal s (codes "Payload/META-INF")
    || has_prefix s (codes "Payload/META-INF/")
    || excluded_parts (split b'/' s)

-- ===== src/Versions/Cache.antt =====
-- cmd/ipadecrypt/versions.go: `loadVersionsCache`, `save` and `loadOrInitVersionsCache`.
-- encoding/json is a parameter, and so is the clock. A nil map is `none`.
pub mod Stable
use ipadecrypt.Outcome.{Outcome, ok, err}
use ipadecrypt.Pipeline.Archive.{IoError}
use ipadecrypt.Prelude.{ℕ, Option, none, some, List, [], ◌∷◌, Bytes}
use ipadecrypt.Versions.Entry.{CachedVersion, reconcile_from_raw}

pub record VersionsCache : Type 0 where
  pub bundle_id : Bytes
  pub updated_at : ℕ
  pub versions : Option (List (Bytes × CachedVersion))

pub record CacheJson : Type 0 where
  pub unmarshal : Bytes → Option VersionsCache
  pub marshal : VersionsCache → Option Bytes

pub data CacheError : Type 0 where
  io : IoError → CacheError
  parse_failed marshal_failed : CacheError

unfoldable pub reconcile_all : List (Bytes × CachedVersion) → List (Bytes × CachedVersion)
reconcile_all [] = []
reconcile_all ((k, v) ∷ m) = (k, reconcile_from_raw v) ∷ reconcile_all m

abbrev pub entries_of : Option (List (Bytes × CachedVersion)) → List (Bytes × CachedVersion)
entries_of none = []
entries_of (some m) = m

unfoldable pub reconciled : VersionsCache → VersionsCache
reconciled c = record c { versions = some (reconcile_all (entries_of c.versions)) }

abbrev pub fresh_cache : VersionsCache
fresh_cache = record { bundle_id = []; updated_at = 0; versions = some [] }

unfoldable pub parse_cache : CacheJson → Bytes → Outcome CacheError VersionsCache
parse_cache json bs = elim (json.unmarshal bs) [
  | none ↦ err parse_failed
  | some c ↦ ok (reconciled c)
]

-- `read` is an error of the read other than that there is no file.
unfoldable pub load_versions_cache :
    CacheJson → Option IoError → Option Bytes → Outcome CacheError VersionsCache
load_versions_cache json (some e) file = err (io e)
load_versions_cache json none none = ok fresh_cache
load_versions_cache json none (some bs) = parse_cache json bs

-- `loadOrInitVersionsCache`, behind the path.
unfoldable pub load_or_init : CacheJson → Option IoError → Option Bytes → Bytes → VersionsCache
load_or_init json read file bundle_id = record (or_fresh (load_versions_cache json read file)) {
  bundle_id = bundle_id;
}
  where
    or_fresh : Outcome CacheError VersionsCache → VersionsCache
    or_fresh (ok c) = record c { versions = some (entries_of c.versions) }
    or_fresh (err e) = fresh_cache
    or_fresh Outcome.panic = fresh_cache

-- The cache's file and its temporary file.
pub record CacheDisk : Type 0 where
  pub file : Option Bytes
  pub tmp : Option Bytes

-- A write that fails has written `part`.
pub record SaveFaults : Type 0 where
  pub mkdir : Option IoError
  pub open_tmp : Option IoError
  pub write : Option IoError
  pub part : Bytes
  pub sync : Option IoError
  pub close : Option IoError
  pub rename : Option IoError

pub record Saved : Type 0 where
  pub disk : CacheDisk
  pub error : Option CacheError

-- A step that can fail, on the disk that it leaves then.
abbrev pub unless_fails : Option IoError → CacheDisk → Saved → Saved
unless_fails none d rest = rest
unless_fails (some e) d rest = record { disk = d; error = some (io e) }

unfoldable pub write_cache : SaveFaults → Bytes → CacheDisk → Saved
write_cache faults bs d =
    let part : CacheDisk = record d { tmp = some faults.part } in
    let whole : CacheDisk = record d { tmp = some bs } in
    unless_fails faults.mkdir d (
      unless_fails faults.open_tmp d (
        unless_fails faults.write part (
          unless_fails faults.sync whole (
            unless_fails faults.close whole (
              unless_fails faults.rename whole
                (record { disk = record { file = some bs; tmp = none }; error = none }))))))

-- `save` at the time `now`.
unfoldable pub save_cache : CacheJson → SaveFaults → ℕ → VersionsCache → CacheDisk → Saved
save_cache json faults now c d = elim (json.marshal (record c { updated_at = now })) [
  | none ↦ record { disk = d; error = some marshal_failed }
  | some bs ↦ write_cache faults bs d
]

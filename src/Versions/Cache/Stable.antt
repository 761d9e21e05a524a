-- ===== src/Versions/Cache/Stable.antt =====
-- A cache that was loaded, changed and saved is loaded again as it was saved, and a save that fails
-- keeps the file.
use ipadecrypt.Prelude.{ℕ, ◌≡◌, ◌⊎◌, none, some, List, [], ◌∷◌, Bytes}
use ipadecrypt.Versions.Cache.{
  VersionsCache, CacheJson, reconcile_all, entries_of, CacheDisk, Saved,
}
use ipadecrypt.Versions.Entry.{CachedVersion}
use ipadecrypt.Versions.Screen.{put_entry}

-- The file is the old one or the new one; without an error it is the new one.
abbrev Keeps : Bytes → CacheDisk → Saved → Type 0
Keeps bs d r =
    ((r.disk.file ≡ d.file) ⊎ (r.disk.file ≡ some bs)) × (r.error ≡ none → r.disk.file ≡ some bs)

-- Entries put into a cache one after the other, each under its id.
abbrev pub put_entries :
    List (Bytes × CachedVersion) → List (Bytes × CachedVersion) → List (Bytes × CachedVersion)
put_entries [] m = m
put_entries ((k, v) ∷ fetched) m = put_entries fetched (put_entry k v m)

abbrev pub fill_all :
    (CachedVersion → CachedVersion) → List (Bytes × CachedVersion) → List (Bytes × CachedVersion)
fill_all fill [] = []
fill_all fill ((k, v) ∷ fetched) = (k, fill v) ∷ fill_all fill fetched

-- The cache `c` with fetched entries put in, as a save at the time `now` writes it.
abbrev pub changed : ℕ → List (Bytes × CachedVersion) → VersionsCache → VersionsCache
changed now fetched c = record c {
  updated_at = now;
  versions = some (put_entries fetched (entries_of c.versions));
}

-- The entries of a cache are filled already.
abbrev Settled : VersionsCache → Type 0
Settled c = reconcile_all (entries_of c.versions) ≡ entries_of c.versions

-- What a save of the cache `c` leaves: the file before or the whole of the marshalled cache.
abbrev pub SavedWhole : CacheJson → VersionsCache → CacheDisk → Saved → Type 0
SavedWhole json c d r =
    (r.disk.file ≡ d.file) ⊎ ((bs : Bytes) × (json.marshal c ≡ some bs) × (r.disk.file ≡ some bs))

abbrev Saves : CacheJson → VersionsCache → CacheDisk → Saved → Type 0
Saves json c d r =
    SavedWhole json c d r
    × (r.error ≡ none → (bs : Bytes) × (json.marshal c ≡ some bs) × (r.disk.file ≡ some bs))

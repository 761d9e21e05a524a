-- ===== src/Download/Package/Contents.antt =====
-- What a finished package contains, told without the writer.
use ipadecrypt.Download.Package.{
  Sinf, Metadata, PlistCalls, Packed, with_account, contains, is_info, is_manifest, find_entry,
}
use ipadecrypt.Pipeline.Archive.{Entry, readable}
use ipadecrypt.Prelude.Text.Laws.{equal_iff}
use ipadecrypt.Prelude.Text.{codes, equal, has_suffix, trim_suffix, base}
use ipadecrypt.Prelude.{
  ◌≡◌, refl, ap, ◌∙◌, Bool, true, false, arith, none, some, inl, inr, ◌⊎◌, List, [], ◌∷◌, ◌++◌,
  Bytes, All, Bool-cases, if◌then◌else◌,
}
use ipadecrypt.Versions.Entry.{text, look_up}
use ipadecrypt.Versions.Screen.{put_entry}

-- Every entry with its bytes, in order.
pub data Copied : List Entry → List Packed → Type 0 where
  no_entry : Copied [] []
  one_entry :
      {fs : List Entry} {ws : List Packed} (f : Entry) (bs : Bytes)
      → f.content ≡ readable bs
      → Copied fs ws
      → Copied (f ∷ fs) (record { name = f.name; content = bs } ∷ ws)

-- The first entry whose name has the property.
pub record First (P : Bytes → Type 0) (f : Entry) (fs : List Entry) : Type 0 where
  pub before : List Entry
  pub after : List Entry
  pub split : fs ≡ before ++ f ∷ after
  pub none_before : All (λ g. ¬ P g.name) before
  pub here : P f.name

-- An Info.plist of an app that is no watch app, and the manifest of sinfs.
abbrev pub IsInfo : Bytes → Type 0
IsInfo name =
    (contains name (codes ".app/Info.plist") ≡ true) × (contains name (codes "/Watch/") ≡ false)

abbrev pub IsManifest : Bytes → Type 0
IsManifest name = has_suffix name (codes ".app/SC_Info/Manifest.plist") ≡ true

-- The sinfs at the manifest's paths below the app, one at each.
pub data AtPaths (bundle : Bytes) : List Bytes → List Sinf → List Packed → Type 0 where
  no_path : AtPaths bundle [] [] []
  one_path :
      {ps : List Bytes} {ss : List Sinf} {ws : List Packed} (p : Bytes) (s : Sinf)
      → AtPaths bundle ps ss ws
      → AtPaths bundle (p ∷ ps) (s ∷ ss) (
          record { name = codes "Payload/" ++ (bundle ++ (codes ".app/" ++ p)); content = s.blob }
          ∷ ws)

-- The sinfs as they are added: by the manifest where there is one, else the first, named for the
-- executable.
pub data Sinfs (plist : PlistCalls) (fs : List Entry) (bundle : Bytes) (sinfs : List Sinf)
    (ws : List Packed) : Type 0 where
  by_manifest :
      (f : Entry) (bs : Bytes) (paths : List Bytes)
      → First IsManifest f fs
      → f.content ≡ readable bs
      → plist.sinf_paths bs ≡ some paths
      → AtPaths bundle paths sinfs ws
      → Sinfs plist fs bundle sinfs ws
  by_executable :
      (f : Entry) (bs exe : Bytes) (s : Sinf) (more : List Sinf)
      → All (λ g. ¬ IsManifest g.name) fs
      → First IsInfo f fs
      → f.content ≡ readable bs
      → plist.executable bs ≡ some exe
      → sinfs ≡ s ∷ more
      → ws
        ≡ record {
          name = codes "Payload/" ++ (bundle ++ (codes ".app/SC_Info/" ++ (exe ++ codes ".sinf")));
          content = s.blob;
        }
          ∷ []
      → Sinfs plist fs bundle sinfs ws

-- The metadata with the account's two keys.
pub record HasAccount (email : Bytes) (m m' : Metadata) : Type 0 where
  pub apple_id : look_up (codes "apple-id") m' ≡ some (text email)
  pub user_name : look_up (codes "userName") m' ≡ some (text email)
  pub others :
      (k : Bytes)
      → equal (codes "apple-id") k ≡ false
      → equal (codes "userName") k ≡ false
      → look_up k m' ≡ look_up k m

-- The package of the entries `fs`: these, then the metadata, then the sinfs.
pub record IsPackage (plist : PlistCalls) (email : Bytes) (metadata : Metadata) (sinfs : List Sinf)
    (fs : List Entry) (ws : List Packed) : Type 0 where
  pub copies : List Packed
  pub copied : Copied fs copies
  pub marked : Metadata
  pub account : HasAccount email metadata marked
  pub metadata_bytes : Bytes
  pub marshalled : plist.marshal marked ≡ some metadata_bytes
  pub info : Entry
  pub first_info : First IsInfo info fs
  pub sinf_entries : List Packed
  pub added :
      Sinfs plist fs (base (trim_suffix info.name (codes ".app/Info.plist"))) sinfs sinf_entries
  pub contents :
      ws
      ≡ copies
        ++ record { name = codes "iTunesMetadata.plist"; content = metadata_bytes } ∷ sinf_entries

pub look_up-put_entry {ℓ} :
    {A : Type ℓ} (k j : Bytes) (v : A) (m : List (Bytes × A))
    → look_up j (put_entry k v m) ≡ (if equal k j then some v else look_up j m)
unfolding look_up put_entry
look_up-put_entry k j v [] = refl
look_up-put_entry k j v ((i, w) ∷ m) =
    ground (arith, equal_iff k j, equal_iff i k, equal_iff i j, look_up-put_entry k j v m)

pub with_account-HasAccount :
    (email : Bytes) (m : Metadata) → HasAccount email m (with_account email m)
unfolding with_account equal
with_account-HasAccount email m =
    let inner = put_entry (codes "apple-id") (text email) m in
    record {
      apple_id =
          look_up-put_entry (codes "userName") (codes "apple-id") (text email) inner
          ∙ look_up-put_entry (codes "apple-id") (codes "apple-id") (text email) m;
      user_name = look_up-put_entry (codes "userName") (codes "userName") (text email) inner;
      others = λ k a u.
          rw
            (
              look_up-put_entry (codes "userName") k (text email) inner,
              u,
              look_up-put_entry (codes "apple-id") k (text email) m,
              a,
            )
            refl;
    }

pub find_entry-cases :
    (P : Bytes → Type 0) (p : Bytes → Bool) (fs : List Entry)
    → ((name : Bytes) → p name ≡ true → P name)
    → ((name : Bytes) → p name ≡ false → ¬ P name)
    → ((find_entry p fs ≡ none) × All (λ g. ¬ P g.name) fs)
      ⊎ ((f : Entry) × (find_entry p fs ≡ some f) × First P f fs)
unfolding find_entry
find_entry-cases P p [] hits misses = inl (refl, tt)
find_entry-cases P p (f ∷ fs) hits misses = elim (Bool-cases (p f.name)) [
  | inl hit ↦ inr (
    f,
    rw hit refl,
    record { before = []; after = fs; split = refl; none_before = tt; here = hits f.name hit },
  )
  | inr miss ↦ elim (find_entry-cases P p fs hits misses) [
    | inl (e, rest) ↦ inl (rw miss e, (misses f.name miss, rest))
    | inr (g, e, first) ↦ inr (
      g,
      rw miss e,
      record {
        before = f ∷ first.before;
        after = first.after;
        split = ap (◌∷◌ f) first.split;
        none_before = (misses f.name miss, first.none_before);
        here = first.here;
      },
    )
  ]
]

pub is_info-cases :
    (fs : List Entry)
    → ((find_entry is_info fs ≡ none) × All (λ g. ¬ IsInfo g.name) fs)
      ⊎ ((f : Entry) × (find_entry is_info fs ≡ some f) × First IsInfo f fs)
is_info-cases fs = find_entry-cases IsInfo is_info fs hits misses
  where
    hits : (name : Bytes) → is_info name ≡ true → IsInfo name
    hits name h = unfold is_info in (ground (arith, h), ground (arith, h))

    misses : (name : Bytes) → is_info name ≡ false → ¬ IsInfo name
    misses name h = λ (p, w). unfold is_info in ground (arith, h, p, w)

pub is_manifest-cases :
    (fs : List Entry)
    → ((find_entry is_manifest fs ≡ none) × All (λ g. ¬ IsManifest g.name) fs)
      ⊎ ((f : Entry) × (find_entry is_manifest fs ≡ some f) × First IsManifest f fs)
is_manifest-cases fs = find_entry-cases IsManifest is_manifest fs hits misses
  where
    hits : (name : Bytes) → is_manifest name ≡ true → IsManifest name
    hits name h = unfold is_manifest in ground (arith, h)

    misses : (name : Bytes) → is_manifest name ≡ false → ¬ IsManifest name
    misses name h = λ p. unfold is_manifest in ground (arith, h, p)

-- ===== src/Download/Package/Written.antt =====
-- What the writer has written where it did not break off.
use ipadecrypt.Download.Package.Contents.{
  Copied, no_entry, one_entry, AtPaths, no_path, one_path, Sinfs, by_manifest, by_executable,
  IsPackage, with_account-HasAccount, is_info-cases, is_manifest-cases, First, IsInfo, IsManifest,
}
use ipadecrypt.Download.Package.{
  Sinf, Metadata, PlistCalls, PackageError, Packed, Progress, going, halted, and_then, WriteFaults,
  write_one, copy_zip_entry, copy_all, with_account, write_metadata_entry, read_bundle_name,
  write_sinfs, replicate_sinfs, write_first_sinf, with_plist, without_manifest, inject_sinfs,
  inject, write_package,
}
use ipadecrypt.Pipeline.Archive.{Content, Entry, unopenable, readable, broken}
use ipadecrypt.Prelude.Text.{codes, trim_suffix, base}
use ipadecrypt.Prelude.{
  ◌≡◌, refl, ap, ◌∙◌, sym, arith, Option, some, Option-cases, inl, inr, List, [], ◌∷◌, ◌++◌, length,
  ◌==◌, Bytes, All, Bool-cases, append_assoc, append-nil,
}

and_then-inv :
    (p : Progress) (next : List Packed → Progress) (ws : List Packed)
    → and_then p next ≡ going ws
    → (mid : List Packed) × (p ≡ going mid) × (next mid ≡ going ws)
and_then-inv (going mid) next ws h = (mid, refl, h)
and_then-inv (halted mid e) next ws h = absurd (ground arith)

going_inj : {xs ys : List Packed} → going xs ≡ going ys → xs ≡ ys
going_inj e = cc

write_one-inv :
    (faults : WriteFaults) (name bs : Bytes) (ws ws' : List Packed)
    → write_one faults name bs ws ≡ going ws'
    → ws' ≡ ws ++ record { name = name; content = bs } ∷ []
unfolding write_one
write_one-inv faults name bs ws ws' h = elim (Option-cases (faults (length ws))) [
  | inl e ↦ sym (going_inj (rw (e, write_one) at h))
  | inr (x, e) ↦ absurd (ground (arith, e, h))
]

copy_zip_entry-inv :
    (faults : WriteFaults) (f : Entry) (c : Content) (ws ws' : List Packed)
    → f.content ≡ c
    → copy_zip_entry faults f ws ≡ going ws'
    → (bs : Bytes) × (f.content ≡ readable bs)
      × (ws' ≡ ws ++ record { name = f.name; content = bs } ∷ [])
unfolding copy_zip_entry
copy_zip_entry-inv faults f (unopenable x) ws ws' e h = absurd (ground (arith, e, h))
copy_zip_entry-inv faults f (broken bs x) ws ws' e h = absurd (ground (arith, e, h))
copy_zip_entry-inv faults f (readable bs) ws ws' e h =
    (bs, e, write_one-inv faults f.name bs ws ws' (rw e at h))

-- Behind `ws`, the entries.
copy_all-inv :
    (faults : WriteFaults) (fs : List Entry) (ws ws' : List Packed)
    → copy_all faults fs ws ≡ going ws'
    → (cs : List Packed) × Copied fs cs × (ws' ≡ ws ++ cs)
unfolding copy_all
copy_all-inv faults [] ws ws' h = ([], no_entry, sym (going_inj h) ∙ sym (append-nil ws))
copy_all-inv faults (f ∷ fs) ws ws' h =
    let (mid, first, others) =
      and_then-inv (copy_zip_entry faults f ws) (λ m. copy_all faults fs m) ws' h in
    let (bs, there, grown) = copy_zip_entry-inv faults f f.content ws mid refl first in
    let (cs, copied, behind) = copy_all-inv faults fs mid ws' others in
    let one : Packed = record { name = f.name; content = bs } in
    (
      one ∷ cs,
      one_entry f bs there copied,
      behind ∙ ap (λ m. m ++ cs) grown ∙ append_assoc ws (one ∷ []) cs,
    )

write_sinfs-inv :
    (faults : WriteFaults) (bundle : Bytes) (paths : List Bytes) (sinfs : List Sinf)
    (ws ws' : List Packed)
    → length sinfs ≡ length paths
    → write_sinfs faults bundle paths sinfs ws ≡ going ws'
    → (cs : List Packed) × AtPaths bundle paths sinfs cs × (ws' ≡ ws ++ cs)
unfolding write_sinfs
write_sinfs-inv faults bundle [] [] ws ws' n h =
    ([], no_path, sym (going_inj h) ∙ sym (append-nil ws))
write_sinfs-inv faults bundle [] (s ∷ sinfs) ws ws' n h = absurd (ground arith)
write_sinfs-inv faults bundle (p ∷ ps) [] ws ws' n h = absurd (ground arith)
write_sinfs-inv faults bundle (p ∷ ps) (s ∷ sinfs) ws ws' n h =
    let name = codes "Payload/" ++ (bundle ++ (codes ".app/" ++ p)) in
    let (mid, first, others) =
      and_then-inv (write_one faults name s.blob ws) (λ m. write_sinfs faults bundle ps sinfs m) ws'
        h in
    let grown = write_one-inv faults name s.blob ws mid first in
    let (cs, at, behind) =
      write_sinfs-inv faults bundle ps sinfs mid ws' (ground (arith, n)) others in
    let one : Packed = record { name = name; content = s.blob } in
    (one ∷ cs, one_path p s at, behind ∙ ap (λ m. m ++ cs) grown ∙ append_assoc ws (one ∷ []) cs)

replicate_sinfs-inv :
    (faults : WriteFaults) (bundle : Bytes) (paths : List Bytes) (sinfs : List Sinf)
    (ws ws' : List Packed)
    → replicate_sinfs faults bundle paths sinfs ws ≡ going ws'
    → (cs : List Packed) × AtPaths bundle paths sinfs cs × (ws' ≡ ws ++ cs)
unfolding replicate_sinfs
replicate_sinfs-inv faults bundle paths sinfs ws ws' h =
    elim (Bool-cases (length sinfs == length paths)) [
      | inl same ↦
          write_sinfs-inv faults bundle paths sinfs ws ws' (ground (arith, same)) (rw same at h)
      | inr other ↦ absurd (ground (arith, other, h))
    ]

with_plist-inv {ℓ} :
    {A : Type ℓ} (c : Content) (parse : Bytes → Option A) (bad : PackageError)
    (ws ws' : List Packed) (next : A → Progress)
    → with_plist c parse bad ws next ≡ going ws'
    → (bs : Bytes) × (a : A) × (c ≡ readable bs) × (parse bs ≡ some a) × (next a ≡ going ws')
unfolding with_plist
with_plist-inv (unopenable x) parse bad ws ws' next h = absurd (ground arith)
with_plist-inv (broken bs x) parse bad ws ws' next h = absurd (ground arith)
with_plist-inv (readable bs) parse bad ws ws' next h = elim (Option-cases (parse bs)) [
  | inl e ↦ absurd (ground (arith, e, h))
  | inr (a, e) ↦ (bs, a, refl, e, rw (e, with_plist) at h)
]

module _ (plist : PlistCalls) (faults : WriteFaults) (fs : List Entry) (sinfs : List Sinf) where
  -- Behind `ws`, the sinfs.
  abbrev Added : Bytes → List Packed → List Packed → Type 0
  Added bundle ws ws' = (cs : List Packed) × Sinfs plist fs bundle sinfs cs × (ws' ≡ ws ++ cs)

  write_first_sinf-inv :
      (bundle exe : Bytes) (ss : List Sinf) (ws ws' : List Packed)
      → write_first_sinf faults bundle exe ss ws ≡ going ws'
      → (s : Sinf) × (more : List Sinf) × (ss ≡ s ∷ more)
        × (ws'
            ≡ ws
              ++ record {
                name =
                    codes "Payload/"
                    ++ (bundle ++ (codes ".app/SC_Info/" ++ (exe ++ codes ".sinf")));
                content = s.blob;
              }
                ∷ [])
  unfolding write_first_sinf
  write_first_sinf-inv bundle exe [] ws ws' h = absurd (ground arith)
  write_first_sinf-inv bundle exe (s ∷ more) ws ws' h =
      (s, more, refl, write_one-inv faults _ s.blob ws ws' h)

  without_manifest-inv :
      (bundle : Bytes) (ws ws' : List Packed)
      → All (λ g. ¬ IsManifest g.name) fs
      → without_manifest plist faults bundle fs sinfs ws ≡ going ws'
      → Added bundle ws ws'
  unfolding without_manifest
  without_manifest-inv bundle ws ws' nowhere h = elim (is_info-cases fs) [
    | inl (e, _) ↦ absurd (ground (arith, e, h))
    | inr (f, e, first) ↦
        let (bs, exe, there, parsed, run) =
          with_plist-inv f.content plist.executable _ ws ws' _ (rw (e, without_manifest) at h) in
        let (s, more, split, grown) = write_first_sinf-inv bundle exe sinfs ws ws' run in
        (_, by_executable f bs exe s more nowhere first there parsed split refl, grown)
  ]

  inject_sinfs-inv :
      (bundle : Bytes) (ws ws' : List Packed)
      → inject_sinfs plist faults bundle fs sinfs ws ≡ going ws'
      → Added bundle ws ws'
  unfolding inject_sinfs
  inject_sinfs-inv bundle ws ws' h = elim (is_manifest-cases fs) [
    | inl (e, nowhere) ↦ without_manifest-inv bundle ws ws' nowhere (rw (e, inject_sinfs) at h)
    | inr (f, e, first) ↦
        let (bs, paths, there, parsed, run) =
          with_plist-inv f.content plist.sinf_paths _ ws ws' _ (rw (e, inject_sinfs) at h) in
        let (cs, at, grown) = replicate_sinfs-inv faults bundle paths sinfs ws ws' run in
        (cs, by_manifest f bs paths first there parsed at, grown)
  ]

  inject-inv :
      (ws ws' : List Packed)
      → inject plist faults fs sinfs ws ≡ going ws'
      → (f : Entry) × First IsInfo f fs
        × Added (base (trim_suffix f.name (codes ".app/Info.plist"))) ws ws'
  unfolding inject read_bundle_name
  inject-inv ws ws' h = elim (is_info-cases fs) [
    | inl (e, _) ↦ absurd (ground (arith, e, h))
    | inr (f, e, first) ↦
        (f, first, inject_sinfs-inv _ ws ws' (rw (e, inject, read_bundle_name) at h))
  ]

  write_metadata_entry-inv :
      (metadata : Metadata) (email : Bytes) (ws ws' : List Packed)
      → write_metadata_entry plist faults metadata email ws ≡ going ws'
      → (bs : Bytes) × (plist.marshal (with_account email metadata) ≡ some bs)
        × (ws' ≡ ws ++ record { name = codes "iTunesMetadata.plist"; content = bs } ∷ [])
  unfolding write_metadata_entry
  write_metadata_entry-inv metadata email ws ws' h =
      elim (Option-cases (plist.marshal (with_account email metadata))) [
        | inl e ↦ absurd (ground (arith, e, h))
        | inr (bs, e) ↦
            (bs, e, write_one-inv faults _ bs ws ws' (rw (e, write_metadata_entry) at h))
      ]

  pub write_package-inv :
      (metadata : Metadata) (email : Bytes) (ws : List Packed)
      → write_package plist faults fs metadata sinfs email ≡ going ws
      → IsPackage plist email metadata sinfs fs ws
  unfolding write_package
  write_package-inv metadata email ws h =
      let (m, first, behind) = and_then-inv (copy_all faults fs []) _ ws h in
      let (m', second, third) =
        and_then-inv (write_metadata_entry plist faults metadata email m) _ ws behind in
      let (cs, copied, a) = copy_all-inv faults fs [] m first in
      let (bs, marshalled, b) = write_metadata_entry-inv metadata email m m' second in
      let (f, first_info, (ss, added, c)) = inject-inv m' ws third in
      let data_entry : Packed = record { name = codes "iTunesMetadata.plist"; content = bs } in
      record {
        copies = cs;
        copied = copied;
        marked = with_account email metadata;
        account = with_account-HasAccount email metadata;
        metadata_bytes = bs;
        marshalled = marshalled;
        info = f;
        first_info = first_info;
        sinf_entries = ss;
        added = added;
        contents =
            c
            ∙ ap (λ k. k ++ ss) (b ∙ ap (λ k. k ++ data_entry ∷ []) a)
            ∙ append_assoc cs (data_entry ∷ []) ss;
      }

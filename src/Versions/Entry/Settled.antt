-- ===== src/Versions/Entry/Settled.antt =====
-- Filling an entry from `Raw` once is enough.
use ipadecrypt.Prelude.{
  ◌≡◌, ◌≢◌, refl, ap, ◌∙◌, sym, subst, none, some, Option-cases, inl, inr, List, [], ◌∷◌, Bytes,
  arith,
}
use ipadecrypt.Prelude.Int.{ℤ}
use ipadecrypt.Prelude.Text.{codes}
use ipadecrypt.Versions.Entry.{
  RawValue, Raw, text_or_blank, CachedVersion, fill_from, text_at, numbers_at, fill_text,
  fill_numbers, reconcile_from_raw, look_up, text, items, numbers, RawItem,
}

fill_text-fill_text :
    (s k : Bytes) (m : List (Bytes × RawValue)) → fill_text (fill_text s k m) k m ≡ fill_text s k m
unfolding fill_text
fill_text-fill_text (c ∷ s) k m = refl
fill_text-fill_text [] k m = kept (text_or_blank (text_at k m)) refl
  where
    kept : (s : Bytes) → text_or_blank (text_at k m) ≡ s → fill_text s k m ≡ s
    kept [] e = e
    kept (c ∷ s) e = refl

fill_numbers-fill_numbers :
    (ns : List ℤ) (k : Bytes) (m : List (Bytes × RawValue))
    → fill_numbers (fill_numbers ns k m) k m ≡ fill_numbers ns k m
unfolding fill_numbers
fill_numbers-fill_numbers (n ∷ ns) k m = refl
fill_numbers-fill_numbers [] k m = kept (numbers_at k m) refl
  where
    kept : (ns : List ℤ) → numbers_at k m ≡ ns → fill_numbers ns k m ≡ ns
    kept [] e = e
    kept (n ∷ ns) e = refl

fill_from-raw : (r : Raw) (v : CachedVersion) → (fill_from r v).raw ≡ v.raw
unfolding fill_from
fill_from-raw none v = refl
fill_from-raw (some m) v = refl

fill_from-fill_from : (r : Raw) (v : CachedVersion) → fill_from r (fill_from r v) ≡ fill_from r v
unfolding fill_from
fill_from-fill_from none v = refl
fill_from-fill_from (some m) v = ground (
  arith,
  fill_text-fill_text v.display_version (codes "bundleShortVersionString") m,
  fill_text-fill_text v.bundle_version (codes "bundleVersion") m,
  fill_numbers-fill_numbers v.supported_devices (codes "softwareSupportedDeviceIds") m,
)

-- An entry that was filled from its `Raw` is not changed by filling it again, whatever `Raw` holds,
-- so that a cache that is written and read again keeps its entries.
pub reconcile_from_raw_twice :
    (v : CachedVersion) → reconcile_from_raw (reconcile_from_raw v) ≡ reconcile_from_raw v
unfolding reconcile_from_raw
reconcile_from_raw_twice v =
    ap (λ r. fill_from r (fill_from v.raw v)) (fill_from-raw v.raw v) ∙ fill_from-fill_from v.raw v

-- The entry `v'` is `v` with the fields that were empty taken from `Raw`, where that has them; all
-- else is as it was.
pub record Filled (v v' : CachedVersion) : Type 0 where
  pub display_kept : v.display_version ≢ [] → v'.display_version ≡ v.display_version
  pub display_filled :
      (m : List (Bytes × RawValue)) (s : Bytes)
      → v.display_version ≡ []
      → v.raw ≡ some m
      → look_up (codes "bundleShortVersionString") m ≡ some (text s)
      → v'.display_version ≡ s
  pub bundle_kept : v.bundle_version ≢ [] → v'.bundle_version ≡ v.bundle_version
  pub bundle_filled :
      (m : List (Bytes × RawValue)) (s : Bytes)
      → v.bundle_version ≡ []
      → v.raw ≡ some m
      → look_up (codes "bundleVersion") m ≡ some (text s)
      → v'.bundle_version ≡ s
  pub devices_kept : v.supported_devices ≢ [] → v'.supported_devices ≡ v.supported_devices
  pub devices_filled :
      (m : List (Bytes × RawValue)) (xs : List RawItem)
      → v.supported_devices ≡ []
      → v.raw ≡ some m
      → look_up (codes "softwareSupportedDeviceIds") m ≡ some (items xs)
      → v'.supported_devices ≡ numbers xs
  pub no_raw : v.raw ≡ none → v' ≡ v
  pub others :
      (v'.fetched_at ≡ v.fetched_at)
      × (v'.minimum_os_version ≡ v.minimum_os_version)
      × (v'.release_date ≡ v.release_date)
      × (v'.raw ≡ v.raw)

fill_text_kept : (s k : Bytes) (m : List (Bytes × RawValue)) → s ≢ [] → fill_text s k m ≡ s
unfolding fill_text
fill_text_kept [] k m h = absurd (h refl)
fill_text_kept (c ∷ s) k m h = refl

fill_numbers_kept :
    (ns : List ℤ) (k : Bytes) (m : List (Bytes × RawValue)) → ns ≢ [] → fill_numbers ns k m ≡ ns
unfolding fill_numbers
fill_numbers_kept [] k m h = absurd (h refl)
fill_numbers_kept (n ∷ ns) k m h = refl

fill_from-Filled :
    (v : CachedVersion) (m : List (Bytes × RawValue))
    → v.raw ≡ some m
    → Filled v (fill_from (some m) v)
unfolding fill_from
fill_from-Filled v m e = record {
  display_kept = λ h. fill_text_kept v.display_version (codes "bundleShortVersionString") m h;
  display_filled = λ m' s b r l.
      let same : m' ≡ m = ground (arith, e, r) in
      unfold fill_text text_at text_or_blank in rw b (ground (arith, same, l));
  bundle_kept = λ h. fill_text_kept v.bundle_version (codes "bundleVersion") m h;
  bundle_filled = λ m' s b r l.
      let same : m' ≡ m = ground (arith, e, r) in
      unfold fill_text text_at text_or_blank in rw b (ground (arith, same, l));
  devices_kept =
      λ h. fill_numbers_kept v.supported_devices (codes "softwareSupportedDeviceIds") m h;
  devices_filled = λ m' xs b r l.
      let same : m' ≡ m = ground (arith, e, r) in
      unfold fill_numbers numbers_at in rw b (ground (arith, same, l));
  no_raw = λ r. absurd (ground (arith, e, r));
  others = (refl, refl, refl, refl);
}

-- `reconcileFromRaw` fills the empty fields of an entry from its `Raw`, and no other.
pub reconcile_from_raw-Filled : (v : CachedVersion) → Filled v (reconcile_from_raw v)
reconcile_from_raw-Filled v = elim (Option-cases v.raw) [
  | inl e ↦
      let same : reconcile_from_raw v ≡ v =
        unfold reconcile_from_raw in unfold fill_from in ground (arith, e) in
      record {
        display_kept = λ h. ap (λ w. w.display_version) same;
        display_filled = λ m s b r l. absurd (ground (arith, e, r));
        bundle_kept = λ h. ap (λ w. w.bundle_version) same;
        bundle_filled = λ m s b r l. absurd (ground (arith, e, r));
        devices_kept = λ h. ap (λ w. w.supported_devices) same;
        devices_filled = λ m xs b r l. absurd (ground (arith, e, r));
        no_raw = λ r. same;
        others = (
          ap (λ w. w.fetched_at) same,
          ap (λ w. w.minimum_os_version) same,
          ap (λ w. w.release_date) same,
          ap (λ w. w.raw) same,
        );
      }
  | inr (m, e) ↦ subst (Filled v) (sym (by_raw e)) (fill_from-Filled v m e)
]
  where
    by_raw :
        {m : List (Bytes × RawValue)} → v.raw ≡ some m → reconcile_from_raw v ≡ fill_from (some m) v
    by_raw e = unfold reconcile_from_raw in ap (λ r. fill_from r v) e

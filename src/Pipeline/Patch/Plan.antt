-- ===== src/Pipeline/Patch/Plan.antt =====
-- What the changed Info.plist says.
use ipadecrypt.Outcome.{ok, >>=-eq-ok, Outcome-cases}
use ipadecrypt.Pipeline.Archive.{readable, read_all}
use ipadecrypt.Pipeline.Patch.{
  Dict, get, get_text, PlistPlan, read_device_family, min_os_key, family_key, is_empty, Draft,
  lower_min_os, expand_family, Plist, empty_plan, finish_plan, plan_info_plist,
}
use ipadecrypt.Pipeline.Version.Order.{IsPlainPart}
use ipadecrypt.Prelude.Int.{ℤ}
use ipadecrypt.Prelude.Text.{equal, split}
use ipadecrypt.Prelude.{
  ℕ, ◌≡◌, refl, sym, subst, Bool, true, false, arith, none, some, [], ◌∷◌, ◌++◌, Bytes, All, inl,
  inr,
}
use ipadecrypt.Pipeline.Patch.Installs.{
  IsInt, IsAbove, families, Lacks, Installs, is_empty-false, is_empty_ne, lower_min_os_others,
  expand_family-Installs,
}

-- What the plan says of the change.
pub record Reports (target : Bytes) (device : ℤ) (m : Dict) (plan : PlistPlan) : Type 0 where
  pub min_os :
      plan.min_os_changed ≡ true → IsAbove target m × (plan.previous_min_os ≡ get_text min_os_key m)
  pub no_min_os : plan.min_os_changed ≡ false → ¬ IsAbove target m
  pub expanded :
      plan.device_family_expanded ≡ true
      → Lacks device m
        × (plan.previous_family ≡ families m)
        × (plan.new_family ≡ families m ++ device ∷ [])
  pub not_expanded : plan.device_family_expanded ≡ false → ¬ Lacks device m

-- The plan of a draft is the untouched one, changed where the code changes it.
draft-Reports :
    (target : Bytes) (device : ℤ) (patch : Bool) (m : Dict) (d : Draft)
    → expand_family device patch
        (lower_min_os target (record { dict = m; plan = empty_plan; dirty = false }))
      ≡ ok d
    → Reports target device m d.plan
unfolding equal
draft-Reports target device patch m d e = record {
  min_os = λ h.
      let set : is_empty current ≡ false =
        unfold expand_family lower_min_os in ground (arith, e, h) in
      (
        (is_empty_ne current set, unfold expand_family lower_min_os in ground (arith, e, h)),
        unfold expand_family lower_min_os in ground (arith, e, h),
      );
  no_min_os = λ h (set, above).
      let full = is_empty-false current set in
      unfold expand_family lower_min_os in ground (arith, e, h, full, above);
  expanded = λ h.
      let named : is_empty (families m) ≡ false =
        unfold expand_family in ground (arith, e, h, same, unchanged) in
      (
        (
          unfold expand_family in ground (arith, e, h, same, unchanged),
          is_empty_ne (families m) named,
          unfold expand_family in ground (arith, e, h, same, unchanged),
        ),
        unfold expand_family in ground (arith, e, h, same, unchanged),
        unfold expand_family in ground (arith, e, h, same, unchanged),
      );
  not_expanded = λ h (p, q, r).
      let full = is_empty-false (families m) q in
      unfold expand_family in ground (arith, e, h, same, unchanged, p, full, r);
}
  where
    d0 : Draft
    d0 = record { dict = m; plan = empty_plan; dirty = false }

    current : Bytes
    current = get_text min_os_key m

    same : get family_key (lower_min_os target d0).dict ≡ get family_key m
    same = lower_min_os_others target d0 family_key refl

    unchanged : (lower_min_os target d0).plan.device_family_expanded ≡ false
    unchanged = unfold lower_min_os in ground arith

finish_plan_keeps :
    (plist : Plist) (format : ℕ) (d : Draft) (plan : PlistPlan)
    → finish_plan plist format d ≡ ok plan
    → plan ≡ record d.plan { content = plan.content }
unfolding finish_plan
finish_plan_keeps plist format d plan e = elim (Outcome-cases (plist.marshal d.dict format)) [
  | inl (w, h) ↦ ground (arith, h)
  | inr (inl (x, h)) ↦ ground (arith, h)
  | inr (inr h) ↦ ground (arith, h)
]

-- What the plan of an Info.plist that reads as the map `m` rewrites it to, if anything.
pub record Rewrites (plist : Plist) (m : Dict) (format : ℕ) (target : Bytes) (device : ℤ)
    (plan : PlistPlan) : Type 0 where
  pub m' : Dict
  pub installs : Installs target device m m'
  pub reports : Reports target device m plan
  pub unchanged : plan.content ≡ none → m' ≡ m
  pub marshalled : (bs : Bytes) → plan.content ≡ some bs → plist.marshal m' format ≡ ok bs

-- A draft that is not dirty has the map that was read.
expand_clean :
    (target : Bytes) (device : ℤ) (patch : Bool) (m : Dict) (d : Draft)
    → expand_family device patch
        (lower_min_os target (record { dict = m; plan = empty_plan; dirty = false }))
      ≡ ok d
    → (d.dirty ≡ false → d.dict ≡ m) × (d.plan.content ≡ none)
unfolding expand_family lower_min_os
expand_clean target device patch m d e = (λ clean. ground arith, ground arith)

finish_plan_lem :
    (plist : Plist) (format : ℕ) (d : Draft) (plan : PlistPlan)
    → d.plan.content ≡ none
    → finish_plan plist format d ≡ ok plan
    → (plan.content ≡ none → d.dirty ≡ false)
      × ((bs : Bytes) → plan.content ≡ some bs → plist.marshal d.dict format ≡ ok bs)
unfolding finish_plan
finish_plan_lem plist format d plan clean e = elim (Outcome-cases (plist.marshal d.dict format)) [
  | inl (w, h) ↦ (λ c. ground (arith, h), λ bs c. ground (arith, h))
  | inr (inl (x, h)) ↦ (λ c. ground (arith, h), λ bs c. ground (arith, h))
  | inr (inr h) ↦ (λ c. ground (arith, h), λ bs c. ground (arith, h))
]

-- A plan that `planInfoPlist` makes of a readable Info.plist stands for a property list that lets
-- the app install: the minimum version is the target exactly where it was set and above it, and the
-- device's family stands behind the others exactly where some were named without it; each of the two
-- keys is otherwise as it was, and so is every other key. The plan reports just these changes, with
-- the version and the families before them, and its content is the marshalled list, or none where
-- nothing has changed. The target's parts are numbers from 0 to 2 ^ 63 - 1 and the families are
-- ints.
pub plan_info_plist-Rewrites :
    (plist : Plist) (raw : Bytes) (m : Dict) (format : ℕ) (target : Bytes) (device : ℤ)
    (patch : Bool) (plan : PlistPlan)
    → All IsPlainPart (split b'.' target)
    → IsInt device
    → All IsInt (read_device_family (get family_key m))
    → plist.unmarshal raw ≡ some (m, format)
    → plan_info_plist plist (readable raw) target device patch ≡ ok plan
    → Rewrites plist m format target device plan
unfolding plan_info_plist read_all
plan_info_plist-Rewrites plist raw m format target device patch plan plain dev ints u e =
    let d0 : Draft = record { dict = m; plan = empty_plan; dirty = false } in
    let (d, drafted, finished) =
      >>=-eq-ok (expand_family device patch (lower_min_os target d0)) (finish_plan plist format)
        (rw u at e) in
    let clean = expand_clean target device patch m d drafted in
    let done = finish_plan_lem plist format d plan clean.1 finished in
    record {
      m' = d.dict;
      installs = expand_family-Installs target device patch d0 d plain dev ints drafted;
      reports =
          subst (Reports target device m) (sym (finish_plan_keeps plist format d plan finished)) (
            let r = draft-Reports target device patch m d drafted in
            record {
              min_os = r.min_os;
              no_min_os = r.no_min_os;
              expanded = r.expanded;
              not_expanded = r.not_expanded;
            });
      unchanged = λ c. clean.0 (done.0 c);
      marshalled = λ bs c. done.1 bs c;
    }

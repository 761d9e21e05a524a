-- ===== src/Pipeline/Install/Filtered.antt =====
-- The archive that `PatchForInstall` writes.
use ipadecrypt.Pipeline.Install.Described.{
  watch_count, InstalledFrom, no_info, with_info, info-cases, find_plist-none, find_plist_here,
  filtered, filtered-none, filtered_here,
}
use ipadecrypt.Outcome.{Outcome, ok, err, panic}
use ipadecrypt.Pipeline.Archive.{IoError, Entry, archive}
use ipadecrypt.Pipeline.Assemble.{OutEntry}
use ipadecrypt.Pipeline.Install.{
  PatchResult, Faults, patched, failed, find_plist, is_at, out_entry, Written, written,
  write_failed, patch_entries, result_of, close_patched, write_patched, plan_of, with_plan,
  patch_for_install,
}
use ipadecrypt.Pipeline.Patch.{PatchError, Plist, PlistPlan, empty_plan}
use ipadecrypt.Prelude.Int.{ℤ}
use ipadecrypt.Prelude.{
  ℕ, ◌+◌, ◌≡◌, refl, ap, ◌∙◌, Bool, arith, Option, none, some, sym, length, List, [], ◌∷◌, ◌++◌,
  Bytes, Option-cases, inl, inr, append-nil, append_assoc,
}

patch_entries_exact :
    (faults : Entry → Option IoError) (keep_watch : Bool) (info : Option (ℕ × Entry))
    (content : Option Bytes) (i : ℕ) (out : List OutEntry) (removed : ℕ) (fs : List Entry)
    (out' : List OutEntry) (n : ℕ)
    → patch_entries faults keep_watch info content i out removed fs ≡ written out' n
    → (out' ≡ out ++ filtered keep_watch info content i fs)
      × (n ≡ removed + watch_count keep_watch fs)
unfolding patch_entries filtered watch_count
patch_entries_exact faults keep_watch info content i out removed [] out' n e =
    rw append-nil (ground arith)
patch_entries_exact faults keep_watch info content i out removed (f ∷ fs) out' n e =
    let one = out_entry (is_at info i) content f in
    ground (
      arith,
      patch_entries_exact faults keep_watch info content (i + 1) out (removed + 1) fs out' n,
      patch_entries_exact faults keep_watch info content (i + 1) (out ++ one ∷ []) removed fs out'
          n,
      append_assoc out (one ∷ []) (filtered keep_watch info content (i + 1) fs),
    )

close_patched-inv :
    (faults : Faults) (plan : PlistPlan) (w : Written) (out : List OutEntry) (res : PatchResult)
    → close_patched faults plan w ≡ patched out res
    → (n : ℕ) × (w ≡ written out n) × (res ≡ result_of plan n)
unfolding close_patched
close_patched-inv faults plan (write_failed out' e) out res h = absurd (ground arith)
close_patched-inv faults plan (written out' n) out res h = elim (Option-cases faults.close) [
  | inl c ↦ (n, ground arith, ground arith)
  | inr (e, c) ↦ absurd (ground arith)
]

write_patched-inv :
    (faults : Faults) (keep_watch : Bool) (info : Option (ℕ × Entry)) (entries : List Entry)
    (plan : PlistPlan) (out : List OutEntry) (res : PatchResult)
    → write_patched faults keep_watch info entries plan ≡ patched out res
    → close_patched faults plan
        (patch_entries faults.write keep_watch info plan.content 0 [] 0 entries)
      ≡ patched out res
unfolding write_patched
write_patched-inv faults keep_watch info entries plan out res h = ground arith

-- The same, in the terms of the loop.
patch_for_install-inv :
    (faults : Faults) (plist : Plist) (entries : List Entry) (target : Bytes) (device : ℤ)
    (patch keep_watch : Bool) (out : List OutEntry) (res : PatchResult)
    → patch_for_install faults plist (archive entries) target device patch keep_watch
      ≡ patched out res
    → (plan : PlistPlan) × (plan_of plist (find_plist 0 entries) target device patch ≡ ok plan)
      × (out ≡ filtered keep_watch (find_plist 0 entries) plan.content 0 entries)
      × (res ≡ result_of plan (watch_count keep_watch entries))
unfolding patch_for_install with_plan
patch_for_install-inv faults plist entries target device patch keep_watch out res e =
    go (plan_of plist info target device patch) refl e
  where
    info : Option (ℕ × Entry)
    info = find_plist 0 entries

    loop : Option Bytes → Written
    loop content = patch_entries faults.write keep_watch info content 0 [] 0 entries

    go :
        (p : Outcome PatchError PlistPlan)
        → plan_of plist info target device patch ≡ p
        → with_plan p (write_patched faults keep_watch info entries) ≡ patched out res
        → (plan : PlistPlan) × (plan_of plist info target device patch ≡ ok plan)
          × (out ≡ filtered keep_watch info plan.content 0 entries)
          × (res ≡ result_of plan (watch_count keep_watch entries))
    go (ok plan) h x =
        let (n, w, r) =
          close_patched-inv faults plan (loop plan.content) out res
            (write_patched-inv faults keep_watch info entries plan out res x) in
        let (o, c) =
          patch_entries_exact faults.write keep_watch info plan.content 0 [] 0 entries out n w in
        let c' : n ≡ watch_count keep_watch entries = omega arith in
        (plan, h, o, r ∙ ap (result_of plan) c')
    go (err y) h x = absurd (ground arith)
    go panic h x = absurd (ground arith)

-- When `PatchForInstall` succeeds on an archive without a main Info.plist, no plan is made, and the
-- output is its entries, copied in order, and the result reports no change to an Info.plist. When it
-- succeeds on another, it has made the plan of the first main Info.plist, and the output is the
-- entries, copied in order, but for that file, which has the new content if the plan has one; the
-- result is that of the plan. In both cases the output is without the watch entries unless they are
-- to be kept, and the result counts those.
pub patch_for_install_exact :
    (faults : Faults) (plist : Plist) (entries : List Entry) (target : Bytes) (device : ℤ)
    (patch keep_watch : Bool) (out : List OutEntry) (res : PatchResult)
    → patch_for_install faults plist (archive entries) target device patch keep_watch
      ≡ patched out res
    → InstalledFrom plist target device patch keep_watch entries out res
unfolding plan_of result_of
patch_for_install_exact faults plist entries target device patch keep_watch out res e =
    let (plan, made, o, r) =
      patch_for_install-inv faults plist entries target device patch keep_watch out res e in
    elim (info-cases entries) [
      | inl nowhere ↦
          let none_found = find_plist-none 0 entries nowhere in
          let empty : empty_plan ≡ plan = ok_inj (rw none_found at made) in
          no_info nowhere (rw none_found at o ∙ filtered-none keep_watch plan.content 0 entries)
            (r ∙ ap (λ p. result_of p (watch_count keep_watch entries)) (sym empty))
      | inr (before, f, after, split, here, h) ↦
          let found : find_plist 0 entries ≡ some (0 + length before, f) =
            ap (find_plist 0) split ∙ find_plist_here 0 before after f h here in
          with_info before after f plan split h here (rw found at made)
            (rw found at o
              ∙ ap (filtered keep_watch (some (0 + length before, f)) plan.content 0) split
              ∙ filtered_here keep_watch plan.content 0 (0 + length before) before after f refl
                  here)
            r
    ]
  where
    ok_inj : {p q : PlistPlan} → ◌≡◌ {A = Outcome PatchError PlistPlan} (ok p) (ok q) → p ≡ q
    ok_inj h = cc

-- Whatever makes the plan fail, the device family among it, nothing is written.
pub patch_for_install_early :
    (faults : Faults) (plist : Plist) (entries : List Entry) (target : Bytes) (device : ℤ)
    (patch keep_watch : Bool) (e : PatchError)
    → plan_of plist (find_plist 0 entries) target device patch ≡ err e
    → patch_for_install faults plist (archive entries) target device patch keep_watch
      ≡ failed none e
unfolding patch_for_install with_plan
patch_for_install_early faults plist entries target device patch keep_watch e h = rw h

-- ===== src/Pipeline/Install/Succeeds.antt =====
-- `PatchForInstall` succeeds where the plan is made and no call fails.
use ipadecrypt.Outcome.{ok}
use ipadecrypt.Pipeline.Archive.{Entry, archive}
use ipadecrypt.Pipeline.Assemble.{OutEntry}
use ipadecrypt.Pipeline.Install.Described.{
  survivors, watch_count, info_out, InstalledFrom, no_info, with_info, find_plist-none,
  find_plist_here, filtered, filtered-none, filtered_here,
}
use ipadecrypt.Pipeline.Paths.{is_main_app_info_plist}
use ipadecrypt.Pipeline.Install.{
  Faults, PatchResult, patched, find_plist, is_at, out_entry, written, patch_entries, result_of,
  close_patched, write_patched, plan_of, with_plan, patch_for_install,
}
use ipadecrypt.Pipeline.Patch.{Plist, PlistPlan, empty_plan}
use ipadecrypt.Prelude.Int.{ℤ}
use ipadecrypt.Prelude.{
  ℕ, ◌+◌, ◌≡◌, Bool, true, refl, ap, sym, ◌∙◌, length, some, arith, Option, none, List, [], ◌∷◌,
  ◌++◌, Bytes, append-nil, append_assoc,
}

-- No call of the file system and of the zip writer fails.
pub record NoFaults (faults : Faults) : Type 0 where
  pub mkdir : faults.mkdir ≡ none
  pub open_dst : faults.open_dst ≡ none
  pub write : (f : Entry) → faults.write f ≡ none
  pub close : faults.close ≡ none

patch_entries_succeeds :
    (faults : Faults) (keep_watch : Bool) (info : Option (ℕ × Entry)) (content : Option Bytes)
    (i : ℕ) (out : List OutEntry) (removed : ℕ) (fs : List Entry)
    → NoFaults faults
    → patch_entries faults.write keep_watch info content i out removed fs
      ≡ written (out ++ filtered keep_watch info content i fs) (removed + watch_count keep_watch fs)
unfolding patch_entries filtered watch_count
patch_entries_succeeds faults keep_watch info content i out removed [] n =
    rw append-nil (ground arith)
patch_entries_succeeds faults keep_watch info content i out removed (f ∷ fs) n =
    let one = out_entry (is_at info i) content f in
    rw (n.write f) (
      ground (
        arith,
        patch_entries_succeeds faults keep_watch info content (i + 1) out (removed + 1) fs n,
        patch_entries_succeeds faults keep_watch info content (i + 1) (out ++ one ∷ []) removed fs
            n,
        append_assoc out (one ∷ []) (filtered keep_watch info content (i + 1) fs),
      ))

patched_eq :
    {out out' : List OutEntry} {res res' : PatchResult}
    → out ≡ out'
    → res ≡ res'
    → patched out res ≡ patched out' res'
patched_eq o r = cc

installs :
    (faults : Faults) (plist : Plist) (entries : List Entry) (target : Bytes) (device : ℤ)
    (patch keep_watch : Bool) (plan : PlistPlan)
    → NoFaults faults
    → plan_of plist (find_plist 0 entries) target device patch ≡ ok plan
    → patch_for_install faults plist (archive entries) target device patch keep_watch
      ≡ patched
          (filtered keep_watch (find_plist 0 entries) plan.content 0 entries)
          (result_of plan (watch_count keep_watch entries))
unfolding patch_for_install with_plan write_patched close_patched
installs faults plist entries target device patch keep_watch plan n made =
    let info = find_plist 0 entries in
    rw
      (
        made,
        n.mkdir,
        n.open_dst,
        patch_entries_succeeds faults keep_watch info plan.content 0 [] 0 entries n,
        n.close,
      )
      (ground arith)

-- Where no call fails, `PatchForInstall` on a readable archive succeeds, if it has no main Info.plist
-- or a plan can be made of the first one. The output is then the entries, copied in order, but for
-- that file, which has the new content if the plan has one, and without the watch entries unless they
-- are to be kept; the result is that of the plan, with the number of entries dropped.
pub patch_for_install_succeeds :
    (faults : Faults) (plist : Plist) (entries : List Entry) (target : Bytes) (device : ℤ)
    (patch keep_watch : Bool) (out : List OutEntry) (res : PatchResult)
    → NoFaults faults
    → InstalledFrom plist target device patch keep_watch entries out res
    → patch_for_install faults plist (archive entries) target device patch keep_watch
      ≡ patched out res
unfolding plan_of result_of
patch_for_install_succeeds faults plist entries target device patch keep_watch out res n
      (no_info nowhere o r) =
    let none_found = find_plist-none 0 entries nowhere in
    let run =
      installs faults plist entries target device patch keep_watch empty_plan n
        (rw none_found refl) in
    let content = rw none_found refl ∙ filtered-none keep_watch none 0 entries in
    run ∙ patched_eq (content ∙ sym o) (sym r)
patch_for_install_succeeds faults plist entries target device patch keep_watch out res n
      (with_info before after f plan split h here made o r) =
    let found : find_plist 0 entries ≡ some (0 + length before, f) =
      ap (find_plist 0) split ∙ find_plist_here 0 before after f h here in
    let run = installs faults plist entries target device patch keep_watch plan n (rw found made) in
    run ∙ patched_eq (described found split here ∙ sym o) (sym r)
  where
    described :
        find_plist 0 entries ≡ some (0 + length before, f)
        → entries ≡ before ++ f ∷ after
        → is_main_app_info_plist f.name ≡ true
        → filtered keep_watch (find_plist 0 entries) plan.content 0 entries
          ≡ survivors keep_watch before ++ info_out plan.content f ∷ survivors keep_watch after
    described found split here =
        ap (λ i. filtered keep_watch i plan.content 0 entries) found
        ∙ ap (filtered keep_watch (some (0 + length before, f)) plan.content 0) split
        ∙ filtered_here keep_watch plan.content 0 (0 + length before) before after f refl here

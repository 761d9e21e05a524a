-- ===== src/Pipeline/Cleanup/Leaves.antt =====
-- When a rewrite leaves its temporary file behind.
use ipadecrypt.Pipeline.Archive.{IoError, Entry}
use ipadecrypt.Pipeline.Cleanup.{
  Disk, Faults, Done, done, failed, with_reader, remove_tmp, Copied, copied, copy_failed,
  copy_entries, commit, fill_tmp, rewrite_ipa_known, no_archive,
}
use ipadecrypt.Prelude.{
  ℕ, ◌+◌, ◌≡◌, ◌≢◌, ◌↔◌, inl, inr, refl, sym, ◌∙◌, subst, Bool, false, arith, Option, none, some,
  List, [], ◌∷◌, ◌++◌, Bytes, Bool-cases, Option-cases, All,
}

-- The copy of every entry that `skip` does not name works.
abbrev pub Copies : (Entry → Option IoError) → (Bytes → Bool) → List Entry → Type 0
Copies copy skip fs = All (λ f. skip f.name ≡ false → copy f ≡ none) fs

-- Each step up to the rename works, and the rename fails.
pub record RenameFails (faults : Faults) (skip : Bytes → Bool) (disk : Disk) : Type 0 where
  pub entries : List Entry
  pub there : disk.ipa ≡ some entries
  pub reopens : faults.reopen_reader ≡ none
  pub opens : faults.open_tmp ≡ none
  pub copies : Copies faults.copy skip entries
  pub closes_zip : faults.close_zip ≡ none
  pub closes_file : faults.close_file ≡ none
  pub error : IoError
  pub fails : faults.rename ≡ some error

-- The run fails and leaves a temporary file.
abbrev pub LeavesTmp : Done ℕ → Type 0
LeavesTmp r = (disk : Disk) × (e : IoError) × (r ≡ failed disk e) × (disk.tmp ≢ none)

copied-Copies :
    (copy : Entry → Option IoError) (skip : Bytes → Bool) (written : List Entry) (removed : ℕ)
    (fs : List Entry) (w : List Entry) (n : ℕ)
    → copy_entries copy skip written removed fs ≡ copied w n
    → Copies copy skip fs
unfolding copy_entries
copied-Copies copy skip written removed [] w n e = tt
copied-Copies copy skip written removed (f ∷ fs) w n e = elim (Bool-cases (skip f.name)) [
  | inl dropped ↦ (
    λ stays. absurd (ground (arith, dropped, stays)),
    copied-Copies copy skip written (removed + 1) fs w n (ground (arith, e, dropped)),
  )
  | inr stays ↦ elim (Option-cases (copy f)) [
    | inl fine ↦ (
      λ s. fine,
      copied-Copies copy skip (written ++ f ∷ []) removed fs w n (ground (arith, e, stays, fine)),
    )
    | inr (x, bad) ↦ absurd (ground (arith, e, stays, bad))
  ]
]

Copies-copied :
    (copy : Entry → Option IoError) (skip : Bytes → Bool) (written : List Entry) (removed : ℕ)
    (fs : List Entry)
    → Copies copy skip fs
    → (w : List Entry) × (n : ℕ) × (copy_entries copy skip written removed fs ≡ copied w n)
unfolding copy_entries
Copies-copied copy skip written removed [] h = (written, removed, refl)
Copies-copied copy skip written removed (f ∷ fs) (h, t) = elim (Bool-cases (skip f.name)) [
  | inl dropped ↦
      let (w, n, e) = Copies-copied copy skip written (removed + 1) fs t in (w, n, rw dropped e)
  | inr stays ↦
      let (w, n, e) = Copies-copied copy skip (written ++ f ∷ []) removed fs t in
      (w, n, rw (stays, h stays) e)
]

no_leaves : {r : Done ℕ} (d : Disk) (e : IoError) → r ≡ failed d e → d.tmp ≡ none → LeavesTmp r → ⊥
no_leaves d e eq clean (d', e', eq', left) =
    let same : d ≡ d' = failed_inj (sym eq ∙ eq') in left (subst (λ k. k.tmp ≡ none) same clean)
  where
    failed_inj : {x y : Disk} {a b : IoError} → ◌≡◌ {A = Done ℕ} (failed x a) (failed y b) → x ≡ y
    failed_inj h = cc

-- Behind the copying.
abbrev CommitFails : Faults → Type 0
CommitFails faults =
    (faults.close_zip ≡ none)
    × (faults.close_file ≡ none)
    × ((e : IoError) × (faults.rename ≡ some e))

commit-LeavesTmp :
    (faults : Faults) (disk : Disk) (written : List Entry) (n : ℕ)
    → faults.remove_fails ≡ false
    → LeavesTmp (commit faults disk written n)
    → CommitFails faults
unfolding commit remove_tmp
commit-LeavesTmp faults disk written n removes left = elim (Option-cases faults.close_zip) [
  | inr (e, b) ↦
      absurd (no_leaves (record disk { tmp = none }) e (ground (arith, b, removes)) refl left)
  | inl zip ↦ elim (Option-cases faults.close_file) [
    | inr (e, b) ↦
        absurd
          (no_leaves (record disk { tmp = none }) e (ground (arith, zip, b, removes)) refl left)
    | inl file ↦ elim (Option-cases faults.rename) [
      | inr (e, b) ↦ (zip, file, (e, b))
      | inl fine ↦
          let success : commit faults disk written n
              ≡ done (record disk { ipa = some written; tmp = none }) n =
            ground (arith, zip, file, fine) in
          absurd (ground (arith, success, left.2))
    ]
  ]
]

fill_tmp-LeavesTmp :
    (faults : Faults) (skip : Bytes → Bool) (disk : Disk) (entries : List Entry) (c : Copied)
    → faults.remove_fails ≡ false
    → copy_entries faults.copy skip [] 0 entries ≡ c
    → LeavesTmp (fill_tmp faults disk c)
    → Copies faults.copy skip entries × CommitFails faults
unfolding fill_tmp remove_tmp
fill_tmp-LeavesTmp faults skip disk entries (copy_failed w e) removes c left =
    absurd (no_leaves (record disk { tmp = none }) e (ground (arith, removes)) refl left)
fill_tmp-LeavesTmp faults skip disk entries (copied w n) removes c left = (
  copied-Copies faults.copy skip [] 0 entries w n c,
  commit-LeavesTmp faults (record disk { tmp = some w }) w n removes left,
)

-- Where no temporary file was there before and one can be removed, `rewriteIPAKnown` fails and leaves
-- one behind exactly when every step up to the rename works and the rename fails.
pub rewrite_ipa_known-LeavesTmp_iff :
    (faults : Faults) (skip : Bytes → Bool) (disk : Disk)
    → disk.tmp ≡ none
    → faults.remove_fails ≡ false
    → LeavesTmp (rewrite_ipa_known faults skip disk) ↔ RenameFails faults skip disk
unfolding rewrite_ipa_known with_reader
rewrite_ipa_known-LeavesTmp_iff faults skip disk clean removes = (sound, complete)
  where
    sound : LeavesTmp (rewrite_ipa_known faults skip disk) → RenameFails faults skip disk
    sound left = elim (Option-cases faults.reopen_reader) [
      | inr (e, b) ↦ absurd (no_leaves disk e (ground (arith, b)) clean left)
      | inl reopens ↦ elim (Option-cases disk.ipa) [
        | inl nothing ↦
            absurd (no_leaves disk no_archive (ground (arith, reopens, nothing)) clean left)
        | inr (entries, there) ↦ elim (Option-cases faults.open_tmp) [
          | inr (e, b) ↦ absurd (no_leaves disk e (ground (arith, reopens, there, b)) clean left)
          | inl opens ↦
              let c = copy_entries faults.copy skip [] 0 entries in
              let fills : rewrite_ipa_known faults skip disk ≡ fill_tmp faults disk c =
                ground (arith, reopens, there, opens) in
              let (copies, (zip, file, (e, fails))) =
                fill_tmp-LeavesTmp faults skip disk entries c removes refl
                  (subst LeavesTmp fills left) in
              record {
                entries = entries;
                there = there;
                reopens = reopens;
                opens = opens;
                copies = copies;
                closes_zip = zip;
                closes_file = file;
                error = e;
                fails = fails;
              }
        ]
      ]
    ]

    complete : RenameFails faults skip disk → LeavesTmp (rewrite_ipa_known faults skip disk)
    complete f =
        let (w, n, written) = Copies-copied faults.copy skip [] 0 f.entries f.copies in
        let run : rewrite_ipa_known faults skip disk
            ≡ failed (record disk { tmp = some w }) f.error =
          unfold fill_tmp commit in
          ground
            (arith, f.reopens, f.there, f.opens, written, f.closes_zip, f.closes_file, f.fails) in
        (record disk { tmp = some w }, f.error, run, λ e. cc)

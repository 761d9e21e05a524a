-- ===== src/Pipeline/Verify/Sound.antt =====
-- What holds of every entry of an output that `Verify` accepts.
use ipadecrypt.MachO.Cryptid.{slice_has_cryptid}
use ipadecrypt.MachO.{Error}
use ipadecrypt.Outcome.{ok, err, Outcome-cases, >>=-eq-ok}
use ipadecrypt.Pipeline.Archive.{Entry, Opened, archive, unreadable, by_name}
use ipadecrypt.Pipeline.Compare.{compare_macho_slice, crypt_zeroed}
use ipadecrypt.Pipeline.Verify.{
  VerifyResult, VerifyError, empty_result, is_empty, is_ok, read_macho, is_scanned, check_zeroed,
  check_source, check_plain, check_macho, verify_entry, verify_entries, verify,
}
use ipadecrypt.Prelude.{
  ℕ, ◌+◌, ◌≡◌, refl, ap, ◌∙◌, subst, Bool, true, false, arith, Option, none, some, List, [], ◌∷◌,
  ◌++◌, Bytes, All, Bool-cases, Option-cases, inl, inr,
}
use ipadecrypt.Slice.{Slice}

is_empty-snoc {ℓ} : {A : Type ℓ} (xs : List A) (x : A) → is_empty (xs ++ x ∷ []) ≡ false
is_empty-snoc [] x = refl
is_empty-snoc (y ∷ xs) x = refl

-- The source entry that an output entry is held against.
abbrev pub source_of : Option (List Entry) → Bytes → Option Entry
source_of none name = none
source_of (some src) name = by_name src name

module _ (spare : ℕ → ℕ) where
  -- Why a Mach-O output `d` called `name` does not spoil the verdict.
  pub data Passed (src : Option (List Entry)) (name : Bytes) (d : Slice) : Type 0 where
    unparsed : (e : Error) → slice_has_cryptid d ≡ err e → Passed src name d
    source_other :
        {sf : Entry}
        → slice_has_cryptid d ≡ ok false
        → source_of src name ≡ some sf
        → read_macho spare sf ≡ ok none
        → Passed src name d
    source_agrees :
        {sf : Entry} {s : Slice}
        → slice_has_cryptid d ≡ ok false
        → source_of src name ≡ some sf
        → read_macho spare sf ≡ ok (some s)
        → compare_macho_slice {F = VerifyError} d s ≡ ok none
        → Passed src name d
    sourceless :
        slice_has_cryptid d ≡ ok false
        → source_of src name ≡ none
        → crypt_zeroed {F = VerifyError} d ≡ ok false
        → Passed src name d

  check_zeroed_ok :
      (res : VerifyResult) (name : Bytes) (d : Slice) {res' : VerifyResult}
      → check_zeroed res name d ≡ ok res'
      → is_ok res' ≡ true
      → (is_ok res ≡ true) × (crypt_zeroed {F = VerifyError} d ≡ ok false)
  unfolding check_zeroed is_ok
  check_zeroed_ok res name d e h = ground (arith, is_empty-snoc res.all_zero_crypt name)

  check_source_ok :
      (src : Option (List Entry)) (res : VerifyResult) (name : Bytes) (d : Slice) (sf : Entry)
      {res' : VerifyResult}
      → slice_has_cryptid d ≡ ok false
      → source_of src name ≡ some sf
      → check_source spare res name d sf ≡ ok res'
      → is_ok res' ≡ true
      → (is_ok res ≡ true) × Passed src name d
  unfolding check_source is_ok
  check_source_ok src res name d sf {res'} c found e h =
      elim (Outcome-cases (read_macho spare sf)) [
        | inl (none, r) ↦
            let same : res ≡ res' = ground (arith, r) in (ap is_ok same ∙ h, source_other c found r)
        | inl (some s, r) ↦ elim (Outcome-cases (compare_macho_slice {F = VerifyError} d s)) [
          | inl (none, v) ↦ (ground (arith, r, v), source_agrees c found r v)
          | inl (some reason, v) ↦ absurd (
              ground (
                arith,
                r,
                v,
                is_empty-snoc res.mismatches (record { name = name; reason = reason }),
              ))
          | inr (inl (x, v)) ↦ absurd (ground (arith, r, v))
          | inr (inr v) ↦ absurd (ground (arith, r, v))
        ]
        | inr (inl (x, r)) ↦ absurd (ground (arith, r))
        | inr (inr r) ↦ absurd (ground (arith, r))
      ]

  check_plain_ok :
      (src : Option (List Entry)) (res : VerifyResult) (name : Bytes) (d : Slice)
      {res' : VerifyResult}
      → slice_has_cryptid d ≡ ok false
      → check_plain spare src res name d ≡ ok res'
      → is_ok res' ≡ true
      → (is_ok res ≡ true) × Passed src name d
  unfolding check_plain
  check_plain_ok none res name d c e h =
      let (before, zeroed) = check_zeroed_ok res name d e h in (before, sourceless c refl zeroed)
  check_plain_ok (some src) res name d c e h = elim (Option-cases (by_name src name)) [
    | inl nothing ↦
        let (before, zeroed) =
          check_zeroed_ok (record res { missing = res.missing ++ name ∷ [] }) name d
            (ground (arith, nothing)) h in
        (unfold is_ok in before, sourceless c nothing zeroed)
    | inr (sf, found) ↦ check_source_ok (some src) res name d sf c found (ground (arith, found)) h
  ]

  check_macho_ok :
      (src : Option (List Entry)) (res : VerifyResult) (name : Bytes) (d : Slice)
      {res' : VerifyResult}
      → check_macho spare src res name d ≡ ok res'
      → is_ok res' ≡ true
      → (is_ok res ≡ true) × Passed src name d
  unfolding check_macho is_ok
  check_macho_ok src res name d {res'} e h = elim (Outcome-cases (slice_has_cryptid d)) [
    | inl (true, c) ↦ absurd (ground (arith, c, is_empty-snoc res.still_encrypted name))
    | inl (false, c) ↦ check_plain_ok src res name d {res' = res'} c (ground (arith, c)) h
    | inr (inl (x, c)) ↦ (ground (arith, c), unparsed x c)
    | inr (inr c) ↦ absurd (ground (arith, c))
  ]

  -- A scanned entry with Mach-O content is one that passed.
  abbrev pub EntryPassed : Option (List Entry) → Bool → Entry → Type 0
  EntryPassed src skip_appex f =
      is_scanned skip_appex f ≡ true
      → (d : Slice) → read_macho spare f ≡ ok (some d)
      → Passed src f.name d

  verify_entry_ok :
      (src : Option (List Entry)) (skip_appex : Bool) (res : VerifyResult) (f : Entry)
      {res' : VerifyResult}
      → verify_entry spare src skip_appex res f ≡ ok res'
      → is_ok res' ≡ true
      → (is_ok res ≡ true) × EntryPassed src skip_appex f
  unfolding verify_entry
  verify_entry_ok src skip_appex res f {res'} e h = elim (Bool-cases (is_scanned skip_appex f)) [
    | inr passed_over ↦
        let same : res ≡ res' = ground (arith, passed_over) in
        (ap is_ok same ∙ h, λ scanned d r. absurd (ground arith))
    | inl scanned ↦ elim (Outcome-cases (read_macho spare f)) [
      | inl (none, r) ↦
          let same : res ≡ res' = ground (arith, r) in
          (ap is_ok same ∙ h, λ s d r'. absurd (ground arith))
      | inl (some d, r) ↦
          let (before, passed) =
            check_macho_ok src (record res { scanned = res.scanned + 1 }) f.name d
              (ground (arith, r)) h in
          (unfold is_ok in before, λ s d' r'. subst (Passed src f.name) (ground arith) passed)
      | inr (inl (x, r)) ↦ absurd (ground (arith, r))
      | inr (inr r) ↦ absurd (ground (arith, r))
    ]
  ]

  verify_entries_ok :
      (src : Option (List Entry)) (skip_appex : Bool) (res : VerifyResult) (fs : List Entry)
      {r : VerifyResult}
      → verify_entries spare src skip_appex res fs ≡ ok r
      → is_ok r ≡ true
      → (is_ok res ≡ true) × All (EntryPassed src skip_appex) fs
  unfolding verify_entries
  verify_entries_ok src skip_appex res [] {r} e h =
      let same : res ≡ r = cc in (ap is_ok same ∙ h, tt)
  verify_entries_ok src skip_appex res (f ∷ fs) e h =
      let (res', e', more) =
        >>=-eq-ok (verify_entry spare src skip_appex res f)
          (λ res'. verify_entries spare src skip_appex res' fs) e in
      let (before', rest) = verify_entries_ok src skip_appex res' fs more h in
      let (before, here) = verify_entry_ok src skip_appex res f e' before' in (before, (here, rest))

  -- The source archive's entries; none where no source is given.
  abbrev pub source_entries : Option Opened → Option (List Entry)
  source_entries none = none
  source_entries (some (unreadable e)) = none
  source_entries (some (archive src)) = some src

  -- When `Verify` returns a result that is OK, every Mach-O entry that it scanned either could not
  -- be parsed or announces no encryption; and of the latter, one with a Mach-O counterpart in the
  -- source is consistent with it, and one with no counterpart has no zero-filled region.
  pub verify_sound :
      (out : List Entry) (src : Option Opened) (skip_appex : Bool) (r : VerifyResult)
      → verify spare (archive out) src skip_appex ≡ ok r
      → is_ok r ≡ true
      → All (EntryPassed (source_entries src) skip_appex) out
  unfolding verify
  verify_sound out none skip_appex r e h =
      (verify_entries_ok none skip_appex empty_result out e h).1
  verify_sound out (some (unreadable x)) skip_appex r e h = absurd (ground arith)
  verify_sound out (some (archive src)) skip_appex r e h =
      (verify_entries_ok (some src) skip_appex empty_result out e h).1

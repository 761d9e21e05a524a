-- ===== src/Pipeline/Verify.antt =====
-- internal/pipeline/verify.go: `Verify`, `VerifyResult` and `readMachO`. On an error `Verify` also
-- returns the result so far, which no caller reads; here an error stands alone.
pub mod Sound
use ipadecrypt.MachO.Cryptid.{slice_has_cryptid}
use ipadecrypt.MachO.{Error, is_magic}
use ipadecrypt.Outcome.{Outcome, ok, err, panic, ◌>>=◌, attempt}
use ipadecrypt.Pipeline.Archive.{
  IoError, Content, unopenable, readable, broken, Entry, Opened, unreadable, archive, by_name,
}
use ipadecrypt.Pipeline.Compare.{Reason, compare_macho_slice, crypt_zeroed}
use ipadecrypt.Pipeline.Paths.{is_app_ext_path}
use ipadecrypt.Prelude.Text.{codes, has_prefix}
use ipadecrypt.Prelude.{
  ℕ, ◌+◌, Bool, true, false, not, ◌&&◌, ◌||◌, Option, none, some, List, [], ◌∷◌, ◌++◌, ltb,
  if◌then◌else◌, length, take, replicate, Bytes,
}
use ipadecrypt.Slice.{Slice, of_bytes}

pub record VerifyMismatch : Type 0 where
  pub name : Bytes
  pub reason : Reason

pub record VerifyResult : Type 0 where
  pub scanned : ℕ
  pub compared : ℕ
  pub still_encrypted : List Bytes
  pub all_zero_crypt : List Bytes
  pub mismatches : List VerifyMismatch
  pub missing : List Bytes
  pub skipped : List Bytes

abbrev pub empty_result : VerifyResult
empty_result = record {
  scanned = 0;
  compared = 0;
  still_encrypted = [];
  all_zero_crypt = [];
  mismatches = [];
  missing = [];
  skipped = [];
}

abbrev is_empty {ℓ} : {A : Type ℓ} → List A → Bool
is_empty [] = true
is_empty (_ ∷ _) = false

-- `VerifyResult.OK`.
unfoldable pub is_ok : VerifyResult → Bool
is_ok r = is_empty r.still_encrypted && is_empty r.all_zero_crypt && is_empty r.mismatches

-- The errors that `Verify` wraps.
pub data VerifyError : Type 0 where
  open_output open_source : IoError → VerifyError
  read_output read_source : Bytes → IoError → VerifyError

-- The tests at the top of the loop.
unfoldable pub is_scanned : Bool → Entry → Bool
is_scanned skip_appex f =
    has_prefix f.name (codes "Payload/")
    && not f.is_dir
    && not (skip_appex && is_app_ext_path f.name)

-- No source entry is compared: the fallback at the loop's end.
unfoldable pub check_zeroed : VerifyResult → Bytes → Slice → Outcome VerifyError VerifyResult
check_zeroed res name d = do
  zeroed ← crypt_zeroed d
  ok (if zeroed then record res { all_zero_crypt = res.all_zero_crypt ++ name ∷ [] } else res)

-- `spare n` is how many zero bytes the runtime's `append` leaves behind a slice of `n` bytes.
module _ (spare : ℕ → ℕ) where
  -- The slice that `append(head, rest...)` makes.
  abbrev pub grown : Bytes → Slice
  grown bs = record { mem = bs ++ replicate (spare (length bs)) 0; len = length bs }

  -- The content behind a head of four bytes, if they are a magic; `rest` is how reading goes on.
  unfoldable pub with_magic :
      Bytes → Outcome IoError (Option Slice) → Outcome IoError (Option Slice)
  with_magic bs rest =
      if ltb (length bs) 4
      then ok none
      else attempt (is_magic (of_bytes (take 4 bs))) (λ magic. if magic then rest else ok none)
          (λ _. ok none)

  unfoldable pub read_macho : Entry → Outcome IoError (Option Slice)
  read_macho f = elim f.content [
    | unopenable e ↦ err e
    | readable bs ↦ with_magic bs (ok (some (grown bs)))
    | broken bs e ↦ with_magic bs (err e)
  ]

  -- The comparison with the source entry `sf`.
  unfoldable pub check_source :
      VerifyResult → Bytes → Slice → Entry → Outcome VerifyError VerifyResult
  check_source res name d sf =
      attempt (read_macho sf)
        (λ content. elim content [
          | none ↦ ok res
          | some src ↦ do
            verdict ← compare_macho_slice d src
            ok (elim verdict [
              | some reason ↦ record res {
                mismatches = res.mismatches ++ record { name = name; reason = reason } ∷ [];
              }
              | none ↦ record res { compared = res.compared + 1 }
            ])
        ])
        (λ e. err (read_source name e))

  -- An output that announces no encryption. `src` is the source archive, if one was given.
  unfoldable pub check_plain :
      Option (List Entry) → VerifyResult → Bytes → Slice → Outcome VerifyError VerifyResult
  check_plain none res name d = check_zeroed res name d
  check_plain (some src) res name d = elim (by_name src name) [
    | some sf ↦ check_source res name d sf
    | none ↦ check_zeroed (record res { missing = res.missing ++ name ∷ [] }) name d
  ]

  -- A Mach-O output.
  unfoldable pub check_macho :
      Option (List Entry) → VerifyResult → Bytes → Slice → Outcome VerifyError VerifyResult
  check_macho src res name d =
      attempt (slice_has_cryptid d)
        (λ encrypted.
          if encrypted
          then ok (record res { still_encrypted = res.still_encrypted ++ name ∷ [] })
          else check_plain src res name d)
        (λ _. ok (record res { skipped = res.skipped ++ name ∷ [] }))

  -- One round of the loop over the output's entries.
  unfoldable pub verify_entry :
      Option (List Entry) → Bool → VerifyResult → Entry → Outcome VerifyError VerifyResult
  verify_entry src skip_appex res f =
      if not (is_scanned skip_appex f)
      then ok res
      else attempt (read_macho f)
          (λ content. elim content [
            | none ↦ ok res
            | some d ↦ check_macho src (record res { scanned = res.scanned + 1 }) f.name d
          ])
          (λ e. err (read_output f.name e))

  unfoldable pub verify_entries :
      Option (List Entry) → Bool → VerifyResult → List Entry → Outcome VerifyError VerifyResult
  verify_entries src skip_appex res [] = ok res
  verify_entries src skip_appex res (f ∷ fs) = do
    res' ← verify_entry src skip_appex res f
    verify_entries src skip_appex res' fs

  -- `sourceIPA` is `none` where it is the empty text.
  unfoldable pub verify : Opened → Option Opened → Bool → Outcome VerifyError VerifyResult
  verify (unreadable e) src skip_appex = err (open_output e)
  verify (archive out) none skip_appex = verify_entries none skip_appex empty_result out
  verify (archive out) (some (unreadable e)) skip_appex = err (open_source e)
  verify (archive out) (some (archive src)) skip_appex =
      verify_entries (some src) skip_appex empty_result out

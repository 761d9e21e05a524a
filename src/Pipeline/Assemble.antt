-- ===== src/Pipeline/Assemble.antt =====
-- internal/pipeline/assemble.go: `Assemble`. The callback `fillSubstitutes` belongs to the caller:
-- it is the list of the writes that it makes, in order, and the error that it returns behind them;
-- it returns at once when a write fails. `faults` says which calls of the zip writer fail.
pub mod Exact
pub mod Succeeds
use ipadecrypt.Pipeline.Archive.{
  IoError, Content, unopenable, readable, broken, Entry, Opened, unreadable, archive, read_all,
}
use ipadecrypt.Pipeline.Paths.{is_excluded_ipa_entry}
use ipadecrypt.Outcome.{Outcome, ok, err, ◌>>=◌, attempt}
use ipadecrypt.Prelude.Text.{equal}
use ipadecrypt.Prelude.{
  Bool, true, false, not, ◌||◌, Option, none, some, List, [], ◌∷◌, ◌++◌, if◌then◌else◌, Bytes,
}

-- One call of `write`: the name and what reading `r` comes to.
pub record Substitute : Type 0 where
  pub name : Bytes
  pub content : Content

-- An entry of the output: created under a name with new bytes, or forwarded verbatim.
pub data OutEntry : Type 0 where
  created : Bytes → Bytes → OutEntry
  raw : Entry → OutEntry

pub record Faults : Type 0 where
  pub create : Bytes → Option IoError
  pub copy : Entry → Option IoError
  pub close : Option IoError

-- What the writer holds: the output so far and the names in `written`.
pub record Writer : Type 0 where
  pub out : List OutEntry
  pub written : List Bytes

unfoldable pub has_name : List Bytes → Bytes → Bool
has_name [] name = false
has_name (n ∷ ns) name = equal n name || has_name ns name

-- The closure `write`. An excluded entry is drained and dropped.
unfoldable pub write : Faults → Writer → Substitute → Outcome IoError Writer
write faults w s =
    if is_excluded_ipa_entry s.name
    then attempt (read_all s.content) (λ _. ok w) (λ e. err e)
    else elim (faults.create s.name) [
      | some e ↦ err e
      | none ↦
          attempt (read_all s.content)
            (λ bs.
              ok (record { out = w.out ++ created s.name bs ∷ []; written = s.name ∷ w.written }))
            (λ e. err e)
    ]

unfoldable pub fill : Faults → Writer → List Substitute → Outcome IoError Writer
fill faults w [] = ok w
fill faults w (s ∷ subs) = do w' ← write faults w s; fill faults w' subs

-- The loop over the source's entries.
unfoldable pub copy_rest :
    Faults → List Bytes → List OutEntry → List Entry → Outcome IoError (List OutEntry)
copy_rest faults written out [] = ok out
copy_rest faults written out (f ∷ fs) =
    let passed = copy_rest faults written out fs in
    let kept = copy_rest faults written (out ++ raw f ∷ []) fs in
    if has_name written f.name || is_excluded_ipa_entry f.name
    then passed
    else elim (faults.copy f) [ some e ↦ err e | none ↦ kept ]

-- `return zw.Close()`.
unfoldable pub close_writer : Faults → List OutEntry → Outcome IoError (List OutEntry)
close_writer faults out = elim faults.close [ some e ↦ err e | none ↦ ok out ]

unfoldable pub assemble :
    Faults → Opened → List Substitute → Option IoError → Outcome IoError (List OutEntry)
assemble faults (unreadable e) subs returned = err e
assemble faults (archive src) subs returned = do
  w ← fill faults (record { out = []; written = [] }) subs
  elim returned [
    | some e ↦ err e
    | none ↦ do out ← copy_rest faults w.written w.out src; close_writer faults out
  ]

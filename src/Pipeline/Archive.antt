-- ===== src/Pipeline/Archive.antt =====
-- What the pipeline sees of a zip archive: archive/zip's reader hands out its entries in order, and
-- each entry's content when it is opened.
use ipadecrypt.Outcome.{Outcome, ok, err}
use ipadecrypt.Prelude.Text.{equal}
use ipadecrypt.Prelude.{ℕ, Bool, Option, none, some, List, [], ◌∷◌, Bytes, if◌then◌else◌}

-- An error value of the file system or of the zip reader.
abbrev pub IoError : Type 0
IoError = ℕ

-- What reading an entry to its end comes to: it cannot be opened, or it gives its bytes, or an error
-- behind these bytes.
pub data Content : Type 0 where
  unopenable : IoError → Content
  readable : Bytes → Content
  broken : Bytes → IoError → Content

pub record Entry : Type 0 where
  pub name : Bytes
  pub is_dir : Bool
  pub content : Content

-- `zip.OpenReader`.
pub data Opened : Type 0 where
  unreadable : IoError → Opened
  archive : List Entry → Opened

-- `f.Open()` and `io.ReadAll`.
unfoldable pub read_all : Content → Outcome IoError Bytes
read_all (unopenable e) = err e
read_all (readable bs) = ok bs
read_all (broken bs e) = err e

-- The map that is filled by `m[f.Name] = f` over the entries, looked up at `key`: the last entry of
-- that name.
unfoldable pub by_name : List Entry → Bytes → Option Entry
by_name [] key = none
by_name (f ∷ fs) key = elim (by_name fs key) [
  | some g ↦ some g
  | none ↦ if equal f.name key then some f else none
]

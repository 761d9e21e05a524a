-- ===== src/Pipeline/Info.antt =====
-- internal/pipeline/patch.go: `AppInfo` and `MainExecSHA256`. The lower-case hexadecimal SHA-256 of
-- a byte string is the parameter `digest`.
pub mod Reads
use ipadecrypt.Outcome.{Outcome, ok, err, panic, ◌>>=◌, attempt}
use ipadecrypt.Pipeline.Archive.{IoError, Content, Entry, Opened, unreadable, archive, read_all}
use ipadecrypt.Pipeline.Install.{find_plist}
use ipadecrypt.Pipeline.Patch.{Dict, get_text, Plist, is_empty}
use ipadecrypt.Prelude.Text.{codes, equal, split}
use ipadecrypt.Prelude.{ℕ, Bool, Option, none, some, List, [], ◌∷◌, ◌++◌, if◌then◌else◌, Bytes}

-- The errors of the two readers.
pub data InfoError : Type 0 where
  open_failed : IoError → InfoError
  read_failed : IoError → InfoError
  parse_failed missing_identifier no_info_plist no_executable : InfoError
  exec_missing : Bytes → InfoError

abbrev pub exec_key : Bytes
exec_key = codes "CFBundleExecutable"

abbrev pub short_version_key : Bytes
short_version_key = codes "CFBundleShortVersionString"

abbrev pub version_key : Bytes
version_key = codes "CFBundleVersion"

abbrev pub identifier_key : Bytes
identifier_key = codes "CFBundleIdentifier"

-- The Info.plist `f`, read and parsed.
unfoldable pub read_info : Plist → Entry → Outcome InfoError Dict
read_info plist f =
    attempt (read_all f.content)
      (λ bs. elim (plist.unmarshal bs) [ none ↦ err parse_failed | some (m, format) ↦ ok m ])
      (λ e. err (read_failed e))

-- The version of an app, by its short version first.
unfoldable pub version_of : Dict → Bytes
version_of m =
    let short = get_text short_version_key m in
    if is_empty short then get_text version_key m else short

-- What `AppInfo` makes of the parsed Info.plist.
unfoldable pub identity_of : Dict → Outcome InfoError (Bytes × Bytes)
identity_of m =
    if is_empty (get_text identifier_key m)
    then err missing_identifier
    else ok (get_text identifier_key m, version_of m)

unfoldable pub app_info : Plist → Opened → Outcome InfoError (Bytes × Bytes)
app_info plist (unreadable e) = err (open_failed e)
app_info plist (archive entries) = elim (find_plist 0 entries) [
  | none ↦ err no_info_plist
  | some (i, f) ↦ do m ← read_info plist f; identity_of m
]

-- `parts[0] + "/" + parts[1]`. `SplitN` with three parts cuts the first two as `Split` does.
unfoldable pub app_dir : List Bytes → Outcome InfoError Bytes
app_dir (a ∷ b ∷ _) = ok (a ++ (b'/' ∷ b))
app_dir _ = panic

-- `execName` and `appDir` behind the first loop.
unfoldable pub exec_of : Plist → Option (ℕ × Entry) → Outcome InfoError (Bytes × Bytes)
exec_of plist none = ok ([], [])
exec_of plist (some (i, f)) = do
  m ← read_info plist f
  dir ← app_dir (split b'/' f.name)
  ok (get_text exec_key m, dir)

-- The second loop: the first entry at `path`.
unfoldable pub find_name : Bytes → List Entry → Option Entry
find_name path [] = none
find_name path (f ∷ fs) = if equal f.name path then some f else find_name path fs

-- `digest` stands for `sha256` and `hex.EncodeToString`.
module _ (digest : Bytes → Bytes) where
  unfoldable pub hash_entry : Bytes → Entry → Outcome InfoError (Bytes × Bytes)
  hash_entry exec f =
      attempt (read_all f.content) (λ bs. ok (exec, digest bs)) (λ e. err (read_failed e))

  unfoldable pub hash_exec : List Entry → Bytes → Bytes → Outcome InfoError (Bytes × Bytes)
  hash_exec entries exec path = elim (find_name path entries) [
    | none ↦ err (exec_missing path)
    | some f ↦ hash_entry exec f
  ]

  unfoldable pub main_exec_sha256 : Plist → Opened → Outcome InfoError (Bytes × Bytes)
  main_exec_sha256 plist (unreadable e) = err (open_failed e)
  main_exec_sha256 plist (archive entries) = do
    (exec, dir) ← exec_of plist (find_plist 0 entries)
    if is_empty exec then err no_executable else hash_exec entries exec (dir ++ (b'/' ∷ exec))

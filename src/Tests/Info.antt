-- ===== src/Tests/Info.antt =====
-- `MainExecSHA256` of internal/pipeline/patch.go on a small archive.
use ipadecrypt.Outcome.{Outcome, ok}
use ipadecrypt.Pipeline.Archive.{IoError, Entry, archive, readable, read_all}
use ipadecrypt.Pipeline.Info.{
  exec_key, identifier_key, version_key, read_info, version_of, identity_of, app_info, app_dir,
  exec_of, find_name, hash_entry, hash_exec, main_exec_sha256,
}
use ipadecrypt.Pipeline.Install.{find_plist}
use ipadecrypt.Pipeline.Patch.{text, Dict, get, get_text, Plist}
use ipadecrypt.Pipeline.Paths.{is_main_app_info_plist}
use ipadecrypt.Prelude.Text.{codes, equal, split, has_suffix}
use ipadecrypt.Prelude.{ℕ, ◌≡◌, refl, false, Option, some, List, [], ◌∷◌, Bytes, reverse}

abbrev info : Dict
info =
    (exec_key, text (codes "A"))
    ∷ (identifier_key, text (codes "org.a"))
    ∷ (version_key, text (codes "3"))
    ∷ []

abbrev read_dict : Bytes → Option (Dict × ℕ)
read_dict bs = some (info, 1)

abbrev write_dict : Dict → ℕ → Outcome IoError Bytes
write_dict m format = ok []

abbrev plist : Plist
plist = record { unmarshal = read_dict; marshal = write_dict }

-- A stand-in for the hash: the bytes in reverse.
abbrev digest : Bytes → Bytes
digest bs = reverse bs

abbrev ipa : List Entry
ipa =
    record { name = codes "Payload/A.app/Info.plist"; is_dir = false; content = readable [] }
    ∷ record { name = codes "Payload/A.app/A"; is_dir = false; content = readable (1 ∷ 2 ∷ []) }
    ∷ []

hashes : main_exec_sha256 digest plist (archive ipa) ≡ ok (codes "A", 2 ∷ 1 ∷ [])
unfolding main_exec_sha256 exec_of find_plist is_main_app_info_plist equal split has_suffix
    read_info read_all app_dir get_text get hash_exec find_name hash_entry
hashes = refl

app_info_run : app_info plist (archive ipa) ≡ ok (codes "org.a", codes "3")
unfolding app_info find_plist is_main_app_info_plist equal split has_suffix read_info read_all
    get_text get identity_of version_of
app_info_run = refl

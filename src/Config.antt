-- ===== src/Config.antt =====
-- internal/config/config.go: the configuration, its migration and the file that keeps it.
-- encoding/json is the parameter `Json`. A time is its number of nanoseconds.
pub mod Files
use ipadecrypt.Outcome.{Outcome, ok, err}
use ipadecrypt.Pipeline.Archive.{IoError}
use ipadecrypt.Prelude.Int.{ℤ, pos, negsuc}
use ipadecrypt.Prelude.Text.{codes, equal}
use ipadecrypt.Prelude.{
  ℕ, Bool, true, false, not, ltb, ◌==◌, ◌||◌, Option, none, some, List, [], ◌∷◌, if◌then◌else◌,
  Bytes,
}

-- `SchemaVersion`.
abbrev pub schema_version : ℤ
schema_version = pos 2

pub record Apple : Type 0 where
  pub email : Bytes
  pub password : Bytes
  pub password_token : Bytes
  pub directory_services_identifier : Bytes
  pub store_front : Bytes
  pub pod : Bytes

-- `appstore.Account`, and the fields of the account that version 1 nested.
pub record Account : Type 0 where
  pub email : Bytes
  pub password : Bytes
  pub password_token : Bytes
  pub directory_services_id : Bytes
  pub store_front : Bytes
  pub pod : Bytes

pub record DeviceAuth : Type 0 where
  pub kind : Bytes
  pub password : Bytes
  pub key_path : Bytes
  pub key_passphrase : Bytes

pub record Device : Type 0 where
  pub host : Bytes
  pub port : ℤ
  pub user : Bytes
  pub auth : DeviceAuth
  pub known_hosts_path : Bytes
  pub accept_new_host_key : Bool

pub record UpdateCheck : Type 0 where
  pub checked_at : ℤ
  pub latest_tag : Bytes
  pub html_url : Bytes
  pub notified_at : ℤ

-- `Config`; `keep` is `Output.Keep` and `warning_accepted` is that field of `Versions`. The path is
-- an argument of the operations.
pub record Config : Type 0 where
  pub version : ℤ
  pub apple : Apple
  pub device : Device
  pub keep : Bytes
  pub warning_accepted : Bool
  pub update_check : UpdateCheck

-- `Apple.Account`.
unfoldable pub account : Apple → Account
account a = record {
  email = a.email;
  password = a.password;
  password_token = a.password_token;
  directory_services_id = a.directory_services_identifier;
  store_front = a.store_front;
  pod = a.pod;
}

-- `Apple.SetAccount`.
unfoldable pub set_account : Apple → Account → Apple
set_account a acc = record {
  email = acc.email;
  password = acc.password;
  password_token = acc.password_token;
  directory_services_identifier = acc.directory_services_id;
  store_front = acc.store_front;
  pod = acc.pod;
}

abbrev pub keep_desktop : Bytes
keep_desktop = codes "desktop"

abbrev pub keep_device : Bytes
keep_device = codes "device"

abbrev pub keep_both : Bytes
keep_both = codes "both"

pub data ConfigError : Type 0 where
  bad_keep parse_failed marshal_failed no_path : ConfigError
  io : IoError → ConfigError

-- `NormalizeOutputKeep`.
unfoldable pub normalize_output_keep : Bytes → Outcome ConfigError Bytes
normalize_output_keep value =
    if equal value [] || equal value keep_both
    then ok keep_both
    else if equal value keep_desktop
    then ok keep_desktop
    else if equal value keep_device
    then ok keep_device
    else if equal value (codes "local")
        || equal value (codes "pc")
        || equal value (codes "computer")
    then ok keep_desktop
    else if equal value (codes "phone")
    then ok keep_device
    else err bad_keep

-- `Config.OutputKeep`.
unfoldable pub output_keep : Config → Bytes
output_keep c = elim (normalize_output_keep c.keep) [ ok keep ↦ keep | _ ↦ keep_both ]

-- A field that the old account fills where it is empty.
abbrev pub or_else : Bytes → Bytes → Bytes
or_else [] b = b
or_else (c ∷ a) b = c ∷ a

-- `migrateAppleV1ToV2` with the nested account that it parses, if it does.
unfoldable pub migrate_apple : Option Account → Apple → Apple
migrate_apple none apple = apple
migrate_apple (some a) apple = record {
  email = or_else apple.email a.email;
  password = or_else apple.password a.password;
  password_token = or_else apple.password_token a.password_token;
  directory_services_identifier =
      or_else apple.directory_services_identifier a.directory_services_id;
  store_front = or_else apple.store_front a.store_front;
  pod = or_else apple.pod a.pod;
}

-- `json.Unmarshal` into a `Config` and into the nested account of version 1, and
-- `json.MarshalIndent`.
pub record Json : Type 0 where
  pub unmarshal : Bytes → Option Config
  pub nested : Bytes → Option Account
  pub marshal : Config → Option Bytes

-- The files at the path and at the path with `.tmp` (none: no file).
pub record Disk : Type 0 where
  pub file : Option Bytes
  pub tmp : Option Bytes

-- What fails. `part` is what a failing write has written.
pub record Faults : Type 0 where
  pub read : Option IoError
  pub mkdir : Option IoError
  pub open_tmp : Option IoError
  pub write : Option IoError
  pub part : Bytes
  pub sync : Option IoError
  pub close : Option IoError
  pub rename : Option IoError

-- A Go result: the new disk with a value, or with an error.
pub data Done {ℓ} (A : Type ℓ) : Type ℓ where
  done : Disk → A → Done A
  failed : Disk → ConfigError → Done A

-- `Save` from `f.Write` on, with the temporary file created.
unfoldable pub write_tmp : Faults → Disk → Config → Bytes → Done Config
write_tmp faults disk c bs = elim faults.write [
  | some e ↦ failed (record disk { tmp = some faults.part }) (io e)
  | none ↦ elim faults.sync [
    | some e ↦ failed (record disk { tmp = some bs }) (io e)
    | none ↦ elim faults.close [
      | some e ↦ failed (record disk { tmp = some bs }) (io e)
      | none ↦ elim faults.rename [
        | some e ↦ failed (record disk { tmp = some bs }) (io e)
        | none ↦ done (record { file = some bs; tmp = none }) c
      ]
    ]
  ]
]

-- `Config.Save`; the value is the configuration that was saved.
unfoldable pub save : Json → Faults → Bytes → Disk → Config → Done Config
save json faults [] disk c = failed disk no_path
save json faults (p ∷ path) disk c = elim faults.mkdir [
  | some e ↦ failed disk (io e)
  | none ↦ elim (json.marshal c) [
    | none ↦ failed disk marshal_failed
    | some bs ↦ elim faults.open_tmp [
      | some e ↦ failed disk (io e)
      | none ↦ write_tmp faults disk c bs
    ]
  ]
]

-- `cfg.Version < 2`.
abbrev pub is_old : ℤ → Bool
is_old (pos n) = ltb n 2
is_old (negsuc n) = true

-- A version of 0, which is a missing one, counts as the current version.
abbrev pub or_current : ℤ → ℤ
or_current (pos n) = if n == 0 then schema_version else pos n
or_current (negsuc n) = negsuc n

-- The migrated configuration.
unfoldable pub migrated : Json → Bytes → Config → Config
migrated json bs c = record c { apple = migrate_apple (json.nested bs) c.apple; version = pos 2 }

-- `load` with the file read and parsed, and its version settled.
unfoldable pub load_parsed : Json → Faults → Bytes → Bool → Disk → Bytes → Config → Done Config
load_parsed json faults path persist disk bs c =
    let saved = save json faults path disk (migrated json bs c) in
    if not (is_old c.version)
    then done disk c
    else if persist
    then saved
    else done disk (migrated json bs c)

-- The error of a file that does not exist.
abbrev pub no_file : IoError
no_file = 0

unfoldable pub parse_file : Json → Faults → Bytes → Bool → Disk → Bytes → Done Config
parse_file json faults path persist disk bs = elim (json.unmarshal bs) [
  | none ↦ failed disk parse_failed
  | some c ↦
      load_parsed json faults path persist disk bs (record c { version = or_current c.version })
]

-- `Load` where `persist` is true, and `LoadReadOnly` where it is false.
unfoldable pub load : Json → Faults → Bytes → Bool → Disk → Done Config
load json faults path persist disk = elim faults.read [
  | some e ↦ failed disk (io e)
  | none ↦ elim disk.file [
    | none ↦ failed disk (io no_file)
    | some bs ↦ parse_file json faults path persist disk bs
  ]
]

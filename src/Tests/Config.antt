-- ===== src/Tests/Config.antt =====
-- Saving and loading of internal/config/config.go on a small file.
use ipadecrypt.Config.Files.{Saves, save-Saves, load-load}
use ipadecrypt.Config.{
  Account, Config, Json, Disk, Faults, done, write_tmp, save, migrate_apple, migrated, load_parsed,
  parse_file, load, normalize_output_keep, keep_desktop,
}
use ipadecrypt.Outcome.{ok}
use ipadecrypt.Prelude.Int.{pos}
use ipadecrypt.Prelude.Text.{codes, equal}
use ipadecrypt.Prelude.{
  arith, ◌≡◌, refl, false, true, Option, none, some, [], ◌∷◌, if◌then◌else◌, Bytes,
}

abbrev pub old_config : Config
old_config = record {
  version = pos 1;
  apple = record {
    email = codes "a";
    password = [];
    password_token = [];
    directory_services_identifier = [];
    store_front = [];
    pod = [];
  };
  device = record {
    host = [];
    port = pos 22;
    user = [];
    auth = record { kind = []; password = []; key_path = []; key_passphrase = [] };
    known_hosts_path = [];
    accept_new_host_key = false;
  };
  keep = [];
  warning_accepted = false;
  update_check = record { checked_at = pos 0; latest_tag = []; html_url = []; notified_at = pos 0 };
}

abbrev nested_account : Account
nested_account = record {
  email = codes "b";
  password = [];
  password_token = codes "t";
  directory_services_id = [];
  store_front = [];
  pod = [];
}

abbrev new_config : Config
new_config = record old_config {
  version = pos 2;
  apple = record old_config.apple { password_token = codes "t" };
}

abbrev parse : Bytes → Option Config
parse bs = if equal bs (1 ∷ []) then some old_config else some new_config

abbrev parse_nested : Bytes → Option Account
parse_nested bs = some nested_account

abbrev print : Config → Option Bytes
print c = some (2 ∷ [])

-- A package that knows the old file and the new one.
abbrev pub json : Json
json = record { unmarshal = parse; nested = parse_nested; marshal = print }

abbrev pub no_faults : Faults
no_faults = record {
  read = none;
  mkdir = none;
  open_tmp = none;
  write = none;
  part = [];
  sync = none;
  close = none;
  rename = none;
}

abbrev pub disk : Disk
disk = record { file = some (1 ∷ []); tmp = none }

abbrev new_disk : Disk
new_disk = record { file = some (2 ∷ []); tmp = none }

save-Saves_example : Saves json disk new_config (save json no_faults (codes "c") disk new_config)
save-Saves_example = save-Saves json no_faults (codes "c") disk new_config

loads : load json no_faults (codes "c") true disk ≡ done new_disk new_config
unfolding load parse_file load_parsed save write_tmp migrated migrate_apple equal
loads = refl

parses_back : (bs : Bytes) → print new_config ≡ some bs → parse bs ≡ some new_config
unfolding equal
parses_back bs h = ground arith

load-load_example : load json no_faults (codes "c") false new_disk ≡ done new_disk new_config
load-load_example =
    load-load json no_faults no_faults (codes "c") disk new_disk new_config parses_back loads refl

computer : normalize_output_keep (codes "computer") ≡ ok keep_desktop
unfolding normalize_output_keep equal
computer = refl

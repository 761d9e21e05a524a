-- ===== src/Tests/Workflow.antt =====
-- `WithAuth` of internal/appstoreworkflow/auth.go with a client that gives a token to everyone.
use ipadecrypt.Config.{Account, account, Disk, save, write_tmp}
use ipadecrypt.Prelude.Text.{codes}
use ipadecrypt.Prelude.{ℕ, ◌+◌, ◌≡◌, refl, some, List, [], ◌∷◌, ◌++◌, Bytes}
use ipadecrypt.Tests.Config.{old_config, json, no_faults, disk}
use ipadecrypt.Workflow.Bounded.{log_of, Story, QuietClient, with_auth-Story}
use ipadecrypt.Workflow.Recovers.{SignsIn, signed_in, with_auth-recovers}
use ipadecrypt.Workflow.{
  App, token_expired, AuthEvent, auth_reauth, auth_retrying_download, State, Run, returned, failed,
  Client, notify, config_account, with_auth_account,
}

abbrev app : App
app = record { id = 1; bundle_id = codes "b"; name = codes "n"; version = codes "1"; price = 0 }

-- The world is the number of logins.
abbrev gives_token : State ℕ → Bytes → Bytes → Bytes → Run ℕ Account
gives_token s email password code =
    returned (record s { world = s.world + 1 })
      (record {
        email = email;
        password = password;
        password_token = codes "t";
        directory_services_id = [];
        store_front = [];
        pod = [];
      })

abbrev sells : State ℕ → Account → App → Run ℕ (Unit {0})
sells s acc a = returned s tt

abbrev store : Client ℕ
store = record { login = gives_token; purchase = sells }

-- A call that needs a token, and answers with the number of logins.
abbrev answer_to : Bytes → State ℕ → Run ℕ ℕ
answer_to [] s = failed s token_expired
answer_to (_ ∷ _) s = returned s s.world

abbrev needs_token : Account → State ℕ → Run ℕ ℕ
needs_token acc s = answer_to acc.password_token s

abbrev signed_out : State ℕ
signed_out = record {
  world = 0;
  cfg = record old_config { apple = record old_config.apple { password = codes "p" } };
  disk = disk;
  log = [];
}

abbrev told : State ℕ
told = record signed_out { log = auth_reauth ∷ [] }

abbrev token : Account
token = record {
  email = codes "a";
  password = codes "p";
  password_token = codes "t";
  directory_services_id = [];
  store_front = [];
  pod = [];
}

abbrev logged_in : State ℕ
logged_in = record told { world = 1 }

abbrev saved_disk : Disk
saved_disk = record { file = some (2 ∷ []); tmp = disk.tmp }

signs_in :
    SignsIn store json no_faults
      (codes "c")
      (notify auth_reauth signed_out)
      logged_in
      token
      saved_disk
unfolding notify save write_tmp
signs_in = record { has_email = refl; has_password = refl; answered = refl; saved = refl }

abbrev at_end : State ℕ
at_end = notify auth_retrying_download (
    signed_in store json no_faults (codes "c") (notify auth_reauth signed_out) logged_in token
      saved_disk)

answers : needs_token token at_end ≡ returned at_end 1
unfolding notify
answers = refl

with_auth-recovers_example :
    with_auth_account store json no_faults
      (codes "c")
      (config_account store json no_faults (codes "c"))
      app
      needs_token
      3
      signed_out
    ≡ returned at_end 1
unfolding account
with_auth-recovers_example =
    with_auth-recovers store json no_faults (codes "c") app needs_token 1 signed_out signed_out
      logged_in at_end token_expired token saved_disk 1 refl refl signs_in answers

quiet : QuietClient store json no_faults (codes "c")
quiet = record { login = λ s a b c. refl; purchase = λ s acc a. refl }

still : (s : State ℕ) → log_of (config_account store json no_faults (codes "c") s) ≡ s.log
unfolding config_account
still s = refl

calm : (acc : Account) (s : State ℕ) → log_of (needs_token acc s) ≡ s.log
calm acc s = for_token acc.password_token
  where
    for_token : (t : Bytes) → log_of (answer_to t s) ≡ s.log
    for_token [] = refl
    for_token (c ∷ cs) = refl

with_auth-Story_example :
    (es : List AuthEvent) × (log_of (
        with_auth_account store json no_faults
          (codes "c")
          (config_account store json no_faults (codes "c"))
          app
          needs_token
          3
          signed_out)
      ≡ signed_out.log ++ es)
    × Story 3 es
with_auth-Story_example =
    with_auth-Story store json no_faults (codes "c") quiet
      (config_account store json no_faults (codes "c")) app still needs_token calm 3 signed_out

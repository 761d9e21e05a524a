-- ===== src/Workflow.antt =====
-- internal/appstoreworkflow/auth.go: sign-in again and licences around a call of the App Store.
-- The client is a parameter, with the world that its calls change; `onEvent` is a log.
pub mod Recovers
pub mod Bounded
use ipadecrypt.Config.{
  Apple, Account, account, set_account, Config, ConfigError, Json, Disk, Faults, Done, done, save,
}
use ipadecrypt.Config
use ipadecrypt.Prelude.{
  ℕ, zero, suc, Bool, true, false, not, ◌||◌, List, [], ◌∷◌, ◌++◌, if◌then◌else◌, Bytes,
}

-- `appstore.App`.
pub record App : Type 0 where
  pub id : ℕ
  pub bundle_id : Bytes
  pub name : Bytes
  pub version : Bytes
  pub price : ℕ

-- The errors. `wrapped` is `fmt.Errorf` with `%w`, which `errors.Is` sees through.
pub data Failure : Type 0 where
  token_expired license_required license_exists missing_credentials exhausted : Failure
  other : ℕ → Failure
  not_saved : ConfigError → Failure
  wrapped : Failure → Failure

-- `errors.Is(err, appstore.ErrPasswordTokenExpired)`, and so on.
abbrev pub is_token_expired : Failure → Bool
is_token_expired token_expired = true
is_token_expired (wrapped f) = is_token_expired f
is_token_expired _ = false

abbrev pub is_license_required : Failure → Bool
is_license_required license_required = true
is_license_required (wrapped f) = is_license_required f
is_license_required _ = false

abbrev pub is_license_exists : Failure → Bool
is_license_exists license_exists = true
is_license_exists (wrapped f) = is_license_exists f
is_license_exists _ = false

pub data AuthEvent : Type 0 where
  auth_reauth auth_license auth_retrying_download : AuthEvent

-- The state that the calls share.
pub record State (W : Type 0) : Type 0 where
  pub world : W
  pub cfg : Config
  pub disk : Disk
  pub log : List AuthEvent

-- A Go result with the state it leaves.
pub data Run (W A : Type 0) : Type 0 where
  returned : State W → A → Run W A
  failed : State W → Failure → Run W A

-- The calls of `appstore.Client` that this code makes.
pub record Client (W : Type 0) : Type 0 where
  pub login : State W → Bytes → Bytes → Bytes → Run W Account
  pub purchase : State W → Account → App → Run W (Unit {0})

unfoldable pub notify : {W : Type 0} → AuthEvent → State W → State W
notify e s = record s { log = s.log ++ e ∷ [] }

abbrev pub is_blank : Bytes → Bool
is_blank [] = true
is_blank (_ ∷ _) = false

-- What the operations are given.
module _ {W : Type 0} (store : Client W) (json : Json) (faults : Faults) (path : Bytes) where
  -- `cfg.Save()`.
  unfoldable pub save_config : State W → Run W (Unit {0})
  save_config s = elim (save json faults path s.disk s.cfg) [
    | done d c ↦ returned (record s { disk = d }) tt
    | Done.failed d e ↦ failed (record s { disk = d }) (wrapped (not_saved e))
  ]

  -- The configuration with the credentials and the account of a login.
  unfoldable pub with_login : Config → Bytes → Bytes → Account → Config
  with_login c email password acc = record c {
    apple = set_account (record c.apple { email = email; password = password }) acc;
  }

  unfoldable pub login_and_save : State W → Bytes → Bytes → Bytes → Run W (Unit {0})
  login_and_save s email password code = elim (store.login s email password code) [
    | failed t f ↦ failed t f
    | returned t acc ↦ save_config (record t { cfg = with_login t.cfg email password acc })
  ]

  -- An error of the sign-in is wrapped.
  unfoldable pub reauth_result : Run W (Unit {0}) → Run W (Unit {0})
  reauth_result (failed t f) = failed t (wrapped f)
  reauth_result (returned t u) = returned t u

  unfoldable pub reauth : State W → Run W (Unit {0})
  reauth s =
      if is_blank s.cfg.apple.email || is_blank s.cfg.apple.password
      then failed s missing_credentials
      else reauth_result (login_and_save s s.cfg.apple.email s.cfg.apple.password [])

  -- `err != nil && !errors.Is(err, appstore.ErrLicenseAlreadyExists)`.
  unfoldable pub settle_purchase : Run W (Unit {0}) → Run W (Unit {0})
  settle_purchase (returned t u) = returned t u
  settle_purchase (failed t f) = if is_license_exists f then returned t tt else failed t (wrapped f)

  -- The account of the configuration, which `AcquireLicense` and `WithAuth` provide.
  unfoldable pub config_account : State W → Run W Account
  config_account s = returned s (account s.cfg.apple)

  module _ (provider : State W → Run W Account) (app : App) where
    -- The second purchase, where the first one found the token expired. An error of the provider
    -- is returned as it is.
    unfoldable pub buy_again : State W → Run W (Unit {0})
    buy_again s = elim (reauth s) [
      | failed t f ↦ failed t f
      | returned t u ↦ elim (provider t) [
        | failed t' f ↦ failed t' f
        | returned t' acc ↦ settle_purchase (store.purchase t' acc app)
      ]
    ]

    unfoldable pub settle_first : Run W (Unit {0}) → Run W (Unit {0})
    settle_first (returned t u) = returned t u
    settle_first (failed t f) =
        if is_token_expired f then buy_again t else settle_purchase (failed t f)

    -- `AcquireLicenseWithAccount`.
    unfoldable pub acquire_license : State W → Run W (Unit {0})
    acquire_license s = elim (provider s) [
      | failed t f ↦ failed t f
      | returned t acc ↦ settle_first (store.purchase t acc app)
    ]

    module _ {T : Type 0} (fn : Account → State W → Run W T) where
      -- A recovery, then the loop's next round.
      unfoldable pub recovered : Run W (Unit {0}) → (State W → Run W T) → Run W T
      recovered (failed t f) rest = failed t f
      recovered (returned t u) rest = rest (notify auth_retrying_download t)

      -- What a failed call leads to.
      unfoldable pub recover : State W → Failure → (State W → Run W T) → Run W T
      recover s f rest =
          if is_token_expired f
          then recovered (reauth (notify auth_reauth s)) rest
          else if is_license_required f
          then recovered (acquire_license (notify auth_license s)) rest
          else failed s f

      unfoldable pub settle_call : Run W T → (State W → Run W T) → Run W T
      settle_call (returned t out) rest = returned t out
      settle_call (failed t f) rest = recover t f rest

      -- One round of the loop.
      unfoldable pub auth_round : State W → (State W → Run W T) → Run W T
      auth_round s rest = elim (provider s) [
        | failed t f ↦ failed t f
        | returned t acc ↦ settle_call (fn acc t) rest
      ]

      -- `WithAuthAccount`: the number counts the rounds left.
      unfoldable pub with_auth_account : ℕ → State W → Run W T
      with_auth_account zero s = failed s exhausted
      with_auth_account (suc n) s = auth_round s (λ t. with_auth_account n t)

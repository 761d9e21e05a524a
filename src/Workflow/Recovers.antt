-- ===== src/Workflow/Recovers.antt =====
-- A call that finds its token expired is made again with the account of a new sign-in.
use ipadecrypt.Config.{Account, account, set_account, Json, Disk, Faults, done, save}
use ipadecrypt.Prelude.{ℕ, suc, ◌≡◌, refl, ap, ◌∙◌, true, false, arith, [], Bytes}
use ipadecrypt.Workflow.{
  App, Failure, is_token_expired, auth_reauth, auth_retrying_download, State, Run, returned, failed,
  Client, notify, save_config, with_login, login_and_save, reauth_result, is_blank, reauth,
  config_account, recovered, recover, settle_call, auth_round, with_auth_account,
}

module _ {W : Type 0} (store : Client W) (json : Json) (faults : Faults) (path : Bytes) where
  -- A sign-in with the stored credentials that succeeds, from the state `s`: the App Store answers
  -- with `acc` in the state `t`, and the new configuration is saved on the disk `d`.
  pub record SignsIn (s t : State W) (acc : Account) (d : Disk) : Type 0 where
    pub has_email : is_blank s.cfg.apple.email ≡ false
    pub has_password : is_blank s.cfg.apple.password ≡ false
    pub answered : store.login s s.cfg.apple.email s.cfg.apple.password [] ≡ returned t acc
    pub saved :
        save json faults path t.disk
          (with_login store json faults path t.cfg s.cfg.apple.email s.cfg.apple.password acc)
        ≡ done d
            (with_login store json faults path t.cfg s.cfg.apple.email s.cfg.apple.password acc)

  -- The state behind that sign-in.
  abbrev pub signed_in : (s t : State W) → Account → Disk → State W
  signed_in s t acc d = record t {
    cfg = with_login store json faults path t.cfg s.cfg.apple.email s.cfg.apple.password acc;
    disk = d;
  }

  login_done :
      (s t : State W) (acc : Account) (d : Disk)
      → SignsIn s t acc d
      → login_and_save store json faults path s s.cfg.apple.email s.cfg.apple.password []
        ≡ returned (signed_in s t acc d) tt
  unfolding login_and_save save_config
  login_done s t acc d h = ground (arith, h.answered, h.saved)

  reauth_done :
      (s t : State W) (acc : Account) (d : Disk)
      → SignsIn s t acc d
      → reauth store json faults path s ≡ returned (signed_in s t acc d) tt
  unfolding reauth reauth_result
  reauth_done s t acc d h = ground (arith, h.has_email, h.has_password, login_done s t acc d h)

  module _ {T : Type 0} (app : App) (fn : Account → State W → Run W T) where
    loop : ℕ → State W → Run W T
    loop n s =
        with_auth_account store json faults path (config_account store json faults path) app fn n s

    settle : Run W T → (State W → Run W T) → Run W T
    settle r rest =
        settle_call store json faults path (config_account store json faults path) app fn r rest

    loop_step :
        (n : ℕ) (s : State W) → loop (suc n) s ≡ settle (fn (account s.cfg.apple) s) (loop n)
    unfolding loop settle with_auth_account auth_round config_account
    loop_step n s = refl

    settle_expired :
        (rest : State W → Run W T) (s t : State W) (f : Failure) (acc : Account) (d : Disk)
        → is_token_expired f ≡ true
        → SignsIn (notify auth_reauth s) t acc d
        → settle (failed s f) rest
          ≡ rest (notify auth_retrying_download (signed_in (notify auth_reauth s) t acc d))
    unfolding settle settle_call recover recovered
    settle_expired rest s t f acc d e h =
        ground (arith, e, reauth_done (notify auth_reauth s) t acc d h)

    settle_returned :
        (rest : State W → Run W T) (s : State W) (a : T) → settle (returned s a) rest ≡ returned s a
    unfolding settle settle_call
    settle_returned rest s a = refl

    signed_in-cfg :
        (s t : State W) (acc : Account) (d : Disk)
        → account (notify auth_retrying_download (signed_in s t acc d)).cfg.apple ≡ acc
    unfolding notify with_login account set_account
    signed_in-cfg s t acc d = refl

    -- Where the call finds its token expired, the sign-in with the stored credentials succeeds, and
    -- the call succeeds with the account that the sign-in has answered with, `WithAuth` with two
    -- rounds or more returns the call's value.
    pub with_auth-recovers :
        (n : ℕ) (s s' t u : State W) (f : Failure) (acc : Account) (d : Disk) (out : T)
        → fn (account s.cfg.apple) s ≡ failed s' f
        → is_token_expired f ≡ true
        → SignsIn (notify auth_reauth s') t acc d
        → fn acc (notify auth_retrying_download (signed_in (notify auth_reauth s') t acc d))
          ≡ returned u out
        → with_auth_account store json faults path
            (config_account store json faults path)
            app
            fn
            (suc (suc n))
            s
          ≡ returned u out
    unfolding loop
    with_auth-recovers n s s' t u f acc d out first expired signs second =
        let here = notify auth_reauth s' in
        let next = notify auth_retrying_download (signed_in here t acc d) in
        let call : fn (account next.cfg.apple) next ≡ returned u out =
          ap (λ a. fn a next) (signed_in-cfg here t acc d) ∙ second in
        loop_step (suc n) s
        ∙ ap (λ r. settle r (loop (suc n))) first
        ∙ settle_expired (loop (suc n)) s' t f acc d expired signs
        ∙ loop_step n next
        ∙ ap (λ r. settle r (loop n)) call
        ∙ settle_returned (loop n) u out

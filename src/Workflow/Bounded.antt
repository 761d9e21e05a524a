-- ===== src/Workflow/Bounded.antt =====
-- What `WithAuthAccount` reports, and that its rounds are counted.
use ipadecrypt.Config.{Account, Json, Faults}
use ipadecrypt.Prelude.{
  ℕ, zero, suc, ◌≡◌, ◌⊎◌, inl, inr, refl, sym, ap, ◌∙◌, arith, List, [], ◌∷◌, ◌++◌, Bytes,
  append-nil, append_assoc, Bool-cases,
}
use ipadecrypt.Workflow.{
  App, Failure, is_token_expired, is_license_required, AuthEvent, auth_reauth, auth_license,
  auth_retrying_download, State, Run, returned, failed, Client, notify, save_config, with_login,
  login_and_save, reauth_result, reauth, settle_purchase, buy_again, settle_first, acquire_license,
  recovered, recover, settle_call, auth_round, with_auth_account,
}

-- The log that a call leaves.
abbrev pub log_of : {W A : Type 0} → Run W A → List AuthEvent
log_of (returned s a) = s.log
log_of (failed s f) = s.log

-- The events of at most `n` rounds: each new attempt is announced, behind a sign-in or a licence.
pub data Story : ℕ → List AuthEvent → Type 0 where
  ended : {n : ℕ} → Story n []
  broken_off :
      {n : ℕ} {e : AuthEvent} → (e ≡ auth_reauth) ⊎ (e ≡ auth_license) → Story (suc n) (e ∷ [])
  tried_again :
      {n : ℕ} {e : AuthEvent} {es : List AuthEvent}
      → (e ≡ auth_reauth) ⊎ (e ≡ auth_license)
      → Story n es
      → Story (suc n) (e ∷ auth_retrying_download ∷ es)

Run-cases :
    {W A : Type 0} (r : Run W A)
    → ((t : State W) × (a : A) × (r ≡ returned t a))
      ⊎ ((t : State W) × (f : Failure) × (r ≡ failed t f))
Run-cases (returned t a) = inl (t, a, refl)
Run-cases (failed t f) = inr (t, f, refl)

module _ {W : Type 0} (store : Client W) (json : Json) (faults : Faults) (path : Bytes) where
  -- The client reports no event of its own.
  pub record QuietClient : Type 0 where
    pub login : (s : State W) (a b c : Bytes) → log_of (store.login s a b c) ≡ s.log
    pub purchase :
        (s : State W) (acc : Account) (app : App) → log_of (store.purchase s acc app) ≡ s.log

  save_config-log : (s : State W) → log_of (save_config store json faults path s) ≡ s.log
  unfolding save_config
  save_config-log s = ground arith

  module _ (quiet : QuietClient) where
    login_and_save-log :
        (s : State W) (a b c : Bytes)
        → log_of (login_and_save store json faults path s a b c) ≡ s.log
    unfolding login_and_save
    login_and_save-log s a b c = elim (Run-cases (store.login s a b c)) [
      | inl (t, acc, e) ↦ ground (
        arith,
        e,
        quiet.login s a b c,
        save_config-log (record t { cfg = with_login store json faults path t.cfg a b acc }),
      )
      | inr (t, f, e) ↦ ground (arith, e, quiet.login s a b c)
    ]

    reauth-log : (s : State W) → log_of (reauth store json faults path s) ≡ s.log
    unfolding reauth reauth_result
    reauth-log s = ground (arith, login_and_save-log s s.cfg.apple.email s.cfg.apple.password [])

    settle_purchase-log :
        (r : Run W (Unit {0})) → log_of (settle_purchase store json faults path r) ≡ log_of r
    unfolding settle_purchase
    settle_purchase-log r = ground arith

    module _ (provider : State W → Run W Account) (app : App)
        (still : (s : State W) → log_of (provider s) ≡ s.log) where
      buy_again-log :
          (s : State W) → log_of (buy_again store json faults path provider app s) ≡ s.log
      unfolding buy_again
      buy_again-log s = elim (Run-cases (reauth store json faults path s)) [
        | inr (t, f, e) ↦ ground (arith, e, reauth-log s)
        | inl (t, u, e) ↦ elim (Run-cases (provider t)) [
          | inr (t', f, e') ↦ ground (arith, e, e', reauth-log s, still t)
          | inl (t', acc, e') ↦ ground (
            arith,
            e,
            e',
            reauth-log s,
            still t,
            settle_purchase-log (store.purchase t' acc app),
            quiet.purchase t' acc app,
          )
        ]
      ]

      settle_first-log :
          (r : Run W (Unit {0}))
          → log_of (settle_first store json faults path provider app r) ≡ log_of r
      unfolding settle_first
      settle_first-log (returned t u) = refl
      settle_first-log (failed t f) =
          ground (arith, buy_again-log t, settle_purchase-log (failed t f))

      acquire_license-log :
          (s : State W) → log_of (acquire_license store json faults path provider app s) ≡ s.log
      unfolding acquire_license
      acquire_license-log s = elim (Run-cases (provider s)) [
        | inr (t, f, e) ↦ ground (arith, e, still s)
        | inl (t, acc, e) ↦ ground (
          arith,
          e,
          still s,
          settle_first-log (store.purchase t acc app),
          quiet.purchase t acc app,
        )
      ]

      module _ {T : Type 0} (fn : Account → State W → Run W T)
          (calm : (acc : Account) (s : State W) → log_of (fn acc s) ≡ s.log) where
        -- The log of a run that begins with `before`.
        record Told (n : ℕ) (before : List AuthEvent) (r : Run W T) : Type 0 where
          events : List AuthEvent
          log_is : log_of r ≡ before ++ events
          story : Story n events

        recovered-Told :
            (n : ℕ) (before : List AuthEvent) (e : AuthEvent) (r : Run W (Unit {0}))
            (rest : State W → Run W T)
            → (e ≡ auth_reauth) ⊎ (e ≡ auth_license)
            → log_of r ≡ before ++ e ∷ []
            → ((t : State W) → Told n t.log (rest t))
            → Told (suc n) before (recovered store json faults path provider app fn r rest)
        unfolding recovered notify
        recovered-Told n before e (failed t f) rest k l ih = record {
          events = e ∷ [];
          log_is = l;
          story = broken_off k;
        }
        recovered-Told n before e (returned t u) rest k l ih =
            let h = ih (notify auth_retrying_download t) in
            record {
              events = e ∷ auth_retrying_download ∷ h.events;
              log_is =
                  h.log_is
                  ∙ ap (λ x. (x ++ auth_retrying_download ∷ []) ++ h.events) l
                  ∙ ap (λ x. x ++ h.events)
                      (append_assoc before (e ∷ []) (auth_retrying_download ∷ []))
                  ∙ append_assoc before (e ∷ auth_retrying_download ∷ []) h.events;
              story = tried_again k h.story;
            }

        settle_call-Told :
            (n : ℕ) (r : Run W T) (rest : State W → Run W T)
            → ((t : State W) → Told n t.log (rest t))
            → Told (suc n) (log_of r) (settle_call store json faults path provider app fn r rest)
        unfolding settle_call recover notify
        settle_call-Told n (returned t out) rest ih = record {
          events = [];
          log_is = sym (append-nil t.log);
          story = ended;
        }
        settle_call-Told n (failed t f) rest ih = elim (Bool-cases (is_token_expired f)) [
          | inl expired ↦ rw expired (
              recovered-Told n t.log auth_reauth _ rest (inl refl)
                (reauth-log (notify auth_reauth t)) ih)
          | inr alive ↦ elim (Bool-cases (is_license_required f)) [
            | inl unlicensed ↦
                rw (alive, unlicensed)
                  (recovered-Told n t.log auth_license _ rest (inr refl)
                    (acquire_license-log (notify auth_license t)) ih)
            | inr licensed ↦
                rw (alive, licensed)
                  (record { events = []; log_is = sym (append-nil t.log); story = ended })
          ]
        ]

        abbrev loop : ℕ → State W → Run W T
        loop n s = with_auth_account store json faults path provider app fn n s

        loop_provided :
            (n : ℕ) (s t : State W) (acc : Account)
            → provider s ≡ returned t acc
            → loop (suc n) s
              ≡ settle_call store json faults path provider app fn (fn acc t) (loop n)
        unfolding with_auth_account auth_round
        loop_provided n s t acc e = ground (arith, e)

        loop_refused :
            (n : ℕ) (s t : State W) (f : Failure)
            → provider s ≡ failed t f
            → loop (suc n) s ≡ failed t f
        unfolding with_auth_account auth_round
        loop_refused n s t f e = ground (arith, e)

        told :
            (n : ℕ) (s : State W)
            → Told n s.log (with_auth_account store json faults path provider app fn n s)
        unfolding with_auth_account
        told zero s = record { events = []; log_is = sym (append-nil s.log); story = ended }
        told (suc n) s = elim (Run-cases (provider s)) [
          | inr (t, f, e) ↦
              let same : t.log ≡ s.log = sym (ap log_of e) ∙ still s in
              record {
                events = [];
                log_is = ap log_of (loop_refused n s t f e) ∙ same ∙ sym (append-nil s.log);
                story = ended;
              }
          | inl (t, acc, e) ↦
              let same : log_of (fn acc t) ≡ s.log = calm acc t ∙ sym (ap log_of e) ∙ still s in
              let h = settle_call-Told n (fn acc t) (loop n) (told n) in
              record {
                events = h.events;
                log_is =
                    ap log_of (loop_provided n s t acc e) ∙ h.log_is ∙ ap (λ x. x ++ h.events) same;
                story = h.story;
              }
        ]

        -- `WithAuthAccount` reports at most one recovery for each round, and announces each new
        -- attempt behind a recovery, where the calls report no events of their own.
        pub with_auth-Story :
            (n : ℕ) (s : State W)
            → (es : List AuthEvent) × (log_of
                  (with_auth_account store json faults path provider app fn n s)
                ≡ s.log ++ es)
              × Story n es
        with_auth-Story n s = let h = told n s in (h.events, h.log_is, h.story)

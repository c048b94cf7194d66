-- ===== src/Auth/Attempts.antt =====
-- The attempts to use a password or a code.
use vibehouse_backend.Common.{
  ℕ, ◌≡◌, ◌≢◌, refl, true, false, not, some, List, [], ◌∷◌, ◌==◌, where_, update_where,
  delete_where, Option-cases, Bool-cases, inl, inr, ap, sym, arith,
}
use vibehouse_backend.Exec.{
  Error, Result, ok, err, continue, gets, or_throw, throw_if, pure, ◌>>=◌, ◌>>◌,
}
use vibehouse_backend.Auth.{
  Account, OtpPurpose, password_reset, Otp, Token, Auth, AuthServices, Act, account_by_email,
  issue_token, set_accounts, set_otps, hash,
}
use vibehouse_backend.Auth.Codes.{is_live, live_otp, verify_otp, reset_password}
use vibehouse_backend.Auth.Link.{auto_link}
use vibehouse_backend.Auth.Login.{requires_2fa, logged_in, admit, login, verify_two_fa}

module _ (env : AuthServices) where
  used_up :
      (guest : ℕ) (purpose : OtpPurpose) (now k : ℕ) (os : List Otp)
      → where_
          (is_live guest purpose now)
          (update_where (λ o. o.id == k) (λ o. record o { used = true }) os)
        ≡ delete_where (λ o. o.id == k) (where_ (is_live guest purpose now) os)
  unfolding where_ update_where delete_where
  used_up guest purpose now k [] = refl
  used_up guest purpose now k (o ∷ os) = ground (arith, used_up guest purpose now k os)

  -- What a password reset has used and written.
  abbrev pub UsesCode : (email otp password : ℕ) → Auth → Token → Type 0
  UsesCode email otp password s t =
      (guest : Account) × (log : Otp) × (account_by_email email s ≡ some guest)
      × (live_otp guest.id password_reset s ≡ some log)
      × (env.bcrypt_compare otp log.otp_hash ≡ true)
      × (t ≡ issue_token guest)
      × ((reset_password env email otp password s).1.accounts
          ≡ update_where (λ a. a.id == guest.id)
              (λ a. record a { password_hash = some (env.bcrypt_hash s.drawn password) })
              s.accounts)
      × ((g : ℕ) (purpose : OtpPurpose)
          → where_ (is_live g purpose s.now) (reset_password env email otp password s).1.otps
            ≡ delete_where (λ o. o.id == log.id) (where_ (is_live g purpose s.now) s.otps))

  -- A password is reset only with the newest live code of the account with that email, which is
  -- used up by that: afterwards the live codes of each guest and purpose are those before without
  -- it. Of the accounts only that one changes, and only in its password.
  pub reset_password_lem :
      (email otp password : ℕ) (s : Auth) {t : Token}
      → (reset_password env email otp password s).0 ≡ ok t
      → UsesCode email otp password s t
  unfolding reset_password hash set_accounts set_otps ◌>>=◌
  reset_password_lem email otp password s done = elim (Option-cases (account_by_email email s)) [
    | inl missing ↦ absurd (cc (rw missing at done))
    | inr (guest, found) ↦ elim (Option-cases (live_otp guest.id password_reset s)) [
      | inl none_live ↦ absurd (cc (rw (found, none_live) at done))
      | inr (log, live) ↦ elim (Bool-cases (env.bcrypt_compare otp log.otp_hash)) [
        | inr wrong ↦ absurd (cc (rw (found, live, wrong) at done))
        | inl right ↦
            let e = rw (found, live, right) at done in
            (
              guest,
              log,
              found,
              live,
              right,
              sym (ap (λ r. elim r [ ok x ↦ x | err x ↦ issue_token guest ]) e),
              rw (found, live, right) refl,
              λ g purpose. rw (found, live, right) (used_up g purpose s.now log.id s.otps),
            )
      ]
    ]
  ]

  second_factor :
      {t : Token} (r : Result (Unit {0})) (s : Auth)
      → (continue r (λ _. pure requires_2fa) s).0 ≢ ok (logged_in t)
  unfolding ◌>>=◌
  second_factor (ok a) s e = cc
  second_factor (err a) s e = cc

  -- The token is that of the account with the email, without a second factor, and the password
  -- is the account's.
  abbrev pub OwnPassword : (address password : ℕ) → Auth → Token → Type 0
  OwnPassword address password s t =
      (guest : Account) × (h : ℕ) × (account_by_email address s ≡ some guest)
      × (guest.two_fa_enabled ≡ false)
      × (guest.password_hash ≡ some h)
      × (env.bcrypt_compare password h ≡ true)
      × (t ≡ issue_token guest)

  -- A token comes out of the password alone only if the account has no second factor, and the
  -- password is its own.
  pub login_lem :
      (address password : ℕ) (s : Auth) {t : Token}
      → (login env address password s).0 ≡ ok (logged_in t)
      → OwnPassword address password s t
  unfolding login admit auto_link ◌>>=◌
  login_lem address password s {t} done = elim (Option-cases (account_by_email address s)) [
    | inl missing ↦ absurd (cc (rw missing at done))
    | inr (guest, found) ↦ elim (Option-cases guest.password_hash) [
      | inl google ↦ absurd (cc (rw (found, google) at done))
      | inr (h, has) ↦ elim (Bool-cases (env.bcrypt_compare password h)) [
        | inr wrong ↦ absurd (cc (rw (found, has, wrong) at done))
        | inl right ↦ elim (Bool-cases guest.two_fa_enabled) [
          | inl second ↦ absurd (second_factor _ _ (rw (found, has, right, second) at done))
          | inr single ↦
              let e = rw (found, has, right, single) at done in
              (
                guest,
                h,
                found,
                single,
                has,
                right,
                sym (
                    ap
                      (λ r. elim r [
                        | ok x ↦ elim x [ logged_in y ↦ y | requires_2fa ↦ t ]
                        | err x ↦ t
                      ])
                      e),
              )
        ]
      ]
    ]
  ]

  -- The tests that the three have in common; what follows them does not throw.
  attempt_refused :
      (unknown missing wrong : Error) (purpose : OtpPurpose) (address otp : ℕ)
      (rest : Account → Otp → Act Token) (s : Auth) (e : Error)
      → ((g : Account) (log : Otp) → (rest g log s).0 ≢ err e)
      → let act = gets (account_by_email address) >>= λ o. or_throw o unknown >>= λ g.
          gets (live_otp g.id purpose) >>= λ l. or_throw l missing >>= λ log.
          throw_if (not (env.bcrypt_compare otp log.otp_hash)) wrong >> rest g log in
        (act s).0 ≡ err e → (act s).1 ≡ s
  unfolding ◌>>=◌
  attempt_refused unknown missing wrong purpose address otp rest s e goes_on refused =
      elim (Option-cases (account_by_email address s)) [
        | inl no_account ↦ rw no_account refl
        | inr (guest, found) ↦ elim (Option-cases (live_otp guest.id purpose s)) [
          | inl none_live ↦ rw (found, none_live) refl
          | inr (log, live) ↦ elim (Bool-cases (env.bcrypt_compare otp log.otp_hash)) [
            | inr bad ↦ rw (found, live, bad) refl
            | inl right ↦ absurd (goes_on guest log (rw (found, live, right) at refused))
          ]
        ]
      ]

  -- An attempt that is refused, of a code for the email, for the second factor or for a new
  -- password, changes nothing.
  pub refused_lem :
      (address otp password : ℕ) (s : Auth)
      → ((e : Error)
          → (verify_otp env address otp s).0 ≡ err e
          → (verify_otp env address otp s).1 ≡ s)
        × ((e : Error)
            → (verify_two_fa env address otp s).0 ≡ err e
            → (verify_two_fa env address otp s).1 ≡ s)
        × ((e : Error)
            → (reset_password env address otp password s).0 ≡ err e
            → (reset_password env address otp password s).1 ≡ s)
  unfolding verify_otp verify_two_fa reset_password hash set_accounts set_otps admit auto_link ◌>>=◌
  refused_lem address otp password s = (
    (λ e. attempt_refused _ _ _ _ address otp _ s e λ g log ended. cc),
    (λ e. attempt_refused _ _ _ _ address otp _ s e λ g log ended. cc),
    λ e. attempt_refused _ _ _ _ address otp _ s e λ g log ended. cc,
  )

-- ===== src/Auth/Login.antt =====
-- The ways to a token: signup, the password, the second factor, Google.
use vibehouse_backend.Common.{
  is_some, ℕ, Bool, true, false, not, Option, none, some, ◌==◌, if◌then◌else◌, find, update_where,
}
use vibehouse_backend.Exec.{
  pure, gets, or_throw, throw_if, if_found, ◌>>=◌, ◌>>◌, conflict, guest_not_found, unauthorized,
  otp_not_found,
}
use vibehouse_backend.Auth.{
  Account, email_verification, two_fa, email_provider, google_provider, Token, Auth, AuthServices,
  Act, account_by_email, account_by_phone, issue_token, provider_of, set_accounts, insert_account,
  insert_provider, draw_id, hash, send_otp_email,
}
use vibehouse_backend.Auth.Codes.{live_otp, mark_used, create_otp, send_two_fa_otp}
use vibehouse_backend.Auth.Link.{quietly, auto_link}

pub record Signup : Type 0 where
  pub address : ℕ
  pub phone : Option ℕ
  pub password : ℕ

pub data LoginAnswer : Type 0 where
  requires_2fa : LoginAnswer
  logged_in : Token → LoginAnswer

pub record GoogleUser : Type 0 where
  pub google_id : ℕ
  pub address : Option ℕ

-- The account of an id; a join along a foreign key, so it is there.
abbrev pub account_of : ℕ → Auth → Option Account
account_of id s = find (λ a. a.id == id) s.accounts

module _ (env : AuthServices) where
  -- The token that the guest gets; the bookings are linked on the way.
  unfoldable pub admit : Account → Act Token
  unfolding ◌>>=◌
  admit guest = do auto_link env guest; pure (issue_token guest)

  -- A code whose mail fails stays in the table here.
  unfoldable pub greet : (guest address : ℕ) → Act (Unit {0})
  unfolding ◌>>=◌
  greet guest address =
      quietly (create_otp env guest email_verification >>= λ o. send_otp_email env address o.1)

  unfoldable pub signup : Signup → Act Token
  unfolding ◌>>=◌
  signup dto = do
    taken ← gets (account_by_email dto.address)
    throw_if (is_some taken) conflict
    phone_taken ← gets (λ s. elim dto.phone [ none ↦ none | some p ↦ account_by_phone p s ])
    throw_if (is_some phone_taken) conflict
    h ← hash env dto.password
    id ← draw_id env
    let guest : Account = record {
      id = id;
      email = some dto.address;
      phone = dto.phone;
      password_hash = some h;
      email_verified = false;
      phone_verified = false;
      two_fa_enabled = false;
    }
    insert_account guest
    insert_provider
        (record { guest_id = id; provider = email_provider; provider_uid = dto.address })
    token ← admit guest
    greet id dto.address
    pure token

  unfoldable pub login : (address password : ℕ) → Act LoginAnswer
  unfolding ◌>>=◌
  login address password = do
    guest ← or_throw (← gets (account_by_email address)) unauthorized
    h ← or_throw guest.password_hash unauthorized
    throw_if (not (env.bcrypt_compare password h)) unauthorized
    if guest.two_fa_enabled
        then (do send_two_fa_otp env guest.id address; pure requires_2fa)
        else (do token ← admit guest; pure (logged_in token))

  unfoldable pub verify_two_fa : (address otp : ℕ) → Act Token
  unfolding ◌>>=◌
  verify_two_fa address otp = do
    guest ← or_throw (← gets (account_by_email address)) unauthorized
    log ← or_throw (← gets (live_otp guest.id two_fa)) otp_not_found
    throw_if (not (env.bcrypt_compare otp log.otp_hash)) unauthorized
    mark_used log.id
    admit guest

  -- An account with the Google user's email gets Google as a second provider, and its email is
  -- verified by that.
  unfoldable pub link_google : GoogleUser → Account → Act Token
  unfolding ◌>>=◌
  link_google user guest = do
    insert_provider
        (record { guest_id = guest.id; provider = google_provider; provider_uid = user.google_id })
    set_accounts (update_where (λ a. a.id == guest.id) λ a. record a { email_verified = true })
    admit (record guest { email_verified = true })

  unfoldable pub join_google : GoogleUser → Act Token
  unfolding ◌>>=◌
  join_google user = do
    id ← draw_id env
    let guest : Account = record {
      id = id;
      email = user.address;
      phone = none;
      password_hash = none;
      email_verified = true;
      phone_verified = false;
      two_fa_enabled = false;
    }
    insert_account guest
    insert_provider
        (record { guest_id = id; provider = google_provider; provider_uid = user.google_id })
    admit guest

  unfoldable pub google_login : GoogleUser → Act Token
  unfolding ◌>>=◌
  google_login user = do
    existing ← gets (provider_of google_provider user.google_id)
    if_found existing
        (λ p. do guest ← or_throw (← gets (account_of p.guest_id)) guest_not_found; admit guest)
        (do
          by_email ← gets (λ s. elim user.address [ none ↦ none | some e ↦ account_by_email e s ])
          if_found by_email (link_google user) (join_google user))

-- `update` of a guest that is not there throws.
unfoldable pub toggle_two_fa : ℕ → Bool → Act (Unit {0})
unfolding ◌>>=◌
toggle_two_fa guest enabled = do
  or_throw (← gets (account_of guest)) guest_not_found
  set_accounts (update_where (λ a. a.id == guest) λ a. record a { two_fa_enabled = enabled })

unfoldable pub get_me : ℕ → Act Account
unfolding ◌>>=◌
get_me guest = do row ← gets (account_of guest); or_throw row unauthorized

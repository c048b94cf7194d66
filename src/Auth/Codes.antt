-- ===== src/Auth/Codes.antt =====
-- One-time codes: how they are made, found, sent and used.
use vibehouse_backend.Common.{
  is_some, ℕ, ◌+◌, Bool, true, false, ◌&&◌, not, Option, some, [], ◌∷◌, ◌++◌, ◌==◌, ltb, leb, find,
  find_last, update_where, delete_where,
}
use vibehouse_backend.Exec.{
  ok, err, pure, gets, or_throw, throw_if, if_found, ◌>>=◌, ◌>>◌, guest_not_found, bad_request,
  google_account, wait_before_resend, otp_not_found, invalid_otp,
}
use vibehouse_backend.Auth.{
  OtpPurpose, email_verification, two_fa, password_reset, purpose_eq, Otp, Token, Auth,
  AuthServices, Act, account_by_email, issue_token, set_accounts, set_otps, draw_id, draw_otp, hash,
  send_otp_email,
}

-- A code of the guest, for the purpose, that has not been used.
abbrev pub is_unused : ℕ → OtpPurpose → Otp → Bool
is_unused guest purpose o = o.guest_id == guest && purpose_eq o.purpose purpose && not o.used

-- `created_at: { gte: now - 60_000 }`
abbrev pub recent_otp : ℕ → OtpPurpose → Auth → Option Otp
recent_otp guest purpose s =
    find (λ o. is_unused guest purpose o && leb s.now (o.created_at + 60000)) s.otps

-- `expires_at: { gt: now }`
abbrev pub is_live : ℕ → OtpPurpose → ℕ → Otp → Bool
is_live guest purpose now o = is_unused guest purpose o && ltb now o.expires_at

abbrev pub live_otp : ℕ → OtpPurpose → Auth → Option Otp
live_otp guest purpose s = find_last (is_live guest purpose s.now) s.otps

abbrev pub mark_used : ℕ → Act (Unit {0})
mark_used id = set_otps (update_where (λ o. o.id == id) λ o. record o { used = true })

abbrev pub drop_otp : ℕ → Act (Unit {0})
drop_otp id = set_otps (delete_where λ o. o.id == id)

-- A `catch` that cleans up and throws again.
abbrev pub or_undo : Act (Unit {0}) → Act (Unit {0}) → Act (Unit {0})
or_undo act undo s =
    let (r, s') = act s in elim r [ ok _ ↦ (ok tt, s') | err e ↦ (err e, (undo s').1) ]

module _ (env : AuthServices) where
  -- The row and the code that it is the hash of.
  unfoldable pub create_otp : (guest : ℕ) → OtpPurpose → Act (ℕ × ℕ)
  unfolding ◌>>=◌
  create_otp guest purpose = do
    otp ← draw_otp env
    otp_hash ← hash env otp
    now ← gets (λ s. s.now)
    id ← draw_id env
    set_otps λ rows.
        rows
        ++ record {
          id = id;
          guest_id = guest;
          purpose = purpose;
          otp_hash = otp_hash;
          expires_at = now + 600000;
          used = false;
          created_at = now;
        }
          ∷ []
    pure (id, otp)

  unfoldable pub mail_new_otp : (guest email : ℕ) → OtpPurpose → Act (Unit {0})
  unfolding ◌>>=◌
  mail_new_otp guest email purpose = do
    o ← create_otp guest purpose
    or_undo (send_otp_email env email o.1) (drop_otp o.0)

  unfoldable pub send_otp : (email : ℕ) → Act (Unit {0})
  unfolding ◌>>=◌
  send_otp email = do
    guest ← or_throw (← gets (account_by_email email)) guest_not_found
    throw_if guest.email_verified bad_request
    recent ← gets (recent_otp guest.id email_verification)
    throw_if (is_some recent) wait_before_resend
    mail_new_otp guest.id email email_verification

  unfoldable pub forgot_password : (email : ℕ) → Act (Unit {0})
  unfolding ◌>>=◌
  forgot_password email = do
    guest ← or_throw (← gets (account_by_email email)) guest_not_found
    throw_if (not (is_some guest.password_hash)) google_account
    recent ← gets (recent_otp guest.id password_reset)
    throw_if (is_some recent) wait_before_resend
    mail_new_otp guest.id email password_reset

  -- A code that was just sent is not sent again, without an error.
  unfoldable pub send_two_fa_otp : (guest email : ℕ) → Act (Unit {0})
  unfolding ◌>>=◌
  send_two_fa_otp guest email = do
    recent ← gets (recent_otp guest two_fa)
    if_found recent (λ o. pure tt) (mail_new_otp guest email two_fa)

  unfoldable pub verify_otp : (email otp : ℕ) → Act Token
  unfolding ◌>>=◌
  verify_otp email otp = do
    guest ← or_throw (← gets (account_by_email email)) guest_not_found
    log ← or_throw (← gets (live_otp guest.id email_verification)) otp_not_found
    throw_if (not (env.bcrypt_compare otp log.otp_hash)) invalid_otp
    set_accounts (update_where (λ a. a.id == guest.id) λ a. record a { email_verified = true })
    mark_used log.id
    pure (issue_token (record guest { email_verified = true }))

  unfoldable pub reset_password : (email otp password : ℕ) → Act Token
  unfolding ◌>>=◌
  reset_password email otp password = do
    guest ← or_throw (← gets (account_by_email email)) guest_not_found
    log ← or_throw (← gets (live_otp guest.id password_reset)) otp_not_found
    throw_if (not (env.bcrypt_compare otp log.otp_hash)) invalid_otp
    h ← hash env password
    set_accounts (update_where (λ a. a.id == guest.id) λ a. record a { password_hash = some h })
    mark_used log.id
    pure (issue_token guest)

-- ===== src/Auth.antt =====
-- Guest accounts (src/guest/auth/guest-auth.service.ts): signup, login, one-time codes, Google
-- login, and the linking of bookings to who logs in. The accounts and the codes are a state of their
-- own. Texts are only compared, so they are numbers; times are milliseconds.
pub mod Codes
pub mod Link
pub mod Login
pub mod Requests
pub mod Server
pub mod Gaps
pub mod Spaced
pub mod RateLimit
pub mod Attempts
pub mod Linked
use vibehouse_backend.Common.{
  is_some, ℕ, suc, ◌+◌, Bool, true, false, ◌&&◌, not, Option, none, some, List, [], ◌∷◌, ◌++◌, ◌==◌,
  holds_id, ltb, leb, if◌then◌else◌, find, find_last,
}
use vibehouse_backend.Exec.{
  Exec, ok, err, gets, throw_if, pure, ◌>>=◌, ◌>>◌, unique_violation, mail_error,
}
use vibehouse_backend.Tables.{Booking, Access}

-- guests
pub record Account : Type 0 where
  pub id : ℕ
  pub email : Option ℕ
  pub phone : Option ℕ
  pub password_hash : Option ℕ
  pub email_verified : Bool
  pub phone_verified : Bool
  pub two_fa_enabled : Bool

pub data OtpPurpose : Type 0 where
  email_verification two_fa password_reset : OtpPurpose

abbrev pub purpose_eq : OtpPurpose → OtpPurpose → Bool
purpose_eq email_verification email_verification = true
purpose_eq two_fa two_fa = true
purpose_eq password_reset password_reset = true
purpose_eq _ _ = false

-- otp_logs; the channel is always 'email'.
pub record Otp : Type 0 where
  pub id : ℕ
  pub guest_id : ℕ
  pub purpose : OtpPurpose
  pub otp_hash : ℕ
  pub expires_at : ℕ
  pub used : Bool
  pub created_at : ℕ

pub data ProviderName : Type 0 where
  email_provider google_provider : ProviderName

abbrev pub provider_eq : ProviderName → ProviderName → Bool
provider_eq email_provider email_provider = true
provider_eq google_provider google_provider = true
provider_eq _ _ = false

-- auth_providers
pub record Provider : Type 0 where
  pub guest_id : ℕ
  pub provider : ProviderName
  pub provider_uid : ℕ

-- `GuestJwtPayload`
pub record Token : Type 0 where
  pub guest_id : ℕ
  pub email : Option ℕ
  pub email_verified : Bool
  pub phone_verified : Bool

pub record Auth : Type 0 where
  pub accounts : List Account
  pub otps : List Otp
  pub providers : List Provider
  pub bookings : List Booking
  pub access : List Access
  -- the codes that were mailed: an address and a code
  pub mails : List (ℕ × ℕ)
  -- the clock, and how many uuids, hashes, random numbers and mails have been asked for
  pub now : ℕ
  pub drawn : ℕ

-- What uuid, Math.random, bcrypt and the mail client answer, by the number of the call where it
-- varies.
pub record AuthServices : Type 0 where
  pub uuid : ℕ → ℕ
  pub random_otp : ℕ → ℕ
  pub bcrypt_hash : ℕ → ℕ → ℕ
  pub bcrypt_compare : ℕ → ℕ → Bool
  pub mail_up : ℕ → Bool

abbrev pub Act {κ} : Type κ → Type κ
Act A = Exec Auth A

abbrev pub account_by_email : ℕ → Auth → Option Account
account_by_email email s = find (λ a. holds_id a.email email) s.accounts

abbrev pub account_by_phone : ℕ → Auth → Option Account
account_by_phone phone s = find (λ a. holds_id a.phone phone) s.accounts

-- `issueToken`
abbrev pub issue_token : Account → Token
issue_token a = record {
  guest_id = a.id;
  email = a.email;
  email_verified = a.email_verified;
  phone_verified = a.phone_verified;
}

unfoldable pub set_accounts : (List Account → List Account) → Act (Unit {0})
set_accounts f s = (ok tt, record s { accounts = f s.accounts })

unfoldable pub set_otps : (List Otp → List Otp) → Act (Unit {0})
set_otps f s = (ok tt, record s { otps = f s.otps })

unfoldable pub set_providers : (List Provider → List Provider) → Act (Unit {0})
set_providers f s = (ok tt, record s { providers = f s.providers })

unfoldable pub set_links : (List Access → List Access) → Act (Unit {0})
set_links f s = (ok tt, record s { access = f s.access })

-- `guests.create`: the email and the phone are unique columns.
unfoldable pub insert_account : Account → Act (Unit {0})
unfolding ◌>>=◌
insert_account a = do
  by_email ← gets (λ s. elim a.email [ none ↦ none | some e ↦ account_by_email e s ])
  by_phone ← gets (λ s. elim a.phone [ none ↦ none | some p ↦ account_by_phone p s ])
  throw_if (is_some by_email) unique_violation
  throw_if (is_some by_phone) unique_violation
  set_accounts λ rows. rows ++ a ∷ []

abbrev pub provider_of : ProviderName → ℕ → Auth → Option Provider
provider_of name uid s =
    find (λ p. provider_eq p.provider name && p.provider_uid == uid) s.providers

-- `auth_providers.create`: a uid is unique within its provider.
unfoldable pub insert_provider : Provider → Act (Unit {0})
unfolding ◌>>=◌
insert_provider p = do
  clash ← gets (provider_of p.provider p.provider_uid)
  throw_if (is_some clash) unique_violation
  set_providers λ rows. rows ++ p ∷ []

module _ (env : AuthServices) where
  unfoldable pub draw_id : Act ℕ
  draw_id s = (ok (env.uuid s.drawn), record s { drawn = suc s.drawn })

  unfoldable pub draw_otp : Act ℕ
  draw_otp s = (ok (env.random_otp s.drawn), record s { drawn = suc s.drawn })

  unfoldable pub hash : ℕ → Act ℕ
  hash text s = (ok (env.bcrypt_hash s.drawn text), record s { drawn = suc s.drawn })

  -- `sendOtpEmail`
  unfoldable pub send_otp_email : (email otp : ℕ) → Act (Unit {0})
  send_otp_email email otp s =
      if env.mail_up s.drawn
      then (ok tt, record s { mails = s.mails ++ (email, otp) ∷ []; drawn = suc s.drawn })
      else (err mail_error, record s { drawn = suc s.drawn })

-- ===== src/Tests/Auth.antt =====
-- Guest accounts, with a guest who forgot the password.
use vibehouse_backend.Common.{
  ◌+◌, ◌≤◌, ◌≡◌, refl, true, false, ◌&&◌, none, some, List, [], ◌∷◌, ◌++◌, ◌==◌, find, find_last,
  where_, length, All, arith,
}
use vibehouse_backend.Exec.{Error, err}
use vibehouse_backend.Auth.{
  Account, password_reset, Otp, Auth, AuthServices, issue_token, hash, set_accounts, set_otps,
}
use vibehouse_backend.Auth.Codes.{is_live, reset_password, verify_otp}
use vibehouse_backend.Auth.Link.{matches, to_link, auto_link}
use vibehouse_backend.Auth.Login.{login, verify_two_fa, admit}
use vibehouse_backend.Auth.Requests.{AuthRequest}
use vibehouse_backend.Auth.Server.{serve_auth}
use vibehouse_backend.Auth.RateLimit.{serve_auth_bound}
use vibehouse_backend.Auth.Attempts.{
  UsesCode, OwnPassword, reset_password_lem, login_lem, refused_lem,
}
use vibehouse_backend.Auth.Linked.{Linked, links, auto_link_lem, auto_link_twice}
use vibehouse_backend.Tests.Data.{stay}

abbrev services : AuthServices
services = record {
  uuid = λ n. n + 100;
  random_otp = λ n. n + 123456;
  bcrypt_hash = λ n p. p + 1;
  bcrypt_compare = λ p h. p + 1 == h;
  mail_up = λ n. true;
}

abbrev ann : Account
ann = record {
  id = 7;
  email = some 70;
  phone = none;
  password_hash = some 6;
  email_verified = true;
  phone_verified = false;
  two_fa_enabled = false;
}

abbrev code : Otp
code = record {
  id = 90;
  guest_id = 7;
  purpose = password_reset;
  otp_hash = 5556;
  expires_at = 700000;
  used = false;
  created_at = 100000;
}

abbrev start : Auth
start = record {
  accounts = ann ∷ [];
  otps = code ∷ [];
  providers = [];
  bookings = stay ∷ record stay { ezee_reservation_id = 32; booker_email = some 71 } ∷ [];
  access = [];
  mails = [];
  now = 150000;
  drawn = 0;
}

abbrev requests : List AuthRequest
requests =
    AuthRequest.forgot_password 70
    ∷ AuthRequest.wait 60000
    ∷ AuthRequest.forgot_password 70
    ∷ AuthRequest.reset_password 70 5555 8
    ∷ AuthRequest.login 70 5
    ∷ []

serve_auth_bound_example :
    length (
      where_
        (is_live 7 password_reset (serve_auth services start requests).now)
        (serve_auth services start requests).otps)
    ≤ 10
serve_auth_bound_example =
    serve_auth_bound services 7 password_reset start requests (λ e. cc)
      (record { gaps = ((λ own. (ground arith, refl, tt)), tt) })

reset_password_lem_example : UsesCode services 70 5555 8 start (issue_token ann)
unfolding reset_password find find_last hash set_accounts set_otps
reset_password_lem_example = reset_password_lem services 70 5555 8 start refl

login_lem_example : OwnPassword services 70 5 start (issue_token ann)
unfolding login admit auto_link find
login_lem_example = login_lem services 70 5 start refl

refused_lem_example :
    ((e : Error)
      → (verify_otp services 70 4444 start).0 ≡ err e
      → (verify_otp services 70 4444 start).1 ≡ start)
    × ((e : Error)
        → (verify_two_fa services 70 4444 start).0 ≡ err e
        → (verify_two_fa services 70 4444 start).1 ≡ start)
    × ((e : Error)
        → (reset_password services 70 4444 8 start).0 ≡ err e
        → (reset_password services 70 4444 8 start).1 ≡ start)
refused_lem_example = refused_lem services 70 4444 8 start

auto_link_lem_example :
    ((auto_link services ann start).1.access
      ≡ start.access ++ links services ann 0 (to_link ann start))
    × ((auto_link services ann start).1.bookings ≡ start.bookings)
    × All
        (λ b.
          (matches ann b && b.is_active) ≡ true
          → Linked services ann (auto_link services ann start).1.access b)
        start.bookings
auto_link_lem_example =
    auto_link_lem services ann start ((λ e. absurd (ground arith), tt), (tt, tt))

auto_link_twice_example :
    (auto_link services ann (auto_link services ann start).1).1.access
    ≡ (auto_link services ann start).1.access
auto_link_twice_example =
    auto_link_twice services ann start ((λ e. absurd (ground arith), tt), (tt, tt))

-- ===== src/Auth/RateLimit.antt =====
-- The rate limit of the one-time codes, over runs of requests.
use vibehouse_backend.Common.{
  is_some, ℕ, ◌+◌, ◌<◌, ◌≤◌, ◌≡◌, ◌≢◌, refl, sym, Bool, true, false, ◌&&◌, none, List, [], ◌∷◌,
  ◌==◌, find, length, where_, All, imp-All, Option-cases, Bool-cases, inl, inr, arith,
}
use vibehouse_backend.Exec.{Error, Result, ok, err, gets, throw_if, ◌>>=◌, ◌>>◌}
use vibehouse_backend.Exec.Keeps.{Keeps, Keeps-continue}
use vibehouse_backend.Auth.{
  Account, OtpPurpose, email_verification, two_fa, password_reset, purpose_eq, Auth, AuthServices,
  Act, set_otps, draw_id, draw_otp, hash, send_otp_email,
}
use vibehouse_backend.Auth.Codes.{
  is_unused, is_live, recent_otp, drop_otp, create_otp, mail_new_otp, send_otp, forgot_password,
  send_two_fa_otp, verify_otp, reset_password,
}
use vibehouse_backend.Auth.Link.{link_one, auto_link}
use vibehouse_backend.Auth.Login.{
  admit, greet, signup, login, verify_two_fa, link_google, join_google, google_login, toggle_two_fa,
}
use vibehouse_backend.Auth.Requests.{AuthRequest}
use vibehouse_backend.Auth.Server.{handle_auth, serve_auth}
use vibehouse_backend.Auth.Gaps.{Gaps-append, ten_codes}
use vibehouse_backend.Auth.Spaced.{
  Spaced, write_rules, Spaced-wait, Spaced-drop_otp, Spaced-insert_account, Spaced-insert_provider,
  Spaced-insert_link, Spaced-draw_id, Spaced-hash, Spaced-send_otp_email,
}

find-none : {A : Type 0} (q : A → Bool) (xs : List A) → find q xs ≡ none → All (λ x. q x ≡ false) xs
unfolding find
find-none q [] e = tt
find-none q (x ∷ xs) e = elim (Bool-cases (q x)) [
  | inl hit ↦ absurd (cc (rw hit at e))
  | inr miss ↦ (miss, find-none q xs (rw miss at e))
]

everywhere : {A : Type 0} (P : A → Type 0) → ((x : A) → P x) → (xs : List A) → All P xs
everywhere P f [] = tt
everywhere P f (x ∷ xs) = (f x, everywhere P f xs)

purpose_eq_lem : (a b : OtpPurpose) → purpose_eq a b ≡ true → a ≡ b
purpose_eq_lem email_verification email_verification e = refl
purpose_eq_lem two_fa two_fa e = refl
purpose_eq_lem password_reset password_reset e = refl
purpose_eq_lem email_verification two_fa e = cc
purpose_eq_lem email_verification password_reset e = cc
purpose_eq_lem two_fa email_verification e = cc
purpose_eq_lem two_fa password_reset e = cc
purpose_eq_lem password_reset email_verification e = cc
purpose_eq_lem password_reset two_fa e = cc

module _ (env : AuthServices) (guest : ℕ) (purpose : OtpPurpose) where
  abbrev is_theirs : ℕ → OtpPurpose → Bool
  is_theirs g pu = g == guest && purpose_eq pu purpose

  -- The guest has no code of the last minute.
  abbrev Quiet : Auth → Type 0
  Quiet s = All (λ x. is_unused guest purpose x ≡ true → x.created_at + 60000 < s.now) s.otps

  recent-Quiet :
      (g : ℕ) (pu : OtpPurpose) (s : Auth)
      → recent_otp g pu s ≡ none
      → is_theirs g pu ≡ true
      → Quiet s
  recent-Quiet g pu s e theirs =
      let same : pu ≡ purpose = purpose_eq_lem pu purpose (ground arith) in
      let own : g ≡ guest = ground arith in
      imp-All _ s.otps
        (λ x late mine. let mine' : is_unused g pu x ≡ true = rw (own, same) mine in ground arith)
        (find-none _ s.otps e)

  create_otp-Spaced :
      (g : ℕ) (pu : OtpPurpose) (s : Auth)
      → (is_theirs g pu ≡ true → Quiet s)
      → Spaced guest purpose s
      → Spaced guest purpose (create_otp env g pu s).1
  unfolding create_otp draw_otp hash draw_id set_otps ◌>>=◌
  create_otp-Spaced g pu s quiet h = record {
    gaps =
        Gaps-append guest purpose s.now _ s.otps refl refl
          (elim (Bool-cases (is_theirs g pu)) [
            | inl theirs ↦ imp-All _ s.otps (λ x f mine new. f mine) (quiet theirs)
            | inr other ↦ everywhere _ (λ x mine new. absurd (ground arith)) s.otps
          ])
          h.gaps;
  }

  undone :
      (undo : Act (Unit {0})) (r : Result (Unit {0})) (s : Auth)
      → Keeps (Spaced guest purpose) undo
      → Spaced guest purpose s
      → Spaced guest purpose
          (elim r as (λ x. Result (Unit {0}) × Auth) [
            | ok _ ↦ (ok tt, s)
            | err e ↦ (err e, (undo s).1)
          ]).1
  undone undo (ok a) s k h = h
  undone undo (err e) s k h = k.after s h

  mail_new_otp-Spaced :
      (g email : ℕ) (pu : OtpPurpose) (s : Auth)
      → (is_theirs g pu ≡ true → Quiet s)
      → Spaced guest purpose s
      → Spaced guest purpose (mail_new_otp env g email pu s).1
  unfolding mail_new_otp ◌>>=◌
  mail_new_otp-Spaced g email pu s quiet h =
      Keeps-continue _ (create_otp env g pu s).0 (create_otp env g pu s).1
        (create_otp-Spaced g pu s quiet h)
        λ o. record {
          after = λ s' h'.
              undone (drop_otp o.0) (send_otp_email env email o.1 s').0 _ (Spaced-drop_otp o.0)
                ((Spaced-send_otp_email env email o.1).after s' h');
        }

  -- A code is made only if there is none of the last minute.
  limited :
      (g email : ℕ) (pu : OtpPurpose) (e : Error)
      → Keeps
          (Spaced guest purpose)
          (gets (recent_otp g pu) >>= λ r. throw_if (is_some r) e >> mail_new_otp env g email pu)
  unfolding ◌>>=◌
  limited g email pu e = record {
    after = λ s h. elim (Option-cases (recent_otp g pu s)) [
      | inl nothing ↦ rw nothing (mail_new_otp-Spaced g email pu s (recent-Quiet g pu s nothing) h)
      | inr (o, recent) ↦ rw recent h
    ];
  }

  send_two_fa_otp-Spaced :
      (g email : ℕ) → Keeps (Spaced guest purpose) (send_two_fa_otp env g email)
  unfolding send_two_fa_otp ◌>>=◌
  send_two_fa_otp-Spaced g email = record {
    after = λ s h. elim (Option-cases (recent_otp g two_fa s)) [
      | inl nothing ↦
          rw nothing (mail_new_otp-Spaced g email two_fa s (recent-Quiet g two_fa s nothing) h)
      | inr (o, recent) ↦ rw recent h
    ];
  }

  ruleset request_rules = (
    write_rules, limited, send_two_fa_otp-Spaced, Spaced-insert_account, Spaced-insert_provider,
    Spaced-insert_link, Spaced-draw_id, Spaced-hash, Spaced-send_otp_email,
  )

  auto_link-Spaced : (a : Account) → Keeps (Spaced guest purpose) (auto_link env a)
  unfolding auto_link link_one
  auto_link-Spaced a = search request_rules depth 30

  ruleset admit_rules = (request_rules, auto_link-Spaced)

  module _ (other : purpose ≢ email_verification) where
    greet-Spaced : (g address : ℕ) → Keeps (Spaced guest purpose) (greet env g address)
    unfolding greet ◌>>=◌
    greet-Spaced g address = record {
      after = λ s h.
          Keeps-continue {Inv = Spaced guest purpose} _ (create_otp env g email_verification s).0
            (create_otp env g email_verification s).1
            (create_otp-Spaced g email_verification s
              (λ theirs.
                absurd (other (sym (purpose_eq_lem email_verification purpose (ground arith)))))
              h)
            λ o. Spaced-send_otp_email env address o.1;
    }

    handle_auth-Spaced : (r : AuthRequest) → Keeps (Spaced guest purpose) (handle_auth env r)
    unfolding handle_auth signup login verify_two_fa toggle_two_fa send_otp forgot_password
        verify_otp reset_password google_login link_google join_google admit
    handle_auth-Spaced (AuthRequest.signup dto) = search (admit_rules, greet-Spaced) depth 40
    handle_auth-Spaced (AuthRequest.login a p) = search admit_rules depth 40
    handle_auth-Spaced (AuthRequest.verify_two_fa a o) = search admit_rules depth 40
    handle_auth-Spaced (AuthRequest.toggle_two_fa g b) = search admit_rules depth 40
    handle_auth-Spaced (AuthRequest.send_otp a) = search admit_rules depth 40
    handle_auth-Spaced (AuthRequest.forgot_password a) = search admit_rules depth 40
    handle_auth-Spaced (AuthRequest.verify_otp a o) = search admit_rules depth 40
    handle_auth-Spaced (AuthRequest.reset_password a o p) = search admit_rules depth 40
    handle_auth-Spaced (AuthRequest.google_login u) = search admit_rules depth 40
    handle_auth-Spaced (AuthRequest.wait d) = Spaced-wait d

    serve_auth-Spaced :
        (s : Auth) (rs : List AuthRequest)
        → Spaced guest purpose s
        → Spaced guest purpose (serve_auth env s rs)
    unfolding serve_auth
    serve_auth-Spaced s [] h = h
    serve_auth-Spaced s (r ∷ rs) h =
        serve_auth-Spaced (handle_auth env r s).1 rs ((handle_auth-Spaced r).after s h)

-- However the requests about accounts come, and whatever mails fail, no guest ever has more than
-- ten codes of one purpose, but for the verification of the email, that are unused and have not
-- expired, if the unused ones at the start are a minute apart.
pub serve_auth_bound :
    (env : AuthServices) (guest : ℕ) (purpose : OtpPurpose) (s : Auth) (rs : List AuthRequest)
    → purpose ≢ email_verification
    → Spaced guest purpose s
    → length (where_ (is_live guest purpose (serve_auth env s rs).now) (serve_auth env s rs).otps)
      ≤ 10
serve_auth_bound env guest purpose s rs other h =
    ten_codes guest purpose _ _ (serve_auth-Spaced env guest purpose other s rs h).gaps

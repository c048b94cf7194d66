-- ===== src/Auth/Spaced.antt =====
-- The rate limit: every request leaves the unused codes of a guest and purpose a minute apart.
use vibehouse_backend.Common.{ℕ, refl, true, List, ◌==◌, Bool-cases, inl, inr, arith}
use vibehouse_backend.Exec.Keeps.{Keeps, Keeps-for_each, keeps_rules}
use vibehouse_backend.Tables.{Access}
use vibehouse_backend.Auth.{
  Account, OtpPurpose, Provider, Auth, AuthServices, Act, set_accounts, set_otps, set_providers,
  set_links, insert_account, insert_provider, draw_id, hash, send_otp_email,
}
use vibehouse_backend.Auth.Codes.{mark_used, drop_otp}
use vibehouse_backend.Auth.Link.{insert_link, quietly}
use vibehouse_backend.Auth.Server.{wait}
use vibehouse_backend.Auth.Gaps.{Gaps, Gaps-update, Gaps-delete, Gaps-later}

module _ (guest : ℕ) (purpose : OtpPurpose) where
  pub record Spaced (s : Auth) : Type 0 where
    pub gaps : Gaps guest purpose s.now s.otps

module _ {guest : ℕ} {purpose : OtpPurpose} where
  pub Spaced-set_accounts :
      (f : List Account → List Account) → Keeps (Spaced guest purpose) (set_accounts f)
  unfolding set_accounts
  Spaced-set_accounts f = record { after = λ s h. record { gaps = h.gaps } }

  pub Spaced-set_providers :
      (f : List Provider → List Provider) → Keeps (Spaced guest purpose) (set_providers f)
  unfolding set_providers
  Spaced-set_providers f = record { after = λ s h. record { gaps = h.gaps } }

  pub Spaced-set_links :
      (f : List Access → List Access) → Keeps (Spaced guest purpose) (set_links f)
  unfolding set_links
  Spaced-set_links f = record { after = λ s h. record { gaps = h.gaps } }

  pub Spaced-wait : (d : ℕ) → Keeps (Spaced guest purpose) (wait d)
  unfolding wait
  Spaced-wait d = record {
    after = λ s h. record { gaps = Gaps-later guest purpose s.now d s.otps h.gaps };
  }

  pub Spaced-mark_used : (id : ℕ) → Keeps (Spaced guest purpose) (mark_used id)
  unfolding set_otps
  Spaced-mark_used id = record {
    after = λ s h. record {
      gaps =
          Gaps-update guest purpose (λ o. o.id == id) (λ o. record o { used = true }) s.now s.otps
            (λ x. refl) (λ x. refl) (λ x own. ground arith) h.gaps;
    };
  }

  pub Spaced-drop_otp : (id : ℕ) → Keeps (Spaced guest purpose) (drop_otp id)
  unfolding set_otps
  Spaced-drop_otp id = record {
    after =
        λ s h. record { gaps = Gaps-delete guest purpose (λ o. o.id == id) s.now s.otps h.gaps };
  }

  pub Spaced-quietly :
      (act : Act (Unit {0}))
      → Keeps (Spaced guest purpose) act
      → Keeps (Spaced guest purpose) (quietly act)
  Spaced-quietly act k = record { after = λ s h. k.after s h }

  pub ruleset write_rules = (
    keeps_rules, Spaced-set_accounts, Spaced-set_providers, Spaced-set_links, Spaced-mark_used,
    Spaced-quietly,
  )

  pub Spaced-insert_account : (a : Account) → Keeps (Spaced guest purpose) (insert_account a)
  unfolding insert_account
  Spaced-insert_account a = search write_rules depth 30

  pub Spaced-insert_provider : (p : Provider) → Keeps (Spaced guest purpose) (insert_provider p)
  unfolding insert_provider
  Spaced-insert_provider p = search write_rules depth 30

  pub Spaced-insert_link : (a : Access) → Keeps (Spaced guest purpose) (insert_link a)
  unfolding insert_link
  Spaced-insert_link a = search write_rules depth 30

module _ (env : AuthServices) {guest : ℕ} {purpose : OtpPurpose} where
  pub Spaced-draw_id : Keeps (Spaced guest purpose) (draw_id env)
  unfolding draw_id
  Spaced-draw_id = record { after = λ s h. record { gaps = h.gaps } }

  pub Spaced-hash : (t : ℕ) → Keeps (Spaced guest purpose) (hash env t)
  unfolding hash
  Spaced-hash t = record { after = λ s h. record { gaps = h.gaps } }

  pub Spaced-send_otp_email : (a o : ℕ) → Keeps (Spaced guest purpose) (send_otp_email env a o)
  unfolding send_otp_email
  Spaced-send_otp_email a o = record {
    after = λ s h. elim (Bool-cases (env.mail_up s.drawn)) [
      | inl up ↦ rw up (record { gaps = h.gaps })
      | inr down ↦ rw down (record { gaps = h.gaps })
    ];
  }

-- ===== src/Tests/Requests.antt =====
-- Requests without access, and reports on payments, at concrete worlds.
use vibehouse_backend.Common.{◌≡◌, refl, List, [], ◌∷◌, some, find, arith}
use Prim.{¬◌}
use vibehouse_backend.System.Requests.{Request}
use vibehouse_backend.System.{handle}
use vibehouse_backend.System.Reports.{verified, handle-captured}
use vibehouse_backend.System.{serve}
use vibehouse_backend.System.Unpaid.{ReportsPaid, serve-Unpaid}
use vibehouse_backend.Payment.Unpaid.{Unpaid}
use vibehouse_backend.Payment.Events.{Event}
use vibehouse_backend.Tables.{created}
use vibehouse_backend.World.{World}
use vibehouse_backend.Tests.Data.{env, start, hotel, old_payment}

handle-captured_example : (handle env 1 (Request.verify_payment 7 42 43 85) start).1 ≡ start
unfolding find
handle-captured_example = handle-captured env 1 start verified refl refl

-- Payment 41, of the Razorpay order 42, is open.
abbrev waiting : World
waiting = record start {
  db = record hotel { payments = record old_payment { status = created } ∷ [] };
}

-- Two wrong signatures, a right report of a failure, and a simulation in production.
abbrev attempts : List Request
attempts =
    Request.verify_payment 7 42 43 99
    ∷ Request.handle_webhook 6 8 (Event.captured (some 42) (some 43))
    ∷ Request.handle_webhook 6 7 (Event.failed (some 42))
    ∷ Request.dev_simulate_capture 42
    ∷ []

unsigned : ¬ ReportsPaid env 42 (Request.verify_payment 7 42 43 99)
unsigned (ReportsPaid.verified e) = absurd (omega (arith, e))

mistold : ¬ ReportsPaid env 42 (Request.handle_webhook 6 8 (Event.captured (some 42) (some 43)))
mistold (ReportsPaid.told e) = absurd (omega (arith, e))

in_production : ¬ ReportsPaid env 42 (Request.dev_simulate_capture 42)
in_production (ReportsPaid.simulated e) = absurd (cc)

of_failure : ¬ ReportsPaid env 42 (Request.handle_webhook 6 7 (Event.failed (some 42)))
of_failure said = elim said [ ]

serve-Unpaid_example : Unpaid 41 42 (serve env 1 waiting attempts)
serve-Unpaid_example =
    serve-Unpaid env 1 41 42 waiting attempts (λ n e. absurd (omega (arith, e)))
      (unsigned, (mistold, (of_failure, (in_production, tt))))
      (record { holds = ((λ same. (refl, refl)), tt) })

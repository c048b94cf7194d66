-- ===== src/Tests/System.antt =====
-- Runs of the server.
use vibehouse_backend.Common.{refl, some, List, [], ◌∷◌, arith, find}
use vibehouse_backend.Stock.Balance.{AllBalanced}
use vibehouse_backend.Payment.Events.{Event}
use vibehouse_backend.Payment.Captured.{Recorded}
use vibehouse_backend.AdminInventory.{Actor}
use vibehouse_backend.System.Requests.{Request}
use vibehouse_backend.System.{serve}
use vibehouse_backend.System.Balance.{serve-balance}
use vibehouse_backend.System.Captured.{serve-Recorded}
use vibehouse_backend.Tests.Data.{env, start, old_payment}

abbrev pub desk : Actor
desk = record { admin_id = 3; property_id = some 1 }

-- Guest 7 buys four towels and borrows the hairdryer; the desk writes one towel off.
abbrev pub day : List Request
day =
    Request.add_to_cart 7 31 11 4 9
    ∷ Request.create_order 7 31
    ∷ Request.handle_webhook 6 7 (Event.captured (some 500) (some 60))
    ∷ Request.handle_webhook 6 7 (Event.captured (some 500) (some 60))
    ∷ Request.request_borrowable 7 31 12
    ∷ Request.request_borrowable 7 31 12
    ∷ Request.mark_damaged 11 1 desk
    ∷ []

serve-balance_example : AllBalanced (serve env 1 start day)
serve-balance_example =
    serve-balance env 1 start day (record { holds = (refl, (refl, (refl, tt))) })

serve-Recorded_example : Recorded old_payment (serve env 1 start day)
unfolding find
serve-Recorded_example =
    serve-Recorded env 1 old_payment start day refl (λ n h. absurd (omega arith))
      (record { holds = (refl, (λ same. refl, tt)) })

-- ===== src/Kyc/Documents.antt =====
-- The images of the papers: the desk's `deleteDocument` (src/admin/kyc/admin-kyc.service.ts).
use vibehouse_backend.Common.{
  ℕ, Bool, true, false, not, Option, none, some, ◌==◌, find, find_last, holds_id, update_where,
}
use vibehouse_backend.Exec.{
  gets, or_throw, throw_if, ◌>>=◌, ◌>>◌, slot_not_found, kyc_not_found, bad_request, gateway_error,
}
use vibehouse_backend.Tables.{Submission}
use vibehouse_backend.World.{World, Action, Services, set_submissions}
use vibehouse_backend.AdminInventory.{sees}
use vibehouse_backend.Booking.Orders.{booking_of}

pub data ImageType : Type 0 where
  front back : ImageType

abbrev pub newest_submission : ℕ → World → Option Submission
newest_submission slot w = find_last (λ k. holds_id k.slot_id slot) w.db.submissions

abbrev pub image : ImageType → Submission → Option ℕ
image front k = k.front_image_url
image back k = k.back_image_url

unfoldable pub without_image : ImageType → Submission → Submission
without_image front k = record k { front_image_url = none }
without_image back k = record k { back_image_url = none }

-- `actorPropertyId && slot.ezee_booking_cache?.property_id !== actorPropertyId`
abbrev pub hidden : Option ℕ → ℕ → World → Bool
hidden property_id eri w = elim (booking_of eri w) [
  | none ↦ elim property_id [ none ↦ false | some p ↦ true ]
  | some b ↦ not (sees property_id b.property_id)
]

module _ (env : Services) where
  unfoldable pub delete_document : ℕ → ImageType → Option ℕ → Action (Unit {0})
  unfolding ◌>>=◌
  delete_document slot side property_id = do
    s ← or_throw (← gets (λ w. find (λ s. s.id == slot) w.db.slots)) slot_not_found
    throw_if (← gets (hidden property_id s.ezee_reservation_id)) slot_not_found
    k ← or_throw (← gets (newest_submission slot)) kyc_not_found
    url ← or_throw (image side k) bad_request
    throw_if (not (env.s3_up url)) gateway_error
    set_submissions (update_where (λ r. r.id == k.id) (without_image side))

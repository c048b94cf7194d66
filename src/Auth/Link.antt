-- ===== src/Auth/Link.antt =====
-- `autoLinkBookings`: the bookings that carry the guest's email or phone become the guest's own.
use vibehouse_backend.Common.{
  is_some, ℕ, Bool, true, ◌&&◌, ◌||◌, not, Option, List, [], ◌∷◌, ◌++◌, ◌==◌, if◌then◌else◌, find,
  where_,
}
use vibehouse_backend.Exec.{ok, gets, throw_if, for_each, ◌>>=◌, ◌>>◌, unique_violation}
use vibehouse_backend.Tables.{Booking, Access, primary, secondary}
use vibehouse_backend.Booking.Link.{same_text}
use vibehouse_backend.Auth.{Account, Auth, AuthServices, Act, set_links, draw_id}

abbrev pub matches : Account → Booking → Bool
matches guest b = same_text guest.email b.booker_email || same_text guest.phone b.booker_phone

abbrev pub link_of : (eri guest : ℕ) → List Access → Option Access
link_of eri guest rows = find (λ a. a.ezee_reservation_id == eri && a.guest_id == guest) rows

-- A booking has at most one access row of a guest.
unfoldable pub insert_link : Access → Act (Unit {0})
unfolding ◌>>=◌
insert_link a = do
  clash ← gets (λ s. link_of a.ezee_reservation_id a.guest_id s.access)
  throw_if (is_some clash) unique_violation
  set_links λ rows. rows ++ a ∷ []

-- A `catch` that only logs.
abbrev pub quietly : Act (Unit {0}) → Act (Unit {0})
quietly act s = (ok tt, (act s).1)

abbrev pub to_link : Account → Auth → List Booking
to_link guest s =
    where_ (λ b. not (is_some (link_of b.ezee_reservation_id guest.id s.access)))
      (where_ (λ b. matches guest b && b.is_active) s.bookings)

module _ (env : AuthServices) where
  unfoldable pub link_one : Account → Booking → Act (Unit {0})
  unfolding ◌>>=◌
  link_one guest b = do
    id ← draw_id env
    insert_link (record {
      id = id;
      ezee_reservation_id = b.ezee_reservation_id;
      guest_id = guest.id;
      role = if matches guest b then primary else secondary;
      approved = true;
    })

  -- A guest without email and phone matches no booking. The mails about it are not modelled.
  unfoldable pub auto_link : Account → Act (Unit {0})
  unfolding ◌>>=◌
  auto_link guest = quietly (gets (to_link guest) >>= λ rows. for_each rows (link_one guest))

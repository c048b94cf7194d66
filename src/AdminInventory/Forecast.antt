-- ===== src/AdminInventory/Forecast.antt =====
-- One day of the demand forecast of a returnable product (`getReturnableForecast`).
use vibehouse_backend.Common.{
  ℕ, ◌+◌, ◌&&◌, Bool, none, some, ◌==◌, leb, if◌then◌else◌, find, where_, sum_of, length,
}
use vibehouse_backend.Common.Int.{ℤ, pos, ◌+ℤ◌, ◌-ℤ◌, pos_part, neg_part}
use vibehouse_backend.Tables.{Db, Inventory, Item, Issued, is_paid, is_issued}

pub data Outlook : Type 0 where
  fine warning shortage : Outlook

-- `Math.max(0, n)`
abbrev pub at_least_zero : ℤ → ℕ
at_least_zero = pos_part

abbrev leb_ℤ : ℤ → ℤ → Bool
leb_ℤ a b = leb (pos_part a + neg_part b) (pos_part b + neg_part a)

pub record Day : Type 0 where
  pub new_demand : ℕ
  pub expected_returns : ℕ
  pub projected_issued : ℤ
  pub projected_available : ℕ
  pub status : Outlook

-- `effectiveStock`
unfoldable pub effective_stock : Inventory → ℤ
effective_stock r = r.total_stock -ℤ pos r.damaged_count

abbrev outlook : ℤ → ℕ → Outlook
outlook available threshold =
    if leb_ℤ available (pos 0)
    then shortage
    else if leb_ℤ available (pos threshold)
    then warning
    else fine

-- A paid order whose booking checks in at the property on the day.
abbrev checks_in : Db → ℕ → ℕ → Item → Bool
checks_in db property_id day item =
    elim (find (λ o. o.id == item.addon_order_id && is_paid o.status) db.orders) [
      | none ↦ Bool.false
      | some o ↦ elim (find (λ b. b.ezee_reservation_id == o.ezee_reservation_id) db.bookings) [
        | none ↦ Bool.false
        | some b ↦ b.property_id == property_id && b.checkin_date == day
      ]
    ]

abbrev checks_out : Db → ℕ → Issued → Bool
checks_out db day c =
    elim (find (λ b. b.ezee_reservation_id == c.ezee_reservation_id) db.bookings) [
      | none ↦ Bool.false
      | some b ↦ b.checkout_date == day
    ]

-- The body of the loop over the days, with the row that was found and the day's date.
unfoldable pub forecast_day : Db → Inventory → ℕ → Day
unfolding effective_stock
forecast_day db inv day =
    let issued_now =
      length (where_ (λ c. c.inventory_id == inv.id && is_issued c.status) db.issued) in
    let demand =
      sum_of (λ i. i.quantity)
        (where_ (λ i. i.product_id == inv.product_id && checks_in db inv.property_id day i)
          db.items) in
    let returns =
      sum_of (λ c. c.quantity)
        (where_ (λ c. c.inventory_id == inv.id && is_issued c.status && checks_out db day c)
          db.issued) in
    let projected = (pos issued_now +ℤ pos demand) -ℤ pos returns in
    let available = effective_stock inv -ℤ projected in
    record {
      new_demand = demand;
      expected_returns = returns;
      projected_issued = projected;
      projected_available = at_least_zero available;
      status = outlook available inv.low_stock_threshold;
    }

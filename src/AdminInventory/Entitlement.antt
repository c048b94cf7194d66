-- ===== src/AdminInventory/Entitlement.antt =====
-- What `returnableIssue` hands out for a line of an order, against what the line is for.
use vibehouse_backend.Common.{
  ==-eq, ap, sym, ◌∙◌, ℕ, ◌+◌, ◌≤◌, ◌≡◌, Option, none, some, List, [], ◌∷◌, ◌++◌, ltb, ◌==◌, find,
  find-true, where_, update_where, if◌then◌else◌, Bool, Bool-cases, inl, inr, arith,
}
use vibehouse_backend.Exec.{Error, Exec, ok, err, Result, gets, or_throw, throw_if, ◌>>=◌}
use vibehouse_backend.Exec.Ends.{Ends, Ends-bind, reads_rules}
use vibehouse_backend.Exec.Keeps.{Keeps}
use vibehouse_backend.Exec.Leads.{Leads, Leads-then, Leads-first}
use vibehouse_backend.Tables.{Inventory, Item, Issued, CheckoutStatus}
use vibehouse_backend.World.{World, Action, Services, transaction, set_issued}
use vibehouse_backend.World.Frame.Lines.{Lines, Lines-set_issued, lines_rules}
use vibehouse_backend.AdminInventory.{Actor, given}
use vibehouse_backend.AdminInventory.Returnables.{
  Condition, issued_for, hand_out, receive, returnable_issue, returnable_verify_return,
}

-- The units that the desk has handed out for a line, returned or not.
abbrev pub handed_out : ℕ → List Issued → ℕ
handed_out line [] = 0
handed_out line (c ∷ rows) =
    if c.addon_order_item_id == line
    then c.quantity + handed_out line rows
    else handed_out line rows

issued_for_lem : (line : ℕ) (rows : List Issued) → issued_for line rows ≡ handed_out line rows
unfolding where_
issued_for_lem line [] = omega arith
issued_for_lem line (c ∷ rows) = ground (arith, issued_for_lem line rows)

handed_out-append :
    (line : ℕ) (rows : List Issued) (c : Issued)
    → handed_out line (rows ++ c ∷ [])
      ≡ handed_out line rows + (if c.addon_order_item_id == line then c.quantity else 0)
handed_out-append line [] c = ground arith
handed_out-append line (d ∷ rows) c = ground (arith, handed_out-append line rows c)

handed_out-marked :
    (line : ℕ) (p : Issued → Bool) (status : CheckoutStatus) (rows : List Issued)
    → handed_out line (update_where p (λ c. record c { status = status }) rows)
      ≡ handed_out line rows
unfolding update_where
handed_out-marked line p status [] = omega arith
handed_out-marked line p status (c ∷ rows) = ground (arith, handed_out-marked line p status rows)

abbrev row_of : ℕ → World → Option Item
row_of item w = find (λ i. i.id == item) w.db.items

module _ (line : ℕ) (i : Item) where
  -- The line is in the table, and no more was handed out for it than it is for.
  abbrev pub Within : List Item → List Issued → Type 0
  Within items rows =
      (find (λ j. j.id == line) items ≡ some i) × (handed_out line rows ≤ i.quantity)

  abbrev pub Entitled : World → Type 0
  Entitled = Lines Within

  -- There is room for some units of a line.
  abbrev Room : (item quantity : ℕ) → List Item → List Issued → Type 0
  Room item quantity items rows =
      (find (λ j. j.id == line) items ≡ some i)
      × (handed_out line rows + (if item == line then quantity else 0) ≤ i.quantity)

  Room-Within : (item quantity : ℕ) (w : World) → Lines (Room item quantity) w → Entitled w
  Room-Within item quantity w h = record {
    holds = let room = h.holds.1 in (h.holds.0, omega arith);
  }

  rolled_back :
      {A : Type 0} (r : Result A) (w w' : World)
      → Entitled w
      → Entitled w'
      → Entitled (
          (elim r as (λ _. Result A × World) [
            | ok a ↦ (ok a, w')
            | err e ↦ (err e, record w' { db = w.db })
          ]).1)
  rolled_back (ok a) w w' h h' = h'
  rolled_back (err e) w w' h h' = record { holds = h.holds }

  Leads-transaction :
      {A : Type 0} (item quantity : ℕ) (m : Action A)
      → Leads (Lines (Room item quantity)) Entitled m
      → Leads (Lines (Room item quantity)) Entitled (transaction m)
  unfolding transaction
  Leads-transaction item quantity m lm = record {
    after = λ w h.
        let (r, w') = m w in rolled_back r w w' (Room-Within item quantity w h) (lm.after w h);
  }

  Leads-set_issued :
      (c : Issued)
      → Leads
          (Lines (Room c.addon_order_item_id c.quantity))
          Entitled
          (set_issued λ rows. rows ++ c ∷ [])
  unfolding set_issued
  Leads-set_issued c = record {
    after = λ w h. record {
      holds =
          let room = h.holds.1 in
          let more = handed_out-append line w.db.issued c in (h.holds.0, omega arith);
    };
  }

  hand_out-Entitled :
      (checkout : ℕ) (inventory : Inventory) (item : Item) (eri guest quantity : ℕ)
      → Leads
          (Lines (Room item.id quantity))
          Entitled
          (hand_out checkout inventory item eri guest quantity)
  unfolding hand_out
  hand_out-Entitled checkout inventory item eri guest quantity =
      search (lines_rules, Leads-then, Leads-set_issued)

  found_row :
      (item : ℕ) (o : Option Item) (l : Item) (e : Error) (w : World)
      → (gets (row_of item) w).0 ≡ ok o
      → (or_throw o e w).0 ≡ ok l
      → row_of item w ≡ some l
  unfolding ◌>>=◌
  found_row item none l e w read row = absurd (cc)
  found_row item (some k) l e w read row = cc

  -- The order's line is read, and what was handed out for it: what is left is room.
  hand_over :
      {A : Type 0} {act : Exec World A} {o : Option Item} {n : ℕ} (item quantity : ℕ) (l : Item)
      (w : World) (e e' : Error)
      → Entitled w
      → (gets (row_of item) w).0 ≡ ok o
      → (or_throw o e w).0 ≡ ok l
      → (gets (λ v. issued_for item v.db.issued) w).0 ≡ ok n
      → (throw_if (ltb l.quantity (n + quantity)) e' w).0 ≡ ok tt
      → Leads (Lines (Room l.id quantity)) Entitled act
      → Ends Entitled w act
  unfolding ◌>>=◌
  hand_over {o = o} item quantity l w e e' h read row told few leads =
      let there : row_of item w ≡ some l = found_row item o l e w read row in
      let counted = issued_for_lem item w.db.issued in
      let enough : handed_out item w.db.issued + quantity ≤ l.quantity = ground arith in
      let same : l.id ≡ item = ==-eq l.id item (find-true (λ j. j.id == item) w.db.items there) in
      let total = h.holds.1 in
      let room : handed_out line w.db.issued + (if l.id == line then quantity else 0) ≤ i.quantity =
        elim (Bool-cases (l.id == line)) [
          | inl its ↦
              let own : item ≡ line = sym same ∙ ==-eq l.id line its in
              let line_there : row_of line w ≡ some l = rw (← own) there in
              let held = h.holds.0 in
              let one : l ≡ i = cc in
              let at_line : handed_out line w.db.issued + quantity ≤ l.quantity =
                rw (← own) enough in
              let for_line : l.quantity ≡ i.quantity = ap (λ j. j.quantity) one in
              rw its (omega arith)
          | inr other ↦ rw other (omega arith)
        ] in
      record { holds = leads.after w (record { holds = (h.holds.0, room) }) }

  marked-Within :
      (p : Issued → Bool) (status : CheckoutStatus) (items : List Item) (rows : List Issued)
      → Within items rows
      → Within items (update_where p (λ c. record c { status = status }) rows)
  marked-Within p status items rows h =
      let same = handed_out-marked line p status rows in let total = h.1 in (h.0, omega arith)

  module _ (env : Services) (default_property : ℕ) where
    pub returnable_issue-Entitled :
        (product guest eri item : ℕ) (requested : Option ℕ) (actor : Actor)
        → Keeps Entitled
            (returnable_issue env default_property product guest eri item requested actor)
    unfolding returnable_issue
    returnable_issue-Entitled product guest eri item requested actor = record {
      after = λ w h.
          let run : Ends Entitled w
              (returnable_issue env default_property product guest eri item requested actor) =
            search
              (
                reads_rules,
                Ends-bind,
                hand_over item (given requested 1),
                Leads-first,
                Leads-then,
                hand_out-Entitled,
                Leads-transaction,
                Room-Within,
                lines_rules,
                h,
              )
              depth 60 fits 100000 in
          run.holds;
    }

    pub returnable_verify_return-Entitled :
        (id : ℕ) (condition : Condition) (actor : Actor)
        → Keeps Entitled (returnable_verify_return env default_property id condition actor)
    unfolding returnable_verify_return receive
    returnable_verify_return-Entitled id condition actor =
        search (lines_rules, Lines-set_issued, marked-Within) depth 40

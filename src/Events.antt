-- ===== src/Events.antt =====
-- The events of a property (src/admin/events/admin-events.service.ts), for the desk and for the
-- public. A day is a number, and so is a text.
pub mod Listings
use vibehouse_backend.Common.{
  ℕ, suc, ◌+◌, Bool, true, false, ◌&&◌, not, Option, none, some, List, [], ◌∷◌, ◌++◌, ◌==◌, find,
  update_where, delete_where, is_some, if◌then◌else◌,
}
use vibehouse_backend.Exec.{
  Exec, ok, pure, gets, or_throw, throw_if, if_found, ◌>>=◌, ◌>>◌, unique_violation, item_not_found,
  bad_request,
}

pub record HotelEvent : Type 0 where
  pub id : ℕ
  pub property_id : ℕ
  pub title : ℕ
  pub description : Option ℕ
  pub date : ℕ
  pub time : Option ℕ
  pub location : Option ℕ
  pub capacity : Option ℕ
  pub price_text : Option ℕ
  pub contact_link : Option ℕ
  pub poster_url : Option ℕ
  pub badge_label : Option ℕ
  pub badge_color : Option ℕ
  pub is_active : Bool
  pub created_by : ℕ

pub record CreateEvent : Type 0 where
  pub title : ℕ
  pub description : Option ℕ
  pub date : ℕ
  pub time : Option ℕ
  pub location : Option ℕ
  pub capacity : Option ℕ
  pub price_text : Option ℕ
  pub contact_link : Option ℕ
  pub poster_url : Option ℕ
  pub badge_label : Option ℕ
  pub badge_color : Option ℕ

-- A field that is `undefined` is `none`.
pub record UpdateEvent : Type 0 where
  pub title : Option ℕ
  pub description : Option (Option ℕ)
  pub date : Option ℕ
  pub time : Option (Option ℕ)
  pub location : Option (Option ℕ)
  pub capacity : Option (Option ℕ)
  pub price_text : Option (Option ℕ)
  pub contact_link : Option (Option ℕ)
  pub poster_url : Option (Option ℕ)
  pub badge_label : Option (Option ℕ)
  pub badge_color : Option (Option ℕ)
  pub is_active : Option Bool

pub data EventAction : Type 0 where
  event_create event_update event_delete : EventAction

-- admin_activity_log, with the row as it was.
pub record Activity : Type 0 where
  pub actor_id : ℕ
  pub action : EventAction
  pub entity_id : ℕ
  pub old_value : Option HotelEvent

pub record Events : Type 0 where
  pub events : List HotelEvent
  pub activity : List Activity
  pub drawn : ℕ

-- `short_id` is the first eight characters of a uuid; the activity log may fail.
pub record EventServices : Type 0 where
  pub short_id : ℕ → ℕ
  pub log_up : ℕ → Bool
  pub default_property_id : Option ℕ

pub record EventActor : Type 0 where
  pub admin_id : ℕ
  pub property_id : Option ℕ

abbrev pub Change {κ} : Type κ → Type κ
Change A = Exec Events A

unfoldable pub set_events : (List HotelEvent → List HotelEvent) → Change (Unit {0})
set_events f s = (ok tt, record s { events = f s.events })

abbrev pub find_event : ℕ → Events → Option HotelEvent
find_event id s = find (λ e. e.id == id) s.events

-- `if (dto.x !== undefined) data.x = dto.x`
abbrev pub set_to {ℓ} : {A : Type ℓ} → Option A → A → A
set_to none old = old
set_to (some new) old = new

unfoldable pub updated_event : UpdateEvent → HotelEvent → HotelEvent
updated_event dto e = record e {
  title = set_to dto.title e.title;
  description = set_to dto.description e.description;
  date = set_to dto.date e.date;
  time = set_to dto.time e.time;
  location = set_to dto.location e.location;
  capacity = set_to dto.capacity e.capacity;
  price_text = set_to dto.price_text e.price_text;
  contact_link = set_to dto.contact_link e.contact_link;
  poster_url = set_to dto.poster_url e.poster_url;
  badge_label = set_to dto.badge_label e.badge_label;
  badge_color = set_to dto.badge_color e.badge_color;
  is_active = set_to dto.is_active e.is_active;
}

abbrev pub new_event : CreateEvent → (id property_id created_by : ℕ) → HotelEvent
new_event dto id property_id created_by = record {
  id = id;
  property_id = property_id;
  title = dto.title;
  description = dto.description;
  date = dto.date;
  time = dto.time;
  location = dto.location;
  capacity = dto.capacity;
  price_text = dto.price_text;
  contact_link = dto.contact_link;
  poster_url = dto.poster_url;
  badge_label = dto.badge_label;
  badge_color = dto.badge_color;
  is_active = true;
  created_by = created_by;
}

abbrev pub property_or : Option ℕ → Option ℕ → Option ℕ
property_or none other = other
property_or (some p) other = some p

module _ (env : EventServices) where
  -- A failure is swallowed.
  unfoldable pub log_activity : Activity → Change (Unit {0})
  log_activity a s =
      (ok tt, if env.log_up a.entity_id then record s { activity = s.activity ++ a ∷ [] } else s)

  unfoldable pub draw_event_id : Change ℕ
  draw_event_id s = (ok (env.short_id s.drawn), record s { drawn = suc s.drawn })

  unfoldable pub create_event : CreateEvent → EventActor → Change HotelEvent
  unfolding ◌>>=◌
  create_event dto actor = do
    property ← or_throw (property_or actor.property_id env.default_property_id) bad_request
    id ← draw_event_id
    clash ← gets (λ s. is_some (find_event id s))
    throw_if clash unique_violation
    let event = new_event dto id property actor.admin_id
    set_events λ rows. rows ++ event ∷ []
    log_activity (record {
      actor_id = actor.admin_id;
      action = event_create;
      entity_id = id;
      old_value = none;
    })
    pure event

  -- The actor's property is not compared with the event's.
  unfoldable pub update_event : ℕ → UpdateEvent → EventActor → Change HotelEvent
  unfolding ◌>>=◌
  update_event id dto actor = do
    found ← gets (find_event id)
    existing ← or_throw found item_not_found
    set_events (update_where (λ e. e.id == id) (updated_event dto))
    log_activity (record {
      actor_id = actor.admin_id;
      action = event_update;
      entity_id = id;
      old_value = some existing;
    })
    pure (updated_event dto existing)

  unfoldable pub delete_event : ℕ → EventActor → Change (Unit {0})
  unfolding ◌>>=◌
  delete_event id actor = do
    found ← gets (find_event id)
    existing ← or_throw found item_not_found
    set_events (delete_where (λ e. e.id == id))
    log_activity (record {
      actor_id = actor.admin_id;
      action = event_delete;
      entity_id = id;
      old_value = some existing;
    })

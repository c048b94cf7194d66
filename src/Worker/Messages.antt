-- ===== src/Worker/Messages.antt =====
-- The messages of the queue (src/sqs/types/messages.ts).
use vibehouse_backend.Common.{ℕ, List}

-- The payloads of types/messages.ts. Money is a number of paise.
pub record InsertPayload : Type 0 where
  pub eri : ℕ
  pub property_id : ℕ
  pub amount : ℕ

pub record ChargeItem : Type 0 where
  pub quantity : ℕ
  pub amount : ℕ

pub record ChargePayload : Type 0 where
  pub eri : ℕ
  pub items : List ChargeItem

pub record ColivePayload : Type 0 where
  pub draft_booking_id : ℕ
  pub room_type_id : ℕ
  pub first_name : List ℕ
  pub last_name : List ℕ
  pub email : ℕ
  pub phone : ℕ
  pub move_in_date : ℕ
  pub move_out_date : ℕ
  pub rate_per_night : ℕ
  pub total_nights : ℕ
  pub amount : ℕ

pub data SyncMessage : Type 0 where
  insert_message : InsertPayload → SyncMessage
  charge_message : ChargePayload → SyncMessage
  update_message : (eri : ℕ) → SyncMessage
  colive_message : ColivePayload → SyncMessage
  unknown_message : SyncMessage

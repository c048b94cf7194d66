-- ===== src/Kyc/Requests.antt =====
-- The requests of guests about their papers, one constructor for each modelled handler.
use vibehouse_backend.Common.{ℕ}
use vibehouse_backend.Kyc.Age.{Day}
use vibehouse_backend.Kyc.Slots.{SubmitKyc}

pub data KycRequest : Type 0 where
  submit_kyc : (today : Day) → (guest eri slot : ℕ) → SubmitKyc → KycRequest
  add_slot : (guest eri : ℕ) → KycRequest
  delete_slot : (guest eri slot : ℕ) → KycRequest

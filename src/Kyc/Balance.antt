-- ===== src/Kyc/Balance.antt =====
-- The requests about papers leave the stock balanced.
use vibehouse_backend.Common.{ℕ, Option}
use vibehouse_backend.Exec.Keeps.{Keeps}
use vibehouse_backend.World.{Services}
use vibehouse_backend.World.Frame.Stock.{stock_rules}
use vibehouse_backend.Stock.Balance.{AllBalanced, balance_rules}
use vibehouse_backend.Kyc.{open_slot}
use vibehouse_backend.Kyc.Slots.{put_submission, submit_kyc, add_slot, delete_slot}
use vibehouse_backend.Kyc.Documents.{ImageType, delete_document}
use vibehouse_backend.Kyc.Requests.{KycRequest}
use vibehouse_backend.Kyc.Server.{handle_kyc}

module _ (env : Services) where
  pub handle_kyc-balance : (r : KycRequest) → Keeps AllBalanced (handle_kyc env r)
  unfolding handle_kyc submit_kyc add_slot delete_slot open_slot put_submission
  handle_kyc-balance (KycRequest.submit_kyc today g e s dto) =
      search (stock_rules, balance_rules) depth 40
  handle_kyc-balance (KycRequest.add_slot g e) = search (stock_rules, balance_rules) depth 40
  handle_kyc-balance (KycRequest.delete_slot g e s) = search (stock_rules, balance_rules) depth 40

  pub delete_document-balance :
      (slot : ℕ) (side : ImageType) (property_id : Option ℕ)
      → Keeps AllBalanced (delete_document env slot side property_id)
  unfolding delete_document
  delete_document-balance slot side property_id = search (stock_rules, balance_rules) depth 40

-- ===== src/Kyc/Server.antt =====
-- The requests of guests about their papers.
use vibehouse_backend.Exec.{pure, ◌>>=◌, ◌>>◌}
use vibehouse_backend.World.{Action, Services}
use vibehouse_backend.Kyc.Slots.{submit_kyc, add_slot, delete_slot}
use vibehouse_backend.Kyc.Requests.{KycRequest}

module _ (env : Services) where
  unfoldable pub handle_kyc : KycRequest → Action (Unit {0})
  unfolding ◌>>=◌
  handle_kyc (KycRequest.submit_kyc today g e s dto) = do submit_kyc env today g e s dto; pure tt
  handle_kyc (KycRequest.add_slot g e) = do add_slot env g e; pure tt
  handle_kyc (KycRequest.delete_slot g e s) = delete_slot g e s

-- ===== src/Unused/Job/Moves.antt =====
-- jobs/claim_unused_prls.go: the steps that one run makes a row take, as a relation.
pub mod Kept
pub mod Run
pub mod Invariants
pub mod Waiting
use brokernode.Unused.Job.{gas_on_its_way, prl_on_its_way}
use brokernode.Prelude.Int.{ℤ}
use brokernode.Prelude.Bytes.{Bytes}
use brokernode.Prelude.{false, true, ℕ, ◌≡◌, Option, [], some}
use brokernode.Unused.{
  CompletedUpload, UnusedServices, gas_is, gas_transfer_failed, gas_transfer_not_started,
  gas_transfer_processing, gas_transfer_success, leftovers_reclaim_error,
  leftovers_reclaim_processing, leftovers_reclaim_success, prl_claim_error, prl_claim_not_started,
  prl_claim_processing, prl_claim_success, prl_is, set_gas, set_prl, still_processing,
}

abbrev pub written_at : ℕ → CompletedUpload → CompletedUpload
written_at now t = record t { updated_at = now }

-- The steps, each from a row that a query found to the row that is written.
pub data UploadStep {Chain : Type 0} (gw : UnusedServices Chain)
    : CompletedUpload → CompletedUpload → Type 0 where
  gas_arrived :
      {t : CompletedUpload}
      → gas_is gas_transfer_processing t ≡ true
      → UploadStep gw t (written_at gw.now (set_gas gas_transfer_success t))
  prl_retrieved :
      {t : CompletedUpload}
      → prl_is prl_claim_processing t ≡ true
      → UploadStep gw t (written_at gw.now (set_prl prl_claim_success t))
  leftovers_back :
      {t : CompletedUpload}
      → gas_is leftovers_reclaim_processing t ≡ true
      → UploadStep gw t (written_at gw.now (set_gas leftovers_reclaim_success t))
  reclaim_again :
      {t : CompletedUpload}
      → gas_is leftovers_reclaim_processing t ≡ true
      → UploadStep gw t (written_at gw.now (set_gas gas_transfer_success t))
  gas_sent_first :
      {t : CompletedUpload} (sent : Bytes × ℤ)
      → gas_is gas_transfer_not_started t ≡ true
      → still_processing gw t ≡ false
      → UploadStep gw t (written_at gw.now (gas_on_its_way gw t sent))
  gas_sent_again :
      {t : CompletedUpload} (sent : Bytes × ℤ)
      → gas_is gas_transfer_processing t ≡ true
      → UploadStep gw t (written_at gw.now (gas_on_its_way gw t sent))
  gas_sent_after_error :
      {t : CompletedUpload} (sent : Bytes × ℤ)
      → gas_is gas_transfer_failed t ≡ true
      → UploadStep gw t (written_at gw.now (gas_on_its_way gw t sent))
  prl_sent_first :
      {t : CompletedUpload} (sent : Bytes × ℤ)
      → gas_is gas_transfer_success t ≡ true
      → prl_is prl_claim_not_started t ≡ true
      → UploadStep gw t (written_at gw.now (prl_on_its_way gw t sent))
  prl_sent_again :
      {t : CompletedUpload} (sent : Bytes × ℤ)
      → prl_is prl_claim_processing t ≡ true
      → UploadStep gw t (written_at gw.now (prl_on_its_way gw t sent))
  prl_sent_after_error :
      {t : CompletedUpload} (sent : Bytes × ℤ)
      → prl_is prl_claim_error t ≡ true
      → UploadStep gw t (written_at gw.now (prl_on_its_way gw t sent))
  reclaim_started :
      {t : CompletedUpload}
      → gas_is gas_transfer_success t ≡ true
      → prl_is prl_claim_success t ≡ true
      → UploadStep gw t (written_at gw.now (set_gas leftovers_reclaim_processing t))
  reclaim_failed :
      {t : CompletedUpload}
      → gas_is gas_transfer_success t ≡ true
      → prl_is prl_claim_success t ≡ true
      → UploadStep gw t (written_at gw.now (set_gas leftovers_reclaim_error t))
  given_up :
      {t : CompletedUpload}
      → gas_is gas_transfer_success t ≡ true
      → prl_is prl_claim_success t ≡ true
      → UploadStep gw t (written_at gw.now (set_gas leftovers_reclaim_success t))

-- What the job does on the chain with an address: it sends gas there, sends the PRL that a message made for
-- the address takes from there, or fetches gas back from there.
pub data Sends {Chain : Type 0} (gw : UnusedServices Chain) (addr : Bytes)
    : Chain → Chain → Type 0 where
  sends_gas :
      {c : Chain} (gas : ℤ)
      → Sends gw addr c ((gw.send_eth c gw.main_wallet gw.main_key addr gas).1)
  sends_prl :
      {c : Chain} (key message : Bytes) (balance : ℤ)
      → gw.create_send_prl_message c addr key gw.main_wallet balance ≡ some message
      → Sends gw addr c ((gw.send_prl_from_oyster c message).1)
  fetches_gas :
      {c : Chain} (key : Option Bytes) (gas : ℤ)
      → Sends gw addr c ((gw.reclaim_gas c addr key gas).1)

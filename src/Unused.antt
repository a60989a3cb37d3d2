-- ===== src/Unused.antt =====
-- models/completed_uploads.go and jobs/claim_unused_prls.go: the PRL that are left at an upload's address,
-- and one run of the job that fetches them. A row in a loop is the row that the query read; what Int64 makes
-- of a big.Int is its low 64 bits. The fields that a row's validation asks for are those it was created
-- with, so an update has an error or none.
pub mod Job
use brokernode.Utils.Mode.{BrokerMode, PaymentMode, is_prod, is_user_paying}
use brokernode.Prelude.Word.{wrap64}
use brokernode.Prelude.Int.{eqb_ℤ, ltb_ℤ, negsuc, pos, ℤ}
use brokernode.Prelude.Bytes.{Bytes, bytes_eq}
use brokernode.Prelude.{
  ◌^◌, Bool, List, Option, [], false, if◌then◌else◌, leb, none, not, some, ℕ, ◌&&◌, ◌||◌, ◌∷◌,
}
use brokernode.Prelude.Rows.{Work, Access, write_row, each_row}

-- CompletedUpload, less the columns that the job neither reads nor writes.
pub record CompletedUpload : Type 0 where
  pub id : ℕ
  pub updated_at : ℕ
  pub genesis_hash : Bytes
  pub eth_addr : Bytes
  pub eth_private_key : Bytes
  pub prl_status : ℤ
  pub prl_tx_hash : Bytes
  pub prl_tx_nonce : ℤ
  pub gas_status : ℤ
  pub gas_tx_hash : Bytes
  pub gas_tx_nonce : ℤ

-- PRLClaimStatus and GasTransferStatus
abbrev pub prl_claim_not_started : ℤ
prl_claim_not_started = pos 1

abbrev pub prl_claim_processing : ℤ
prl_claim_processing = pos 2

abbrev pub prl_claim_success : ℤ
prl_claim_success = pos 3

abbrev pub prl_claim_error : ℤ
prl_claim_error = negsuc 0

abbrev pub gas_transfer_not_started : ℤ
gas_transfer_not_started = pos 1

abbrev pub gas_transfer_processing : ℤ
gas_transfer_processing = pos 2

abbrev pub gas_transfer_success : ℤ
gas_transfer_success = pos 3

abbrev pub leftovers_reclaim_processing : ℤ
leftovers_reclaim_processing = pos 4

abbrev pub leftovers_reclaim_success : ℤ
leftovers_reclaim_success = pos 5

abbrev pub gas_transfer_failed : ℤ
gas_transfer_failed = negsuc 0

abbrev pub leftovers_reclaim_error : ℤ
leftovers_reclaim_error = negsuc 1

-- What the job calls during one run: the clock, the database and eth_gateway's wrapper. `broker_hashes` is
-- what the query for the genesis hashes of broker_broker_transactions gives, or none on its error. A
-- transfer's answer is `none`, or its hash and nonce.
pub record UnusedServices (Chain : Type 0) : Type 0 where
  pub now : ℕ
  pub query_works : ℕ → Bool
  pub update_works : CompletedUpload → Bool
  pub delete_works : Bool
  pub broker_hashes : Option (List Bytes)
  pub main_wallet : Bytes
  pub main_key : Bytes
  pub private_key : CompletedUpload → Option Bytes
  pub check_prl_balance : Chain → Bytes → ℤ
  pub check_eth_balance : Chain → Bytes → ℤ
  pub gas_for_prl_send : Chain → Option ℤ
  pub gas_for_eth_send : Chain → Option ℤ
  pub check_if_worth_reclaiming_gas : Chain → Bytes → Option (Bool × ℤ)
  pub send_eth : Chain → Bytes → Bytes → Bytes → ℤ → Option (Bytes × ℤ) × Chain
  pub create_send_prl_message : Chain → Bytes → Bytes → Bytes → ℤ → Option Bytes
  pub send_prl_from_oyster : Chain → Bytes → Option (Bytes × ℤ) × Chain
  pub reclaim_gas : Chain → Bytes → Option Bytes → ℤ → Bool × Chain

-- BeforeCreate
abbrev or_default : ℤ → ℤ → ℤ
or_default d v = if eqb_ℤ v (pos 0) then d else v

unfoldable pub upload_before_create : BrokerMode → PaymentMode → CompletedUpload → CompletedUpload
upload_before_create mode payment t =
    let claims = is_prod mode && is_user_paying payment in
    record t {
      prl_status =
          or_default (if claims then prl_claim_not_started else prl_claim_success) t.prl_status;
      gas_status =
          or_default (if claims then gas_transfer_not_started else leftovers_reclaim_success)
            t.gas_status;
    }

-- The queries' conditions: GetRowsByGasStatus, GetRowsByPRLStatus, GetRowsByGasAndPRLStatus.
abbrev pub gas_is : ℤ → CompletedUpload → Bool
gas_is s t = eqb_ℤ t.gas_status s

abbrev pub prl_is : ℤ → CompletedUpload → Bool
prl_is s t = eqb_ℤ t.prl_status s

abbrev pub both_are : ℤ → ℤ → CompletedUpload → Bool
both_are g s t = gas_is g t && prl_is s t

-- GetTimedOutGasTransfers, GetTimedOutPRLTransfers, GetTimedOutGasReclaims
abbrev pub timed_out : ℕ → CompletedUpload → Bool
timed_out threshold_time t = leb t.updated_at threshold_time

abbrev pub set_gas : ℤ → CompletedUpload → CompletedUpload
set_gas s t = record t { gas_status = s }

abbrev pub set_prl : ℤ → CompletedUpload → CompletedUpload
set_prl s t = record t { prl_status = s }

-- brokerTxGenHashesStillProcessing
abbrev pub hash_among : Bytes → List Bytes → Bool
hash_among h [] = false
hash_among h (g ∷ gs) = bytes_eq g h || hash_among h gs

module _ {Chain : Type 0} (gw : UnusedServices Chain) where
  pub uploads_db : Access CompletedUpload
  uploads_db = record {
    id_of = λ (t : CompletedUpload). t.id;
    stamp = λ (t : CompletedUpload). record t { updated_at = gw.now };
    update_works = gw.update_works;
    query_works = gw.query_works;
  }

  -- An error of the query for the hashes is logged, and then lost to the second query's.
  pub still_processing : CompletedUpload → Bool
  still_processing t = elim gw.broker_hashes [
    | none ↦ false
    | some hashes ↦ hash_among t.genesis_hash hashes
  ]

  -- GetUnusedPRLsThatAreReadyForClaiming
  pub ready_for_claiming : CompletedUpload → Bool
  unfolding still_processing
  ready_for_claiming t = gas_is gas_transfer_not_started t && not (still_processing t)

  abbrev pub Uploads : Type 0
  Uploads = Work CompletedUpload Chain

  -- CheckProcessingGasTransactions
  pub gas_of_upload : CompletedUpload → Uploads → Uploads
  unfolding uploads_db write_row
  gas_of_upload t s =
      let arrived = write_row uploads_db (set_gas gas_transfer_success t) s in
      if ltb_ℤ (pos 0) (wrap64 (gw.check_eth_balance s.chain t.eth_addr)) then arrived else s

  pub check_processing_gas_transactions : Uploads → Uploads
  unfolding uploads_db each_row gas_of_upload
  check_processing_gas_transactions s =
      each_row uploads_db 0 (gas_is gas_transfer_processing) gas_of_upload s

  -- CheckProcessingPRLTransactions
  pub prl_of_upload : CompletedUpload → Uploads → Uploads
  unfolding uploads_db write_row
  prl_of_upload t s =
      let retrieved = write_row uploads_db (set_prl prl_claim_success t) s in
      if eqb_ℤ (wrap64 (gw.check_prl_balance s.chain t.eth_addr)) (pos 0) then retrieved else s

  pub check_processing_prl_transactions : Uploads → Uploads
  unfolding uploads_db each_row prl_of_upload
  check_processing_prl_transactions s =
      each_row uploads_db 1 (prl_is prl_claim_processing) prl_of_upload s

  -- CheckProcessingGasReclaims
  abbrev pub unless_unpriced : Option ℤ → (ℤ → Uploads) → Uploads → Uploads
  unless_unpriced none f s = s
  unless_unpriced (some gas) f s = f gas

  pub reclaim_of_upload : CompletedUpload → Uploads → Uploads
  unfolding uploads_db write_row
  reclaim_of_upload t s =
      let balance = wrap64 (gw.check_eth_balance s.chain t.eth_addr) in
      let done = write_row uploads_db (set_gas leftovers_reclaim_success t) s in
      if ltb_ℤ (pos 0) balance
      then unless_unpriced (gw.gas_for_eth_send s.chain)
          (λ gas. if ltb_ℤ balance (wrap64 gas) then done else s) s
      else done

  pub check_processing_gas_reclaims : Uploads → Uploads
  unfolding uploads_db each_row reclaim_of_upload
  check_processing_gas_reclaims s =
      each_row uploads_db 2 (gas_is leftovers_reclaim_processing) reclaim_of_upload s

-- ===== src/Unused/Job.antt =====
-- jobs/claim_unused_prls.go: what starts a transfer, retries, and the run.
pub mod Moves
pub mod Stuck
mod Tests
use brokernode.Utils.Mode.{BrokerMode, PaymentMode, is_prod, is_user_paying}
use brokernode.Prelude.Word.{wrap64}
use brokernode.Prelude.Table.{keep}
use brokernode.Prelude.Rows.{each_row, write_row}
use brokernode.Prelude.Int.{eqb_ℤ, negsuc, pos, ℤ}
use brokernode.Prelude.Bytes.{Bytes}
use brokernode.Prelude.{
  Bool, Option, false, if◌then◌else◌, ltb, none, not, some, true, ℕ, ◌&&◌, ◌-◌,
}
use brokernode.Unused.{
  CompletedUpload, Uploads, both_are, check_processing_gas_reclaims,
  check_processing_gas_transactions, check_processing_prl_transactions, gas_is, gas_transfer_failed,
  gas_transfer_processing, gas_transfer_success, leftovers_reclaim_error,
  leftovers_reclaim_processing, leftovers_reclaim_success, prl_claim_error, prl_claim_not_started,
  prl_claim_processing, prl_claim_success, prl_is, ready_for_claiming, set_gas, timed_out,
  unless_unpriced, uploads_db, UnusedServices,
}

module _ {Chain : Type 0} (gw : UnusedServices Chain) where
  -- InitiateGasTransfer, over the rows of a query.
  abbrev pub gas_on_its_way : CompletedUpload → Bytes × ℤ → CompletedUpload
  gas_on_its_way t sent = record t {
    gas_status = gas_transfer_processing;
    gas_tx_hash = sent.0;
    gas_tx_nonce = sent.1;
  }

  abbrev pub on_gas_sent : Option (Bytes × ℤ) → CompletedUpload → Uploads gw → Uploads gw
  on_gas_sent none t s = s
  on_gas_sent (some sent) t s = write_row (uploads_db gw) (gas_on_its_way t sent) s

  pub send_gas_to_upload : ℤ → CompletedUpload → Uploads gw → Uploads gw
  unfolding uploads_db write_row
  send_gas_to_upload gas t s =
      let (answer, chain') = gw.send_eth s.chain gw.main_wallet gw.main_key t.eth_addr gas in
      on_gas_sent answer t (record s { chain = chain' })

  pub initiate_gas_transfer : ℕ → (CompletedUpload → Bool) → Uploads gw → Uploads gw
  unfolding uploads_db each_row send_gas_to_upload
  initiate_gas_transfer query test s =
      unless_unpriced gw (gw.gas_for_prl_send s.chain)
        (λ gas. each_row (uploads_db gw) query test (send_gas_to_upload gas) s) s

  -- InitiatePRLClaim of a row: its balance, its key, the message, and the transfer.
  abbrev pub prl_on_its_way : CompletedUpload → Bytes × ℤ → CompletedUpload
  prl_on_its_way t sent = record t {
    prl_status = prl_claim_processing;
    prl_tx_hash = sent.0;
    prl_tx_nonce = sent.1;
  }

  abbrev pub on_prl_sent : Option (Bytes × ℤ) → CompletedUpload → Uploads gw → Uploads gw
  on_prl_sent none t s = s
  on_prl_sent (some sent) t s = write_row (uploads_db gw) (prl_on_its_way t sent) s

  abbrev pub send_message : Option Bytes → CompletedUpload → Uploads gw → Uploads gw
  send_message none t s = s
  send_message (some message) t s =
      let (answer, chain') = gw.send_prl_from_oyster s.chain message in
      on_prl_sent answer t (record s { chain = chain' })

  abbrev pub with_key : Option Bytes → ℤ → CompletedUpload → Uploads gw → Uploads gw
  with_key none balance t s = s
  with_key (some key) balance t s =
      send_message (gw.create_send_prl_message s.chain t.eth_addr key gw.main_wallet balance) t s

  pub initiate_prl_claim_of : CompletedUpload → Uploads gw → Uploads gw
  unfolding uploads_db write_row
  initiate_prl_claim_of t s =
      let balance = gw.check_prl_balance s.chain t.eth_addr in
      let claimed = with_key (gw.private_key t) balance t s in
      if eqb_ℤ (wrap64 balance) (negsuc 0) then s else claimed

  -- ResendTimedOutGasTransfers, ResendTimedOutPRLTransfers, ResendTimedOutGasReclaims
  pub reset_reclaim_of : CompletedUpload → Uploads gw → Uploads gw
  unfolding uploads_db write_row
  reset_reclaim_of t s = write_row (uploads_db gw) (set_gas gas_transfer_success t) s

  pub resend_timed_out : ℕ → Uploads gw → Uploads gw
  unfolding uploads_db each_row initiate_gas_transfer initiate_prl_claim_of reset_reclaim_of
  resend_timed_out threshold_time s =
      let late = timed_out threshold_time in
      let gas = initiate_gas_transfer 3 (λ t. gas_is gas_transfer_processing t && late t) s in
      let prl =
        each_row (uploads_db gw) 4 (λ t. prl_is prl_claim_processing t && late t)
          initiate_prl_claim_of gas in
      each_row (uploads_db gw) 5 (λ t. gas_is leftovers_reclaim_processing t && late t)
        reset_reclaim_of prl

  -- ResendErroredGasTransfers, ResendErroredPRLTransfers
  pub resend_errored_transfers : Uploads gw → Uploads gw
  unfolding uploads_db each_row initiate_gas_transfer initiate_prl_claim_of
  resend_errored_transfers s =
      let gas = initiate_gas_transfer 6 (gas_is gas_transfer_failed) s in
      each_row (uploads_db gw) 7 (prl_is prl_claim_error) initiate_prl_claim_of gas

  -- SendGasForNewClaims; the balances are read before the first transfer.
  pub send_gas_for_new_claims : Uploads gw → Uploads gw
  unfolding ready_for_claiming initiate_gas_transfer
  send_gas_for_new_claims s =
      let has_prl : CompletedUpload → Bool =
        λ t. not (eqb_ℤ (wrap64 (gw.check_prl_balance s.chain t.eth_addr)) (pos 0)) in
      initiate_gas_transfer 8 (λ t. ready_for_claiming gw t && has_prl t) s

  -- StartNewClaims
  pub start_new_claims : Uploads gw → Uploads gw
  unfolding uploads_db each_row initiate_prl_claim_of
  start_new_claims s =
      each_row (uploads_db gw) 9 (both_are gas_transfer_success prl_claim_not_started)
        initiate_prl_claim_of s

  -- RetrieveLeftoverETH; the rows read have the status GasTransferSuccess, so the tests of it hold.
  abbrev pub retrieve_with : ℕ → Option (Bool × ℤ) → CompletedUpload → Uploads gw → Uploads gw
  retrieve_with threshold_time none t s = s
  retrieve_with threshold_time (some (false, gas)) t s =
      let given_up = write_row (uploads_db gw) (set_gas leftovers_reclaim_success t) s in
      if ltb t.updated_at threshold_time then given_up else s
  retrieve_with threshold_time (some (true, gas)) t s =
      let (success, chain') = gw.reclaim_gas s.chain t.eth_addr (gw.private_key t) gas in
      let s' = record s { chain = chain' } in
      let started = write_row (uploads_db gw) (set_gas leftovers_reclaim_processing t) s' in
      let failed = write_row (uploads_db gw) (set_gas leftovers_reclaim_error t) s' in
      if success then started else failed

  pub retrieve_leftover_of : ℕ → CompletedUpload → Uploads gw → Uploads gw
  unfolding uploads_db write_row
  retrieve_leftover_of threshold_time t s =
      retrieve_with threshold_time (gw.check_if_worth_reclaiming_gas s.chain t.eth_addr) t s

  pub retrieve_leftover_eth : ℕ → Uploads gw → Uploads gw
  unfolding uploads_db each_row retrieve_leftover_of
  retrieve_leftover_eth threshold_time s =
      each_row (uploads_db gw) 10 (both_are gas_transfer_success prl_claim_success)
        (retrieve_leftover_of threshold_time) s

  -- DeleteCompletedClaims and PurgeCompletedClaims
  pub purge_completed_claims : Uploads gw → Uploads gw
  purge_completed_claims s =
      let purged = record s {
        rows = keep (λ t. not (gas_is leftovers_reclaim_success t)) s.rows;
      } in
      if gw.delete_works then purged else s

  -- ClaimUnusedPRLs; the time to give up lies as far before the threshold as the threshold before now.
  pub claim_unused_prls : BrokerMode → PaymentMode → ℕ → Uploads gw → Uploads gw
  unfolding check_processing_gas_transactions check_processing_prl_transactions
      check_processing_gas_reclaims resend_timed_out resend_errored_transfers
      send_gas_for_new_claims start_new_claims retrieve_leftover_eth purge_completed_claims
  claim_unused_prls mode payment threshold_time s =
      let checked =
        check_processing_gas_reclaims gw
          (check_processing_prl_transactions gw (check_processing_gas_transactions gw s)) in
      let resent = resend_errored_transfers (resend_timed_out threshold_time checked) in
      let started = start_new_claims (send_gas_for_new_claims resent) in
      let give_up_time = threshold_time - (gw.now - threshold_time) in
      let done = purge_completed_claims (retrieve_leftover_eth give_up_time started) in
      if is_prod mode && is_user_paying payment then done else s

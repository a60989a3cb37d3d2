-- ===== src/Unused/Job/Moves/Run.antt =====
-- jobs/claim_unused_prls.go, ClaimUnusedPRLs: what the whole run keeps.
use brokernode.Unused.Job.Moves.{
  Sends, fetches_gas, gas_arrived, prl_retrieved, leftovers_back, reclaim_again, gas_sent_first,
  gas_sent_again, gas_sent_after_error, prl_sent_first, prl_sent_again, prl_sent_after_error,
  reclaim_started, reclaim_failed, given_up,
}
use brokernode.Utils.Mode.{BrokerMode, PaymentMode, is_prod, is_user_paying}
use brokernode.Unused.Job.Moves.Kept.{
  RowsKept, both_true, choose, claim_loop-RowsKept, initiate_gas_transfer-RowsKept, loop,
  priced-RowsKept, with_chain, write-RowsKept,
}
use brokernode.Unused.Job.Moves.{
  UploadStep, gas_sent_after_error, gas_sent_again, gas_sent_first, given_up, leftovers_back,
  prl_retrieved, prl_sent_after_error, prl_sent_again, prl_sent_first, reclaim_again,
  reclaim_failed, reclaim_started,
}
use brokernode.Unused.Job.{
  claim_unused_prls, purge_completed_claims, resend_errored_transfers, resend_timed_out,
  reset_reclaim_of, retrieve_leftover_eth, retrieve_leftover_of, retrieve_with,
  send_gas_for_new_claims, start_new_claims,
}
use brokernode.Prelude.Word.{wrap64}
use brokernode.Prelude.Rows.{keep-Rows}
use brokernode.Prelude.Int.{eqb_ℤ, ltb_ℤ, pos, ℤ}
use brokernode.Prelude.{Bool, Option, arith, false, ltb, none, not, some, true, ℕ, ◌&&◌, ◌-◌, ◌≡◌}
use brokernode.Unused.{
  CompletedUpload, UnusedServices, Uploads, both_are, check_processing_gas_reclaims,
  check_processing_gas_transactions, check_processing_prl_transactions, gas_is, gas_of_upload,
  gas_transfer_failed, gas_transfer_not_started, gas_transfer_processing, gas_transfer_success,
  leftovers_reclaim_error, leftovers_reclaim_processing, leftovers_reclaim_success, prl_claim_error,
  prl_claim_not_started, prl_claim_processing, prl_claim_success, prl_is, prl_of_upload,
  ready_for_claiming, reclaim_of_upload, set_gas, set_prl, still_processing, timed_out, uploads_db,
}

false_of_not : (a : Bool) → not a ≡ true → a ≡ false
false_of_not a h = ground arith

module _ {Chain : Type 0} (gw : UnusedServices Chain) (P : CompletedUpload → Type 0)
    (Q : Chain → Type 0) (closed : (t u : CompletedUpload) → UploadStep gw t u → P t → P u)
    (sends : (t u : CompletedUpload) (c d : Chain)
      → UploadStep gw t u
      → Sends gw t.eth_addr c d
      → P t
      → Q c
      → Q d) where
  abbrev KeptHere : Uploads gw → Type 0
  KeptHere s = RowsKept gw P Q closed sends s

  check_processing_gas_transactions-KeptHere :
      (s : Uploads gw) → KeptHere s → KeptHere (check_processing_gas_transactions gw s)
  unfolding check_processing_gas_transactions gas_of_upload
  check_processing_gas_transactions-KeptHere s k =
      loop gw P Q closed sends 0 (gas_is gas_transfer_processing) (gas_of_upload gw) s
        (λ t s h k.
          choose gw P Q closed sends
            (ltb_ℤ (pos 0) (wrap64 (gw.check_eth_balance s.chain t.eth_addr))) _ s
            (write-RowsKept gw P Q closed sends t (set_gas gas_transfer_success t) s
              (gas_arrived h.1) h.0 k)
            k)
        k

  check_processing_prl_transactions-KeptHere :
      (s : Uploads gw) → KeptHere s → KeptHere (check_processing_prl_transactions gw s)
  unfolding check_processing_prl_transactions prl_of_upload
  check_processing_prl_transactions-KeptHere s k =
      loop gw P Q closed sends 1 (prl_is prl_claim_processing) (prl_of_upload gw) s
        (λ t s h k.
          choose gw P Q closed sends
            (eqb_ℤ (wrap64 (gw.check_prl_balance s.chain t.eth_addr)) (pos 0)) _ s
            (write-RowsKept gw P Q closed sends t (set_prl prl_claim_success t) s
              (prl_retrieved h.1) h.0 k)
            k)
        k

  reclaim_of_upload-KeptHere :
      (t : CompletedUpload) (s : Uploads gw)
      → P t × (gas_is leftovers_reclaim_processing t ≡ true)
      → KeptHere s
      → KeptHere (reclaim_of_upload gw t s)
  unfolding reclaim_of_upload
  reclaim_of_upload-KeptHere t s h k =
      let balance = wrap64 (gw.check_eth_balance s.chain t.eth_addr) in
      let done =
        write-RowsKept gw P Q closed sends t (set_gas leftovers_reclaim_success t) s
          (leftovers_back h.1) h.0 k in
      choose gw P Q closed sends (ltb_ℤ (pos 0) balance) _ _
        (priced-RowsKept gw P Q closed sends (gw.gas_for_eth_send s.chain) _ s
          (λ gas. choose gw P Q closed sends (ltb_ℤ balance (wrap64 gas)) _ s done k) k)
        done

  check_processing_gas_reclaims-KeptHere :
      (s : Uploads gw) → KeptHere s → KeptHere (check_processing_gas_reclaims gw s)
  unfolding check_processing_gas_reclaims
  check_processing_gas_reclaims-KeptHere s k =
      loop gw P Q closed sends 2 (gas_is leftovers_reclaim_processing) (reclaim_of_upload gw) s
        reclaim_of_upload-KeptHere k

  resend_timed_out-KeptHere :
      (threshold_time : ℕ) (s : Uploads gw)
      → KeptHere s
      → KeptHere (resend_timed_out gw threshold_time s)
  unfolding resend_timed_out reset_reclaim_of
  resend_timed_out-KeptHere threshold_time s k =
      let late = timed_out threshold_time in
      loop gw P Q closed sends 5 (λ t. gas_is leftovers_reclaim_processing t && late t)
        (reset_reclaim_of gw) _
        (λ t s h k.
          write-RowsKept gw P Q closed sends t (set_gas gas_transfer_success t) s
            (reclaim_again ((both_true (gas_is leftovers_reclaim_processing t) (late t) h.1).0)) h.0
            k)
        (claim_loop-RowsKept gw P Q closed sends 4 (λ t. prl_is prl_claim_processing t && late t) _
          (λ t sent h.
            prl_sent_again sent ((both_true (prl_is prl_claim_processing t) (late t) h).0))
          (initiate_gas_transfer-RowsKept gw P Q closed sends 3
            (λ t. gas_is gas_transfer_processing t && late t) s
            (λ t sent h.
              gas_sent_again sent ((both_true (gas_is gas_transfer_processing t) (late t) h).0))
            k))

  resend_errored_transfers-KeptHere :
      (s : Uploads gw) → KeptHere s → KeptHere (resend_errored_transfers gw s)
  unfolding resend_errored_transfers
  resend_errored_transfers-KeptHere s k =
      claim_loop-RowsKept gw P Q closed sends 7 (prl_is prl_claim_error) _
        (λ t sent h. prl_sent_after_error sent h)
        (initiate_gas_transfer-RowsKept gw P Q closed sends 6 (gas_is gas_transfer_failed) s
          (λ t sent h. gas_sent_after_error sent h) k)

  ready_parts :
      (t : CompletedUpload)
      → ready_for_claiming gw t ≡ true
      → (gas_is gas_transfer_not_started t ≡ true) × (still_processing gw t ≡ false)
  unfolding ready_for_claiming
  ready_parts t h =
      let parts = both_true (gas_is gas_transfer_not_started t) (not (still_processing gw t)) h in
      (parts.0, false_of_not (still_processing gw t) parts.1)

  send_gas_for_new_claims-KeptHere :
      (s : Uploads gw) → KeptHere s → KeptHere (send_gas_for_new_claims gw s)
  unfolding send_gas_for_new_claims
  send_gas_for_new_claims-KeptHere s k =
      let has_prl : CompletedUpload → Bool =
        λ t. not (eqb_ℤ (wrap64 (gw.check_prl_balance s.chain t.eth_addr)) (pos 0)) in
      initiate_gas_transfer-RowsKept gw P Q closed sends 8
        (λ t. ready_for_claiming gw t && has_prl t) s
        (λ t sent h.
          let parts = ready_parts t ((both_true (ready_for_claiming gw t) (has_prl t) h).0) in
          gas_sent_first sent parts.0 parts.1)
        k

  start_new_claims-KeptHere : (s : Uploads gw) → KeptHere s → KeptHere (start_new_claims gw s)
  unfolding start_new_claims
  start_new_claims-KeptHere s k =
      claim_loop-RowsKept gw P Q closed sends 9
        (both_are gas_transfer_success prl_claim_not_started) s
        (λ t sent h.
          let parts =
            both_true (gas_is gas_transfer_success t) (prl_is prl_claim_not_started t) h in
          prl_sent_first sent parts.0 parts.1)
        k

  retrieve_with-KeptHere :
      (threshold_time : ℕ) (answer : Option (Bool × ℤ)) (t : CompletedUpload) (s : Uploads gw)
      → gas_is gas_transfer_success t ≡ true
      → prl_is prl_claim_success t ≡ true
      → P t
      → KeptHere s
      → KeptHere (retrieve_with gw threshold_time answer t s)
  retrieve_with-KeptHere threshold_time none t s g p h k = k
  retrieve_with-KeptHere threshold_time (some (false, gas)) t s g p h k =
      choose gw P Q closed sends (ltb t.updated_at threshold_time) _ s
        (write-RowsKept gw P Q closed sends t (set_gas leftovers_reclaim_success t) s (given_up g p)
          h k)
        k
  retrieve_with-KeptHere threshold_time (some (true, gas)) t s g p h k =
      let out = gw.reclaim_gas s.chain t.eth_addr (gw.private_key t) gas in
      let s' = record s { chain = out.1 } in
      let k' =
        with_chain gw P Q closed sends s (out.1) t _ (reclaim_started g p)
          (fetches_gas (gw.private_key t) gas) h k in
      choose gw P Q closed sends (out.0) _ _
        (write-RowsKept gw P Q closed sends t (set_gas leftovers_reclaim_processing t) s'
          (reclaim_started g p) h k')
        (write-RowsKept gw P Q closed sends t (set_gas leftovers_reclaim_error t) s'
          (reclaim_failed g p) h k')

  retrieve_leftover_eth-KeptHere :
      (threshold_time : ℕ) (s : Uploads gw)
      → KeptHere s
      → KeptHere (retrieve_leftover_eth gw threshold_time s)
  unfolding retrieve_leftover_eth retrieve_leftover_of
  retrieve_leftover_eth-KeptHere threshold_time s k =
      loop gw P Q closed sends 10 (both_are gas_transfer_success prl_claim_success)
        (retrieve_leftover_of gw threshold_time) s
        (λ t s h k.
          let parts = both_true (gas_is gas_transfer_success t) (prl_is prl_claim_success t) h.1 in
          retrieve_with-KeptHere threshold_time
            (gw.check_if_worth_reclaiming_gas s.chain t.eth_addr) t s parts.0 parts.1 h.0 k)
        k

  purge_completed_claims-KeptHere :
      (s : Uploads gw) → KeptHere s → KeptHere (purge_completed_claims gw s)
  unfolding purge_completed_claims
  purge_completed_claims-KeptHere s k =
      choose gw P Q closed sends gw.delete_works _ s
        (keep-Rows (uploads_db gw) P Q (λ t. not (gas_is leftovers_reclaim_success t)) s k) k

  pub claim_unused_prls-Kept :
      (mode : BrokerMode) (payment : PaymentMode) (threshold_time : ℕ) (s : Uploads gw)
      → KeptHere s
      → KeptHere (claim_unused_prls gw mode payment threshold_time s)
  unfolding claim_unused_prls
  claim_unused_prls-Kept mode payment threshold_time s k =
      let checked = check_processing_gas_reclaims-KeptHere _ (
        check_processing_prl_transactions-KeptHere _
          (check_processing_gas_transactions-KeptHere s k)) in
      let resent =
        resend_errored_transfers-KeptHere _ (resend_timed_out-KeptHere threshold_time _ checked) in
      let started = start_new_claims-KeptHere _ (send_gas_for_new_claims-KeptHere _ resent) in
      choose gw P Q closed sends (is_prod mode && is_user_paying payment) _ s
        (purge_completed_claims-KeptHere _
          (retrieve_leftover_eth-KeptHere (threshold_time - (gw.now - threshold_time)) _ started))
        k

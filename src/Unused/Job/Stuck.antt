-- ===== src/Unused/Job/Stuck.antt =====
-- jobs/claim_unused_prls.go: rows for which fetching back the gas has failed, which no function asks for.
use brokernode.Utils.Mode.{BrokerMode, PaymentMode, is_prod, is_user_paying}
use brokernode.Unused.Job.Moves.Invariants.{is_not}
use brokernode.Unused.Job.{
  claim_unused_prls, initiate_gas_transfer, initiate_prl_claim_of, purge_completed_claims,
  resend_errored_transfers, resend_timed_out, reset_reclaim_of, retrieve_leftover_eth,
  retrieve_leftover_of, send_gas_for_new_claims, send_gas_to_upload, start_new_claims,
}
use brokernode.Prelude.Word.{wrap64}
use brokernode.Prelude.Table.{for_each, keep}
use brokernode.Prelude.Rows.{each_row}
use brokernode.Prelude.Int.{eqb_ℤ, pos, ℤ}
use brokernode.Prelude.{
  All, Bool, List, Option, [], ap, false, if◌then◌else◌, none, not, refl, some, true, ℕ, ◌&&◌, ◌-◌,
  ◌∷◌, ◌≡◌,
}
use brokernode.Unused.{
  CompletedUpload, UnusedServices, Uploads, both_are, check_processing_gas_reclaims,
  check_processing_gas_transactions, check_processing_prl_transactions, gas_is, gas_of_upload,
  gas_transfer_failed, gas_transfer_not_started, gas_transfer_processing, gas_transfer_success,
  leftovers_reclaim_error, leftovers_reclaim_processing, leftovers_reclaim_success, prl_claim_error,
  prl_claim_not_started, prl_claim_processing, prl_claim_success, prl_is, prl_of_upload,
  ready_for_claiming, reclaim_of_upload, still_processing, timed_out, unless_unpriced, uploads_db,
}

-- The PRL are retrieved, and fetching back the gas has failed.
abbrev pub Failed : CompletedUpload → Type 0
Failed t = (gas_is leftovers_reclaim_error t ≡ true) × (prl_is prl_claim_success t ≡ true)

abbrev NoneOf : (CompletedUpload → Bool) → Type 0
NoneOf test = (t : CompletedUpload) → Failed t → test t ≡ false

no_gas : (g : ℤ) → eqb_ℤ leftovers_reclaim_error g ≡ false → NoneOf (gas_is g)
no_gas g ne t h = is_not t.gas_status leftovers_reclaim_error g h.0 ne

no_prl : (p : ℤ) → eqb_ℤ prl_claim_success p ≡ false → NoneOf (prl_is p)
no_prl p ne t h = is_not t.prl_status prl_claim_success p h.1 ne

none_and : (test more : CompletedUpload → Bool) → NoneOf test → NoneOf (λ t. test t && more t)
none_and test more f t h = rw (f t h) refl

keep-nil :
    (test : CompletedUpload → Bool) (rows : List CompletedUpload)
    → NoneOf test
    → All Failed rows
    → keep test rows ≡ []
keep-nil test [] f h = refl
keep-nil test (t ∷ rows) f h = rw (f t h.0, keep) (keep-nil test rows f h.1)

keep-rows :
    (test : CompletedUpload → Bool) (rows : List CompletedUpload)
    → NoneOf test
    → All Failed rows
    → keep (λ t. not (test t)) rows ≡ rows
keep-rows test [] f h = refl
keep-rows test (t ∷ rows) f h = rw (f t h.0, keep) (ap (λ r. t ∷ r) (keep-rows test rows f h.1))

either_way : {A : Type 0} (b : Bool) (x y : A) → x ≡ y → (if b then x else y) ≡ y
either_way true x y e = e
either_way false x y e = refl

module _ {Chain : Type 0} (gw : UnusedServices Chain) (s : Uploads gw) (h : All Failed s.rows) where
  idle :
      (query : ℕ) (test : CompletedUpload → Bool) (body : CompletedUpload → Uploads gw → Uploads gw)
      → NoneOf test
      → each_row (uploads_db gw) query test body s ≡ s
  unfolding each_row
  idle query test body f =
      either_way ((uploads_db gw).query_works query) _ s
        (ap (λ r. for_each body r s) (keep-nil test s.rows f h))

  unpriced :
      (price : Option ℤ) (f : ℤ → Uploads gw)
      → ((g : ℤ) → f g ≡ s)
      → unless_unpriced gw price f s ≡ s
  unpriced none f e = refl
  unpriced (some g) f e = e g

  idle_gas :
      (query : ℕ) (test : CompletedUpload → Bool)
      → NoneOf test
      → initiate_gas_transfer gw query test s ≡ s
  unfolding initiate_gas_transfer
  idle_gas query test f =
      unpriced (gw.gas_for_prl_send s.chain) _ (λ g. idle query test (send_gas_to_upload gw g) f)

  idle_checks :
      check_processing_gas_reclaims gw
        (check_processing_prl_transactions gw (check_processing_gas_transactions gw s))
      ≡ s
  unfolding check_processing_gas_reclaims check_processing_prl_transactions
      check_processing_gas_transactions
  idle_checks =
      rw
        (idle 0 (gas_is gas_transfer_processing) (gas_of_upload gw)
          (no_gas gas_transfer_processing refl))
        (rw
          (idle 1 (prl_is prl_claim_processing) (prl_of_upload gw)
            (no_prl prl_claim_processing refl))
          (idle 2 (gas_is leftovers_reclaim_processing) (reclaim_of_upload gw)
            (no_gas leftovers_reclaim_processing refl)))

  idle_time_outs : (threshold_time : ℕ) → resend_timed_out gw threshold_time s ≡ s
  unfolding resend_timed_out
  idle_time_outs threshold_time =
      let late = timed_out threshold_time in
      rw
        (idle_gas 3 (λ t. gas_is gas_transfer_processing t && late t)
          (none_and (gas_is gas_transfer_processing) late (no_gas gas_transfer_processing refl)))
        (rw
          (idle 4 (λ t. prl_is prl_claim_processing t && late t) (initiate_prl_claim_of gw)
            (none_and (prl_is prl_claim_processing) late (no_prl prl_claim_processing refl)))
          (idle 5 (λ t. gas_is leftovers_reclaim_processing t && late t) (reset_reclaim_of gw)
            (none_and (gas_is leftovers_reclaim_processing) late
              (no_gas leftovers_reclaim_processing refl))))

  idle_errors : resend_errored_transfers gw s ≡ s
  unfolding resend_errored_transfers
  idle_errors =
      rw (idle_gas 6 (gas_is gas_transfer_failed) (no_gas gas_transfer_failed refl))
        (idle 7 (prl_is prl_claim_error) (initiate_prl_claim_of gw) (no_prl prl_claim_error refl))

  not_ready : NoneOf (ready_for_claiming gw)
  unfolding ready_for_claiming
  not_ready =
      none_and (gas_is gas_transfer_not_started) (λ t. not (still_processing gw t))
        (no_gas gas_transfer_not_started refl)

  idle_new : start_new_claims gw (send_gas_for_new_claims gw s) ≡ s
  unfolding send_gas_for_new_claims start_new_claims
  idle_new =
      let has_prl : CompletedUpload → Bool =
        λ t. not (eqb_ℤ (wrap64 (gw.check_prl_balance s.chain t.eth_addr)) (pos 0)) in
      rw
        (idle_gas 8 (λ t. ready_for_claiming gw t && has_prl t)
          (none_and (ready_for_claiming gw) has_prl not_ready))
        (idle 9 (both_are gas_transfer_success prl_claim_not_started) (initiate_prl_claim_of gw) (
          none_and (gas_is gas_transfer_success) (prl_is prl_claim_not_started)
            (no_gas gas_transfer_success refl)))

  idle_end : (time : ℕ) → purge_completed_claims gw (retrieve_leftover_eth gw time s) ≡ s
  unfolding purge_completed_claims retrieve_leftover_eth
  idle_end time =
      rw
        (idle 10 (both_are gas_transfer_success prl_claim_success) (retrieve_leftover_of gw time) (
          none_and (gas_is gas_transfer_success) (prl_is prl_claim_success)
            (no_gas gas_transfer_success refl)))
        (either_way gw.delete_works _ s (
          ap (λ r. record s { rows = r })
            (keep-rows (gas_is leftovers_reclaim_success) s.rows
              (no_gas leftovers_reclaim_success refl) h)))

-- A table of rows whose PRL are retrieved, and for which fetching back the gas has failed, is the same
-- after any run of ClaimUnusedPRLs, and so is the chain: they are never tried again, and never deleted.
pub claim_unused_prls-Failed :
    {Chain : Type 0} (gw : UnusedServices Chain) (mode : BrokerMode) (payment : PaymentMode)
    (threshold_time : ℕ) (s : Uploads gw)
    → All Failed s.rows
    → claim_unused_prls gw mode payment threshold_time s ≡ s
unfolding claim_unused_prls
claim_unused_prls-Failed gw mode payment threshold_time s h =
    either_way (is_prod mode && is_user_paying payment) _ s (
      rw (idle_checks gw s h) (
        rw (idle_time_outs gw s h threshold_time) (
          rw (idle_errors gw s h)
            (rw (idle_new gw s h) (idle_end gw s h (threshold_time - (gw.now - threshold_time)))))))

-- ===== src/Claims/Job/Sound/Run.antt =====
-- jobs/claim_treasure_for_webnode.go: a whole run of the job keeps every claim sound.
use brokernode.Prelude.{
  ℕ, ◌≡◌, refl, Bool, true, false, ◌&&◌, not, inl, inr, Bool-cases, All, All-map, arith, leb,
}
use brokernode.Prelude.Int.{ℤ, eqb_ℤ, eqb_ℤ_iff}
use brokernode.Prelude.Table.{keep, All-keep}
use brokernode.Utils.Mode.{BrokerMode, is_prod}
use brokernode.Claims.{
  Claim, Claiming, Gateway, claim_not_started, claim_processing, claim_success, claim_error,
  gas_not_started, gas_processing, gas_success, reclaim_processing, reclaim_success,
  gas_transfer_error, reclaim_error, by_gas, by_prl, by_both, with_gas, gas_arrived_of, on_clock,
  reclaimed_of, each, check_ongoing_gas_transactions, check_ongoing_prl_claims,
  check_ongoing_gas_reclaims,
}
use brokernode.Claims.Job.{
  claim_prl_of, reset_of, retrieve_of, purge_completed_treasure_claims, resend_old, resend_errored,
  start_new, claim_treasure_for_webnode,
}
use brokernode.Claims.Job.Sound.{
  reclaims, Sound, AllSound, each-Sound, send_gas-Sound, claim_prl_of-Sound, gas_arrived-Sound,
  on_clock-Sound, reclaimed-Sound, on_worth-Sound, priced-Sound, write-Sound, if-Sound,
}

-- A row whose PRL are not claimed has none of the statuses of fetching gas back.
unclaimed_lem :
    (t : Claim) (s : ℤ)
    → eqb_ℤ s claim_success ≡ false
    → Sound t
    → eqb_ℤ t.claim_prl_status s ≡ true
    → reclaims t ≡ false
unclaimed_lem t s other h e =
    let same : t.claim_prl_status ≡ s = (eqb_ℤ_iff t.claim_prl_status s).0 e in
    let unclaimed : eqb_ℤ t.claim_prl_status claim_success ≡ false = rw same other in
    elim (Bool-cases (reclaims t)) [
      | inr free ↦ free
      | inl back ↦ absurd (ground (arith, h, back, unclaimed))
    ]

back_claimed :
    (t : Claim)
    → Sound t
    → eqb_ℤ t.gas_status reclaim_processing ≡ true
    → eqb_ℤ t.claim_prl_status claim_success ≡ true
back_claimed t h e = ground (arith, h, e)

and_first : (a b : Bool) → (a && b) ≡ true → a ≡ true
and_first a b h = ground (arith, h)

and_second : (a b : Bool) → (a && b) ≡ true → b ≡ true
and_second a b h = ground (arith, h)

module _ {Chain : Type 0} (gw : Gateway Chain) where
  checked :
      (s : Claiming Chain)
      → AllSound gw s
      → AllSound gw (
          check_ongoing_gas_reclaims gw
            (check_ongoing_prl_claims gw (check_ongoing_gas_transactions gw s)))
  unfolding check_ongoing_gas_transactions check_ongoing_prl_claims check_ongoing_gas_reclaims
  checked s k =
      let gas =
        priced-Sound gw (gw.gas_for_claim s.chain)
          (λ g. each gw 0 (by_gas gas_processing) (gas_arrived_of gw g) s) s
          (λ g.
            each-Sound gw 0 (by_gas gas_processing) (gas_arrived_of gw g) s
              (λ t s h k. gas_arrived-Sound gw g t s k) k)
          k in
      let prl =
        each-Sound gw 1 (by_prl claim_processing)
          (λ t s. on_clock gw (gw.check_claim_clock s.chain t.treasure_eth_addr) t s) _
          (λ t s h k. on_clock-Sound gw (gw.check_claim_clock s.chain t.treasure_eth_addr) t s k)
          gas in
      each-Sound gw 2 (by_gas reclaim_processing) (reclaimed_of gw) _
        (λ t s h k. reclaimed-Sound gw t s (back_claimed t h.0 h.1) k) prl

  reset-Sound : (t : Claim) (s : Claiming Chain) → AllSound gw s → AllSound gw (reset_of gw t s)
  unfolding reset_of
  reset-Sound t s k = write-Sound gw (with_gas gas_success t) s refl k

  old-Sound :
      (threshold_time : ℕ) (s : Claiming Chain)
      → AllSound gw s
      → AllSound gw (resend_old gw threshold_time s)
  unfolding resend_old
  old-Sound threshold_time s k =
      let late : Claim → Bool = λ t. leb t.updated_at threshold_time in
      let gas = send_gas-Sound gw 3 (λ t. by_gas gas_processing t && late t) s k in
      let prl =
        each-Sound gw 4 (λ t. by_prl claim_processing t && late t) (claim_prl_of gw) _
          (λ t s h k.
            claim_prl_of-Sound gw t s
              (unclaimed_lem t claim_processing refl h.0
                (and_first (by_prl claim_processing t) (late t) h.1))
              k)
          gas in
      each-Sound gw 5 (λ t. by_gas reclaim_processing t && late t) (reset_of gw) _
        (λ t s h k. reset-Sound t s k) prl

  errored-Sound : (s : Claiming Chain) → AllSound gw s → AllSound gw (resend_errored gw s)
  unfolding resend_errored
  errored-Sound s k =
      let gas = send_gas-Sound gw 6 (by_gas gas_transfer_error) s k in
      let prl =
        each-Sound gw 7 (by_prl claim_error) (claim_prl_of gw) _
          (λ t s h k. claim_prl_of-Sound gw t s (unclaimed_lem t claim_error refl h.0 h.1) k) gas in
      each-Sound gw 8 (by_gas reclaim_error) (reset_of gw) _ (λ t s h k. reset-Sound t s k) prl

  new-Sound : (s : Claiming Chain) → AllSound gw s → AllSound gw (start_new gw s)
  unfolding start_new retrieve_of
  new-Sound s k =
      let gas = send_gas-Sound gw 9 (by_gas gas_not_started) s k in
      let prl =
        each-Sound gw 10 (by_both gas_success claim_not_started) (claim_prl_of gw) _
          (λ t s h k.
            claim_prl_of-Sound gw t s
              (unclaimed_lem t claim_not_started refl h.0
                (and_second (by_gas gas_success t) (by_prl claim_not_started t) h.1))
              k)
          gas in
      each-Sound gw 11 (by_both gas_success claim_success) (retrieve_of gw) _
        (λ t s h k.
          on_worth-Sound gw (gw.check_if_worth_reclaiming_gas s.chain t.treasure_eth_addr) t s
            (and_second (by_gas gas_success t) (by_prl claim_success t) h.1) k)
        prl

  purged-Sound :
      (s : Claiming Chain) → AllSound gw s → AllSound gw (purge_completed_treasure_claims gw s)
  unfolding purge_completed_treasure_claims
  purged-Sound s k =
      let test : Claim → Bool = λ t. not (eqb_ℤ t.gas_status reclaim_success) in
      let rest : AllSound gw (record s { claims = keep test s.claims }) = record {
        rows =
            All-map _ _ (keep test s.claims) (λ t both. both.0)
              (All-keep Sound test s.claims k.rows);
      } in
      if-Sound gw gw.delete_works _ s rest k

  run-Sound :
      (mode : BrokerMode) (threshold_time : ℕ) (s : Claiming Chain)
      → AllSound gw s
      → AllSound gw (claim_treasure_for_webnode gw mode threshold_time s)
  unfolding claim_treasure_for_webnode
  run-Sound mode threshold_time s k =
      if-Sound gw (is_prod mode) _ s
        (purged-Sound _ (new-Sound _ (errored-Sound _ (old-Sound threshold_time _ (checked s k)))))
        k

-- A run of ClaimTreasureForWebnode, whatever the database and the chain answer, keeps this of every
-- claim: where its gas is being fetched back, or has been or failed to be, its PRL are claimed.
pub claim_treasure_for_webnode-Sound :
    {Chain : Type 0} (gw : Gateway Chain) (mode : BrokerMode) (threshold_time : ℕ)
    (s : Claiming Chain)
    → All Sound s.claims
    → All Sound (claim_treasure_for_webnode gw mode threshold_time s).claims
claim_treasure_for_webnode-Sound gw mode threshold_time s h =
    (run-Sound gw mode threshold_time s (record { rows = h })).rows

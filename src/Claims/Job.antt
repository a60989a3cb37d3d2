-- ===== src/Claims/Job.antt =====
-- jobs/claim_treasure_for_webnode.go: claiming the PRL, retries, what is left of the gas, and the run.
pub mod Sound
use brokernode.Prelude.{ℕ, Bool, true, false, ◌&&◌, not, Option, none, some, leb, if◌then◌else◌}
use brokernode.Prelude.Int.{ℤ, pos, negsuc, eqb_ℤ}
use brokernode.Prelude.Word.{wrap64}
use brokernode.Prelude.Bytes.{Bytes}
use brokernode.Prelude.Table.{keep}
use brokernode.Utils.Mode.{BrokerMode, is_prod}
use brokernode.Claims.{
  Claim, Claiming, Gateway, claim_not_started, claim_processing, claim_success, claim_error,
  gas_not_started, gas_processing, gas_success, reclaim_processing, reclaim_success,
  gas_transfer_error, reclaim_error, by_gas, by_prl, by_both, with_gas, with_prl, stamp, write,
  each, send_gas, check_ongoing_gas_transactions, check_ongoing_prl_claims,
  check_ongoing_gas_reclaims,
}

module _ {Chain : Type 0} (gw : Gateway Chain) where
  -- SetClaimClockIfUnset: the row with its clock, or `none` on an error, and the state after it.
  pub read_clock : Option ℤ → Claim → Claiming Chain → Option Claim × Claiming Chain
  unfolding write stamp
  read_clock none t s = (none, s)
  read_clock (some clock) t s =
      let t' = record t { starting_claim_clock = wrap64 clock } in
      (if gw.update_works (stamp gw t') then some t' else none, write gw t' s)

  pub set_claim_clock_if_unset : Claim → Claiming Chain → Option Claim × Claiming Chain
  unfolding read_clock
  set_claim_clock_if_unset t s =
      if eqb_ℤ t.starting_claim_clock (negsuc 0)
      then read_clock (gw.check_claim_clock s.chain t.treasure_eth_addr) t s
      else (some t, s)

  -- ClaimPRL, once the key has been read.
  pub claim_with : Option Bytes → Claim → Claiming Chain → Claiming Chain
  unfolding write
  claim_with none t s = s
  claim_with (some key) t s =
      let (success, chain') = gw.claim_prl s.chain t.receiver_eth_addr t.treasure_eth_addr key in
      let s' = record s { chain = chain' } in
      let started = write gw (with_prl claim_processing t) s' in
      let failed = write gw (with_prl claim_error t) s' in if success then started else failed

  pub claim_clocked : Option Claim → Claiming Chain → Claiming Chain
  unfolding claim_with write
  claim_clocked none s = s
  claim_clocked (some t) s =
      let nothing_there = write gw (with_prl claim_success t) s in
      let claimed = claim_with (gw.decrypt t) t s in
      if eqb_ℤ (wrap64 (gw.check_prl_balance s.chain t.treasure_eth_addr)) (pos 0)
      then nothing_there
      else claimed

  pub claim_prl_of : Claim → Claiming Chain → Claiming Chain
  unfolding claim_clocked set_claim_clock_if_unset
  claim_prl_of t s = let (clocked, s') = set_claim_clock_if_unset t s in claim_clocked clocked s'

  -- ResendOldGasReclaims and ResendErroredGasReclaims
  pub reset_of : Claim → Claiming Chain → Claiming Chain
  unfolding write
  reset_of t s = write gw (with_gas gas_success t) s

  -- RetrieveLeftoverETHFromTreasureClaiming; a key that does not parse is passed on as none.
  pub on_worth : Option (Bool × ℤ) → Claim → Claiming Chain → Claiming Chain
  unfolding write
  on_worth none t s = s
  on_worth (some (false, gas_to_reclaim)) t s = write gw (with_gas reclaim_success t) s
  on_worth (some (true, gas_to_reclaim)) t s =
      let (answer, chain') =
        gw.send_eth s.chain t.treasure_eth_addr (gw.decrypt t) gw.main_wallet gas_to_reclaim in
      let s' = record s { chain = chain' } in
      let started = write gw (with_gas reclaim_processing t) s' in
      elim answer [ none ↦ s' | some sent ↦ started ]

  pub retrieve_of : Claim → Claiming Chain → Claiming Chain
  unfolding on_worth
  retrieve_of t s = on_worth (gw.check_if_worth_reclaiming_gas s.chain t.treasure_eth_addr) t s

  -- PurgeCompletedTreasureClaims
  pub purge_completed_treasure_claims : Claiming Chain → Claiming Chain
  purge_completed_treasure_claims s =
      let purged = record s {
        claims = keep (λ (t : Claim). not (eqb_ℤ t.gas_status reclaim_success)) s.claims;
      } in
      if gw.delete_works then purged else s

  -- ResendOldETHTransfers, ResendOldPRLClaims, ResendOldGasReclaims
  pub resend_old : ℕ → Claiming Chain → Claiming Chain
  unfolding send_gas each claim_prl_of reset_of
  resend_old threshold_time s =
      let late : Claim → Bool = λ t. leb t.updated_at threshold_time in
      let gas = send_gas gw 3 (λ t. by_gas gas_processing t && late t) s in
      let prl = each gw 4 (λ t. by_prl claim_processing t && late t) claim_prl_of gas in
      each gw 5 (λ t. by_gas reclaim_processing t && late t) reset_of prl

  -- ResendErroredETHTransfers, ResendErroredPRLClaims, ResendErroredGasReclaims
  pub resend_errored : Claiming Chain → Claiming Chain
  unfolding send_gas each claim_prl_of reset_of
  resend_errored s =
      let gas = send_gas gw 6 (by_gas gas_transfer_error) s in
      let prl = each gw 7 (by_prl claim_error) claim_prl_of gas in
      each gw 8 (by_gas reclaim_error) reset_of prl

  -- SendGasForNewTreasureClaims, StartNewTreasureClaims, RetrieveLeftoverETHFromTreasureClaiming
  pub start_new : Claiming Chain → Claiming Chain
  unfolding send_gas each claim_prl_of retrieve_of
  start_new s =
      let gas = send_gas gw 9 (by_gas gas_not_started) s in
      let prl = each gw 10 (by_both gas_success claim_not_started) claim_prl_of gas in
      each gw 11 (by_both gas_success claim_success) retrieve_of prl

  -- ClaimTreasureForWebnode
  pub claim_treasure_for_webnode : BrokerMode → ℕ → Claiming Chain → Claiming Chain
  unfolding check_ongoing_gas_transactions check_ongoing_prl_claims check_ongoing_gas_reclaims
      resend_old resend_errored start_new purge_completed_treasure_claims
  claim_treasure_for_webnode mode threshold_time s =
      let checked =
        check_ongoing_gas_reclaims gw
          (check_ongoing_prl_claims gw (check_ongoing_gas_transactions gw s)) in
      let resent = resend_errored (resend_old threshold_time checked) in
      let done = purge_completed_treasure_claims (start_new resent) in
      if is_prod mode then done else s

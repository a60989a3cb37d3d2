-- ===== src/Treasures/Bury.antt =====
-- jobs/bury_treasure_addresses.go: one run of the job that takes every treasure through its burial.
-- A row in a loop is the row that the query read; what Int64 makes of a big.Int is its low 64 bits.
pub mod Graph
mod Tests
use brokernode.Prelude.{
  ℕ, ◌-◌, Bool, true, false, ◌&&◌, ◌||◌, not, Option, none, some, List, [], ◌∷◌, ltb, if◌then◌else◌,
}
use brokernode.Prelude.Int.{ℤ, pos, negsuc, eqb_ℤ, ltb_ℤ, leb_ℤ}
use brokernode.Prelude.Word.{wrap64, add64, mul64}
use brokernode.Prelude.Bytes.{Bytes}
use brokernode.Prelude.Table.{for_each}
use brokernode.Utils.Mode.{BrokerMode, PaymentMode, is_prod, is_user_paying}
use brokernode.Treasures.{
  Treasure, Burial, Services, Sent, get_treasures, get_late_treasures, update,
  set_to_treasure_buried, prl_waiting, prl_pending, prl_confirmed, gas_pending, gas_confirmed,
  bury_pending, bury_confirmed, gas_reclaim_pending, gas_reclaim_confirmed, prl_error, gas_error,
  bury_error, gas_reclaim_error,
}

-- The test of CheckPRLTransactions.
abbrev pub prl_arrived : ℤ → ℤ → Bool
prl_arrived balance expected =
    (ltb_ℤ (pos 0) (wrap64 balance) && eqb_ℤ balance expected)
    || leb_ℤ (wrap64 expected) (wrap64 balance)

-- A loop over what a query answered; its error ends the function.
abbrev pub over {ℓ κ} : {A : Type ℓ} {S : Type κ} → Option (List A) → (A → S → S) → S → S
over none body s = s
over (some rows) body s = for_each body rows s

abbrev pub to_status : ℤ → Treasure → Treasure
to_status s t = record t { prl_status = s }

module _ {Chain : Type 0} (sv : Services Chain) where
  -- CheckPRLTransactions
  pub check_prl_of : Treasure → Burial Chain → Burial Chain
  unfolding update
  check_prl_of t b =
      let confirmed = update sv (to_status prl_confirmed t) b in
      if prl_arrived (sv.check_prl_balance b.chain t.eth_addr) t.prl_amount then confirmed else b

  pub check_prl_transactions : Burial Chain → Burial Chain
  unfolding check_prl_of get_treasures
  check_prl_transactions b = over (get_treasures sv (prl_pending ∷ []) b.treasures) check_prl_of b

  -- CheckGasTransactions
  pub check_gas_of : Treasure → Burial Chain → Burial Chain
  unfolding update
  check_gas_of t b =
      let confirmed = update sv (to_status gas_confirmed t) b in
      if ltb_ℤ (pos 0) (wrap64 (sv.check_eth_balance b.chain t.eth_addr)) then confirmed else b

  pub check_gas_transactions : Burial Chain → Burial Chain
  unfolding check_gas_of get_treasures
  check_gas_transactions b = over (get_treasures sv (gas_pending ∷ []) b.treasures) check_gas_of b

  -- CheckBuryTransactions
  pub on_buried : Option Bool → Treasure → Burial Chain → Burial Chain
  unfolding update set_to_treasure_buried
  on_buried none t b = b
  on_buried (some false) t b = b
  on_buried (some true) t b =
      let (marked, b') = set_to_treasure_buried sv t.genesis_hash b in
      let confirmed = update sv (to_status bury_confirmed t) b' in if marked then confirmed else b'

  pub check_bury_of : Treasure → Burial Chain → Burial Chain
  unfolding on_buried
  check_bury_of t b = on_buried (sv.check_buried_state b.chain t.eth_addr) t b

  pub check_bury_transactions : Burial Chain → Burial Chain
  unfolding check_bury_of get_treasures
  check_bury_transactions b =
      over (get_treasures sv (bury_pending ∷ []) b.treasures) check_bury_of b

  -- CheckForReclaimableGas; a key that does not parse is passed on as none.
  pub on_reclaimable : Option (Bool × ℤ) → ℕ → Treasure → Burial Chain → Burial Chain
  unfolding update
  on_reclaimable none threshold_time t b = b
  on_reclaimable (some (worth, gas_to_reclaim)) threshold_time t b =
      let given_up = update sv (to_status gas_reclaim_confirmed t) b in
      let (success, chain') = sv.reclaim_gas b.chain t.eth_addr (sv.decrypt t) gas_to_reclaim in
      let b' = record b { chain = chain' } in
      let started = update sv (to_status gas_reclaim_pending t) b' in
      let failed = update sv (to_status gas_reclaim_error t) b' in
      if not worth
      then if ltb t.updated_at threshold_time then given_up else b
      else if eqb_ℤ t.prl_status gas_reclaim_pending
      then b
      else if success
      then started
      else failed

  pub reclaim_of : ℕ → Treasure → Burial Chain → Burial Chain
  unfolding on_reclaimable
  reclaim_of threshold_time t b =
      on_reclaimable (sv.check_if_worth_reclaiming_gas b.chain t.eth_addr) threshold_time t b

  pub check_for_reclaimable_gas : ℕ → Burial Chain → Burial Chain
  unfolding reclaim_of get_treasures
  check_for_reclaimable_gas threshold_time b =
      over (get_treasures sv (gas_reclaim_pending ∷ bury_confirmed ∷ []) b.treasures)
        (reclaim_of threshold_time) b

  -- SetTimedOutTransactionsToError
  pub time_out_of : Treasure → Burial Chain → Burial Chain
  unfolding update
  time_out_of t b = update sv (to_status (mul64 (add64 t.prl_status (negsuc 0)) (negsuc 0)) t) b

  pub set_timed_out_transactions_to_error : Burial Chain → Burial Chain
  unfolding time_out_of get_late_treasures
  set_timed_out_transactions_to_error b =
      over
        (get_late_treasures sv (prl_pending ∷ gas_pending ∷ bury_pending ∷ gas_reclaim_pending ∷ [])
          b.treasures)
        time_out_of b

  -- StageTransactionsWithErrorsForRetry
  pub stage_of : Treasure → Burial Chain → Burial Chain
  unfolding update
  stage_of t b = update sv (to_status (mul64 t.prl_status (negsuc 0)) t) b

  pub stage_transactions_with_errors_for_retry : Burial Chain → Burial Chain
  unfolding stage_of get_treasures
  stage_transactions_with_errors_for_retry b =
      over
        (get_treasures sv (prl_error ∷ gas_error ∷ bury_error ∷ gas_reclaim_error ∷ []) b.treasures)
        stage_of b

  -- sendPRL
  pub send_prl_to : Treasure → Burial Chain → Burial Chain
  unfolding update
  send_prl_to t b =
      let balance = wrap64 (sv.check_prl_balance b.chain sv.main_wallet) in
      let sent = sv.send_prl b.chain sv.main_wallet sv.main_key t.eth_addr t.prl_amount in
      let b' = record b { chain = sent.chain } in
      let t' = record t {
        prl_status = prl_pending;
        prl_tx_hash = sent.tx_hash;
        prl_tx_nonce = sent.nonce;
      } in
      if leb_ℤ balance (pos 0) || ltb_ℤ balance (wrap64 t.prl_amount)
      then b
      else if sent.fine
      then update sv t' b'
      else update sv (to_status prl_error t) b'

  pub send_prls_to_waiting_treasure_addresses : Burial Chain → Burial Chain
  unfolding send_prl_to get_treasures
  send_prls_to_waiting_treasure_addresses b =
      over (get_treasures sv (prl_waiting ∷ []) b.treasures) send_prl_to b

  -- sendGas
  pub on_gas_needed : Option ℤ → Treasure → Burial Chain → Burial Chain
  unfolding update
  on_gas_needed none t b = b
  on_gas_needed (some gas_to_send) t b =
      let balance = wrap64 (sv.check_eth_balance b.chain sv.main_wallet) in
      let sent = sv.send_eth b.chain sv.main_wallet sv.main_key t.eth_addr gas_to_send in
      let b' = record b { chain = sent.chain } in
      let t' = record t {
        prl_status = gas_pending;
        gas_tx_hash = sent.tx_hash;
        gas_tx_nonce = sent.nonce;
      } in
      if ltb_ℤ balance (wrap64 gas_to_send)
      then b
      else if sent.fine
      then update sv t' b'
      else update sv (to_status gas_error t) b'

  pub send_gas_to : Treasure → Burial Chain → Burial Chain
  unfolding on_gas_needed
  send_gas_to t b = on_gas_needed (sv.calculate_gas_needed b.chain) t b

  pub send_gas_to_treasure_addresses : Burial Chain → Burial Chain
  unfolding send_gas_to get_treasures
  send_gas_to_treasure_addresses b =
      over (get_treasures sv (prl_confirmed ∷ []) b.treasures) send_gas_to b

  -- buryPRL
  pub on_key : Option Bytes → Treasure → Burial Chain → Burial Chain
  unfolding update
  on_key none t b = b
  on_key (some key) t b =
      let sent = sv.bury_prl b.chain t.eth_addr key in
      let b' = record b { chain = sent.chain } in
      let t' = record t {
        prl_status = bury_pending;
        bury_tx_hash = sent.tx_hash;
        bury_tx_nonce = sent.nonce;
      } in
      if sent.fine then update sv t' b' else update sv (to_status bury_error t) b'

  pub bury_prl_of : Treasure → Burial Chain → Burial Chain
  unfolding on_key
  bury_prl_of t b =
      let buried = on_key (sv.decrypt t) t b in
      if leb_ℤ (wrap64 (sv.check_prl_balance b.chain t.eth_addr)) (pos 0)
        || leb_ℤ (wrap64 (sv.check_eth_balance b.chain t.eth_addr)) (pos 0)
      then b
      else buried

  -- InvokeBury
  pub invoke_bury : Burial Chain → Burial Chain
  unfolding bury_prl_of get_treasures
  invoke_bury b = over (get_treasures sv (gas_confirmed ∷ []) b.treasures) bury_prl_of b

  -- BuryTreasureAddresses
  pub bury_treasure_addresses : BrokerMode → PaymentMode → ℕ → Burial Chain → Burial Chain
  unfolding check_prl_transactions check_gas_transactions check_bury_transactions
      set_timed_out_transactions_to_error stage_transactions_with_errors_for_retry
      send_prls_to_waiting_treasure_addresses send_gas_to_treasure_addresses invoke_bury
      check_for_reclaimable_gas
  bury_treasure_addresses mode payment threshold_time b =
      let checked = check_bury_transactions (check_gas_transactions (check_prl_transactions b)) in
      let staged =
        stage_transactions_with_errors_for_retry (set_timed_out_transactions_to_error checked) in
      let sent =
        invoke_bury
          (send_gas_to_treasure_addresses (send_prls_to_waiting_treasure_addresses staged)) in
      let reclaimed = check_for_reclaimable_gas (threshold_time - (sv.now - threshold_time)) sent in
      if is_prod mode && is_user_paying payment then reclaimed else b

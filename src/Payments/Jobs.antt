-- ===== src/Payments/Jobs.antt =====
-- jobs/check_alpha_payments.go and jobs/check_beta_payments.go: one run of each payment job. A row
-- in a loop is the row that the query read; what Int64 makes of a big.Int is its low 64 bits.
pub mod Moves
pub mod Transfers
mod Tests
use brokernode.Prelude.{
  ℕ, ◌-◌, ◌*◌, Bool, true, false, ◌&&◌, not, Option, none, some, List, [], ◌∷◌, leb, if◌then◌else◌,
}
use brokernode.Prelude.Int.{div_ℤ, ℤ, pos, negsuc, ◌-ℤ◌, ◌*ℤ◌, eqb_ℤ, ltb_ℤ, leb_ℤ}
use brokernode.Prelude.Word.{wrap64, add64, mul64}
use brokernode.Prelude.Bytes.{bytes_eq, is_empty}
use brokernode.Prelude.Table.{keep, for_each}
use brokernode.Utils.Indexes.{quot_ℤ}
use brokernode.Models.Session.{session_type_alpha, session_type_beta}
use brokernode.Payments.{
  BrokerTx, State, World, Types, any_type, only, get_transactions, get_transactions_before, save,
  set_upload_session_to_paid, delete_completed_broker_transactions, alpha_payment_pending,
  alpha_payment_confirmed, gas_payment_pending, gas_payment_confirmed, beta_payment_pending,
  beta_payment_confirmed, gas_payment_error, beta_payment_error,
}

-- Whether an address holds what is expected of it.
abbrev pub arrived : ℤ → ℤ → Bool
arrived balance expected =
    ltb_ℤ (pos 0) (wrap64 balance) && leb_ℤ (wrap64 expected) (wrap64 balance)

abbrev pub is_alpha_tx : BrokerTx → Bool
is_alpha_tx t = eqb_ℤ t.type session_type_alpha

-- What both loops over gas do with the answer of addressHasEnoughGas: an error is logged, and the
-- loop goes on.
abbrev pub on_gas {ℓ} : {A : Type ℓ} → Option (Bool × ℤ) → A → A → (ℤ → A) → A
on_gas none unchanged enough missing = unchanged
on_gas (some (has_enough_gas, gas_to_send)) unchanged enough missing =
    if has_enough_gas then enough else missing gas_to_send

module _ {Chain : Type 0} (w : World Chain) where
  -- The body of CheckPaymentToAlpha's loop.
  pub check_payment_to_alpha_of : BrokerTx → State Chain → State Chain
  unfolding save set_upload_session_to_paid
  check_payment_to_alpha_of t st =
      let balance = w.check_prl_balance st.chain t.eth_addr_alpha in
      let next = if is_alpha_tx t then alpha_payment_confirmed else beta_payment_pending in
      let (saved, st') = save w t next st in
      let paid = set_upload_session_to_paid w t st' in
      if arrived balance (w.wei t.total_cost) then if saved then paid else st' else st

  -- CheckPaymentToAlpha
  pub check_payment_to_alpha : State Chain → State Chain
  unfolding check_payment_to_alpha_of get_transactions
  check_payment_to_alpha st =
      for_each check_payment_to_alpha_of
        (get_transactions w any_type (alpha_payment_pending ∷ []) st.txs) st

  -- addressHasEnoughGas: `none` for its error.
  pub address_has_enough_gas : BrokerTx → State Chain → Option (Bool × ℤ)
  address_has_enough_gas t st = elim (w.calculate_gas_needed st.chain) [
    | none ↦ none
    | some gas_needed ↦
        let gas_to_send = gas_needed -ℤ w.check_eth_balance st.chain t.eth_addr_alpha in
        some (if leb_ℤ (wrap64 gas_to_send) (pos 0) then (true, pos 0) else (false, gas_to_send))
  ]

  -- Sending the gas, in the body of SendGasToAlphaTransactionAddress's loop.
  pub send_gas_of : BrokerTx → ℤ → State Chain → State Chain
  unfolding save
  send_gas_of t gas_to_send st =
      let (sent, chain') = w.send_eth st.chain t.eth_addr_alpha gas_to_send in
      let st' = record st { chain = chain' } in
      let (saved, st'') = save w t gas_payment_pending st' in if sent then st'' else st'

  pub send_gas_to_alpha_of : BrokerTx → State Chain → State Chain
  unfolding send_gas_of save address_has_enough_gas
  send_gas_to_alpha_of t st =
      on_gas (address_has_enough_gas t st) st (save w t gas_payment_confirmed st).1
        (λ gas_to_send. send_gas_of t gas_to_send st)

  -- SendGasToAlphaTransactionAddress
  pub send_gas_to_alpha_transaction_address : State Chain → State Chain
  unfolding send_gas_to_alpha_of get_transactions
  send_gas_to_alpha_transaction_address st =
      for_each send_gas_to_alpha_of
        (get_transactions w (only session_type_alpha) (alpha_payment_confirmed ∷ []) st.txs) st

  -- CheckGasPayments
  pub check_gas_payments_of : BrokerTx → State Chain → State Chain
  unfolding save address_has_enough_gas
  check_gas_payments_of t st =
      on_gas (address_has_enough_gas t st) st (save w t gas_payment_confirmed st).1
        (λ gas_to_send. st)

  pub check_gas_payments : State Chain → State Chain
  unfolding check_gas_payments_of get_transactions
  check_gas_payments st =
      for_each check_gas_payments_of
        (get_transactions w (only session_type_alpha) (gas_payment_pending ∷ []) st.txs) st

  -- checkAndSendHalfPrlToBeta, for a row whose key parses. A balance of -1, which CheckPRLBalance gives on
  -- an error, is halved like any other.
  pub check_and_send_half_prl_to_beta : BrokerTx → ℤ → State Chain → State Chain
  unfolding save
  check_and_send_half_prl_to_beta t balance st =
      let beta_balance = w.check_prl_balance st.chain t.eth_addr_beta in
      let (send_success, chain') =
        w.send_prl st.chain t.eth_addr_alpha (w.decrypt t) t.eth_addr_beta (div_ℤ balance 2) in
      let st' = record st { chain = chain' } in
      let pending = (save w t beta_payment_pending st').1 in
      if not (is_alpha_tx t)
      then st
      else if not (eqb_ℤ t.payment_status gas_payment_confirmed)
      then st
      else if is_empty t.eth_addr_beta
      then st
      else if ltb_ℤ (pos 0) (wrap64 beta_balance)
      then (save w t beta_payment_confirmed st).1
      else if send_success
      then pending
      else st'

  -- SendPaymentToBeta
  pub send_payment_to_beta_of : BrokerTx → State Chain → State Chain
  unfolding check_and_send_half_prl_to_beta
  send_payment_to_beta_of t st =
      check_and_send_half_prl_to_beta t (w.check_prl_balance st.chain t.eth_addr_alpha) st

  pub send_payment_to_beta : State Chain → State Chain
  unfolding send_payment_to_beta_of get_transactions
  send_payment_to_beta st =
      for_each send_payment_to_beta_of
        (get_transactions w (only session_type_alpha) (gas_payment_confirmed ∷ []) st.txs) st

  -- CheckAlphaPayments
  pub check_alpha_payments : State Chain → State Chain
  unfolding check_payment_to_alpha send_gas_to_alpha_transaction_address check_gas_payments
      send_payment_to_beta
  check_alpha_payments st =
      send_payment_to_beta
        (check_gas_payments (send_gas_to_alpha_transaction_address (check_payment_to_alpha st)))

  -- CheckPaymentToBeta; what it reports of alpha is only logged.
  pub check_payment_to_beta_of : BrokerTx → State Chain → State Chain
  unfolding save
  check_payment_to_beta_of t st =
      let balance = w.check_prl_balance st.chain t.eth_addr_beta in
      let expected_balance = quot_ℤ (w.wei t.total_cost) 2 in
      let confirmed = (save w t beta_payment_confirmed st).1 in
      if arrived balance expected_balance then confirmed else st

  pub check_payment_to_beta : State Chain → State Chain
  unfolding check_payment_to_beta_of get_transactions
  check_payment_to_beta st =
      for_each check_payment_to_beta_of
        (get_transactions w any_type (beta_payment_pending ∷ []) st.txs) st

  -- HandleErrorTransactionsIfAlpha
  pub retry_error_of : BrokerTx → State Chain → State Chain
  unfolding save
  retry_error_of t st = (save w t (mul64 t.payment_status (negsuc 0)) st).1

  pub handle_error_transactions_if_alpha : State Chain → State Chain
  unfolding retry_error_of get_transactions
  handle_error_transactions_if_alpha st =
      for_each retry_error_of
        (get_transactions w (only session_type_alpha) (gas_payment_error ∷ beta_payment_error ∷ [])
          st.txs)
        st

  -- HandleTimedOutTransactionsIfAlpha; the duration is how long before now the threshold lies.
  pub step_back_of : BrokerTx → State Chain → State Chain
  unfolding save
  step_back_of t st = (save w t (add64 t.payment_status (negsuc 0)) st).1

  pub handle_timed_out_transactions_if_alpha : ℕ → State Chain → State Chain
  unfolding step_back_of get_transactions_before
  handle_timed_out_transactions_if_alpha duration st =
      for_each step_back_of
        (get_transactions_before w (only session_type_alpha)
          (gas_payment_pending ∷ beta_payment_pending ∷ []) (w.now - duration) st.txs)
        st

  -- ReportBadAlphaToDRS
  pub report_bad_alpha_to_drs : BrokerTx → State Chain → State Chain
  report_bad_alpha_to_drs t st =
      let deleted = record st {
        txs =
            keep
              (λ (r : BrokerTx). not (
                bytes_eq r.eth_addr_alpha t.eth_addr_alpha
                && bytes_eq r.eth_addr_beta t.eth_addr_beta))
              st.txs;
      } in
      if eqb_ℤ t.type session_type_beta then if w.report_works t then deleted else st else st

  -- HandleTimedOutBetaPaymentIfBeta
  pub handle_timed_out_beta_payment_if_beta : ℕ → State Chain → State Chain
  unfolding report_bad_alpha_to_drs get_transactions_before
  handle_timed_out_beta_payment_if_beta duration st =
      for_each report_bad_alpha_to_drs
        (get_transactions_before w (only session_type_beta) (beta_payment_pending ∷ [])
          (w.now - duration) st.txs)
        st

  -- CheckBetaPayments
  pub check_beta_payments : ℕ → State Chain → State Chain
  unfolding check_payment_to_beta handle_error_transactions_if_alpha
      handle_timed_out_transactions_if_alpha handle_timed_out_beta_payment_if_beta
      delete_completed_broker_transactions
  check_beta_payments duration st =
      let settled = handle_error_transactions_if_alpha (check_payment_to_beta st) in
      let retried = handle_timed_out_transactions_if_alpha duration settled in
      let purged = handle_timed_out_beta_payment_if_beta (duration * 3) retried in
      delete_completed_broker_transactions w purged

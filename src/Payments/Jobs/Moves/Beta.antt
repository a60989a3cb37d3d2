-- ===== src/Payments/Jobs/Moves/Beta.antt =====
-- jobs/check_beta_payments.go: the graph of statuses of CheckBetaPayments, and that every row of the
-- table stays in it.
use brokernode.Prelude.{
  ℕ, ◌≡◌, refl, Bool, true, ◌&&◌, List, [], ◌∷◌, inl, inr, All, ◌⊎◌, leb, ◌*◌, ◌-◌, All-map,
}
use brokernode.Prelude.Int.{ℤ, ◌*ℤ◌, ◌+ℤ◌, eqb_ℤ}
use brokernode.Prelude.Word.{wrap64}
use brokernode.Prelude.Table.{keep, for_each, All-keep, for_each-keeps, From, From-self}
use brokernode.Utils.Indexes.{quot_ℤ}
use brokernode.Models.Session.{session_type_alpha, session_type_beta}
use brokernode.Payments.{
  BrokerTx, State, World, any_type, query_loop, get_transactions, get_transactions_before,
  delete_completed_broker_transactions, beta_payment_confirmed, beta_payment_pending,
  gas_payment_confirmed, gas_payment_pending, alpha_payment_confirmed, gas_payment_error,
  beta_payment_error,
}
use brokernode.Payments.Jobs.{
  is_alpha_tx, arrived, check_payment_to_beta_of, check_payment_to_beta, retry_error_of,
  handle_error_transactions_if_alpha, step_back_of, handle_timed_out_transactions_if_alpha,
  report_bad_alpha_to_drs, handle_timed_out_beta_payment_if_beta, check_beta_payments,
}
use brokernode.Payments.Jobs.Moves.{Moved, Moved-refl, query_loop-All, Kept, Origin}
use brokernode.Payments.Jobs.Moves.Graph.{Picked, and-true, eq_of_test, saved, if-Kept, loop-Kept}

-- The moves of CheckBetaPayments.
pub data BetaEdge : Bool → ℤ → ℤ → Type 0 where
  paid_to_beta : {alpha : Bool} → BetaEdge alpha beta_payment_pending beta_payment_confirmed
  gas_retry : BetaEdge true gas_payment_error alpha_payment_confirmed
  beta_retry : BetaEdge true beta_payment_error gas_payment_confirmed
  gas_late : BetaEdge true gas_payment_pending alpha_payment_confirmed
  beta_late : BetaEdge true beta_payment_pending gas_payment_confirmed

-- An alpha row with one of two statuses.
abbrev Either : ℤ → ℤ → BrokerTx → Type 0
Either a b t = (is_alpha_tx t ≡ true) × ((t.payment_status ≡ a) ⊎ (t.payment_status ≡ b))

module _ {Chain : Type 0} (w : World Chain) (base : List BrokerTx) where
  -- A loop over the rows of several statuses.
  rows-Kept :
      (Q : BrokerTx → Type 0) (matches : ℤ → BrokerTx → Bool) (ss : List ℤ)
      (body : BrokerTx → State Chain → State Chain) (st : State Chain)
      → All (λ s. (t : BrokerTx) → matches s t ≡ true → Q t) ss
      → ((t : BrokerTx) (st : State Chain)
          → Origin BetaEdge base t × Q t
          → Kept BetaEdge base st
          → Kept BetaEdge base (body t st))
      → Kept BetaEdge base st
      → Kept BetaEdge base (for_each body (query_loop w matches ss [] st.txs) st)
  rows-Kept Q matches ss body st q f k =
      for_each-keeps (λ t. Origin BetaEdge base t × Q t) (Kept BetaEdge base) body
        (query_loop w matches ss [] st.txs) st f
        (query_loop-All w (Origin BetaEdge base) (λ t. Origin BetaEdge base t × Q t) matches ss []
          st.txs (All-map _ _ ss (λ s h t o m. (o, h t m)) q) k.rows tt)
        k

  confirmed_of-Kept :
      (t : BrokerTx) (st : State Chain)
      → Origin BetaEdge base t × Picked any_type beta_payment_pending t
      → Kept BetaEdge base st
      → Kept BetaEdge base (check_payment_to_beta_of w t st)
  unfolding check_payment_to_beta_of
  confirmed_of-Kept t st (o, (ty, s)) k =
      if-Kept w base BetaEdge
        (arrived (w.check_prl_balance st.chain t.eth_addr_beta) (quot_ℤ (w.wei t.total_cost) 2)) _
        st (saved w BetaEdge base t (is_alpha_tx t) _ _ st o refl s paid_to_beta k) k

  retried-Kept :
      (t : BrokerTx) (st : State Chain)
      → Origin BetaEdge base t × Either gas_payment_error beta_payment_error t
      → Kept BetaEdge base st
      → Kept BetaEdge base (retry_error_of w t st)
  unfolding retry_error_of wrap64 ◌*ℤ◌
  retried-Kept t st (o, (alpha, inl s)) k =
      rw s (saved w BetaEdge base t true _ _ st o alpha s gas_retry k)
  retried-Kept t st (o, (alpha, inr s)) k =
      rw s (saved w BetaEdge base t true _ _ st o alpha s beta_retry k)

  late-Kept :
      (t : BrokerTx) (st : State Chain)
      → Origin BetaEdge base t × Either gas_payment_pending beta_payment_pending t
      → Kept BetaEdge base st
      → Kept BetaEdge base (step_back_of w t st)
  unfolding step_back_of wrap64 ◌+ℤ◌
  late-Kept t st (o, (alpha, inl s)) k =
      rw s (saved w BetaEdge base t true _ _ st o alpha s gas_late k)
  late-Kept t st (o, (alpha, inr s)) k =
      rw s (saved w BetaEdge base t true _ _ st o alpha s beta_late k)

  -- A deletion.
  deleted-Kept :
      (p : BrokerTx → Bool) (st : State Chain)
      → Kept BetaEdge base st
      → Kept BetaEdge base (record st { txs = keep p st.txs })
  deleted-Kept p st k = record {
    rows =
        All-map _ _ (keep p st.txs) (λ t both. both.0)
          (All-keep (Origin BetaEdge base) p st.txs k.rows);
  }

  reported-Kept :
      (t : BrokerTx) (st : State Chain)
      → Kept BetaEdge base st
      → Kept BetaEdge base (report_bad_alpha_to_drs w t st)
  unfolding report_bad_alpha_to_drs
  reported-Kept t st k =
      if-Kept w base BetaEdge (eqb_ℤ t.type session_type_beta) _ st
        (if-Kept w base BetaEdge (w.report_works t) _ st (deleted-Kept _ st k) k) k

  beta_phases-Kept :
      (duration : ℕ) (st : State Chain)
      → Kept BetaEdge base st
      → Kept BetaEdge base (check_beta_payments w duration st)
  unfolding check_beta_payments check_payment_to_beta handle_error_transactions_if_alpha
      handle_timed_out_transactions_if_alpha handle_timed_out_beta_payment_if_beta get_transactions
      get_transactions_before delete_completed_broker_transactions
  beta_phases-Kept duration st k =
      let confirmed =
        loop-Kept w BetaEdge base any_type _ (check_payment_to_beta_of w) st confirmed_of-Kept k in
      let retried =
        rows-Kept (Either gas_payment_error beta_payment_error)
          (λ s t. eqb_ℤ t.type session_type_alpha && eqb_ℤ t.payment_status s)
          (gas_payment_error ∷ beta_payment_error ∷ []) (retry_error_of w) _
          (
            λ t m. let (ty, eq) = and-true _ _ m in (ty, inl (eq_of_test _ _ eq)),
            (λ t m. let (ty, eq) = and-true _ _ m in (ty, inr (eq_of_test _ _ eq)), tt),
          )
          retried-Kept confirmed in
      let late =
        rows-Kept (Either gas_payment_pending beta_payment_pending)
          (λ s t.
            eqb_ℤ t.type session_type_alpha
            && eqb_ℤ t.payment_status s
            && leb t.updated_at (w.now - duration))
          (gas_payment_pending ∷ beta_payment_pending ∷ []) (step_back_of w) _
          (
            λ t m.
                let (both, old) = and-true _ _ m in
                let (ty, eq) = and-true _ _ both in (ty, inl (eq_of_test _ _ eq)),
            (
              λ t m.
                  let (both, old) = and-true _ _ m in
                  let (ty, eq) = and-true _ _ both in (ty, inr (eq_of_test _ _ eq)),
              tt,
            ),
          )
          late-Kept retried in
      let reported =
        rows-Kept (λ t. Unit)
          (λ s t.
            eqb_ℤ t.type session_type_beta
            && eqb_ℤ t.payment_status s
            && leb t.updated_at (w.now - duration * 3))
          (beta_payment_pending ∷ []) (report_bad_alpha_to_drs w) _ (λ t m. tt, tt)
          (λ t st o k. reported-Kept t st k) late in
      if-Kept w base BetaEdge w.delete_works _ _ (deleted-Kept _ _ reported) reported

-- A run of CheckBetaPayments, whatever the database and the chain answer, leaves in the table only
-- rows that were there before, each with its type, addresses, key and cost, and with a status that
-- its old one leads to by the moves of BetaEdge.
pub check_beta_payments_moves :
    {Chain : Type 0} (w : World Chain) (duration : ℕ) (st : State Chain)
    → From (Moved BetaEdge) st.txs (check_beta_payments w duration st).txs
check_beta_payments_moves w duration st =
    (beta_phases-Kept w st.txs duration st
      (record { rows = From-self (Moved BetaEdge) st.txs Moved-refl })).rows

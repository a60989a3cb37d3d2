-- ===== src/Payments/Jobs/Moves/Graph.antt =====
-- jobs/check_alpha_payments.go and jobs/check_beta_payments.go: the graphs of statuses of the two
-- jobs, and that every row of the table stays in them.
use brokernode.Prelude.{
  ◌≡◌, refl, Bool, true, false, ◌&&◌, List, [], ◌∷◌, if◌then◌else◌, none, some, Option, arith, not,
}
use brokernode.Prelude.Int.{ℤ, pos, eqb_ℤ, eqb_ℤ_iff, ltb_ℤ, div_ℤ}
use brokernode.Prelude.Word.{wrap64}
use brokernode.Prelude.Bytes.{is_empty}
use brokernode.Prelude.Table.{for_each, for_each-keeps, From, From-self}
use brokernode.Models.Session.{session_type_alpha}
use brokernode.Payments.{
  BrokerTx, State, World, Types, any_type, only, type_passes, get_transactions, save,
  beta_payment_confirmed, beta_payment_pending, gas_payment_confirmed, gas_payment_pending,
  alpha_payment_confirmed, alpha_payment_pending,
}
use brokernode.Payments.Jobs.{
  is_alpha_tx, arrived, on_gas, check_payment_to_alpha_of, check_payment_to_alpha,
  address_has_enough_gas, send_gas_of, send_gas_to_alpha_of, send_gas_to_alpha_transaction_address,
  check_gas_payments_of, check_gas_payments, check_and_send_half_prl_to_beta,
  send_payment_to_beta_of, send_payment_to_beta, check_alpha_payments,
}
use brokernode.Payments.Jobs.Moves.{
  Edges, Moved, Moved-refl, query_loop-All, Kept, Origin, save-Kept, paid-Kept,
}

-- The moves of CheckAlphaPayments, which all go forward.
pub data AlphaEdge : Bool → ℤ → ℤ → Type 0 where
  paid_to_alpha : AlphaEdge true alpha_payment_pending alpha_payment_confirmed
  paid_to_other : AlphaEdge false alpha_payment_pending beta_payment_pending
  had_gas : AlphaEdge true alpha_payment_confirmed gas_payment_confirmed
  gas_sent : AlphaEdge true alpha_payment_confirmed gas_payment_pending
  gas_arrived : AlphaEdge true gas_payment_pending gas_payment_confirmed
  beta_had_prl : AlphaEdge true gas_payment_confirmed beta_payment_confirmed
  prl_sent : AlphaEdge true gas_payment_confirmed beta_payment_pending

-- A row that a query for one status answered.
abbrev pub Picked : Types → ℤ → BrokerTx → Type 0
Picked types s t = (type_passes types t.type ≡ true) × (t.payment_status ≡ s)

pub and-true : (a b : Bool) → (a && b) ≡ true → (a ≡ true) × (b ≡ true)
and-true a b h = ground arith

pub eq_of_test : (a b : ℤ) → eqb_ℤ a b ≡ true → a ≡ b
eq_of_test a b h = (eqb_ℤ_iff a b).0 h

module _ {Chain : Type 0} (w : World Chain) (E : Edges) (base : List BrokerTx) where
  -- A loop over the rows of one status, whose body keeps the table in the graph.
  pub loop-Kept :
      (types : Types) (s : ℤ) (body : BrokerTx → State Chain → State Chain) (st : State Chain)
      → ((t : BrokerTx) (st : State Chain)
          → Origin E base t × Picked types s t
          → Kept E base st
          → Kept E base (body t st))
      → Kept E base st
      → Kept E base (for_each body (get_transactions w types (s ∷ []) st.txs) st)
  unfolding get_transactions
  loop-Kept types s body st f k =
      for_each-keeps (λ t. Origin E base t × Picked types s t) (Kept E base) body
        (get_transactions w types (s ∷ []) st.txs) st f
        (query_loop-All w (Origin E base) (λ t. Origin E base t × Picked types s t)
          (λ s t. type_passes types t.type && eqb_ℤ t.payment_status s) (s ∷ []) [] st.txs
          (
            λ t o m.
                let (ty, eq) = and-true (type_passes types t.type) (eqb_ℤ t.payment_status s) m in
                (o, (ty, eq_of_test t.payment_status s eq)),
            tt,
          )
          k.rows tt)
        k

  edge_at :
      (t : BrokerTx) (b : Bool) (s s' : ℤ)
      → is_alpha_tx t ≡ b
      → t.payment_status ≡ s
      → E b s s'
      → E (is_alpha_tx t) t.payment_status s'
  edge_at t b s s' h k e = rw h (rw k e)

  pub saved :
      (t : BrokerTx) (b : Bool) (s s' : ℤ) (st : State Chain)
      → Origin E base t
      → is_alpha_tx t ≡ b
      → t.payment_status ≡ s
      → E b s s'
      → Kept E base st
      → Kept E base (save w t s' st).1
  saved t b s s' st o h k e i = save-Kept w E base t s' st o (edge_at t b s s' h k e) i

module _ {Chain : Type 0} (w : World Chain) (base : List BrokerTx) where
  pub if-Kept :
      (E : Edges) (b : Bool) (x y : State Chain)
      → Kept E base x
      → Kept E base y
      → Kept E base (if b then x else y)
  if-Kept E true x y h k = h
  if-Kept E false x y h k = k

  on_gas-Kept :
      (E : Edges) (answer : Option (Bool × ℤ)) (unchanged enough : State Chain)
      (missing : ℤ → State Chain)
      → Kept E base unchanged
      → Kept E base enough
      → ((g : ℤ) → Kept E base (missing g))
      → Kept E base (on_gas answer unchanged enough missing)
  on_gas-Kept E none unchanged enough missing h k m = h
  on_gas-Kept E (some (true, g)) unchanged enough missing h k m = k
  on_gas-Kept E (some (false, g)) unchanged enough missing h k m = m g

  paid_edge :
      (b : Bool)
      → AlphaEdge b alpha_payment_pending
          (if b then alpha_payment_confirmed else beta_payment_pending)
  paid_edge true = paid_to_alpha
  paid_edge false = paid_to_other

  paid_of-Kept :
      (t : BrokerTx) (st : State Chain)
      → Origin AlphaEdge base t × Picked any_type alpha_payment_pending t
      → Kept AlphaEdge base st
      → Kept AlphaEdge base (check_payment_to_alpha_of w t st)
  unfolding check_payment_to_alpha_of
  paid_of-Kept t st (o, (ty, s)) k =
      let next = if is_alpha_tx t then alpha_payment_confirmed else beta_payment_pending in
      let kept =
        saved w AlphaEdge base t (is_alpha_tx t) _ next st o refl s (paid_edge (is_alpha_tx t)) k in
      if-Kept AlphaEdge
        (arrived (w.check_prl_balance st.chain t.eth_addr_alpha) (w.wei t.total_cost)) _ st
        (if-Kept AlphaEdge (save w t next st).0 _ (save w t next st).1
          (paid-Kept w AlphaEdge base t (save w t next st).1 kept) kept)
        k

  gas_of-Kept :
      (t : BrokerTx) (st : State Chain)
      → Origin AlphaEdge base t × Picked (only session_type_alpha) alpha_payment_confirmed t
      → Kept AlphaEdge base st
      → Kept AlphaEdge base (send_gas_to_alpha_of w t st)
  unfolding send_gas_to_alpha_of send_gas_of
  gas_of-Kept t st (o, (alpha, s)) k =
      on_gas-Kept AlphaEdge (address_has_enough_gas w t st) st _ (λ g. send_gas_of w t g st) k
        (saved w AlphaEdge base t true _ _ st o alpha s had_gas k)
        (λ g.
          if-Kept AlphaEdge (w.send_eth st.chain t.eth_addr_alpha g).0 _ _
            (saved w AlphaEdge base t true _ _ _ o alpha s gas_sent (record { rows = k.rows }))
            (record { rows = k.rows }))

  arrived_of-Kept :
      (t : BrokerTx) (st : State Chain)
      → Origin AlphaEdge base t × Picked (only session_type_alpha) gas_payment_pending t
      → Kept AlphaEdge base st
      → Kept AlphaEdge base (check_gas_payments_of w t st)
  unfolding check_gas_payments_of
  arrived_of-Kept t st (o, (alpha, s)) k =
      on_gas-Kept AlphaEdge (address_has_enough_gas w t st) st _ (λ g. st) k
        (saved w AlphaEdge base t true _ _ st o alpha s gas_arrived k) (λ g. k)

  beta_of-Kept :
      (t : BrokerTx) (st : State Chain)
      → Origin AlphaEdge base t × Picked (only session_type_alpha) gas_payment_confirmed t
      → Kept AlphaEdge base st
      → Kept AlphaEdge base (send_payment_to_beta_of w t st)
  unfolding send_payment_to_beta_of check_and_send_half_prl_to_beta
  beta_of-Kept t st (o, (alpha, s)) k =
      let sent =
        w.send_prl st.chain t.eth_addr_alpha (w.decrypt t) t.eth_addr_beta
          (div_ℤ (w.check_prl_balance st.chain t.eth_addr_alpha) 2) in
      let had = ltb_ℤ (pos 0) (wrap64 (w.check_prl_balance st.chain t.eth_addr_beta)) in
      let kept : Kept AlphaEdge base (record st { chain = sent.1 }) = record { rows = k.rows } in
      if-Kept AlphaEdge (not (is_alpha_tx t)) st _ k (
        if-Kept AlphaEdge (not (eqb_ℤ t.payment_status gas_payment_confirmed)) st _ k (
          if-Kept AlphaEdge (is_empty t.eth_addr_beta) st _ k (
            if-Kept AlphaEdge had _ _
              (saved w AlphaEdge base t true _ _ st o alpha s beta_had_prl k)
              (if-Kept AlphaEdge sent.0 _ _
                (saved w AlphaEdge base t true _ _ _ o alpha s prl_sent kept) kept))))

  alpha_phases-Kept :
      (st : State Chain) → Kept AlphaEdge base st → Kept AlphaEdge base (check_alpha_payments w st)
  unfolding check_alpha_payments check_payment_to_alpha send_gas_to_alpha_transaction_address
      check_gas_payments send_payment_to_beta
  alpha_phases-Kept st k =
      let E = AlphaEdge in
      let paid = loop-Kept w E base any_type _ (check_payment_to_alpha_of w) st paid_of-Kept k in
      let gas =
        loop-Kept w E base (only session_type_alpha) _ (send_gas_to_alpha_of w) _ gas_of-Kept
          paid in
      let checked =
        loop-Kept w E base (only session_type_alpha) _ (check_gas_payments_of w) _ arrived_of-Kept
          gas in
      loop-Kept w E base (only session_type_alpha) _ (send_payment_to_beta_of w) _ beta_of-Kept
        checked

-- A run of CheckAlphaPayments, whatever the database and the chain answer, leaves in the table only
-- rows that were there before, each with its type, addresses, key and cost, and with a status that
-- its old one leads to by the moves of AlphaEdge.
pub check_alpha_payments_moves :
    {Chain : Type 0} (w : World Chain) (st : State Chain)
    → From (Moved AlphaEdge) st.txs (check_alpha_payments w st).txs
check_alpha_payments_moves w st =
    (alpha_phases-Kept w st.txs st
      (record { rows = From-self (Moved AlphaEdge) st.txs Moved-refl })).rows

-- ===== src/Treasures/Bury/Graph/Run.antt =====
-- jobs/bury_treasure_addresses.go: a whole run of the job keeps every treasure in the graph.
use brokernode.Prelude.{ℕ, refl, ◌&&◌, ◌||◌, List, [], ◌∷◌, inl, inr, Option, none, some, ◌-◌}
use brokernode.Prelude.Int.{ℤ, pos, eqb_ℤ, ltb_ℤ, leb_ℤ, ◌*ℤ◌, ◌+ℤ◌}
use brokernode.Prelude.Word.{wrap64}
use brokernode.Prelude.Bytes.{Bytes}
use brokernode.Prelude.Table.{From, From-self}
use brokernode.Utils.Mode.{BrokerMode, PaymentMode, is_prod, is_user_paying}
use brokernode.Treasures.{
  Treasure, Burial, Services, get_treasures, get_late_treasures, prl_waiting, prl_pending,
  prl_confirmed, gas_pending, gas_confirmed, bury_pending, bury_confirmed, gas_reclaim_pending,
  prl_error, gas_error, bury_error, gas_reclaim_error,
}
use brokernode.Treasures.Bury.{
  over, check_prl_of, check_prl_transactions, check_gas_of, check_gas_transactions, check_bury_of,
  check_bury_transactions, reclaim_of, check_for_reclaimable_gas, time_out_of,
  set_timed_out_transactions_to_error, stage_of, stage_transactions_with_errors_for_retry,
  send_prl_to, send_prls_to_waiting_treasure_addresses, on_gas_needed, send_gas_to,
  send_gas_to_treasure_addresses, on_key, bury_prl_of, invoke_bury, bury_treasure_addresses,
}
use brokernode.Treasures.Bury.Graph.{Edge, Moved, Moved-refl, Origin, Kept, if-Kept, loop-Kept}
use brokernode.Treasures.Bury.Graph.Steps.{
  At, at, TimesOut, Retries, late_at, retry_at, advanced, At-Edge, set_to, check_prl-Kept,
  check_gas-Kept, on_buried-Kept, Reclaimable, on_reclaimable-Kept, time_out-Kept, stage-Kept,
}

module _ {Chain : Type 0} (sv : Services Chain) (base : List Treasure) where
  send_prl-Kept :
      (t : Treasure) (b : Burial Chain)
      → Origin base t × At prl_waiting t
      → Kept base b
      → Kept base (send_prl_to sv t b)
  unfolding send_prl_to
  send_prl-Kept t b (o, h) k =
      let sent = sv.send_prl b.chain sv.main_wallet sv.main_key t.eth_addr t.prl_amount in
      let kept : Kept base (record b { chain = sent.chain }) = record { rows = k.rows } in
      let balance = wrap64 (sv.check_prl_balance b.chain sv.main_wallet) in
      if-Kept base sv (leb_ℤ balance (pos 0) || ltb_ℤ balance (wrap64 t.prl_amount)) b _ k (
        if-Kept base sv sent.fine _ _
          (advanced sv base t _ _ o (At-Edge sv base t _ prl_pending h Edge.prl_sent) refl kept)
          (set_to sv base t _ _ _ o h Edge.prl_unsent kept))

  on_gas_needed-Kept :
      (needed : Option ℤ) (t : Treasure) (b : Burial Chain)
      → Origin base t × At prl_confirmed t
      → Kept base b
      → Kept base (on_gas_needed sv needed t b)
  unfolding on_gas_needed
  on_gas_needed-Kept none t b (o, h) k = k
  on_gas_needed-Kept (some gas) t b (o, h) k =
      let sent = sv.send_eth b.chain sv.main_wallet sv.main_key t.eth_addr gas in
      let kept : Kept base (record b { chain = sent.chain }) = record { rows = k.rows } in
      let balance = wrap64 (sv.check_eth_balance b.chain sv.main_wallet) in
      if-Kept base sv (ltb_ℤ balance (wrap64 gas)) b _ k (
        if-Kept base sv sent.fine _ _
          (advanced sv base t _ _ o (At-Edge sv base t _ gas_pending h Edge.gas_sent) refl kept)
          (set_to sv base t _ _ _ o h Edge.gas_unsent kept))

  on_key-Kept :
      (key : Option Bytes) (t : Treasure) (b : Burial Chain)
      → Origin base t × At gas_confirmed t
      → Kept base b
      → Kept base (on_key sv key t b)
  unfolding on_key
  on_key-Kept none t b (o, h) k = k
  on_key-Kept (some key) t b (o, h) k =
      let sent = sv.bury_prl b.chain t.eth_addr key in
      let kept : Kept base (record b { chain = sent.chain }) = record { rows = k.rows } in
      if-Kept base sv sent.fine _ _
        (advanced sv base t _ _ o (At-Edge sv base t _ bury_pending h Edge.bury_sent) refl kept)
        (set_to sv base t _ _ _ o h Edge.bury_unsent kept)

  bury_of-Kept :
      (t : Treasure) (b : Burial Chain)
      → Origin base t × At gas_confirmed t
      → Kept base b
      → Kept base (bury_prl_of sv t b)
  unfolding bury_prl_of
  bury_of-Kept t b (o, h) k =
      if-Kept base sv
        (leb_ℤ (wrap64 (sv.check_prl_balance b.chain t.eth_addr)) (pos 0)
          || leb_ℤ (wrap64 (sv.check_eth_balance b.chain t.eth_addr)) (pos 0))
        b _ k (on_key-Kept (sv.decrypt t) t b (o, h) k)

  -- A loop over the treasures of one status.
  one :
      (s : ℤ) (body : Treasure → Burial Chain → Burial Chain) (b : Burial Chain)
      → ((t : Treasure) (b : Burial Chain)
          → Origin base t × At s t
          → Kept base b
          → Kept base (body t b))
      → Kept base b
      → Kept base (over (get_treasures sv (s ∷ []) b.treasures) body b)
  unfolding get_treasures
  one s body b f k =
      loop-Kept base sv (At s) (λ s t. eqb_ℤ t.prl_status s) (s ∷ []) body b [] (at s, tt) f k tt

  late : (b : Burial Chain) → Kept base b → Kept base (set_timed_out_transactions_to_error sv b)
  unfolding set_timed_out_transactions_to_error get_late_treasures wrap64 ◌*ℤ◌ ◌+ℤ◌
  late b k =
      loop-Kept base sv TimesOut (λ s t. eqb_ℤ t.prl_status s && sv.is_late t.updated_at)
        (prl_pending ∷ gas_pending ∷ bury_pending ∷ gas_reclaim_pending ∷ []) (time_out_of sv) b []
        (
          λ t. late_at prl_pending Edge.prl_late t (sv.is_late t.updated_at),
          (
            λ t. late_at gas_pending Edge.gas_late t (sv.is_late t.updated_at),
            (
              λ t. late_at bury_pending Edge.bury_late t (sv.is_late t.updated_at),
              (λ t. late_at gas_reclaim_pending Edge.reclaim_late t (sv.is_late t.updated_at), tt),
            ),
          ),
        )
        (time_out-Kept sv base) k tt

  staged :
      (b : Burial Chain) → Kept base b → Kept base (stage_transactions_with_errors_for_retry sv b)
  unfolding stage_transactions_with_errors_for_retry get_treasures wrap64 ◌*ℤ◌
  staged b k =
      loop-Kept base sv Retries (λ s t. eqb_ℤ t.prl_status s)
        (prl_error ∷ gas_error ∷ bury_error ∷ gas_reclaim_error ∷ []) (stage_of sv) b []
        (
          retry_at prl_error Edge.prl_retry,
          (
            retry_at gas_error Edge.gas_retry,
            (
              retry_at bury_error Edge.bury_retry,
              (retry_at gas_reclaim_error Edge.reclaim_retry, tt),
            ),
          ),
        )
        (stage-Kept sv base) k tt

  reclaimed :
      (threshold_time : ℕ) (b : Burial Chain)
      → Kept base b
      → Kept base (check_for_reclaimable_gas sv threshold_time b)
  unfolding check_for_reclaimable_gas get_treasures reclaim_of Reclaimable
  reclaimed threshold_time b k =
      loop-Kept base sv (Reclaimable sv base) (λ s t. eqb_ℤ t.prl_status s)
        (gas_reclaim_pending ∷ bury_confirmed ∷ []) (reclaim_of sv threshold_time) b []
        (λ t h. inl (at gas_reclaim_pending t h), (λ t h. inr (at bury_confirmed t h), tt))
        (λ t b oh k.
          on_reclaimable-Kept sv base (sv.check_if_worth_reclaiming_gas b.chain t.eth_addr)
            threshold_time t b oh k)
        k tt

  run-Kept :
      (mode : BrokerMode) (payment : PaymentMode) (threshold_time : ℕ) (b : Burial Chain)
      → Kept base b
      → Kept base (bury_treasure_addresses sv mode payment threshold_time b)
  unfolding bury_treasure_addresses check_prl_transactions check_gas_transactions
      check_bury_transactions check_bury_of send_prls_to_waiting_treasure_addresses
      send_gas_to_treasure_addresses send_gas_to invoke_bury
  run-Kept mode payment threshold_time b k =
      let prl = one prl_pending (check_prl_of sv) b (check_prl-Kept sv base) k in
      let gas = one gas_pending (check_gas_of sv) _ (check_gas-Kept sv base) prl in
      let buried =
        one bury_pending (check_bury_of sv) _
          (λ t b. on_buried-Kept sv base (sv.check_buried_state b.chain t.eth_addr) t b) gas in
      let retried = staged _ (late _ buried) in
      let sent_prl = one prl_waiting (send_prl_to sv) _ send_prl-Kept retried in
      let sent_gas =
        one prl_confirmed (send_gas_to sv) _
          (λ t b. on_gas_needed-Kept (sv.calculate_gas_needed b.chain) t b) sent_prl in
      let sent_bury = one gas_confirmed (bury_prl_of sv) _ bury_of-Kept sent_gas in
      let done = reclaimed (threshold_time - (sv.now - threshold_time)) _ sent_bury in
      if-Kept base sv (is_prod mode && is_user_paying payment) _ b done k

-- A run of BuryTreasureAddresses, whatever the database and the chain answer, leaves in the table
-- only treasures that were there before, each with its amount, address, key and genesis hash, and
-- with a status that its old one leads to by the moves of Edge.
pub bury_treasure_addresses_moves :
    {Chain : Type 0} (sv : Services Chain) (mode : BrokerMode) (payment : PaymentMode)
    (threshold_time : ℕ) (b : Burial Chain)
    → From Moved b.treasures (bury_treasure_addresses sv mode payment threshold_time b).treasures
bury_treasure_addresses_moves sv mode payment threshold_time b =
    (run-Kept sv b.treasures mode payment threshold_time b
      (record { rows = From-self Moved b.treasures Moved-refl })).rows

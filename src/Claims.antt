-- ===== src/Claims.antt =====
-- models/webnode_treasure_claims.go and jobs/claim_treasure_for_webnode.go: the PRL that webnodes claim
-- from buried treasures, and one run of the job that claims them. A row in a loop is the row that the
-- query read; what Int64 makes of a big.Int is its low 64 bits. The fields that a row's validation asks
-- for are those it was created with, so an update has an error or none.
pub mod Job
mod Tests
use brokernode.Prelude.{
  ℕ, Bool, true, false, ◌&&◌, not, Option, none, some, List, [], ◌∷◌, leb, if◌then◌else◌,
}
use brokernode.Prelude.Int.{ℤ, pos, negsuc, ◌-ℤ◌, eqb_ℤ, ltb_ℤ, leb_ℤ}
use brokernode.Prelude.Word.{wrap64}
use brokernode.Prelude.Bytes.{Bytes}
use brokernode.Prelude.Table.{keep, for_each, save_row}
use brokernode.Utils.Mode.{BrokerMode, is_prod}

-- WebnodeTreasureClaim, less the columns that the job neither reads nor writes.
pub record Claim : Type 0 where
  pub id : ℕ
  pub updated_at : ℕ
  pub genesis_hash : Bytes
  pub receiver_eth_addr : Bytes
  pub treasure_eth_addr : Bytes
  pub treasure_eth_private_key : Bytes
  pub starting_claim_clock : ℤ
  pub claim_prl_status : ℤ
  pub gas_status : ℤ
  pub gas_tx_hash : Bytes
  pub gas_tx_nonce : ℤ

abbrev pub claim_not_started : ℤ
claim_not_started = pos 1

abbrev pub claim_processing : ℤ
claim_processing = pos 2

abbrev pub claim_success : ℤ
claim_success = pos 3

abbrev pub claim_error : ℤ
claim_error = negsuc 0

abbrev pub gas_not_started : ℤ
gas_not_started = pos 1

abbrev pub gas_processing : ℤ
gas_processing = pos 2

abbrev pub gas_success : ℤ
gas_success = pos 3

abbrev pub reclaim_processing : ℤ
reclaim_processing = pos 4

abbrev pub reclaim_success : ℤ
reclaim_success = pos 5

abbrev pub gas_transfer_error : ℤ
gas_transfer_error = negsuc 0

abbrev pub reclaim_error : ℤ
reclaim_error = negsuc 1

-- What the job changes.
pub record Claiming (Chain : Type 0) : Type 0 where
  pub claims : List Claim
  pub chain : Chain

-- What the job calls during one run: the clock, the database, where `query_works` is told the number of
-- the query, and eth_gateway's wrapper. A transfer's answer is `none`, or its hash and nonce.
pub record Gateway (Chain : Type 0) : Type 0 where
  pub now : ℕ
  pub query_works : ℕ → Bool
  pub update_works : Claim → Bool
  pub delete_works : Bool
  pub main_wallet : Bytes
  pub main_key : Bytes
  pub decrypt : Claim → Option Bytes
  pub check_prl_balance : Chain → Bytes → ℤ
  pub check_eth_balance : Chain → Bytes → ℤ
  pub gas_for_claim : Chain → Option ℤ
  pub gas_for_send : Chain → Option ℤ
  pub check_claim_clock : Chain → Bytes → Option ℤ
  pub check_if_worth_reclaiming_gas : Chain → Bytes → Option (Bool × ℤ)
  pub send_eth : Chain → Bytes → Option Bytes → Bytes → ℤ → Option (Bytes × ℤ) × Chain
  pub claim_prl : Chain → Bytes → Bytes → Bytes → Bool × Chain

-- BeforeCreate
abbrev default_of : ℤ → ℤ → ℤ
default_of d v = if eqb_ℤ v (pos 0) then d else v

pub claim_before_create : Claim → Claim
claim_before_create t = record t {
  claim_prl_status = default_of claim_not_started t.claim_prl_status;
  gas_status = default_of gas_not_started t.gas_status;
  starting_claim_clock = default_of (negsuc 0) t.starting_claim_clock;
}

-- The queries' conditions.
abbrev pub by_gas : ℤ → Claim → Bool
by_gas s t = eqb_ℤ t.gas_status s

abbrev pub by_prl : ℤ → Claim → Bool
by_prl s t = eqb_ℤ t.claim_prl_status s

abbrev pub by_both : ℤ → ℤ → Claim → Bool
by_both g s t = eqb_ℤ t.gas_status g && eqb_ℤ t.claim_prl_status s

abbrev pub with_gas : ℤ → Claim → Claim
with_gas s t = record t { gas_status = s }

abbrev pub with_prl : ℤ → Claim → Claim
with_prl s t = record t { claim_prl_status = s }

module _ {Chain : Type 0} (gw : Gateway Chain) where
  -- DB.ValidateAndUpdate: whether it worked, and the state after it.
  pub stamp : Claim → Claim
  stamp t = record t { updated_at = gw.now }

  pub write : Claim → Claiming Chain → Claiming Chain
  unfolding stamp
  write t s =
      let written = record s { claims = save_row (λ (r : Claim). r.id) (stamp t) s.claims } in
      if gw.update_works (stamp t) then written else s

  -- A loop over the rows of a query, whose error ends the function.
  pub each :
      ℕ
      → (Claim → Bool)
      → (Claim → Claiming Chain → Claiming Chain)
      → Claiming Chain
      → Claiming Chain
  each query test body s =
      let after = for_each body (keep test s.claims) s in if gw.query_works query then after else s

  -- CheckOngoingGasTransactions: with no rows it returns, which changes nothing either.
  pub gas_arrived_of : ℤ → Claim → Claiming Chain → Claiming Chain
  unfolding write
  gas_arrived_of gas t s =
      let arrived = write (with_gas gas_success t) s in
      if leb_ℤ (wrap64 gas) (wrap64 (gw.check_eth_balance s.chain t.treasure_eth_addr))
      then arrived
      else s

  -- What a function does that first asks for a price of gas, and returns on an error.
  pub priced : Option ℤ → (ℤ → Claiming Chain) → Claiming Chain → Claiming Chain
  priced none f s = s
  priced (some gas) f s = f gas

  pub check_ongoing_gas_transactions : Claiming Chain → Claiming Chain
  unfolding each gas_arrived_of priced
  check_ongoing_gas_transactions s =
      priced (gw.gas_for_claim s.chain)
        (λ gas. each 0 (by_gas gas_processing) (gas_arrived_of gas) s) s

  -- CheckOngoingPRLClaims
  pub on_clock : Option ℤ → Claim → Claiming Chain → Claiming Chain
  unfolding write
  on_clock none t s = s
  on_clock (some clock) t s =
      let claimed = write (with_prl claim_success t) s in
      if not (eqb_ℤ (wrap64 clock) t.starting_claim_clock)
        && not (eqb_ℤ t.starting_claim_clock (negsuc 0))
      then claimed
      else s

  pub check_ongoing_prl_claims : Claiming Chain → Claiming Chain
  unfolding each on_clock
  check_ongoing_prl_claims s =
      each 1 (by_prl claim_processing)
        (λ t s. on_clock (gw.check_claim_clock s.chain t.treasure_eth_addr) t s) s

  -- CheckOngoingGasReclaims
  pub reclaimed_of : Claim → Claiming Chain → Claiming Chain
  unfolding write priced
  reclaimed_of t s =
      let balance = wrap64 (gw.check_eth_balance s.chain t.treasure_eth_addr) in
      let done = write (with_gas reclaim_success t) s in
      if ltb_ℤ (pos 0) balance
      then priced (gw.gas_for_send s.chain) (λ gas. if ltb_ℤ balance (wrap64 gas) then done else s)
          s
      else done

  pub check_ongoing_gas_reclaims : Claiming Chain → Claiming Chain
  unfolding each reclaimed_of
  check_ongoing_gas_reclaims s = each 2 (by_gas reclaim_processing) reclaimed_of s

  -- SendGas
  pub send_gas_of : ℤ → Claim → Claiming Chain → Claiming Chain
  unfolding write
  send_gas_of gas_to_claim t s =
      let balance = gw.check_eth_balance s.chain t.treasure_eth_addr in
      let has_gas = write (with_gas gas_success t) s in
      let (answer, chain') =
        gw.send_eth s.chain gw.main_wallet (some gw.main_key) t.treasure_eth_addr
          (gas_to_claim -ℤ balance) in
      let s' = record s { chain = chain' } in
      let sent : Claiming Chain = elim answer [
        | none ↦ s'
        | some (hash, nonce) ↦
            write
              (record t { gas_status = gas_processing; gas_tx_hash = hash; gas_tx_nonce = nonce })
              s'
      ] in
      if ltb_ℤ (wrap64 gas_to_claim) (wrap64 balance) then has_gas else sent

  pub send_gas : ℕ → (Claim → Bool) → Claiming Chain → Claiming Chain
  unfolding each send_gas_of priced
  send_gas query test s =
      priced (gw.gas_for_claim s.chain) (λ gas. each query test (send_gas_of gas) s) s

-- ===== src/Treasures.antt =====
-- models/treasure.go: the treasures that are buried for uploads, the queries for them, and the state
-- that the burial job changes.
pub mod Bury
use brokernode.Prelude.{
  ℕ, ◌≡◌, Bool, true, false, ◌&&◌, not, Option, none, some, List, [], ◌∷◌, ◌++◌, map, take, leb,
  if◌then◌else◌, ◌==◌,
}
use brokernode.Prelude.Int.{ℤ, pos, negsuc, eqb_ℤ}
use brokernode.Prelude.Bytes.{Bytes, bytes_eq}
use brokernode.Prelude.Table.{keep, save_row}

-- Treasure, less the columns of its message. `prl_amount` is what GetPRLAmount reads from its text.
pub record Treasure : Type 0 where
  pub id : ℕ
  pub updated_at : ℕ
  pub eth_addr : Bytes
  pub eth_key : Bytes
  pub prl_amount : ℤ
  pub prl_status : ℤ
  pub genesis_hash : Bytes
  pub prl_tx_hash : Bytes
  pub prl_tx_nonce : ℤ
  pub gas_tx_hash : Bytes
  pub gas_tx_nonce : ℤ
  pub bury_tx_hash : Bytes
  pub bury_tx_nonce : ℤ
  pub signed_status : ℤ

abbrev pub prl_waiting : ℤ
prl_waiting = pos 1

abbrev pub prl_pending : ℤ
prl_pending = pos 2

abbrev pub prl_confirmed : ℤ
prl_confirmed = pos 3

abbrev pub gas_pending : ℤ
gas_pending = pos 4

abbrev pub gas_confirmed : ℤ
gas_confirmed = pos 5

abbrev pub bury_pending : ℤ
bury_pending = pos 6

abbrev pub bury_confirmed : ℤ
bury_confirmed = pos 7

abbrev pub gas_reclaim_pending : ℤ
gas_reclaim_pending = pos 8

abbrev pub gas_reclaim_confirmed : ℤ
gas_reclaim_confirmed = pos 9

abbrev pub prl_error : ℤ
prl_error = negsuc 0

abbrev pub gas_error : ℤ
gas_error = negsuc 2

abbrev pub bury_error : ℤ
bury_error = negsuc 4

abbrev pub gas_reclaim_error : ℤ
gas_reclaim_error = negsuc 6

abbrev pub max_num_simultaneous_treasure_txs : ℕ
max_num_simultaneous_treasure_txs = 15

-- StoredGenesisHash, of which the burial writes one column.
pub record StoredHash : Type 0 where
  pub hash : Bytes
  pub buried : Bool

-- What the job changes.
pub record Burial (Chain : Type 0) : Type 0 where
  pub treasures : List Treasure
  pub stored : List StoredHash
  pub chain : Chain

-- What an answer to a transfer holds: whether it was sent, its hash and its nonce.
pub record Sent (Chain : Type 0) : Type 0 where
  pub fine : Bool
  pub tx_hash : Bytes
  pub nonce : ℤ
  pub chain : Chain

-- What the job calls during one run: the clock, which queries and writes the database carries out
-- (a validation error and an error are alike), and eth_gateway's wrapper. `is_late` is the query's
-- TIMESTAMPDIFF with the hours since the threshold.
pub record Services (Chain : Type 0) : Type 0 where
  pub now : ℕ
  pub query_works : ℤ → Bool
  pub update_works : Treasure → Bool
  pub stored_works : Bytes → Bool
  pub is_late : ℕ → Bool
  pub main_wallet : Bytes
  pub main_key : Bytes
  pub decrypt : Treasure → Option Bytes
  pub check_prl_balance : Chain → Bytes → ℤ
  pub check_eth_balance : Chain → Bytes → ℤ
  pub calculate_gas_needed : Chain → Option ℤ
  pub check_buried_state : Chain → Bytes → Option Bool
  pub check_if_worth_reclaiming_gas : Chain → Bytes → Option (Bool × ℤ)
  pub send_prl : Chain → Bytes → Bytes → Bytes → ℤ → Sent Chain
  pub send_eth : Chain → Bytes → Bytes → Bytes → ℤ → Sent Chain
  pub bury_prl : Chain → Bytes → Bytes → Sent Chain
  pub reclaim_gas : Chain → Bytes → Option Bytes → ℤ → Bool × Chain

module _ {Chain : Type 0} (sv : Services Chain) where
  -- The loop of both queries over the statuses: the first fifteen rows of each in the table's order, which
  -- the query leaves open, and an error, `none`, ends it.
  pub status_loop :
      (ℤ → Treasure → Bool) → List ℤ → List Treasure → List Treasure → Option (List Treasure)
  status_loop matches [] found rows = some found
  status_loop matches (s ∷ ss) found rows =
      let batch = take max_num_simultaneous_treasure_txs (keep (matches s) rows) in
      let rest = status_loop matches ss (found ++ batch) rows in
      if sv.query_works s then rest else none

  -- GetTreasuresToBuryByPRLStatus
  pub get_treasures : List ℤ → List Treasure → Option (List Treasure)
  unfolding status_loop
  get_treasures statuses rows = status_loop (λ s t. eqb_ℤ t.prl_status s) statuses [] rows

  -- GetTreasuresToBuryByPRLStatusAndUpdateTime
  pub get_late_treasures : List ℤ → List Treasure → Option (List Treasure)
  unfolding status_loop
  get_late_treasures statuses rows =
      status_loop (λ s t. eqb_ℤ t.prl_status s && sv.is_late t.updated_at) statuses [] rows

  -- DB.ValidateAndUpdate of a row that was changed; its time stamp is written with it.
  pub stamped : Treasure → Treasure
  stamped t = record t { updated_at = sv.now }

  pub update : Treasure → Burial Chain → Burial Chain
  unfolding stamped
  update t b =
      let written = record b {
        treasures = save_row (λ (r : Treasure). r.id) (stamped t) b.treasures;
      } in
      if sv.update_works (stamped t) then written else b

  -- SetToTreasureBuriedByGenesisHash: whether it worked, and the state after it.
  pub mark_buried : Bytes → StoredHash → StoredHash
  mark_buried hash s = if bytes_eq s.hash hash then record s { buried = true } else s

  pub set_to_treasure_buried : Bytes → Burial Chain → Bool × Burial Chain
  unfolding mark_buried
  set_to_treasure_buried hash b =
      let marked = record b { stored = map (mark_buried hash) b.stored } in
      (sv.stored_works hash, if sv.stored_works hash then marked else b)

-- ===== src/Treasures/Bury/Tests.antt =====
-- A treasure on its way, and the theorem at a concrete input.
use brokernode.Prelude.{ℕ, ◌+◌, true, [], ◌∷◌, some}
use brokernode.Prelude.Int.{ℤ, pos, negsuc}
use brokernode.Prelude.Bytes.{codes}
use brokernode.Prelude.Table.{From}
use brokernode.Utils.Mode.{prod_mode, user_is_paying}
use brokernode.Treasures.{Treasure, Burial, Services, Sent}
use brokernode.Treasures.Bury.{bury_treasure_addresses}
use brokernode.Treasures.Bury.Graph.{Moved}
use brokernode.Treasures.Bury.Graph.Run.{bury_treasure_addresses_moves}

abbrev treasure : ℕ → ℤ → Treasure
treasure id status = record {
  id = id;
  updated_at = 100;
  eth_addr = codes "0xc";
  eth_key = codes "key";
  prl_amount = pos 4;
  prl_status = status;
  genesis_hash = codes "abc";
  prl_tx_hash = [];
  prl_tx_nonce = pos 0;
  gas_tx_hash = [];
  gas_tx_nonce = pos 0;
  bury_tx_hash = [];
  bury_tx_nonce = pos 0;
  signed_status = pos 1;
}

abbrev sent : ℕ → Sent ℕ
sent chain = record { fine = true; tx_hash = codes "0xd"; nonce = pos chain; chain = chain + 1 }

-- The chain is the number of transfers.
abbrev services : Services ℕ
services = record {
  now = 1000;
  query_works = λ s. true;
  update_works = λ t. true;
  stored_works = λ hash. true;
  is_late = λ time. true;
  main_wallet = codes "0x1";
  main_key = codes "main";
  decrypt = λ t. some t.eth_key;
  check_prl_balance = λ chain address. pos 9;
  check_eth_balance = λ chain address. pos 9;
  calculate_gas_needed = λ chain. some (pos 2);
  check_buried_state = λ chain address. some true;
  check_if_worth_reclaiming_gas = λ chain address. some (true, pos 1);
  send_prl = λ chain from key to amount. sent chain;
  send_eth = λ chain from key to amount. sent chain;
  bury_prl = λ chain address key. sent chain;
  reclaim_gas = λ chain address key amount. (true, chain + 1);
}

abbrev burial : Burial ℕ
burial = record {
  treasures = treasure 1 (pos 1) ∷ treasure 2 (pos 4) ∷ treasure 3 (negsuc 4) ∷ [];
  stored = [];
  chain = 0;
}

bury_treasure_addresses_moves_example :
    From Moved burial.treasures
      (bury_treasure_addresses services prod_mode user_is_paying 500 burial).treasures
bury_treasure_addresses_moves_example =
    bury_treasure_addresses_moves services prod_mode user_is_paying 500 burial

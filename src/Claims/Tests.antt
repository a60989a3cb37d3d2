-- ===== src/Claims/Tests.antt =====
-- Two claims on their way, and the theorem at a concrete input.
use brokernode.Prelude.{ℕ, ◌+◌, refl, true, [], ◌∷◌, some, All}
use brokernode.Prelude.Int.{ℤ, pos, negsuc}
use brokernode.Prelude.Bytes.{codes}
use brokernode.Utils.Mode.{prod_mode}
use brokernode.Claims.{Claim, Claiming, Gateway}
use brokernode.Claims.Job.{claim_treasure_for_webnode}
use brokernode.Claims.Job.Sound.{Sound}
use brokernode.Claims.Job.Sound.Run.{claim_treasure_for_webnode-Sound}

abbrev claim : ℕ → ℤ → ℤ → Claim
claim id prl gas = record {
  id = id;
  updated_at = 100;
  genesis_hash = codes "abc";
  receiver_eth_addr = codes "0xe";
  treasure_eth_addr = codes "0xf";
  treasure_eth_private_key = codes "key";
  starting_claim_clock = negsuc 0;
  claim_prl_status = prl;
  gas_status = gas;
  gas_tx_hash = [];
  gas_tx_nonce = pos 0;
}

-- The chain is the number of transfers.
abbrev gateway : Gateway ℕ
gateway = record {
  now = 1000;
  query_works = λ query. true;
  update_works = λ t. true;
  delete_works = true;
  main_wallet = codes "0x1";
  main_key = codes "main";
  decrypt = λ t. some t.treasure_eth_private_key;
  check_prl_balance = λ chain address. pos 9;
  check_eth_balance = λ chain address. pos 1;
  gas_for_claim = λ chain. some (pos 2);
  gas_for_send = λ chain. some (pos 2);
  check_claim_clock = λ chain address. some (pos chain);
  check_if_worth_reclaiming_gas = λ chain address. some (true, pos 1);
  send_eth = λ chain from key to amount. (some (codes "0xd", pos chain), chain + 1);
  claim_prl = λ chain receiver treasure key. (true, chain + 1);
}

abbrev claiming : Claiming ℕ
claiming = record {
  claims = claim 1 (pos 1) (pos 3) ∷ claim 2 (pos 3) (pos 4) ∷ claim 3 (pos 3) (pos 3) ∷ [];
  chain = 0;
}

claim_treasure_for_webnode-Sound_example :
    All Sound (claim_treasure_for_webnode gateway prod_mode 500 claiming).claims
claim_treasure_for_webnode-Sound_example =
    claim_treasure_for_webnode-Sound gateway prod_mode 500 claiming (refl, (refl, (refl, tt)))

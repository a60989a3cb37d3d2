-- ===== src/Attach/Samples.antt =====
-- Channels, stores and a tangle to try the jobs on.
use brokernode.Prelude.{List, [], arith, false, none, refl, some, true, ℕ, ◌∷◌}
use brokernode.Attach.Run.Batch.{Legal}
use brokernode.Attach.Run.{Outcome, Setting}
use brokernode.Attach.Handled.{Tangle, Wallets}
use brokernode.Attach.{ChunkChannel}
use brokernode.Prelude.Int.{pos}
use brokernode.Prelude.Bytes.{codes}
use brokernode.Utils.Mode.{prod_mode, pow_enabled}
use brokernode.Models.Session.{UploadSession}
use brokernode.Models.Session.Samples.{alpha_session, alpha_InOrder}
use brokernode.Models.Session.Stores.{Stores, Works}
use brokernode.Iota.{Api, verify_chunk_messages_match_record}

abbrev pub channel : ℕ → ChunkChannel
channel n = record { channel_id = n ∷ []; chunks_processed = 0 }

-- A tangle that has the address of every chunk.
abbrev pub full_tangle : Tangle
full_tangle = record { new_trytes = λ t. some t; find_transaction = λ a. some true }

abbrev pub all_work : Works
all_work = record {
  sets_message = λ k. true;
  sets_hash = λ k. true;
  deletes_message = λ k. true;
  deletes_hash = λ k. true;
}

abbrev pub empty_stores : Stores
empty_stores = record {
  messages = λ k. none;
  hashes = λ k. none;
  done_messages = λ k. none;
  done_hashes = λ k. none;
}

-- A client of iota that knows no transaction.
abbrev pub silent_api : Api
silent_api = record {
  new_trytes = λ t. some t;
  find_transactions = λ as'. some [];
  get_trytes = λ hashes. some [];
  as_transaction_objects = λ trytes. some [];
}

abbrev pub plain_wallets : Wallets
plain_wallets = record {
  decrypt = λ key. key;
  address_of_key = λ key. key;
  wei_per_treasure = λ cost sectors. pos cost;
  test_mode_wallet_key = codes "test";
}

abbrev pub setting : Setting
setting = record {
  tangle = full_tangle;
  verify = λ cs. (verify_chunk_messages_match_record silent_api cs).0;
  works = all_work;
  wallets = plain_wallets;
  broker_mode = prod_mode;
  pow_mode = pow_enabled;
  enable_lambda = false;
}

abbrev pub outcome : Outcome (List UploadSession)
outcome = record {
  session = alpha_session;
  db = [];
  stores = empty_stores;
  staged = [];
  dispatched = [];
}

pub outcome-Legal : Legal (pos 10) outcome
outcome-Legal = record {
  count = refl;
  in_order = alpha_InOrder;
  places = ((omega arith, omega arith), tt);
}

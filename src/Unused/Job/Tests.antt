-- ===== src/Unused/Job/Tests.antt =====
-- Rows on their way, and the theorems at concrete inputs.
use brokernode.Prelude.Word.{wrap64}
use brokernode.Utils.Mode.{prod_mode, user_is_paying}
use brokernode.Unused.Job.{
  claim_unused_prls, initiate_gas_transfer, initiate_prl_claim_of, purge_completed_claims,
  resend_errored_transfers, resend_timed_out, reset_reclaim_of, retrieve_leftover_eth,
  retrieve_leftover_of, send_gas_for_new_claims, start_new_claims,
}
use brokernode.Prelude.Table.{From}
use brokernode.Prelude.Rows.{each_row, write_row}
use brokernode.Prelude.Int.{negsuc, pos, ℤ}
use brokernode.Prelude.Bytes.{bytes_eq, codes}
use brokernode.Prelude.{All, [], map, refl, some, true, ℕ, ◌+◌, ◌∷◌, ◌≡◌}
use brokernode.Unused.{
  CompletedUpload, UnusedServices, Uploads, check_processing_gas_reclaims,
  check_processing_gas_transactions, check_processing_prl_transactions, gas_of_upload,
  prl_of_upload, ready_for_claiming, reclaim_of_upload, still_processing, uploads_db,
}
use brokernode.Unused.Job.Moves.Invariants.{
  claim_unused_prls-Retrieved, claim_unused_prls_moves, Retrieved, UploadSteps,
}
use brokernode.Unused.Job.Moves.Waiting.{claim_unused_prls-Waits, Transfers, Waits}
use brokernode.Unused.Job.Stuck.{claim_unused_prls-Failed}

abbrev row : ℕ → ℤ → ℤ → CompletedUpload
row id prl gas = record {
  id = id;
  updated_at = 100;
  genesis_hash = codes "abc";
  eth_addr = codes "0xe";
  eth_private_key = codes "key";
  prl_status = prl;
  prl_tx_hash = [];
  prl_tx_nonce = pos 0;
  gas_status = gas;
  gas_tx_hash = [];
  gas_tx_nonce = pos 0;
}

-- The chain is the number of transfers.
abbrev services : UnusedServices ℕ
services = record {
  now = 1000;
  query_works = λ query. true;
  update_works = λ t. true;
  delete_works = true;
  broker_hashes = some (codes "abc" ∷ []);
  main_wallet = codes "0xa";
  main_key = codes "main";
  private_key = λ t. some t.eth_private_key;
  check_prl_balance = λ chain addr. pos 5;
  check_eth_balance = λ chain addr. pos 7;
  gas_for_prl_send = λ chain. some (pos 3);
  gas_for_eth_send = λ chain. some (pos 2);
  check_if_worth_reclaiming_gas = λ chain addr. some (true, pos 5);
  send_eth = λ chain from key to amount. (some (codes "t", pos 1), chain + 1);
  create_send_prl_message = λ chain from key to amount. some (codes "m");
  send_prl_from_oyster = λ chain message. (some (codes "u", pos 2), chain + 1);
  reclaim_gas = λ chain from key gas. (true, chain + 1);
}

abbrev on_their_way : Uploads services
on_their_way = record {
  chain = 0;
  rows = row 1 (pos 1) (pos 3) ∷ row 2 (pos 3) (pos 3) ∷ row 3 (pos 3) (pos 5) ∷ [];
}

-- The brokers pay for the upload of the first row only; the rows have addresses of their own.
abbrev waiting : Uploads services
waiting = record {
  chain = 0;
  rows =
      row 1 (pos 1) (pos 1)
      ∷ record (row 2 (pos 1) (pos 1)) { genesis_hash = codes "xyz"; eth_addr = codes "0xf" }
      ∷ [];
}

abbrev stuck : Uploads services
stuck = record { chain = 0; rows = row 1 (pos 3) (negsuc 1) ∷ [] }

claim_unused_prls-Retrieved_example :
    All Retrieved (claim_unused_prls services prod_mode user_is_paying 500 on_their_way).rows
claim_unused_prls-Retrieved_example =
    claim_unused_prls-Retrieved services prod_mode user_is_paying 500 on_their_way
      (refl, (refl, (refl, tt)))

claim_unused_prls_moves_example :
    From
      (UploadSteps services)
      on_their_way.rows
      (claim_unused_prls services prod_mode user_is_paying 500 on_their_way).rows
claim_unused_prls_moves_example =
    claim_unused_prls_moves services prod_mode user_is_paying 500 on_their_way

claim_unused_prls-Waits_example :
    All (Waits services) (claim_unused_prls services prod_mode user_is_paying 500 waiting).rows
    × Transfers services waiting.rows 0
        (claim_unused_prls services prod_mode user_is_paying 500 waiting).chain
unfolding still_processing bytes_eq
claim_unused_prls-Waits_example =
    claim_unused_prls-Waits services prod_mode user_is_paying 500 waiting (refl, (refl, tt))

claim_unused_prls-Failed_example :
    claim_unused_prls services prod_mode user_is_paying 500 stuck ≡ stuck
claim_unused_prls-Failed_example =
    claim_unused_prls-Failed services prod_mode user_is_paying 500 stuck ((refl, refl), tt)

-- A run that starts a claim, fetches gas back, and deletes a row.
one_run :
    map {B = ℤ × ℤ}
      (λ (t : CompletedUpload). (t.prl_status, t.gas_status))
      (claim_unused_prls services prod_mode user_is_paying 500 on_their_way).rows
    ≡ (pos 2, pos 3) ∷ (pos 3, pos 4) ∷ []
unfolding claim_unused_prls check_processing_gas_transactions check_processing_prl_transactions
    check_processing_gas_reclaims resend_timed_out resend_errored_transfers send_gas_for_new_claims
    start_new_claims retrieve_leftover_eth purge_completed_claims each_row write_row uploads_db
    initiate_gas_transfer initiate_prl_claim_of retrieve_leftover_of gas_of_upload prl_of_upload
    reclaim_of_upload reset_reclaim_of ready_for_claiming still_processing wrap64
one_run = refl

-- Of the two rows one is sent gas: the one that the brokers are done with.
one_is_sent_gas :
    let done : Uploads services = claim_unused_prls services prod_mode user_is_paying 500 waiting in
    (map {B = ℤ} (λ (t : CompletedUpload). t.gas_status) done.rows ≡ pos 1 ∷ pos 2 ∷ [])
    × (done.chain ≡ 1)
unfolding claim_unused_prls check_processing_gas_transactions check_processing_prl_transactions
    check_processing_gas_reclaims resend_timed_out resend_errored_transfers send_gas_for_new_claims
    start_new_claims retrieve_leftover_eth purge_completed_claims each_row write_row uploads_db
    initiate_gas_transfer initiate_prl_claim_of retrieve_leftover_of gas_of_upload prl_of_upload
    reclaim_of_upload reset_reclaim_of ready_for_claiming still_processing bytes_eq wrap64
one_is_sent_gas = (refl, refl)

-- ===== src/Payments/Jobs/Tests.antt =====
-- Payments of two uploads, and the theorems at concrete inputs.
use brokernode.Models.Session.{UploadSession, session_type_alpha}
use brokernode.Prelude.Word.{wrap64}
use brokernode.Prelude.{ℕ, ◌+◌, ◌≡◌, refl, ◌⊎◌, true, [], ◌∷◌, some, arith}
use brokernode.Prelude.Int.{ℤ, pos, negsuc, div_ℤ}
use brokernode.Prelude.Bytes.{codes, Bytes, bytes_eq}
use brokernode.Prelude.Table.{From}
use brokernode.Payments.{
  BrokerTx, State, World, pay_session, save, set_upload_session_to_paid, with_status,
}
use brokernode.Payments.Jobs.{
  check_payment_to_alpha_of, check_and_send_half_prl_to_beta, check_alpha_payments,
  check_beta_payments,
}
use brokernode.Payments.Jobs.Moves.{Moved}
use brokernode.Models.Session.Samples.{session}
use brokernode.Payments.Jobs.Moves.Graph.{AlphaEdge, check_alpha_payments_moves}
use brokernode.Payments.Jobs.Moves.Beta.{BetaEdge, check_beta_payments_moves}
use brokernode.Payments.Jobs.Transfers.{
  MaySend, half_prl_sent_once, Pairwise, Settlement, check_payment_to_alpha_of-Settlement,
}

abbrev tx : ℕ → ℤ → ℤ → BrokerTx
tx id type status = record {
  id = id;
  updated_at = 100;
  genesis_hash = codes "abc";
  type = type;
  eth_addr_alpha = codes "0xa";
  eth_addr_beta = codes "0xb";
  eth_private_key = codes "key";
  total_cost = 4;
  payment_status = status;
}

-- The chain is the number of transfers, and alpha's address holds a given balance.
abbrev world : ℤ → World ℕ
world alpha_balance = record {
  now = 1000;
  query_works = λ s. true;
  save_works = λ t. true;
  paid_works = λ t. true;
  delete_works = true;
  report_works = λ t. true;
  wei = λ cost. pos cost;
  decrypt = λ t. t.eth_private_key;
  check_prl_balance = λ chain address. alpha_balance;
  check_eth_balance = λ chain address. pos 0;
  calculate_gas_needed = λ chain. some (pos 9);
  send_eth = λ chain address amount. (true, chain + 1);
  send_prl = λ chain from key to amount. (true, chain + 1);
}

abbrev state : State ℕ
state = record {
  txs = tx 1 (pos 1) (pos 1) ∷ tx 2 (pos 2) (pos 1) ∷ tx 3 (pos 1) (negsuc 1) ∷ [];
  sessions = [];
  chain = 0;
}

check_alpha_payments_moves_example :
    From (Moved AlphaEdge) state.txs (check_alpha_payments (world (pos 5)) state).txs
check_alpha_payments_moves_example = check_alpha_payments_moves (world (pos 5)) state

check_beta_payments_moves_example :
    From (Moved BetaEdge) state.txs (check_beta_payments (world (pos 5)) 6 state).txs
check_beta_payments_moves_example = check_beta_payments_moves (world (pos 5)) 6 state

half_prl_sent_once_example :
    ((check_and_send_half_prl_to_beta (world (pos 0)) (tx 1 (pos 1) (pos 4)) (pos 8) state).chain
      ≡ state.chain)
    ⊎ (MaySend (world (pos 0)) (tx 1 (pos 1) (pos 4)) state
        × ((check_and_send_half_prl_to_beta
              (world (pos 0))
              (tx 1 (pos 1) (pos 4))
              (pos 8)
              state).chain
            ≡ 1))
half_prl_sent_once_example = half_prl_sent_once (world (pos 0)) (tx 1 (pos 1) (pos 4)) (pos 8) state

-- A pending session of the upload that is paid, and one of another upload.
abbrev of_upload : Bytes → UploadSession
of_upload hash = record (session session_type_alpha (pos 2) (pos 1)) {
  genesis_hash = hash;
  payment_status = pos 2;
}

abbrev with_sessions : State ℕ
with_sessions = record state { sessions = of_upload (codes "abc") ∷ of_upload (codes "xyz") ∷ [] }

-- The first is confirmed, and the second stays as it is.
one_is_paid :
    (check_payment_to_alpha_of (world (pos 5)) (tx 1 (pos 1) (pos 1)) with_sessions).sessions
    ≡ record (of_upload (codes "abc")) { payment_status = pos 3 } ∷ of_upload (codes "xyz") ∷ []
unfolding check_payment_to_alpha_of save set_upload_session_to_paid pay_session with_status wrap64
    bytes_eq
one_is_paid = refl

check_payment_to_alpha_of-Settlement_example :
    Pairwise
      (Settlement (world (pos 5)) (codes "abc") true)
      with_sessions.sessions
      (check_payment_to_alpha_of (world (pos 5)) (tx 1 (pos 1) (pos 1)) with_sessions).sessions
unfolding save
check_payment_to_alpha_of-Settlement_example =
    check_payment_to_alpha_of-Settlement (world (pos 5)) (tx 1 (pos 1) (pos 1)) with_sessions
      (pos 5) refl (omega arith) (omega arith) (omega arith) (omega arith)

-- Half of the balance that stands for an error.
half_of_error : div_ℤ (negsuc 0) 2 ≡ negsuc 0
half_of_error = refl

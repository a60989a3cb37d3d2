-- ===== src/Payments.antt =====
-- models/broker_broker_transactions.go: the rows by which alpha and beta follow the payment of an
-- upload, the queries for them, and the state that the payment jobs change.
pub mod Jobs
use brokernode.Prelude.{
  ℕ, ◌≡◌, Bool, true, false, ◌&&◌, not, Option, none, some, List, [], ◌∷◌, ◌++◌, map, leb,
  if◌then◌else◌,
}
use brokernode.Prelude.Int.{ℤ, pos, negsuc, eqb_ℤ}
use brokernode.Prelude.Bytes.{Bytes, bytes_eq}
use brokernode.Prelude.Table.{keep, save_row}
use brokernode.Utils.Mode.{BrokerMode, prod_mode, PaymentMode, is_user_paying, is_prod}
use brokernode.Models.Session.{
  UploadSession, session_type_alpha, session_type_beta, payment_status_invoiced,
  payment_status_pending, payment_status_confirmed, payment_status_error,
}

-- BrokerBrokerTransaction
pub record BrokerTx : Type 0 where
  pub id : ℕ
  pub updated_at : ℕ
  pub genesis_hash : Bytes
  pub type : ℤ
  pub eth_addr_alpha : Bytes
  pub eth_addr_beta : Bytes
  pub eth_private_key : Bytes
  pub total_cost : ℕ
  pub payment_status : ℤ

abbrev pub alpha_payment_pending : ℤ
alpha_payment_pending = pos 1

abbrev pub alpha_payment_confirmed : ℤ
alpha_payment_confirmed = pos 2

abbrev pub gas_payment_pending : ℤ
gas_payment_pending = pos 3

abbrev pub gas_payment_confirmed : ℤ
gas_payment_confirmed = pos 4

abbrev pub beta_payment_pending : ℤ
beta_payment_pending = pos 5

abbrev pub beta_payment_confirmed : ℤ
beta_payment_confirmed = pos 6

abbrev pub alpha_payment_error : ℤ
alpha_payment_error = negsuc 0

abbrev pub gas_payment_error : ℤ
gas_payment_error = negsuc 1

abbrev pub beta_payment_error : ℤ
beta_payment_error = negsuc 3

default_status : BrokerMode → PaymentMode → ℤ
default_status mode payment =
    if is_prod mode && is_user_paying payment then alpha_payment_pending else beta_payment_confirmed

-- BeforeCreate
pub tx_before_create : BrokerMode → PaymentMode → BrokerTx → BrokerTx
unfolding default_status
tx_before_create mode payment t = record t {
  type = if eqb_ℤ t.type session_type_beta then t.type else session_type_alpha;
  payment_status =
      if eqb_ℤ t.payment_status (pos 0) then default_status mode payment else t.payment_status;
}

-- The switch of NewBrokerBrokerTransaction.
pub status_of_session : PaymentMode → ℤ → ℤ
status_of_session payment s =
    if eqb_ℤ s payment_status_invoiced
    then alpha_payment_pending
    else if eqb_ℤ s payment_status_pending
    then alpha_payment_pending
    else if eqb_ℤ s payment_status_confirmed
    then (if is_user_paying payment then alpha_payment_confirmed else beta_payment_confirmed)
    else if eqb_ℤ s payment_status_error
    then alpha_payment_error
    else alpha_payment_pending

-- A null address is read as the empty text.
abbrev pub text_of : Option Bytes → Bytes
text_of none = []
text_of (some s) = s

-- NewBrokerBrokerTransaction: the row it hands to the database, or `none` where it makes none.
-- `private_key` is what DecryptSessionEthKey gives.
pub new_broker_tx :
    BrokerMode
    → PaymentMode
    → (id now : ℕ) → (private_key : Bytes) → UploadSession
    → Option BrokerTx
unfolding tx_before_create status_of_session
new_broker_tx mode payment id now private_key u =
    if is_prod mode
    then some (
        tx_before_create mode payment (record {
          id = id;
          updated_at = now;
          genesis_hash = u.genesis_hash;
          type = u.type;
          eth_addr_alpha = text_of u.eth_addr_alpha;
          eth_addr_beta = text_of u.eth_addr_beta;
          eth_private_key = private_key;
          total_cost = u.total_cost;
          payment_status = status_of_session payment u.payment_status;
        }))
    else none

-- What the jobs change: the two tables, and the chain that the wallet writes to.
pub record State (Chain : Type 0) : Type 0 where
  pub txs : List BrokerTx
  pub sessions : List UploadSession
  pub chain : Chain

-- What the jobs call during one run: the clock, which queries, writes and deletions the database
-- carries out, and eth_gateway's wrapper, whose balances and amounts are in wei. `wei` is the
-- decimal library's conversion of a cost, and `decrypt` of utils/cryptography.go's a row's key.
pub record World (Chain : Type 0) : Type 0 where
  pub now : ℕ
  pub query_works : ℤ → Bool
  pub save_works : BrokerTx → Bool
  pub paid_works : BrokerTx → Bool
  pub delete_works : Bool
  pub report_works : BrokerTx → Bool
  pub wei : ℕ → ℤ
  pub decrypt : BrokerTx → Bytes
  pub check_prl_balance : Chain → Bytes → ℤ
  pub check_eth_balance : Chain → Bytes → ℤ
  pub calculate_gas_needed : Chain → Option ℤ
  pub send_eth : Chain → Bytes → ℤ → Bool × Chain
  pub send_prl : Chain → Bytes → Bytes → Bytes → ℤ → Bool × Chain

-- The session types that a query may ask for: both, or one.
pub data Types : Type 0 where
  any_type : Types
  only : ℤ → Types

abbrev pub type_passes : Types → ℤ → Bool
type_passes any_type t = true
type_passes (only want) t = eqb_ℤ t want

module _ {Chain : Type 0} (w : World Chain) where
  -- The loop over the statuses of both queries: an error ends it with no rows at all.
  pub query_loop : (ℤ → BrokerTx → Bool) → List ℤ → List BrokerTx → List BrokerTx → List BrokerTx
  query_loop matches [] found rows = found
  query_loop matches (s ∷ ss) found rows =
      let rest = query_loop matches ss (found ++ keep (matches s) rows) rows in
      if w.query_works s then rest else []

  -- GetTransactionsBySessionTypesAndPaymentStatuses, without its error, which no caller reads.
  pub get_transactions : Types → List ℤ → List BrokerTx → List BrokerTx
  unfolding query_loop
  get_transactions types statuses rows =
      query_loop (λ s t. type_passes types t.type && eqb_ℤ t.payment_status s) statuses [] rows

  -- GetTransactionsBySessionTypesPaymentStatusesAndTime
  pub get_transactions_before : Types → List ℤ → ℕ → List BrokerTx → List BrokerTx
  unfolding query_loop
  get_transactions_before types statuses threshold_time rows =
      query_loop
        (λ s t.
          type_passes types t.type && eqb_ℤ t.payment_status s && leb t.updated_at threshold_time)
        statuses [] rows

  -- DB.Save of a row with a new status; whether it worked, and the state after it. The whole row is
  -- written, as it was read.
  pub with_status : ℤ → BrokerTx → BrokerTx
  with_status s t = record t { payment_status = s; updated_at = w.now }

  pub save : BrokerTx → ℤ → State Chain → Bool × State Chain
  unfolding with_status
  save t s st =
      let written = record st {
        txs = save_row (λ (r : BrokerTx). r.id) (with_status s t) st.txs;
      } in
      let works = w.save_works (with_status s t) in (works, if works then written else st)

  -- SetUploadSessionToPaid
  pub pay_session : Bytes → UploadSession → UploadSession
  pay_session hash u =
      if not (eqb_ℤ u.payment_status payment_status_confirmed) && bytes_eq u.genesis_hash hash
      then record u { payment_status = payment_status_confirmed }
      else u

  pub set_upload_session_to_paid : BrokerTx → State Chain → State Chain
  unfolding pay_session
  set_upload_session_to_paid t st =
      if w.paid_works t
      then record st { sessions = map (pay_session t.genesis_hash) st.sessions }
      else st

  -- DeleteCompletedBrokerTransactions
  pub delete_completed_broker_transactions : State Chain → State Chain
  delete_completed_broker_transactions st =
      if w.delete_works
      then record st {
        txs = keep (λ (t : BrokerTx). not (eqb_ℤ t.payment_status beta_payment_confirmed)) st.txs;
      }
      else st

-- ===== src/Models/Session.antt =====
-- models/upload_sessions.go: the row of an upload and its defaults.
-- An upload has one session on the alpha broker, which attaches its chunks from the first to the
-- last, and one on the beta broker, which attaches them from the last to the first.
pub mod Progress
pub mod Selection
pub mod Start
pub mod Stores
pub mod Samples
mod Tests
use brokernode.Prelude.{
  ℕ, ◌==◌, if◌then◌else◌, Bool, true, false, not, ◌&&◌, ◌||◌, Option, none, some, List, [], ◌∷◌,
  map,
}
use brokernode.Prelude.Int.{ℤ, pos, negsuc, eqb_ℤ}
use brokernode.Prelude.Bytes.{is_empty, Bytes, codes}
use brokernode.Utils.Mode.{
  BrokerMode, prod_mode, test_mode_dummy_treasure, test_mode_no_treasure, PaymentMode,
  is_user_paying,
}

-- TreasureMap
pub record TreasureMap : Type 0 where
  pub sector : ℤ
  pub idx : ℤ
  pub encryption_idx : ℤ
  pub key : Bytes

-- The nullable text of the column treasure_idx_map: null, the JSON of a list of treasures, or a
-- text that does not parse as one.
pub data IdxMap : Type 0 where
  null : IdxMap
  json : List TreasureMap → IdxMap
  malformed : IdxMap

abbrev pub session_type_alpha : ℤ
session_type_alpha = pos 1

abbrev pub session_type_beta : ℤ
session_type_beta = pos 2

abbrev pub payment_status_invoiced : ℤ
payment_status_invoiced = pos 1

abbrev pub payment_status_pending : ℤ
payment_status_pending = pos 2

abbrev pub payment_status_confirmed : ℤ
payment_status_confirmed = pos 3

abbrev pub payment_status_error : ℤ
payment_status_error = negsuc 0

abbrev pub treasure_generating_keys : ℤ
treasure_generating_keys = pos 1

abbrev pub treasure_in_data_map_pending : ℤ
treasure_in_data_map_pending = pos 2

abbrev pub treasure_in_data_map_complete : ℤ
treasure_in_data_map_complete = pos 3

abbrev pub all_data_not_ready : ℤ
all_data_not_ready = pos 1

abbrev pub all_data_is_ready : ℤ
all_data_is_ready = pos 2

abbrev pub storage_method_badger : ℤ
storage_method_badger = pos 2

-- UploadSession. `total_cost` is in the decimal library's unit, and `updated_at` is a time stamp.
pub record UploadSession : Type 0 where
  pub id : ℕ
  pub updated_at : ℕ
  pub genesis_hash : Bytes
  pub num_chunks : ℤ
  pub file_size_bytes : ℕ
  pub storage_length_in_years : ℤ
  pub type : ℤ
  pub eth_addr_alpha : Option Bytes
  pub eth_addr_beta : Option Bytes
  pub eth_private_key : Bytes
  pub total_cost : ℕ
  pub payment_status : ℤ
  pub treasure_status : ℤ
  pub treasure_idx_map : IdxMap
  pub version : ℕ
  pub next_idx_to_attach : ℤ
  pub next_idx_to_verify : ℤ
  pub all_data_ready : ℤ
  pub treasure_responsibility_status : ℤ
  pub storage_method : ℤ

-- Validate: which of the three fields it reports. The validators IntIsPresent and StringIsPresent
-- refuse zero and the empty text.
pub data Invalid : Type 0 where
  no_genesis_hash no_num_chunks no_file_size : Invalid

abbrev keep_if : Bool → Invalid → List Invalid → List Invalid
keep_if b e rest = if b then e ∷ rest else rest

pub validate : UploadSession → List Invalid
validate u = keep_if (is_empty u.genesis_hash) no_genesis_hash (
    keep_if (eqb_ℤ u.num_chunks (pos 0)) no_num_chunks
      (keep_if (u.file_size_bytes == 0) no_file_size []))

-- A field that is still zero takes its default.
abbrev pub default_to : ℤ → ℤ → ℤ
default_to d v = if eqb_ℤ v (pos 0) then d else v

-- The payment status and the treasure status that a new session has by default.
default_payment : BrokerMode → PaymentMode → ℤ
default_payment prod_mode p =
    if is_user_paying p then payment_status_invoiced else payment_status_confirmed
default_payment test_mode_dummy_treasure p = payment_status_confirmed
default_payment test_mode_no_treasure p = payment_status_confirmed

default_treasure : BrokerMode → ℤ
default_treasure prod_mode = treasure_generating_keys
default_treasure test_mode_dummy_treasure = treasure_generating_keys
default_treasure test_mode_no_treasure = treasure_in_data_map_complete

-- BeforeCreate
pub before_create : BrokerMode → PaymentMode → UploadSession → UploadSession
unfolding default_payment default_treasure
before_create mode payment u = record u {
  type = if eqb_ℤ u.type session_type_beta then u.type else session_type_alpha;
  all_data_ready = default_to all_data_not_ready u.all_data_ready;
  storage_method = default_to storage_method_badger u.storage_method;
  payment_status = default_to (default_payment mode payment) u.payment_status;
  treasure_status = default_to (default_treasure mode) u.treasure_status;
}

pub record Invoice : Type 0 where
  pub cost : ℕ
  pub eth_address : Option Bytes

-- GetInvoice
pub get_invoice : UploadSession → Invoice
get_invoice u = record {
  cost = u.total_cost;
  eth_address = if eqb_ℤ u.type session_type_alpha then u.eth_addr_alpha else u.eth_addr_beta;
}

-- GetPaymentStatus
pub get_payment_status : UploadSession → Bytes
get_payment_status u =
    if eqb_ℤ u.payment_status payment_status_invoiced
    then codes "invoiced"
    else if eqb_ℤ u.payment_status payment_status_pending
    then codes "pending"
    else if eqb_ℤ u.payment_status payment_status_confirmed
    then codes "confirmed"
    else codes "error"

-- GetTreasureMap: the list, and whether there is no error.
abbrev pub get_treasure_map : UploadSession → List TreasureMap × Bool
get_treasure_map u = elim u.treasure_idx_map [
  | null ↦ ([], true)
  | json ts ↦ (ts, true)
  | malformed ↦ ([], false)
]

-- GetTreasureIndexes
abbrev pub get_treasure_indexes : UploadSession → List ℤ × Bool
get_treasure_indexes u =
    let (ts, fine) = get_treasure_map u in (map (λ (t : TreasureMap). t.idx) ts, fine)

-- ===== src/Utils/Mode.antt =====
-- utils/mode.go: how the broker runs.
use brokernode.Prelude.{Bool, true, false, if◌then◌else◌}
use brokernode.Prelude.Bytes.{Bytes, codes, bytes_eq}

-- BrokerModeStatus, as ResetBrokerMode leaves it.
pub data BrokerMode : Type 0 where
  prod_mode test_mode_dummy_treasure test_mode_no_treasure : BrokerMode

-- OysterPaysStatus
pub data PaymentMode : Type 0 where
  user_is_paying oyster_is_paying : PaymentMode

-- PoWModeStatus
pub data PowMode : Type 0 where
  pow_enabled pow_disabled : PowMode

-- DataMapsStorageStatus
pub data StorageMode : Type 0 where
  data_maps_in_sql data_maps_in_badger : StorageMode

-- The four settings that the environment gives when the program starts.
pub record Modes : Type 0 where
  pub broker_mode : BrokerMode
  pub payment_mode : PaymentMode
  pub pow_mode : PowMode
  pub storage_mode : StorageMode

-- ResetPoWMode
pub reset_pow_mode : Bytes → PowMode
reset_pow_mode v = if bytes_eq v (codes "true") then pow_disabled else pow_enabled

-- ResetBrokerMode
pub reset_broker_mode : Bytes → BrokerMode
reset_broker_mode v =
    if bytes_eq v (codes "PROD_MODE")
    then prod_mode
    else if bytes_eq v (codes "TEST_MODE_NO_TREASURE")
    then test_mode_no_treasure
    else if bytes_eq v (codes "TEST_MODE_DUMMY_TREASURE")
    then test_mode_dummy_treasure
    else prod_mode

-- ResetPaymentMode
pub reset_payment_mode : Bytes → PaymentMode
reset_payment_mode v = if bytes_eq v (codes "true") then oyster_is_paying else user_is_paying

-- ResetDataMapStorageMode
pub reset_data_map_storage_mode : Bytes → StorageMode
reset_data_map_storage_mode v =
    if bytes_eq v (codes "true") then data_maps_in_badger else data_maps_in_sql

-- The init function: DISABLE_POW, MODE, OYSTER_PAYS and DATA_MAPS_IN_BADGER.
pub init_modes : Bytes → Bytes → Bytes → Bytes → Modes
init_modes disable_pow mode oyster_pays in_badger = record {
  pow_mode = reset_pow_mode disable_pow;
  broker_mode = reset_broker_mode mode;
  payment_mode = reset_payment_mode oyster_pays;
  storage_mode = reset_data_map_storage_mode in_badger;
}

abbrev pub is_prod : BrokerMode → Bool
is_prod prod_mode = true
is_prod _ = false

abbrev pub is_no_treasure : BrokerMode → Bool
is_no_treasure test_mode_no_treasure = true
is_no_treasure _ = false

abbrev pub is_user_paying : PaymentMode → Bool
is_user_paying user_is_paying = true
is_user_paying oyster_is_paying = false

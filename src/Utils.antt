-- ===== src/Utils.antt =====
-- Package oyster_utils (utils/): pure routines that the models and the jobs share.
pub mod Float
pub mod Indexes
pub mod Keys
pub mod Mode
pub mod Trytes

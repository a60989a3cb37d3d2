-- ===== src/Models.antt =====
-- Package models (models/): the rows of the tables and what the program does with them.
pub mod Session
pub mod MoveAll
pub mod DataMaps
pub mod Readiness
mod Tests

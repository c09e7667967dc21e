-- ===== src/Database.antt =====
-- The database that the services share: its tables (services/common/db/metadata.py) and a connection
-- that runs transactions on them.
pub mod Model
pub mod Rows
pub mod Assets
pub mod Users
pub mod Tx

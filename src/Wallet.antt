-- ===== src/Wallet.antt =====
-- The wallet service: the ledger of services/wallet/db.py, the reconciliation with the nodes
-- (services/wallet/reconciliation.py), and the payments of services/wallet/main.py.
pub mod Ledger
pub mod Addresses
pub mod Lightning
pub mod Reconcile
pub mod Books
pub mod Reservations
pub mod Service
pub mod Withdrawing
pub mod Pegout
pub mod History
pub mod Syncing
pub mod Yield
mod Tests

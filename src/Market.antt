-- ===== src/Market.antt =====
-- The marketplace service: the operations of
-- services/marketplace/db.py and the handlers of services/marketplace/main.py.
pub mod Fixture
pub mod Keys
pub mod Orders
pub mod Book
pub mod Balances
pub mod Treasury
pub mod Trading
pub mod Escrows
pub mod Disputes
pub mod Pending
pub mod Operation
pub mod Atomicity
pub mod Integrity
pub mod Placing
pub mod Paging
pub mod Tests

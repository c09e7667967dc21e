-- ===== src/Assets.antt =====
-- The tokenization service (services/tokenization): an asset from its submission to its token.
pub mod Evaluation
pub mod Store
pub mod Minting
pub mod Lifecycle
pub mod Listing
pub mod Service
mod Tests

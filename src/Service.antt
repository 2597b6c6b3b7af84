-- ===== src/Service.antt =====
-- The service (src/core/service/alpha_service.hpp and alpha_service.cpp).
mod State
pub mod KeyValues
pub mod Posts
pub mod Names
pub mod Transfers
pub mod Moderators
pub mod Network
pub mod Wallet
pub mod Profiles
pub mod ProfileFile
pub mod Csv
pub mod Communities
pub mod Configured
pub mod Commands
pub mod Published
pub mod Claims
pub mod Ingested
unfoldable pub use State.*

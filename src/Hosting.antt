-- ===== src/Hosting.antt =====
-- infrastructure/hosting_governance.py: offers and their search, purchase approvals, and sessions of
-- remote control. An error is HostingGovernanceError; times and new identifiers are parameters, and
-- so are SHA-256 and `str.upper`.
pub mod Offers
pub mod Purchase
pub mod Remote
pub mod Listing
pub mod Search
pub mod Held
pub mod Effects
pub mod Runs
pub mod Once
pub mod Sessions
mod Tests

-- ===== src/Roles.antt =====
-- src/roles: the roles of BIP-370 over one PSBT.
pub mod Creator
pub mod Constructor
pub mod Reachable
pub mod Counted
pub mod Updates
pub mod Handover
pub mod Updater
pub mod Signer
pub mod Signing
pub mod Applies
pub mod Signable
pub mod SignableSets
pub mod Running
pub mod Extractor
pub mod Extraction
pub mod Finalizer

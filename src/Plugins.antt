-- ===== src/Plugins.antt =====
-- The plugins of the contract families (exchange-contract/pdo/exchange/plugins and those of the other
-- families): the operations of the contracts, and the commands that are made of them.
pub mod Client
pub mod AssetType
pub mod Vetting
pub mod Issuer
pub mod Ledger
pub mod Storage
pub mod DataGuardian
pub mod TokenIssuer
pub mod TokenObject
pub mod DigitalAsset
pub mod Inference
pub mod GuardianService
pub mod Counter
pub mod Exchange

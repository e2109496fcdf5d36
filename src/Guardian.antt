-- ===== src/Guardian.antt =====
-- The guardian service: its stores, its messages and its request handlers.
pub mod World
pub mod Keys
pub mod Keystore
pub mod Registry
pub mod Secrets
pub mod Http
pub mod AddEndpoint
pub mod Info
pub mod Provision
pub mod ProcessCapability
pub mod Threads
pub mod Still
pub mod Client
pub mod Service

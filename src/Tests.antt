-- ===== src/Tests.antt =====
-- Concrete platforms, worlds and requests, and each theorem at an input of them.
mod Codec
mod Schema
mod Platform
mod Capability
mod Stores
mod Provisioning
mod Services
mod Transfers
mod Forms
mod Wallet
mod Notebooks
mod Exchanges
mod Contexts
mod Minting
mod Threads
mod Inference

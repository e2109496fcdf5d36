-- ===== src/Jupyter.antt =====
-- The parts of the notebook support that compute: paths of contract families, maps of keys, and forms.
pub mod Family
pub mod Keys
pub mod Notebooks
pub mod Wallet
pub mod Tokens
pub mod Widgets
pub mod Services
pub mod Groups

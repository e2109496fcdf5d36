-- ===== src/Platform.antt =====
-- What the guardian service calls and does not implement, and the laws of it.
mod Defs
pub mod Laws
pub use Defs.{Platform}

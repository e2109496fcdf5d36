-- ===== src/Files.antt =====
-- `send_file` and `recv_file` (guardian/common/utility.py): files kept in chunks.
pub mod Decimal
pub mod Store
pub mod Transfer

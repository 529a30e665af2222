-- ===== src/Data.antt =====
-- core/spakky-data/src/spakky/data: transactions and the aspect that runs a method within one.
pub mod Transaction
pub mod Atomicity
mod Tests

-- ===== src/Blocks/Refines.antt =====
-- dataservice_block_make.c does to the databases what `block_made` does to the ledger.
pub mod Insertion
pub mod Child
pub mod Fit
pub mod Make
pub mod Commit

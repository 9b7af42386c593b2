-- ===== src/Blocks.antt =====
-- Blocks. src/dataservice/dataservice_block_make.c adds a block to the chain of blocks in `block_db`, with
-- an index by height in `height_db`, moves its transactions from the queue to `txn_db`, and brings the
-- records of `artifact_db` up to date.
pub mod Certs
pub mod Insert
pub mod Children
pub mod Make
pub mod Chain
pub mod Ledger
pub mod Holds
pub mod Refines
pub mod Read
pub mod ReadLaws
pub mod RootLaws
pub mod Growth
pub mod Runs
pub mod Memory
pub mod Examples

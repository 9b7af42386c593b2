-- ===== src/Queue.antt =====
-- The transaction queue of the data service: a doubly linked list whose nodes are the values of the
-- database `pq_db` (include/agentd/dataservice/data.h), and the transactions that change it.
pub mod Chain
pub mod Submit
pub mod Read
pub mod Drop
pub mod Promote
pub mod SubmitLaws
pub mod DropLaws
pub mod PromoteLaws
pub mod ReadLaws
pub mod Spec
pub mod ZeroId
pub mod Examples
use v_c_agentd.Prelude.{ℕ, ◌+◌, ◌-◌, ◌^◌, Bool, true, false, Option, none, some, length}
use v_c_agentd.Wire.{Bytes}
use v_c_agentd.Status.{
  Status, Result, ok, err, out_of_memory, mdb_txn_begin_failure, mdb_put_failure,
}
use v_c_agentd.Lmdb.{Platform, Get, found, notfound, failed}

-- A UUID is the number that its sixteen bytes make.
abbrev pub Uuid : Type 0
Uuid = ℕ

-- sixteen bytes 0x00: the key of the node in front of the first transaction
abbrev pub begin_id : Uuid
begin_id = 0

-- sixteen bytes 0xFF: the key of the node behind the last transaction
abbrev pub end_id : Uuid
end_id = 2 ^ 128 - 1

-- `data_transaction_node_t`; the integers that are stored in network order are given by their value
pub record Node : Type 0 where
  pub key : Uuid
  pub prev : Uuid
  pub next : Uuid
  pub artifact_id : Uuid
  pub block_id : Uuid
  pub txn_cert_size : ℕ
  pub txn_state : ℕ

-- `sizeof(data_transaction_node_t)`: five ids, eight and four bytes, and padding to a multiple of eight
abbrev pub sizeof_node : ℕ
sizeof_node = 96

-- A stored value: a node and the bytes behind it, or a value of fewer bytes than a node has.
pub data Value : Type 0 where
  whole : Node → Bytes → Value
  short : ℕ → Value

-- `mv_size`
abbrev pub size : Value → ℕ
size (whole n cert) = sizeof_node + length cert
size (short n) = n

-- enum data_transaction_node_state
abbrev pub state_submitted : ℕ
state_submitted = 1

abbrev pub state_attested : ℕ
state_attested = 2

-- ===== src/Database.antt =====
-- The databases of the data service (`dataservice_database_details_t` in
-- src/dataservice/dataservice_internal.h) and what is stored in them (include/agentd/dataservice/data.h).
-- One LMDB transaction sees all of them.
pub mod Reliable
pub mod Frame
use v_c_agentd.Prelude.{ℕ, ◌+◌, Bool, Option, length}
use v_c_agentd.Wire.{Bytes}
use v_c_agentd.Lmdb.{Platform, Get, Del}
use v_c_agentd.Queue.{Uuid, Value}

pub data Name : Type 0 where
  block_db height_db txn_db artifact_db pq_db global_db : Name

-- the handle of a database
abbrev pub handle : Name → ℕ
handle block_db = 0
handle height_db = 1
handle txn_db = 2
handle artifact_db = 3
handle pq_db = 4
handle global_db = 5

-- `data_block_node_t`; the integers that are stored in network order are given by their value
pub record BlockNode : Type 0 where
  pub key : Uuid
  pub prev : Uuid
  pub next : Uuid
  pub first_transaction_id : Uuid
  pub block_height : ℕ
  pub block_cert_size : ℕ

-- `sizeof(data_block_node_t)`
abbrev pub sizeof_block_node : ℕ
sizeof_block_node = 80

-- a node and the bytes behind it, or a value of fewer bytes than a node has
pub data BlockValue : Type 0 where
  block_whole : BlockNode → Bytes → BlockValue
  block_short : ℕ → BlockValue

-- `data_artifact_record_t`
pub record ArtifactRecord : Type 0 where
  pub key : Uuid
  pub txn_first : Uuid
  pub txn_latest : Uuid
  pub height_first : ℕ
  pub height_latest : ℕ
  pub state_latest : ℕ

-- a record, or a value of another size
pub data ArtifactValue : Type 0 where
  artifact_whole : ArtifactRecord → ArtifactValue
  artifact_missized : ℕ → ArtifactValue

-- a block id, or a value that has not sixteen bytes
pub data HeightValue : Type 0 where
  height_whole : Uuid → HeightValue
  height_missized : ℕ → HeightValue

-- The values of a database. The keys are ids, but in `height_db` they are heights and in
-- `global_db` the numbers of settings.
abbrev pub ValueOf : Name → Type 0
ValueOf block_db = BlockValue
ValueOf height_db = HeightValue
ValueOf txn_db = Value
ValueOf artifact_db = ArtifactValue
ValueOf pq_db = Value
ValueOf global_db = Bytes

-- LMDB and `malloc`, as in `Platform`, where the calls name a database.
pub record Environment : Type 1 where
  pub T : Type 0
  pub begin : T → Option T
  pub commit : T → T → Bool × T
  pub abort : T → T → T
  pub get : (d : Name) → T → ℕ → Get (ValueOf d)
  pub put : (d : Name) → T → ℕ → ValueOf d → Bool → Option T
  pub del : (d : Name) → T → ℕ → Del T
  pub malloc : ℕ → Bool

-- one database of the environment
abbrev pub on : Environment → (d : Name) → Platform (ValueOf d)
on e d = record {
  T = e.T;
  begin = e.begin;
  commit = e.commit;
  abort = e.abort;
  get = e.get d;
  put = e.put d;
  del = e.del d;
  malloc = e.malloc;
}

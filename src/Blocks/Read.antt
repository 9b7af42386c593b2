-- ===== src/Blocks/Read.antt =====
-- The reads of the block databases: dataservice_block_get.c, dataservice_latest_block_id_get.c,
-- dataservice_block_id_by_height_get.c, dataservice_canonized_transaction_get.c,
-- dataservice_block_transaction_get.c and dataservice_artifact_get.c of src/dataservice/. The store is that
-- of the parent transaction if one is given, and of the environment otherwise.
use v_c_agentd.Prelude.{
  ℕ, ◌+◌, ◌-◌, Bool, true, false, none, some, [], ◌∷◌, ◌==◌, leb, if◌then◌else◌, length,
}
use v_c_agentd.Wire.{Bytes}
use v_c_agentd.Status.{
  Result, ok, err, not_authorized, not_found, mdb_txn_begin_failure, mdb_get_failure,
  invalid_stored_block_node, invalid_index_entry, invalid_artifact_node_size, out_of_memory,
}
use v_c_agentd.Bitcap.{Caps, isset}
use v_c_agentd.Lmdb.{Get, found, notfound, failed}
use v_c_agentd.Queue.{Uuid, begin_id, end_id, Node}
use v_c_agentd.Queue.Read.{query}
use v_c_agentd.Database.{
  block_db, height_db, txn_db, artifact_db, BlockNode, sizeof_block_node, BlockValue, block_whole,
  block_short, ArtifactRecord, artifact_whole, artifact_missized, height_whole, height_missized,
  Environment, on,
}

-- DATASERVICE_API_CAP_APP_...
abbrev pub cap_block_id_latest_read : ℕ
cap_block_id_latest_read = 9

abbrev pub cap_block_read : ℕ
cap_block_read = 13

abbrev pub cap_transaction_read : ℕ
cap_transaction_read = 14

abbrev pub cap_artifact_read : ℕ
cap_artifact_read = 20

abbrev pub cap_block_id_by_height_read : ℕ
cap_block_id_by_height_read = 22

module _ (e : Environment) where
  -- With the capability, a query in the parent transaction or in one of its own.
  unfoldable pub reading : {A : Type 0} → ℕ → Bool → Caps → (e.T → Result A) → e.T → Result A
  reading cap parent childcaps q store =
      if isset childcaps cap
      then (if parent
          then q store
          else elim (e.begin store) [ none ↦ err mdb_txn_begin_failure | some txn ↦ q txn ])
      else err not_authorized

  -- The checks of a block that is read, and its copy if there is no parent transaction. The start node
  -- has no certificate, and any other block has one.
  unfoldable pub check_block : Bool → Bool → BlockValue → Result (BlockNode × Bytes)
  check_block parent skip_cert (block_short n) = err invalid_stored_block_node
  check_block parent skip_cert (block_whole n cert) =
      if (if skip_cert then false else leb (sizeof_block_node + length cert) sizeof_block_node)
      then err invalid_stored_block_node
      else if sizeof_block_node + length cert - sizeof_block_node == n.block_cert_size
      then (if parent
          then ok (n, cert)
          else if e.malloc (length cert)
          then ok (n, cert)
          else err out_of_memory)
      else err invalid_stored_block_node

  unfoldable pub decode_block : Bool → Bool → Get BlockValue → Result (BlockNode × Bytes)
  unfolding check_block
  decode_block parent skip_cert notfound = err not_found
  decode_block parent skip_cert (failed n) = err mdb_get_failure
  decode_block parent skip_cert (found v) = check_block parent skip_cert v

  -- the root block that is not found: the start node is read in its place
  unfoldable pub query_block : Uuid → Bool → Uuid → e.T → Result (BlockNode × Bytes)
  unfolding decode_block
  query_block root parent block_id t = elim (e.get block_db t block_id) [
    | notfound ↦
        if block_id == root
        then decode_block parent true (e.get block_db t begin_id)
        else err not_found
    | found v ↦ decode_block parent false (found v)
    | failed n ↦ err mdb_get_failure
  ]

  -- dataservice_block_get
  unfoldable pub block_get : Uuid → Bool → Caps → Uuid → e.T → Result (BlockNode × Bytes)
  block_get root parent childcaps block_id =
      reading cap_block_read parent childcaps (query_block root parent block_id)

  unfoldable pub query_latest : Uuid → e.T → Result Uuid
  query_latest root t = elim (e.get block_db t end_id) [
    | notfound ↦ ok root
    | failed n ↦ err mdb_get_failure
    | found (block_short n) ↦ err invalid_index_entry
    | found (block_whole n []) ↦ ok n.prev
    | found (block_whole n (b ∷ bs)) ↦ err invalid_index_entry
  ]

  -- dataservice_latest_block_id_get
  unfoldable pub latest_block_id_get : Uuid → Bool → Caps → e.T → Result Uuid
  latest_block_id_get root parent childcaps =
      reading cap_block_id_latest_read parent childcaps (query_latest root)

  unfoldable pub query_height : ℕ → e.T → Result Uuid
  query_height height t = elim (e.get height_db t height) [
    | notfound ↦ err not_found
    | failed n ↦ err mdb_get_failure
    | found (height_whole id) ↦ ok id
    | found (height_missized n) ↦ err invalid_index_entry
  ]

  -- dataservice_block_id_by_height_get
  unfoldable pub block_id_by_height_get : Bool → Caps → ℕ → e.T → Result Uuid
  block_id_by_height_get parent childcaps height =
      reading cap_block_id_by_height_read parent childcaps (query_height height)

  unfoldable pub query_artifact : Uuid → e.T → Result ArtifactRecord
  query_artifact artifact_id t = elim (e.get artifact_db t artifact_id) [
    | notfound ↦ err not_found
    | failed n ↦ err mdb_get_failure
    | found (artifact_whole r) ↦ ok r
    | found (artifact_missized n) ↦ err invalid_artifact_node_size
  ]

  -- dataservice_artifact_get
  unfoldable pub artifact_get : Bool → Caps → Uuid → e.T → Result ArtifactRecord
  artifact_get parent childcaps artifact_id =
      reading cap_artifact_read parent childcaps (query_artifact artifact_id)

  -- dataservice_canonized_transaction_get
  unfoldable pub canonized_transaction_get : Bool → Caps → Uuid → e.T → Result (Node × Bytes)
  canonized_transaction_get parent childcaps txn_id =
      reading cap_transaction_read parent childcaps (query (on e txn_db) parent txn_id)

  -- dataservice_block_transaction_get
  unfoldable pub block_transaction_get : Bool → Caps → Uuid → e.T → Result (Node × Bytes)
  block_transaction_get parent childcaps txn_id =
      reading cap_transaction_read parent childcaps (query (on e txn_db) parent txn_id)

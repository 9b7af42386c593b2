-- ===== src/Blocks/Children.antt =====
-- dataservice_block_make.c: what is done with each wrapped transaction of a block.
use v_c_agentd.Prelude.{ℕ, ◌+◌, true, false, List, [], ◌∷◌, ◌==◌, if◌then◌else◌, length}
use v_c_agentd.Wire.{Bytes}
use v_c_agentd.Status.{Result, ok, err, mdb_get_failure, invalid_artifact_node_size}
use v_c_agentd.Lmdb.{found, notfound, failed}
use v_c_agentd.Lmdb.Cmd.{Cmd, pure, ◌>>=◌, ◌>>◌, allocate, put}
use v_c_agentd.Queue.{Uuid, begin_id, end_id, Node, sizeof_node, whole, short, size}
use v_c_agentd.Queue.Drop.{transaction_drop_internal}
use v_c_agentd.Database.{
  txn_db, artifact_db, pq_db, ArtifactRecord, artifact_whole, artifact_missized, Environment, on,
}
use v_c_agentd.Blocks.Certs.{Certificates, Child, child_fields}

-- DATASERVICE_TRANSACTION_NODE_STATE_CANONIZED
abbrev pub state_canonized : ℕ
state_canonized = 3

-- the node of a transaction of a block
abbrev pub txn_rec : Child → Uuid → Bytes → Node
txn_rec child block_id txn_cert = record {
  key = child.transaction_id;
  prev = child.prev_transaction_id;
  next = end_id;
  artifact_id = child.artifact;
  block_id = block_id;
  txn_cert_size = length txn_cert;
  txn_state = state_canonized;
}

-- the record of an artifact with no earlier transaction, and that of one that has a record
abbrev pub new_artifact : Child → ℕ → ArtifactRecord
new_artifact child height = record {
  key = child.artifact;
  txn_first = child.transaction_id;
  txn_latest = child.transaction_id;
  height_first = height;
  height_latest = height;
  state_latest = child.state;
}

abbrev pub later_artifact : Child → ℕ → ArtifactRecord → ArtifactRecord
later_artifact child height r = record r {
  txn_latest = child.transaction_id;
  height_latest = height;
  state_latest = child.state;
}

abbrev pub lift : {T A : Type 0} → Result A → Cmd T A
lift r t = (r, t)

module _ (e : Environment) where
  -- the read of the previous transaction of the artifact
  unfoldable pub read_prev_txn : Uuid → Cmd e.T (Node × Bytes)
  read_prev_txn txn_id t = elim (e.get txn_db t txn_id) [
    | found (whole n cert) ↦ (ok (n, cert), t)
    | found (short n) ↦ (err mdb_get_failure, t)
    | notfound ↦ (err mdb_get_failure, t)
    | failed n ↦ (err mdb_get_failure, t)
  ]

  -- dataservice_block_make_update_prev_txn
  unfoldable pub update_prev_txn : Uuid → Uuid → Cmd e.T (Unit {0})
  update_prev_txn txn_id next_txn_id = do
    (rec, cert) ← read_prev_txn txn_id
    allocate (on e txn_db) (size (whole rec cert))
    put (on e txn_db) false txn_id (whole (record rec { next = next_txn_id }) cert)

  -- dataservice_block_make_update_artifact
  unfoldable pub update_artifact : Child → ℕ → Cmd e.T (Unit {0})
  update_artifact child height t = elim (e.get artifact_db t child.artifact) [
    | notfound ↦
        put (on e artifact_db) true child.artifact (artifact_whole (new_artifact child height)) t
    | found (artifact_whole r) ↦
        put (on e artifact_db) false r.key (artifact_whole (later_artifact child height r)) t
    | found (artifact_missized n) ↦ (err invalid_artifact_node_size, t)
    | failed n ↦ (err mdb_get_failure, t)
  ]

  -- the changes of dataservice_block_make_process_child
  unfoldable pub canonize_child : ℕ → Uuid → Bytes → Child → Cmd e.T (Unit {0})
  canonize_child height block_id txn_cert child = do
    allocate (on e txn_db) (sizeof_node + length txn_cert)
    put (on e txn_db) true child.transaction_id (whole (txn_rec child block_id txn_cert) txn_cert)
    transaction_drop_internal (on e pq_db) true child.transaction_id
    if child.prev_transaction_id == begin_id
        then pure tt
        else update_prev_txn child.prev_transaction_id child.transaction_id
    update_artifact child height

  -- dataservice_block_make_process_child
  unfoldable pub process_child : Certificates → ℕ → Uuid → Bytes → Cmd e.T (Unit {0})
  process_child c height block_id txn_cert =
      lift (child_fields c txn_cert) >>= λ child. canonize_child height block_id txn_cert child

  -- the loop over the wrapped transactions
  unfoldable pub process_children : Certificates → ℕ → Uuid → List Bytes → Cmd e.T (Unit {0})
  process_children c height block_id [] = pure tt
  process_children c height block_id (cert ∷ certs) =
      process_child c height block_id cert >> process_children c height block_id certs

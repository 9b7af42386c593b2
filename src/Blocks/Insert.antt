-- ===== src/Blocks/Insert.antt =====
-- dataservice_block_make.c: the end node, and the insertion of the block between it and the last block.
use v_c_agentd.Prelude.{
  ℕ, ◌+◌, true, false, Option, none, some, [], leb, if◌then◌else◌, length, take,
}
use v_c_agentd.Wire.{Bytes}
use v_c_agentd.Status.{ok, err, invalid_stored_block_node, mdb_get_failure, fault}
use v_c_agentd.Lmdb.{found, notfound, failed}
use v_c_agentd.Lmdb.Cmd.{Cmd, ◌>>=◌, ◌>>◌, allocate, put}
use v_c_agentd.Queue.{Uuid, begin_id, end_id}
use v_c_agentd.Database.{
  block_db, height_db, BlockNode, sizeof_block_node, block_whole, block_short, height_whole,
  Environment, on,
}

-- the sentinels of a chain that holds one block
abbrev pub start_block : Uuid → BlockNode
start_block block_id = record {
  key = 0;
  prev = 0;
  next = block_id;
  first_transaction_id = 0;
  block_height = 0;
  block_cert_size = 0;
}

abbrev pub end_block : Uuid → ℕ → BlockNode
end_block block_id height = record {
  key = end_id;
  prev = block_id;
  next = end_id;
  first_transaction_id = 0;
  block_height = height;
  block_cert_size = 0;
}

-- the node of the new block
abbrev pub blocknode : Uuid → Uuid → Uuid → ℕ → Bytes → BlockNode
blocknode block_id block_prev_id first_child_txn_id block_height block_data = record {
  key = block_id;
  prev = block_prev_id;
  next = end_id;
  first_transaction_id = first_child_txn_id;
  block_height = block_height;
  block_cert_size = length block_data;
}

module _ (e : Environment) where
  -- `none` if the chain is not initialized
  unfoldable pub query_end_node : Cmd e.T (Option BlockNode)
  query_end_node t = elim (e.get block_db t end_id) [
    | notfound ↦ (ok none, t)
    | failed n ↦ (err mdb_get_failure, t)
    | found (block_whole n cert) ↦ (ok (some n), t)
    | found (block_short n) ↦ (err invalid_stored_block_node, t)
  ]

  -- dataservice_make_block_insert_block
  unfoldable pub insert_block : Uuid → Uuid → Uuid → ℕ → Bytes → Cmd e.T (Unit {0})
  insert_block block_id block_prev_id first_child_txn_id block_height block_data = do
    allocate (on e block_db) (sizeof_block_node + length block_data)
    put (on e block_db) true block_id (
        block_whole (blocknode block_id block_prev_id first_child_txn_id block_height block_data)
          block_data)
    put (on e height_db) true block_height (height_whole block_id)

  -- dataservice_block_make_create_queue
  unfoldable pub create_block_queue : Uuid → ℕ → Cmd e.T (Unit {0})
  create_block_queue block_id height = do
    put (on e block_db) false begin_id (block_whole (start_block block_id) [])
    put (on e block_db) false end_id (block_whole (end_block block_id height) [])

  -- The read of the previous block. The size of its value is not checked before its header is read.
  unfoldable pub read_prev_block : Uuid → Cmd e.T (BlockNode × Bytes)
  read_prev_block prev t = elim (e.get block_db t prev) [
    | notfound ↦ (err mdb_get_failure, t)
    | failed n ↦ (err mdb_get_failure, t)
    | found (block_short n) ↦ (err fault, t)
    | found (block_whole n cert) ↦ (ok (n, cert), t)
  ]

  -- The copy of as many bytes as the header names: a read behind the value is a fault.
  unfoldable pub copy_prev_block : BlockNode → Bytes → Cmd e.T Bytes
  copy_prev_block n cert t =
      if leb n.block_cert_size (length cert)
      then (ok (take n.block_cert_size cert), t)
      else (err fault, t)

  -- dataservice_block_make_update_prev
  unfoldable pub update_prev_block : Uuid → Uuid → Cmd e.T (Unit {0})
  update_prev_block block_id prev = do
    (n, stored) ← read_prev_block prev
    allocate (on e block_db) (sizeof_block_node + n.block_cert_size)
    cert ← copy_prev_block n stored
    put (on e block_db) false prev (block_whole (record n { next = block_id }) cert)

  -- dataservice_block_make_update_end
  unfoldable pub update_end_block : Uuid → ℕ → BlockNode → Cmd e.T (Unit {0})
  update_end_block block_id height curr_end =
      put (on e block_db) false curr_end.key
        (block_whole (record curr_end { prev = block_id; block_height = height }) [])

  -- the links of the nodes round the new one
  unfoldable pub link_block : Uuid → ℕ → Option BlockNode → Cmd e.T (Unit {0})
  link_block block_id height none = create_block_queue block_id height
  link_block block_id height (some end_node) =
      update_prev_block block_id end_node.prev >> update_end_block block_id height end_node

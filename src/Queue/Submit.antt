-- ===== src/Queue/Submit.antt =====
-- src/dataservice/dataservice_transaction_submit.c
use v_c_agentd.Prelude.{
  ℕ, ◌+◌, Bool, true, false, Option, none, some, leb, if◌then◌else◌, length, take, [],
}
use v_c_agentd.Wire.{Bytes}
use v_c_agentd.Status.{
  ok, err, not_authorized, invalid_stored_transaction_node, mdb_get_failure, fault,
}
use v_c_agentd.Bitcap.{Caps, isset}
use v_c_agentd.Lmdb.{Platform, found, notfound, failed}
use v_c_agentd.Queue.{
  Uuid, begin_id, end_id, Node, sizeof_node, Value, whole, short, state_submitted, state_attested,
}
use v_c_agentd.Lmdb.Cmd.{Cmd, pure, fail, ◌>>=◌, ◌>>◌, allocate, put, in_transaction}

-- DATASERVICE_API_CAP_APP_PQ_TRANSACTION_SUBMIT
abbrev pub cap_pq_transaction_submit : ℕ
cap_pq_transaction_submit = 15

-- the sentinels of a queue that holds one transaction
abbrev pub start_node : Uuid → Node
start_node txn_id = record {
  key = 0;
  prev = 0;
  next = txn_id;
  artifact_id = 0;
  block_id = 0;
  txn_cert_size = 0;
  txn_state = 0;
}

abbrev pub end_node : Uuid → Node
end_node txn_id = record {
  key = end_id;
  prev = txn_id;
  next = end_id;
  artifact_id = 0;
  block_id = 0;
  txn_cert_size = 0;
  txn_state = 0;
}

module _ (p : Platform Value) where
  -- the read of the end node: `none` if the queue is not initialized
  unfoldable pub read_end : Cmd p.T (Option Node)
  read_end t = elim (p.get t end_id) [
    | notfound ↦ (ok none, t)
    | failed n ↦ (err mdb_get_failure, t)
    | found (whole n cert) ↦ (ok (some n), t)
    | found (short n) ↦ (err invalid_stored_transaction_node, t)
  ]

  -- the node that is inserted; `ATTESTATION` is a build option
  abbrev pub newnode : Bool → Uuid → Uuid → Bytes → Uuid → Node
  newnode attestation txn_id artifact_id txn_bytes prev = record {
    key = txn_id;
    prev = prev;
    next = end_id;
    artifact_id = artifact_id;
    block_id = 0;
    txn_cert_size = length txn_bytes;
    txn_state = if attestation then state_submitted else state_attested;
  }

  -- dataservice_transaction_submit_create_queue
  unfoldable pub create_queue : Uuid → Cmd p.T (Unit {0})
  create_queue txn_id = do
    put p false begin_id (whole (start_node txn_id) [])
    put p false end_id (whole (end_node txn_id) [])
    pure tt

  -- The read of the previous node. The size of its value is not checked before its header is read.
  unfoldable pub read_prev : Uuid → Cmd p.T (Node × Bytes)
  read_prev prev t = elim (p.get t prev) [
    | notfound ↦ (err mdb_get_failure, t)
    | failed n ↦ (err mdb_get_failure, t)
    | found (short n) ↦ (err fault, t)
    | found (whole n cert) ↦ (ok (n, cert), t)
  ]

  -- The copy of as many bytes as the header names: a read behind the value is a fault.
  unfoldable pub copy_prev : Node → Bytes → Cmd p.T Bytes
  copy_prev n cert t =
      if leb n.txn_cert_size (length cert)
      then (ok (take n.txn_cert_size cert), t)
      else (err fault, t)

  -- dataservice_transaction_submit_update_prev
  unfoldable pub update_prev : Uuid → Uuid → Cmd p.T (Unit {0})
  update_prev txn_id prev = do
    (n, stored) ← read_prev prev
    allocate p (sizeof_node + n.txn_cert_size)
    cert ← copy_prev n stored
    put p false prev (whole (record n { next = txn_id }) cert)

  -- dataservice_transaction_submit_update_end
  unfoldable pub update_end : Uuid → Node → Cmd p.T (Unit {0})
  update_end txn_id curr_end =
      put p false curr_end.key (whole (record curr_end { prev = txn_id }) [])

  -- the links of the nodes round the new one
  unfoldable pub link : Uuid → Option Node → Cmd p.T (Unit {0})
  link txn_id none = create_queue txn_id
  link txn_id (some curr_end) = update_prev txn_id curr_end.prev >> update_end txn_id curr_end

  abbrev pub prev_of_end : Option Node → Uuid
  prev_of_end none = begin_id
  prev_of_end (some curr_end) = curr_end.prev

  unfoldable pub submit_in : Bool → Uuid → Uuid → Bytes → Cmd p.T (Unit {0})
  submit_in attestation txn_id artifact_id txn_bytes = do
    curr_end ← read_end
    allocate p (sizeof_node + length txn_bytes)
    put p true txn_id
        (whole (newnode attestation txn_id artifact_id txn_bytes (prev_of_end curr_end)) txn_bytes)
    link txn_id curr_end

  -- dataservice_transaction_submit, on the store of the parent transaction, or of the environment if
  -- there is none
  unfoldable pub transaction_submit : Bool → Caps → Uuid → Uuid → Bytes → Cmd p.T (Unit {0})
  transaction_submit attestation childcaps txn_id artifact_id txn_bytes =
      if isset childcaps cap_pq_transaction_submit
      then in_transaction p (submit_in attestation txn_id artifact_id txn_bytes)
      else fail not_authorized

-- ===== src/Queue/Read.antt =====
-- src/dataservice/dataservice_transaction_get.c and dataservice_transaction_get_first.c. The store is
-- that of the parent transaction if one is given, and of the environment otherwise.
use v_c_agentd.Prelude.{
  ℕ, ◌+◌, ◌-◌, Bool, true, false, none, some, ◌==◌, leb, if◌then◌else◌, length,
}
use v_c_agentd.Wire.{Bytes}
use v_c_agentd.Status.{
  Result, ok, err, not_authorized, not_found, mdb_txn_begin_failure, mdb_get_failure,
  invalid_stored_transaction_node, out_of_memory,
}
use v_c_agentd.Bitcap.{Caps, isset}
use v_c_agentd.Lmdb.{Platform, found, notfound, failed}
use v_c_agentd.Queue.{Uuid, begin_id, end_id, Node, sizeof_node, Value, whole, short}

-- DATASERVICE_API_CAP_APP_PQ_TRANSACTION_FIRST_READ
abbrev pub cap_pq_transaction_first_read : ℕ
cap_pq_transaction_first_read = 17

-- DATASERVICE_API_CAP_APP_PQ_TRANSACTION_READ
abbrev pub cap_pq_transaction_read : ℕ
cap_pq_transaction_read = 18

module _ (p : Platform Value) where
  -- The checks of a value that is read, and the copy of its certificate if there is no parent
  -- transaction.
  unfoldable pub check_node : Bool → Value → Result (Node × Bytes)
  check_node parent (short n) = err invalid_stored_transaction_node
  check_node parent (whole n cert) =
      if leb (sizeof_node + length cert) sizeof_node
      then err invalid_stored_transaction_node
      else if sizeof_node + length cert - sizeof_node == n.txn_cert_size
      then (if parent
          then ok (n, cert)
          else if p.malloc (length cert)
          then ok (n, cert)
          else err out_of_memory)
      else err invalid_stored_transaction_node

  -- the query of one entry
  unfoldable pub query : Bool → Uuid → p.T → Result (Node × Bytes)
  unfolding check_node
  query parent key t = elim (p.get t key) [
    | notfound ↦ err not_found
    | failed n ↦ err mdb_get_failure
    | found v ↦ check_node parent v
  ]

  -- Without a parent, the query runs in a transaction of its own.
  unfoldable pub query_in : Bool → Uuid → p.T → Result (Node × Bytes)
  unfolding query
  query_in true key store = query true key store
  query_in false key store = elim (p.begin store) [
    | none ↦ err mdb_txn_begin_failure
    | some txn ↦ query false key txn
  ]

  -- dataservice_transaction_get
  unfoldable pub transaction_get : Bool → Caps → Uuid → p.T → Result (Node × Bytes)
  unfolding query_in
  transaction_get parent childcaps txn_id store =
      if isset childcaps cap_pq_transaction_read
      then query_in parent txn_id store
      else err not_authorized

  -- the read of the start node: the key of the first transaction
  unfoldable pub read_first : p.T → Result Uuid
  read_first t = elim (p.get t begin_id) [
    | notfound ↦ err not_found
    | failed n ↦ err mdb_get_failure
    | found (short n) ↦ err invalid_stored_transaction_node
    | found (whole first_node cert) ↦
        if first_node.next == end_id then err not_found else ok first_node.next
  ]

  abbrev pub then_query : Bool → p.T → Result Uuid → Result (Node × Bytes)
  then_query parent store (ok key) = query_in parent key store
  then_query parent store (err e) = err e

  -- dataservice_transaction_get_first: the start node is read in a transaction that is then aborted
  unfoldable pub transaction_get_first : Bool → Caps → p.T → Result (Node × Bytes)
  unfolding read_first query_in
  transaction_get_first parent childcaps store =
      if isset childcaps cap_pq_transaction_first_read
      then elim (p.begin store) [
        | none ↦ err mdb_txn_begin_failure
        | some txn ↦ then_query parent store (read_first txn)
      ]
      else err not_authorized
